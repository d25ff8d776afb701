-- ===== src/App/Shutdown/Process/Counting.antt =====
-- app/shutdown/shutdown.go: how many steps a shutdown has left.
use primordium.Base.{
  ℕ, suc, ◌+◌, ◌≤◌, ◌<◌, ◌==◌, ◌≡◌, refl, true, false, Bool, List, [], ◌∷◌, ◌++◌, length,
  length-append, arith,
}
use primordium.App.Shutdown.Process.{
  Caller, outside, inside, returned, Phase, listens, received, cancelled, selects, exited, update,
  Once, unused, taken, running, calling, used, gone, Process, Step, registers, receives, cancels,
  starts, finds_done, times_out, enters, waits, copies, calls, handler_returns, finishes, leaves,
  ends,
}

-- Bounds on the steps of the shutdown that are left, by its parts.
abbrev pub phase_left : Phase → ℕ
phase_left listens = 4
phase_left (received sig) = 3
phase_left (cancelled sig) = 2
phase_left (selects sig) = 1
phase_left (exited sig status) = 0
phase_left gone = 0

abbrev pub caller_left : Caller → ℕ
caller_left outside = 2
caller_left inside = 1
caller_left returned = 0

pub caller_left-le : (c : Caller) → caller_left c ≤ 2
caller_left-le outside = omega arith
caller_left-le c = omega arith

-- A thread that goes in, or comes out, leaves the count of thread 0 as it was or makes it smaller.
goes_in :
    (callers : ℕ → Caller) (i : ℕ)
    → callers i ≡ outside
    → (caller_left (update callers i inside 0) ≤ caller_left (callers 0))
      × ((i == 0) ≡ true → caller_left (update callers i inside 0) < caller_left (callers 0))
goes_in callers i h = ground arith

comes_out :
    (callers : ℕ → Caller) (i : ℕ)
    → callers i ≡ inside
    → (caller_left (update callers i returned 0) ≤ caller_left (callers 0))
      × ((i == 0) ≡ true → caller_left (update callers i returned 0) < caller_left (callers 0))
comes_out callers i h = ground arith

module _ {Handler : Type 0} where
  -- A step of the shutdown itself: of the thread of `SetDefaults`, of thread 0, or of the thread in the
  -- function of `shutdownOnce`, but for the return of a handler, which may never come.
  abbrev pub own : {s t : Process Handler} → Step Handler s t → Bool
  own (registers h a) = false
  own (receives sig a) = false
  own (cancels a) = true
  own (starts a) = true
  own (finds_done a b) = true
  own (times_out a) = false
  own (enters i a b) = true
  own (waits i a b) = i == 0
  own (copies a b) = true
  own (calls a b c) = true
  own (handler_returns a b) = false
  own (ends a) = false
  own (finishes a b) = true
  own (leaves i a b c) = i == 0

  -- The timer ends, or the process for another reason.
  abbrev pub cut_short : {s t : Process Handler} → Step Handler s t → Bool
  cut_short (times_out a) = true
  cut_short (ends a) = true
  cut_short st = false

  -- Steps that do not cut the shutdown short, of which so many are steps of the shutdown itself.
  pub data Run (s : Process Handler) : ℕ → Process Handler → Type 0 where
    still : Run s 0 s
    own_step :
        {k : ℕ} {t u : Process Handler}
        → Run s k t
        → (st : Step Handler t u) → own st ≡ true
        → Run s (suc k) u
    step_beside :
        {k : ℕ} {t u : Process Handler}
        → Run s k t
        → (st : Step Handler t u) → own st ≡ false
        → cut_short st ≡ false
        → Run s k u

  -- The thread that runs the handlers has no more of them to run than it copied, and copied no more
  -- than are registered.
  abbrev pub Fits : Once Handler → ℕ → Type 0
  Fits (running i hs left) n = (left ≤ length hs) × (length hs ≤ n)
  Fits (calling i hs left) n = (left ≤ length hs) × (length hs ≤ n)
  Fits once n = Unit {0}

  -- And by the state of `shutdownOnce`, with so many handlers registered.
  abbrev pub once_left : Once Handler → ℕ → ℕ
  once_left unused n = n + 3
  once_left (taken i) n = n + 2
  once_left (running i hs left) n = left + 1
  once_left (calling i hs left) n = left + 1
  once_left used n = 0

  abbrev pub steps_left : Process Handler → ℕ
  steps_left s =
      phase_left s.phase + caller_left (s.callers 0) + once_left s.once (length s.handlers)

  pub own-less :
      {s t : Process Handler} (st : Step Handler s t)
      → own st ≡ true
      → (steps_left t < steps_left s) × (length t.handlers ≡ length s.handlers)
  own-less (registers h a) o = cc
  own-less (receives sig a) o = cc
  own-less (times_out a) o = cc
  own-less (handler_returns a b) o = cc
  own-less (ends a) o = cc
  own-less (cancels a) o = (rw a (omega arith), refl)
  own-less (starts a) o = (rw a (omega arith), refl)
  own-less (finds_done a b) o = (rw a (omega arith), refl)
  own-less {s} (enters i a b) o = (rw b (omega (arith, (goes_in s.callers i a.1).0)), refl)
  own-less {s} (waits i a b) o = (omega (arith, (goes_in s.callers i a.1).1 o), refl)
  own-less (copies a b) o = (rw b (omega arith), refl)
  own-less (calls a b c) o = (rw b (omega arith), refl)
  own-less (finishes a b) o = (rw b (omega arith), refl)
  own-less {s} (leaves i a b c) o = (omega (arith, (comes_out s.callers i b).1 o), refl)

  once_left-suc : (once : Once Handler) (n : ℕ) → once_left once (suc n) ≤ once_left once n + 1
  once_left-suc unused n = omega arith
  once_left-suc once n = omega arith

  pub length-snoc : (hs : List Handler) (h : Handler) → length (hs ++ h ∷ []) ≡ suc (length hs)
  length-snoc hs h = omega (arith, length-append hs (h ∷ []))

  -- Any other step but the timer adds no more than it registers.
  pub beside-le :
      {s t : Process Handler} (st : Step Handler s t)
      → own st ≡ false
      → cut_short st ≡ false
      → steps_left t + length s.handlers ≤ steps_left s + length t.handlers
  beside-le {s} (registers h a) o d =
      rw (length-snoc s.handlers h) (omega (arith, once_left-suc s.once (length s.handlers)))
  beside-le (receives sig a) o d = rw a (omega arith)
  beside-le (times_out a) o d = cc
  beside-le (ends a) o d = cc
  beside-le (handler_returns a b) o d = rw b (omega arith)
  beside-le {s} (waits i a b) o d = omega (arith, (goes_in s.callers i a.1).0)
  beside-le {s} (leaves i a b c) o d = omega (arith, (comes_out s.callers i b).0)
  beside-le st o d = ground arith
