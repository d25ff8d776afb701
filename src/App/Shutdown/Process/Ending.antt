-- ===== src/App/Shutdown/Process/Ending.antt =====
-- app/shutdown/shutdown.go: after a signal only a handler that does not return keeps the process from
-- its exit.
use mathlib.Core.Path.{subst}
use primordium.Base.{
  ℕ, zero, suc, ◌+◌, ◌≤◌, ◌<◌, ◌≡◌, refl, ap, ◌⊎◌, inl, inr, true, false, List, [], ◌∷◌, length,
  some, arith,
}
use primordium.App.Shutdown.{get}
use primordium.App.Shutdown.Process.{
  Signal, exit_status, Caller, outside, inside, returned, Phase, listens, received, cancelled,
  selects, exited, alive, Once, unused, taken, running, calling, used, gone, Process, init, Step,
  registers, receives, cancels, starts, finds_done, times_out, enters, waits, copies, calls,
  handler_returns, finishes, leaves, ends, Steps, none_yet, later,
}
use primordium.App.Shutdown.Process.Counting.{
  own, cut_short, Run, still, own_step, step_beside, Fits, phase_left, once_left, steps_left,
  caller_left-le, own-less, beside-le, length-snoc,
}

-- Where the thread of `SetDefaults` is between a signal and the exit with its status.
abbrev Toward : Signal → Phase → Type 0
Toward sig listens = ⊥
Toward sig (received sig') = sig' ≡ sig
Toward sig (cancelled sig') = sig' ≡ sig
Toward sig (selects sig') = sig' ≡ sig
Toward sig gone = ⊥
Toward sig (exited sig' status) = (sig' ≡ sig) × (status ≡ exit_status sig)

module _ {Handler : Type 0} where
  Fits-more : (once : Once Handler) (n : ℕ) → Fits once n → Fits once (suc n)
  Fits-more (running i hs left) n f = omega (arith, f)
  Fits-more (calling i hs left) n f = omega (arith, f)
  Fits-more unused n f = tt
  Fits-more (taken i) n f = tt
  Fits-more used n f = tt

  Step-Fits :
      {s t : Process Handler}
      → Step Handler s t
      → Fits s.once (length s.handlers)
      → Fits t.once (length t.handlers)
  Step-Fits {s} (registers h a) f =
      rw (length-snoc s.handlers h) (Fits-more s.once (length s.handlers) f)
  Step-Fits (receives sig a) f = f
  Step-Fits (cancels a) f = f
  Step-Fits (starts a) f = f
  Step-Fits (finds_done a b) f = f
  Step-Fits (times_out a) f = f
  Step-Fits (enters i a b) f = tt
  Step-Fits (waits i a b) f = f
  Step-Fits (copies a b) f = omega arith
  Step-Fits {s} (calls a b c) f =
      let g = subst (λ o. Fits o (length s.handlers)) b f in omega (arith, g)
  Step-Fits {s} (handler_returns a b) f = subst (λ o. Fits o (length s.handlers)) b f
  Step-Fits (ends a) f = f
  Step-Fits (finishes a b) f = tt
  Step-Fits (leaves i a b c) f = f

  Steps-Fits :
      {s : Process Handler} → Steps Handler (init Handler) s → Fits s.once (length s.handlers)
  Steps-Fits none_yet = tt
  Steps-Fits (later steps st) = Step-Fits st (Steps-Fits steps)

  get-some : (hs : List Handler) (k : ℕ) → k < length hs → (h : Handler) × (get hs k ≡ some h)
  get-some [] k l = absurd (omega arith)
  get-some (h ∷ hs) zero l = (h, refl)
  get-some (h ∷ hs) (suc k) l = get-some hs k (omega arith)

  -- A step of the shutdown that can be taken.
  abbrev pub CanStep : Process Handler → Type 0
  CanStep s = (t : Process Handler) × (st : Step Handler s t) × (own st ≡ true)

  -- A handler has been called and has not returned.
  abbrev pub InHandler : Process Handler → Type 0
  InHandler s = (i : ℕ) × (hs : List Handler) × (left : ℕ) × (s.once ≡ calling i hs left)

  -- In `shutdownOnce` there is always a step outside the handlers, until its function has come back.
  once-CanStep :
      (s : Process Handler) (once : Once Handler)
      → s.once ≡ once
      → alive s.phase ≡ true
      → Fits once (length s.handlers)
      → (once ≡ unused) ⊎ (once ≡ used) ⊎ InHandler s ⊎ CanStep s
  once-CanStep s unused e a f = inl refl
  once-CanStep s (taken i) e a f = inr (inr (inr (_, copies a e, refl)))
  once-CanStep s (running i hs zero) e a f = inr (inr (inr (_, finishes a e, refl)))
  once-CanStep s (running i hs (suc k)) e a f =
      let (h, found) = get-some hs k f.0 in inr (inr (inr (_, calls a e found, refl)))
  once-CanStep s (calling i hs left) e a f = inr (inr (inl (i, hs, left, e)))
  once-CanStep s used e a f = inr (inl refl)

  -- Who is in `shutdownOnce`, or was, has used it.
  abbrev Entered : Caller → Once Handler → Type 0
  Entered outside once = Unit {0}
  Entered c unused = ⊥
  Entered c once = Unit {0}

  Step-Entered :
      {s t : Process Handler}
      → Step Handler s t
      → Entered (s.callers 0) s.once
      → Entered (t.callers 0) t.once
  Step-Entered (enters i a b) h = ground arith
  Step-Entered (waits i a b) h = ground arith
  Step-Entered (copies a b) h = ground arith
  Step-Entered (calls a b c) h = ground arith
  Step-Entered (handler_returns a b) h = ground arith
  Step-Entered (finishes a b) h = ground arith
  Step-Entered (leaves i a b c) h = ground arith
  Step-Entered st h = h

  selects-CanStep :
      (s : Process Handler) {sig : Signal} (c : Caller)
      → s.phase ≡ selects sig
      → s.callers 0 ≡ c
      → Fits s.once (length s.handlers)
      → Entered c s.once
      → InHandler s ⊎ CanStep s
  selects-CanStep s returned p e f h = inr (_, finds_done p e, refl)
  selects-CanStep s inside p e f h = elim (once-CanStep s s.once refl (rw p refl) f) [
    | inl o ↦ absurd (rw o at h)
    | inr (inl o) ↦ inr (_, leaves 0 (rw p refl) e o, refl)
    | inr (inr rest) ↦ rest
  ]
  selects-CanStep s outside p e f h = elim (once-CanStep s s.once refl (rw p refl) f) [
    | inl o ↦ inr (_, enters 0 (rw p refl, e, λ z. rw p refl) o, refl)
    | inr (inl o) ↦ inr (_, waits 0 (rw p refl, e, λ z. rw p refl) (λ n. cc), refl)
    | inr (inr rest) ↦ rest
  ]

  phase-CanStep :
      (s : Process Handler) (sig : Signal) (p : Phase)
      → s.phase ≡ p
      → Toward sig p
      → Fits s.once (length s.handlers)
      → Entered (s.callers 0) s.once
      → (p ≡ exited sig (exit_status sig)) ⊎ InHandler s ⊎ CanStep s
  phase-CanStep s sig listens e w f h = absurd w
  phase-CanStep s sig (received x) e w f h = inr (inr (_, cancels e, refl))
  phase-CanStep s sig (cancelled x) e w f h = inr (inr (_, starts e, refl))
  phase-CanStep s sig (selects x) e w f h = inr (selects-CanStep s (s.callers 0) e refl f h)
  phase-CanStep s sig gone e w f h = absurd w
  phase-CanStep s sig (exited x status) e w f h = inl (rw (w.0, w.1) refl)

  Step-Toward :
      (sig : Signal) {s t : Process Handler} (st : Step Handler s t)
      → cut_short st ≡ false
      → Toward sig s.phase
      → Toward sig t.phase
  Step-Toward sig (receives other_sig a) d h = absurd (ground arith)
  Step-Toward sig (cancels a) d h = subst (Toward sig) a h
  Step-Toward sig (starts a) d h = subst (Toward sig) a h
  Step-Toward sig (finds_done a b) d h = let e = subst (Toward sig) a h in (e, ap exit_status e)
  Step-Toward sig (times_out a) d h = cc
  Step-Toward sig (ends a) d h = cc
  Step-Toward sig st d h = h

  own-cut_short :
      {s t : Process Handler} (st : Step Handler s t) → own st ≡ true → cut_short st ≡ false
  own-cut_short (times_out a) o = cc
  own-cut_short (ends a) o = cc
  own-cut_short st o = refl

  Steps-Entered :
      {s : Process Handler} → Steps Handler (init Handler) s → Entered (s.callers 0) s.once
  Steps-Entered none_yet = tt
  Steps-Entered (later steps st) = Step-Entered st (Steps-Entered steps)

  once_left-le : (once : Once Handler) (n : ℕ) → Fits once n → once_left once n ≤ n + 3
  once_left-le (running i hs left) n f = omega (arith, f)
  once_left-le (calling i hs left) n f = omega (arith, f)
  once_left-le once n f = omega arith

  -- What holds of a process at a run's end.
  record Ending (sig : Signal) (s : Process Handler) (k : ℕ) (t : Process Handler) : Type 0 where
    fits : Fits t.once (length t.handlers)
    entered : Entered (t.callers 0) t.once
    toward : Toward sig t.phase
    count : k + steps_left t + length s.handlers ≤ steps_left s + length t.handlers

  Run-Ending :
      {sig : Signal} {s t : Process Handler} {k : ℕ}
      → Run s k t
      → Ending sig s 0 s
      → Ending sig s k t
  Run-Ending still h = h
  Run-Ending {sig} (own_step r st o) h =
      let before = Run-Ending {sig = sig} r h in
      record {
        fits = Step-Fits st before.fits;
        entered = Step-Entered st before.entered;
        toward = Step-Toward sig st (own-cut_short st o) before.toward;
        count = omega (arith, before.count, own-less st o);
      }
  Run-Ending {sig} (step_beside r st o d) h =
      let before = Run-Ending {sig = sig} r h in
      record {
        fits = Step-Fits st before.fits;
        entered = Step-Entered st before.entered;
        toward = Step-Toward sig st d before.toward;
        count = omega (arith, before.count, beside-le st o d);
      }

-- A process that has just received a signal, whatever happened before, and then runs on for any steps of
-- its threads, with new handlers and new calls of `Shutdown` between, until the timer or another reason
-- ends it: the steps of the shutdown outside the handlers are at most eight more than there are handlers
-- in the end; and the process has come to its exit with the signal's status, or is in a handler that
-- has not returned, or there is another such step that it can take.
pub Run-ends :
    {Handler : Type 0} {s t : Process Handler} {sig : Signal} {k : ℕ}
    → Steps Handler (init Handler) s
    → s.phase ≡ received sig
    → Run s k t
    → (k ≤ length t.handlers + 8)
      × ((t.phase ≡ exited sig (exit_status sig)) ⊎ InHandler t ⊎ CanStep t)
Run-ends {s = s} {t = t} {sig = sig} before p run =
    let end : Ending sig s _ t = Run-Ending run (record {
      fits = Steps-Fits before;
      entered = Steps-Entered before;
      toward = rw p refl;
      count = omega arith;
    }) in
    (
      omega (
        arith,
        end.count,
        ap phase_left p,
        caller_left-le (s.callers 0),
        once_left-le s.once (length s.handlers) (Steps-Fits before),
      ),
      phase-CanStep t sig t.phase refl end.toward end.fits end.entered,
    )
