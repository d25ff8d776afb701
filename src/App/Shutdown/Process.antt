-- ===== src/App/Shutdown/Process.antt =====
-- app/shutdown/shutdown.go: `SetDefaults`, `Register` and `Shutdown` as threads run them at once, one
-- step at a time. Thread 0 is the one that `SetDefaults` starts for `Shutdown` once a signal has come.
-- Between two steps other threads may register handlers, a running handler among them. A handler that
-- is called may return at a later step or never: it may hang, or call `Shutdown` itself and wait for
-- itself. Time is not modelled: the timer of ten seconds may end at any step after it is set. The
-- process may end at any step for another reason.
pub mod Laws
pub mod Counting
pub mod Ending
mod Examples
use primordium.Base.{
  ℕ, zero, suc, ◌+◌, ◌==◌, ◌≡◌, ◌≢◌, true, false, Bool, List, [], ◌∷◌, ◌++◌, length, Option, none,
  some, if◌then◌else◌,
}
use primordium.App.Shutdown.{get}

-- `sig.(syscall.Signal)`, or a value of another type.
pub data Signal : Type 0 where
  system : ℕ → Signal
  other : Signal

-- `os.Exit` after a graceful shutdown.
abbrev pub exit_status : Signal → ℕ
exit_status (system n) = 128 + n
exit_status other = 0

-- A thread that calls `Shutdown`.
pub data Caller : Type 0 where
  outside : Caller
  inside : Caller  -- in `shutdownOnce.Do`
  returned : Caller

-- What the thread of `SetDefaults` does: it waits for a signal, cancels the context, and waits for
-- `Shutdown` and the timer.
pub data Phase : Type 0 where
  listens : Phase
  received : (sig : Signal) → Phase
  cancelled : (sig : Signal) → Phase
  selects : (sig : Signal) → Phase
  exited : (sig : Signal) (status : ℕ) → Phase
  gone : Phase  -- ended by something else

abbrev pub alive : Phase → Bool
alive (exited sig status) = false
alive gone = false
alive _ = true

-- The thread for `Shutdown` has been started.
abbrev pub started : Phase → Bool
started (selects sig) = true
started _ = false

abbrev pub update {ℓ} : {A : Type ℓ} → (ℕ → A) → ℕ → A → ℕ → A
update f i a j = if i == j then a else f j

module _ (Handler : Type 0) where
  -- `shutdownOnce`, with the thread that runs its function: before that copies the handlers, and with
  -- its copy and how many of the copy are still to run, between two handlers or in one.
  pub data Once : Type 0 where
    unused : Once
    taken : (i : ℕ) → Once
    running : (i : ℕ) (handlers : List Handler) (left : ℕ) → Once
    calling : (i : ℕ) (handlers : List Handler) (left : ℕ) → Once
    used : Once

  -- `ran` are the handlers that have been called, in order.
  pub record Process : Type 0 where
    pub handlers : List Handler
    pub once : Once
    pub callers : ℕ → Caller
    pub ran : List Handler
    pub context_done : Bool
    pub phase : Phase

  abbrev pub init : Process
  init = record {
    handlers = [];
    once = unused;
    callers = λ _. outside;
    ran = [];
    context_done = false;
    phase = listens;
  }

  -- Thread `i` may call `Shutdown`.
  abbrev pub CanCall : Process → ℕ → Type 0
  CanCall s i = (alive s.phase ≡ true) × (s.callers i ≡ outside) × (i ≡ 0 → started s.phase ≡ true)

  pub data Step (s : Process) : Process → Type 0 where
    registers :
        (h : Handler) → alive s.phase ≡ true → Step s (record s { handlers = s.handlers ++ h ∷ [] })
    -- `SetDefaults`
    receives : (sig : Signal) → s.phase ≡ listens → Step s (record s { phase = received sig })
    cancels :
        {sig : Signal}
        → s.phase ≡ received sig
        → Step s (record s { context_done = true; phase = cancelled sig })
    starts : {sig : Signal} → s.phase ≡ cancelled sig → Step s (record s { phase = selects sig })
    finds_done :
        {sig : Signal}
        → s.phase ≡ selects sig
        → s.callers 0 ≡ returned
        → Step s (record s { phase = exited sig (exit_status sig) })
    times_out : {sig : Signal} → s.phase ≡ selects sig → Step s (record s { phase = exited sig 1 })
    -- `Shutdown`
    enters :
        (i : ℕ)
        → CanCall s i
        → s.once ≡ unused
        → Step s (record s { once = taken i; callers = update s.callers i inside })
    waits :
        (i : ℕ)
        → CanCall s i
        → s.once ≢ unused
        → Step s (record s { callers = update s.callers i inside })
    copies :
        {i : ℕ}
        → alive s.phase ≡ true
        → s.once ≡ taken i
        → Step s (record s { once = running i s.handlers (length s.handlers) })
    calls :
        {i k : ℕ} {handlers : List Handler} {h : Handler}
        → alive s.phase ≡ true
        → s.once ≡ running i handlers (suc k)
        → get handlers k ≡ some h
        → Step s (record s { once = calling i handlers k; ran = s.ran ++ h ∷ [] })
    handler_returns :
        {i k : ℕ} {handlers : List Handler}
        → alive s.phase ≡ true
        → s.once ≡ calling i handlers k
        → Step s (record s { once = running i handlers k })
    finishes :
        {i : ℕ} {handlers : List Handler}
        → alive s.phase ≡ true
        → s.once ≡ running i handlers 0
        → Step s (record s { once = used })
    leaves :
        (i : ℕ)
        → alive s.phase ≡ true
        → s.callers i ≡ inside
        → s.once ≡ used
        → Step s (record s { callers = update s.callers i returned })
    -- `main` returns, a thread exits the process, or a second signal comes after `signal.Stop` has given
    -- signals their default action back.
    ends : alive s.phase ≡ true → Step s (record s { phase = gone })

  pub data Steps (s : Process) : Process → Type 0 where
    none_yet : Steps s s
    later : {t u : Process} → Steps s t → Step t u → Steps s u
