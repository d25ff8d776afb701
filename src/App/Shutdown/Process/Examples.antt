-- ===== src/App/Shutdown/Process/Examples.antt =====
-- Two handlers, one signal, and the exit.
use primordium.Base.{ℕ, ◌+◌, ◌≤◌, length, ◌≡◌, ◌⊎◌, refl, true, [], ◌∷◌}
use primordium.App.Shutdown.Process.{
  Signal, system, exit_status, exited, init, Process, registers, receives, cancels, starts,
  finds_done, enters, copies, calls, handler_returns, finishes, leaves, Steps, none_yet, later,
}
use primordium.App.Shutdown.Process.Counting.{Run, still, own_step, step_beside}
use primordium.App.Shutdown.Process.Ending.{InHandler, CanStep, Run-ends}
use primordium.App.Shutdown.Process.Laws.{RanAll, exited-RanAll}

-- `SIGTERM`
abbrev sigterm : Signal
sigterm = system 15

abbrev registered : (s : Process ℕ) × Steps ℕ (init ℕ) s
registered = (_, later (later none_yet (registers 5 refl)) (registers 7 refl))

abbrev ended : (t : Process ℕ) × Steps ℕ registered.0 t
ended = (
  _,
  later
      (later
        (later
          (later
            (later
              (later
                (later
                  (later
                    (later
                      (later (later (later none_yet (receives sigterm refl)) (cancels refl))
                        (starts refl))
                      (enters 0 (refl, refl, λ _. refl) refl))
                    (copies refl refl))
                  (calls refl refl refl))
                (handler_returns refl refl))
              (calls refl refl refl))
            (handler_returns refl refl))
          (finishes refl refl))
        (leaves 0 refl refl refl))
      (finds_done refl refl),
)

ran_in_order : ended.0.ran ≡ 7 ∷ 5 ∷ []
ran_in_order = refl

exited-RanAll_example :
    (ended.0.context_done ≡ true)
    × ((◌≡◌ {A = ℕ} 143 1) ⊎ ((143 ≡ exit_status sigterm) × RanAll (5 ∷ 7 ∷ []) ended.0))
exited-RanAll_example = exited-RanAll {sig = sigterm} {status = 143} registered.1 refl ended.1 refl

abbrev signalled : (s : Process ℕ) × Steps ℕ (init ℕ) s
signalled = (_, later registered.1 (receives sigterm refl))

-- A handler is registered while the context is cancelled.
abbrev going : (t : Process ℕ) × Run signalled.0 2 t
going = (
  _,
  own_step (step_beside (own_step still (cancels refl) refl) (registers 9 refl) refl refl)
      (starts refl) refl,
)

Run-ends_example :
    (2 ≤ length going.0.handlers + 8)
    × ((going.0.phase ≡ exited sigterm (exit_status sigterm)) ⊎ InHandler going.0 ⊎ CanStep going.0)
Run-ends_example = Run-ends signalled.1 refl going.1
