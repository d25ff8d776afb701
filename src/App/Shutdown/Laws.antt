-- ===== src/App/Shutdown/Laws.antt =====
-- app/shutdown/shutdown.go: the order in which the handlers run, and that they run once.
use primordium.Base.{
  ℕ, zero, suc, ◌≡◌, refl, ap, ◌∙◌, Bool, true, false, Bool-cases, inl, inr, List, [], ◌∷◌, length,
  if◌then◌else◌,
}
use primordium.App.Shutdown.{App, get, register, invoke, invoke_at, run_down, shutdown}

module _ {Handler World : Type 0} (call : Handler → World → World × List Handler) where
  -- Run the handlers from the last to the first.
  abbrev pub run_reversed : List Handler → App call → App call
  unfolding invoke
  run_reversed [] a = a
  run_reversed (h ∷ hs) a = invoke call h (run_reversed hs a)

  run_down-cons :
      (h : Handler) (hs : List Handler) (i : ℕ) (a : App call)
      → run_down call (h ∷ hs) (suc i) a ≡ invoke call h (run_down call hs i a)
  unfolding run_down
  run_down-cons h hs zero a = refl
  run_down-cons h hs (suc i) a = run_down-cons h hs i (invoke_at call (get hs i) a)

  run_down-reversed :
      (hs : List Handler) (a : App call) → run_down call hs (length hs) a ≡ run_reversed hs a
  unfolding run_down
  run_down-reversed [] a = refl
  run_down-reversed (h ∷ hs) a =
      run_down-cons h hs (length hs) a ∙ ap (invoke call h) (run_down-reversed hs a)

  -- What a program does with the package.
  pub data Event : Type 0 where
    registers : Handler → Event
    stops : Event

  abbrev pub step : Event → App call → App call
  step (registers h) a = register call h a
  step stops a = shutdown call a

  abbrev pub steps : List Event → App call → App call
  steps [] a = a
  steps (e ∷ es) a = steps es (step e a)

  shutdown_again : (a : App call) → a.done ≡ true → shutdown call a ≡ a
  unfolding shutdown
  shutdown_again a d =
      ap
        (λ (b : Bool).
          if b then a else record (run_down call a.handlers (length a.handlers) a) { done = true })
        d

  -- The first `Shutdown` runs the handlers registered so far, each once, the last registered first;
  -- those registered meanwhile do not run.
  pub shutdown-run_reversed :
      (a : App call)
      → a.done ≡ false
      → shutdown call a ≡ record (run_reversed a.handlers a) { done = true }
  unfolding shutdown
  shutdown-run_reversed a h =
      ap
        (λ (d : Bool).
          if d then a else record (run_down call a.handlers (length a.handlers) a) { done = true })
        h
      ∙ ap (λ (b : App call). record b { done = true }) (run_down-reversed a.handlers a)

  shutdown-done : (a : App call) → (shutdown call a).done ≡ true
  unfolding shutdown
  shutdown-done a = elim (Bool-cases a.done) [
    | inl d ↦ ap (λ (b : App call). b.done) (shutdown_again a d) ∙ d
    | inr d ↦ ap (λ (b : App call). b.done) (shutdown-run_reversed a d)
  ]

  steps-done : (es : List Event) (a : App call) → a.done ≡ true → (steps es a).world ≡ a.world
  unfolding register
  steps-done [] a d = refl
  steps-done (registers h ∷ es) a d = steps-done es (register call h a) d
  steps-done (stops ∷ es) a d =
      ap (λ b. (steps es b).world) (shutdown_again a d) ∙ steps-done es a d

  -- After a `Shutdown` no handler runs any more, whatever the program registers and however often
  -- it shuts down again.
  pub shutdown_once :
      (a : App call) (es : List Event)
      → (steps es (shutdown call a)).world ≡ (shutdown call a).world
  shutdown_once a es = steps-done es (shutdown call a) (shutdown-done a)
