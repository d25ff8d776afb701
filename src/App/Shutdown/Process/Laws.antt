-- ===== src/App/Shutdown/Process/Laws.antt =====
-- app/shutdown/shutdown.go: what has run when the process exits after a signal.
use mathlib.Core.Path.{subst}
use mathlib.Core.List.{reverse, reverse-cons, append_assoc, append-nil}
use primordium.Base.{
  ℕ, zero, suc, ◌≡◌, refl, sym, ap, ◌∙◌, ◌⊎◌, inl, inr, true, Bool, List, [], ◌∷◌, ◌++◌, length,
  Option, none, some, arith,
}
use primordium.App.Shutdown.{get}
use primordium.App.Shutdown.Process.{
  Signal, exit_status, returned, Phase, listens, received, cancelled, selects, exited, alive, Once,
  unused, taken, running, calling, used, gone, Process, init, Step, registers, receives, cancels,
  starts, finds_done, times_out, enters, waits, copies, calls, handler_returns, finishes, leaves,
  ends, Steps, none_yet, later,
}

abbrev pub Extends : {Handler : Type 0} → List Handler → List Handler → Type 0
Extends {Handler} base hs = (more : List Handler) × (hs ≡ base ++ more)

module _ {Handler : Type 0} where
  abbrev cons_option : Option Handler → List Handler → List Handler
  cons_option none l = l
  cons_option (some h) l = h ∷ l

  cons_option-append :
      (x : Option Handler) (l m : List Handler) → cons_option x l ++ m ≡ cons_option x (l ++ m)
  cons_option-append none l m = refl
  cons_option-append (some h) l m = refl

  -- Items `k - 1` down to 0.
  abbrev down : List Handler → ℕ → List Handler
  down hs zero = []
  down hs (suc k) = cons_option (get hs k) (down hs k)

  down-cons :
      (h : Handler) (hs : List Handler) (k : ℕ) → down (h ∷ hs) (suc k) ≡ down hs k ++ h ∷ []
  down-cons h hs zero = refl
  down-cons h hs (suc k) =
      ap (cons_option (get hs k)) (down-cons h hs k)
      ∙ sym (cons_option-append (get hs k) (down hs k) (h ∷ []))

  down-reverse : (hs : List Handler) → down hs (length hs) ≡ reverse hs
  down-reverse [] = refl
  down-reverse (h ∷ hs) =
      down-cons h hs (length hs)
      ∙ ap (λ (l : List Handler). l ++ h ∷ []) (down-reverse hs)
      ∙ sym (reverse-cons h hs)

  Extends-refl : (hs : List Handler) → Extends hs hs
  Extends-refl hs = ([], sym (append-nil hs))

  Extends-snoc :
      (base hs : List Handler) (h : Handler) → Extends base hs → Extends base (hs ++ h ∷ [])
  Extends-snoc base hs h (more, e) =
      (more ++ h ∷ [], ap (λ (l : List Handler). l ++ h ∷ []) e ∙ append_assoc base more (h ∷ []))

  -- What has run, of the handlers in `copied`, and how these lie between `base` and `hs`.
  abbrev Copied : List Handler → List Handler → List Handler → List Handler → ℕ → Type 0
  Copied base hs ran copied left =
      (ran ++ down copied left ≡ reverse copied) × Extends base copied × Extends copied hs

  abbrev Ran : List Handler → Once Handler → List Handler → List Handler → Type 0
  Ran base unused hs ran = (ran ≡ []) × Extends base hs
  Ran base (taken i) hs ran = (ran ≡ []) × Extends base hs
  Ran base (running i copied left) hs ran = Copied base hs ran copied left
  Ran base (calling i copied left) hs ran = Copied base hs ran copied left
  Ran base used hs ran = (copied : List Handler) × Copied base hs ran copied 0

  -- Once the thread is past a phase: the context is done, and how it has exited.
  abbrev Phased : Once Handler → Bool → Phase → Type 0
  Phased once done listens = Unit {0}
  Phased once done gone = Unit {0}
  Phased once done (received sig) = Unit {0}
  Phased once done (cancelled sig) = done ≡ true
  Phased once done (selects sig) = done ≡ true
  Phased once done (exited sig status) =
      (done ≡ true) × ((status ≡ 1) ⊎ ((status ≡ exit_status sig) × (once ≡ used)))

  record Inv (base : List Handler) (s : Process Handler) : Type 0 where
    so_far : Ran base s.once s.handlers s.ran
    back : (i : ℕ) → s.callers i ≡ returned → s.once ≡ used
    phased : Phased s.once s.context_done s.phase

  Ran-snoc :
      (base : List Handler) (once : Once Handler) (hs ran : List Handler) (h : Handler)
      → Ran base once hs ran
      → Ran base once (hs ++ h ∷ []) ran
  Ran-snoc base unused hs ran h (e, x) = (e, Extends-snoc base hs h x)
  Ran-snoc base (taken i) hs ran h (e, x) = (e, Extends-snoc base hs h x)
  Ran-snoc base (running i copied left) hs ran h (e, x, y) = (e, x, Extends-snoc copied hs h y)
  Ran-snoc base (calling i copied left) hs ran h (e, x, y) = (e, x, Extends-snoc copied hs h y)
  Ran-snoc base used hs ran h (copied, (e, x, y)) = (copied, (e, x, Extends-snoc copied hs h y))

  -- What holds of a phase before the exit does not depend on the `Once`.
  Phased-alive :
      (once once' : Once Handler) (done : Bool) (p : Phase)
      → alive p ≡ true
      → Phased once done p
      → Phased once' done p
  Phased-alive once once' done listens a h = tt
  Phased-alive once once' done (received sig) a h = tt
  Phased-alive once once' done gone a h = tt
  Phased-alive once once' done (cancelled sig) a h = h
  Phased-alive once once' done (selects sig) a h = h
  Phased-alive once once' done (exited sig status) a h = absurd (ground arith)

  Step-Inv :
      (base : List Handler) {s t : Process Handler} → Step Handler s t → Inv base s → Inv base t
  Step-Inv base {s} st inv = at st
    where
      phase-subst : {p : Phase} → s.phase ≡ p → Phased s.once s.context_done p
      phase-subst e = subst (λ p. Phased s.once s.context_done p) e inv.phased

      once-subst : {o : Once Handler} → s.once ≡ o → Ran base o s.handlers s.ran
      once-subst e = subst (λ o. Ran base o s.handlers s.ran) e inv.so_far

      living : (o : Once Handler) → alive s.phase ≡ true → Phased o s.context_done s.phase
      living o a = Phased-alive s.once o s.context_done s.phase a inv.phased

      at : {t : Process Handler} → Step Handler s t → Inv base t
      at (registers h a) = record {
        so_far = Ran-snoc base s.once s.handlers s.ran h inv.so_far;
        back = inv.back;
        phased = inv.phased;
      }
      at (receives sig a) = record { so_far = inv.so_far; back = inv.back; phased = tt }
      at (cancels a) = record { so_far = inv.so_far; back = inv.back; phased = refl }
      at (starts a) = record { so_far = inv.so_far; back = inv.back; phased = phase-subst a }
      at (finds_done a b) = record {
        so_far = inv.so_far;
        back = inv.back;
        phased = (phase-subst a, inr (refl, inv.back 0 b));
      }
      at (times_out a) = record {
        so_far = inv.so_far;
        back = inv.back;
        phased = (phase-subst a, inl refl);
      }
      at (enters i a b) = record {
        so_far = once-subst b;
        back = λ j h. ground (arith, inv.back j);
        phased = living (taken i) a.0;
      }
      at (waits i a b) = record {
        so_far = inv.so_far;
        back = λ j h. ground (arith, inv.back j);
        phased = inv.phased;
      }
      at (copies {i} a b) =
          let (none_ran, x) = once-subst b in
          record {
            so_far = (
              ap (λ (l : List Handler). l ++ down s.handlers (length s.handlers)) none_ran
                  ∙ down-reverse s.handlers,
              x,
              Extends-refl s.handlers,
            );
            back = λ j h. ground (arith, inv.back j);
            phased = living (running i s.handlers (length s.handlers)) a;
          }
      at (calls {i} {k} {handlers = hs} {h} a b c) =
          let (e, x, y) = once-subst b in
          record {
            so_far = (
              append_assoc s.ran (h ∷ []) (down hs k)
                  ∙ ap (λ (o : Option Handler). s.ran ++ cons_option o (down hs k)) (sym c)
                  ∙ e,
              x,
              y,
            );
            back = λ j g. ground (arith, inv.back j);
            phased = living (calling i hs k) a;
          }
      at (handler_returns {i} {k} {handlers = hs} a b) = record {
        so_far = once-subst b;
        back = λ j g. ground (arith, inv.back j);
        phased = living (running i hs k) a;
      }
      at (ends a) = record { so_far = inv.so_far; back = inv.back; phased = tt }
      at (finishes {i} {handlers = hs} a b) = record {
        so_far = (hs, once-subst b);
        back = λ j g. refl;
        phased = living used a;
      }
      at (leaves i a b c) = record {
        so_far = inv.so_far;
        back = λ j h. ground (arith, inv.back j);
        phased = inv.phased;
      }

  Steps-Inv :
      {base : List Handler} {s t : Process Handler} → Steps Handler s t → Inv base s → Inv base t
  Steps-Inv none_yet inv = inv
  Steps-Inv {base} (later steps st) inv = Step-Inv base st (Steps-Inv steps inv)

  -- All handlers that were registered at the copy have run, each once, the last registered first.
  abbrev pub RanAll : List Handler → Process Handler → Type 0
  RanAll base t =
      (copied : List Handler) × (t.ran ≡ reverse copied)
      × Extends base copied
      × Extends copied t.handlers

  Ran-used :
      (base : List Handler) (once : Once Handler) (hs ran : List Handler)
      → once ≡ used
      → Ran base once hs ran
      → (copied : List Handler) × (ran ≡ reverse copied) × Extends base copied × Extends copied hs
  Ran-used base once hs ran e h =
      let (copied, (same, x, y)) = subst (λ o. Ran base o hs ran) e h in
      (copied, sym (append-nil ran) ∙ same, x, y)

  Inv-init : Inv [] (init Handler)
  Inv-init = record {
    so_far = (refl, ([], refl));
    back = λ i h. absurd (ground arith);
    phased = tt;
  }

  Inv-now : {s : Process Handler} → Inv [] s → s.once ≡ unused → Inv s.handlers s
  Inv-now {s} inv e = record {
    so_far =
        subst (λ o. Ran s.handlers o s.handlers s.ran) (sym e)
          ((subst (λ o. Ran [] o s.handlers s.ran) e inv.so_far).0, Extends-refl s.handlers);
    back = inv.back;
    phased = inv.phased;
  }

-- A process that the thread of `SetDefaults` exits after a signal, however the threads are interleaved,
-- has cancelled the context, and exits with 1, after the timer, or else with the signal's status. Then every handler
-- that was registered when nobody had called `Shutdown` yet has run, once for each registration:
-- those that ran are the first of all that were registered, up to the time when `Shutdown` copied
-- them, and the last of these ran first.
pub exited-RanAll :
    {Handler : Type 0} {s t : Process Handler} {sig : Signal} {status : ℕ}
    → Steps Handler (init Handler) s
    → s.once ≡ unused
    → Steps Handler s t
    → t.phase ≡ exited sig status
    → (t.context_done ≡ true) × ((status ≡ 1) ⊎ ((status ≡ exit_status sig) × RanAll s.handlers t))
exited-RanAll {Handler} {s} {t} {sig} {status} before e after x =
    let inv : Inv s.handlers t = Steps-Inv after (Inv-now (Steps-Inv before Inv-init) e) in
    let (done, how) = subst (λ p. Phased t.once t.context_done p) x inv.phased in
    (
      done,
      elim how [
        | inl late ↦ inl late
        | inr k ↦ inr (k.0, Ran-used s.handlers t.once t.handlers t.ran k.1 inv.so_far)
      ],
    )
