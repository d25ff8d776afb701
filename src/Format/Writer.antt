-- ===== src/Format/Writer.antt =====
-- `io.Writer` as the printers use it, and texts written one after another.
use mathlib.Core.Path.{fun_ext}
use primordium.Base.{sym, Bytes, ◌≡◌, refl, Option, none, some, List, [], ◌∷◌, ◌++◌}
use primordium.Errors.{Error, wrap}

-- A writer with a state of its own. `fmt.Fprintf` hands it the whole text in one call.
pub record Writer : Type 1 where
  pub State : Type 0
  pub write : State → Bytes → State × Option Error

module _ (W : Writer) where
  -- A function that writes and may fail.
  abbrev pub Print : Type 0
  Print = W.State → W.State × Option Error

  -- Write one text; a failure is wrapped by `fmt.Errorf`.
  abbrev pub wrapped : W.State × Option Error → W.State × Option Error
  wrapped (s, none) = (s, none)
  wrapped (s, some e) = (s, some (wrap e))

  unfoldable pub emit : Bytes → Print
  emit text s = wrapped (W.write s text)

  abbrev pub done : Print
  done s = (s, none)

  -- `if err := m; err != nil { return err }`, and go on.
  abbrev pub resume : Print → W.State × Option Error → W.State × Option Error
  resume k (s, none) = k s
  resume k (s, some e) = (s, some e)

  infixr 5 ◌then_do◌
  abbrev pub ◌then_do◌ : Print → Print → Print
  (m then_do k) s = resume k (m s)

  -- The texts in order, up to the first that fails.
  unfoldable pub write_all : List Bytes → Print
  write_all [] = done
  write_all (text ∷ texts) = emit text then_do write_all texts

  resume_assoc :
      (k l : Print) (x : W.State × Option Error) → resume l (resume k x) ≡ resume (k then_do l) x
  resume_assoc k l (s, none) = refl
  resume_assoc k l (s, some e) = refl

  resume-done : (x : W.State × Option Error) → resume done x ≡ x
  resume-done (s, none) = refl
  resume-done (s, some e) = refl

  pub write_all-one : (text : Bytes) → write_all (text ∷ []) ≡ emit text
  unfolding write_all
  write_all-one text = fun_ext (λ s. resume-done (emit text s))

  -- Texts are written in two parts as at once.
  pub write_all-append :
      (xs ys : List Bytes) → write_all (xs ++ ys) ≡ (write_all xs then_do write_all ys)
  unfolding write_all
  write_all-append [] ys = refl
  write_all-append (x ∷ xs) ys =
      fun_ext λ s.
        rw (write_all-append xs ys) (sym (resume_assoc (write_all xs) (write_all ys) (emit x s)))

  pub write_all-nil : done ≡ write_all []
  unfolding write_all
  write_all-nil = refl
