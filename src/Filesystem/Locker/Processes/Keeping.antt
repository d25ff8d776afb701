-- ===== src/Filesystem/Locker/Processes/Keeping.antt =====
-- Every step of every process keeps the invariant.
use primordium.Base.{
  sym, ap, ◌∙◌, Bool, Bool-cases, inl, inr, ◌==◌, if◌then◌else◌, ℕ, suc, ◌≡◌, ◌≤◌, ◌<◌, refl, true,
  false, arith,
}
use primordium.Filesystem.Locker.Processes.{
  Shared, Pc, idle, has_root, Move, Fault, lock_root, relock_root, lock_dir, relock_dir, lock_read,
  try_free, remove, make_dir, start, dies,
}
use primordium.Filesystem.Locker.Processes.System.{
  update, System, Step, moves, fails, init, Reach, begin, later,
}
use primordium.Filesystem.Locker.Processes.Invariant.{
  has_dir, reads, cleaning, IsFresh, Inv, has_dir-stands, reads-stands, calm-IsFresh, made-IsFresh,
  cleaning-has_dir,
}

module _ {n : ℕ} {m : Shared} {pcs : ℕ → Pc} (inv : Inv n m pcs) (i : ℕ) where
  open inv use {root_one, dir_one, fresh, alone}

  -- What holds of a process after a step that does not bring it about held before.
  had :
      (t : Pc → Bool) (p p' : Pc)
      → (t p' ≡ true → t p ≡ true)
      → pcs i ≡ p
      → (a : ℕ) → t (update pcs i p' a) ≡ true
      → t (pcs a) ≡ true
  had t p p' f e a h = elim (Bool-cases (i == a)) [
    | inl q ↦
        let z : i ≡ a = ground arith in
        let h' : t p' ≡ true = ap (λ (b : Bool). t (if b then p' else pcs a)) (sym q) ∙ h in
        ap (λ j. t (pcs j)) (sym z) ∙ ap t e ∙ f h'
    | inr q ↦ ap (λ (b : Bool). t (if b then p' else pcs a)) (sym q) ∙ h
  ]

  still_alone :
      (p p' : Pc)
      → (cleaning p' ≡ true → cleaning p ≡ true)
      → (reads p' ≡ true → reads p ≡ true)
      → pcs i ≡ p
      → (a b : ℕ) → cleaning (update pcs i p' a) ≡ true
      → reads (update pcs i p' b) ≡ false
  still_alone p p' f g e a b h = elim (Bool-cases (reads (update pcs i p' b))) [
    | inl y ↦
        let before : reads (pcs b) ≡ true = had reads p p' g e b y in
        let not_before : reads (pcs b) ≡ false = alone a b (had cleaning p p' f e a h) in cc
    | inr n ↦ n
  ]

  Move-root_one :
      {p p' : Pc} {m' : Shared}
      → Move m pcs p m' p'
      → pcs i ≡ p
      → (a b : ℕ) → has_root (update pcs i p' a) ≡ true
      → has_root (update pcs i p' b) ≡ true
      → a ≡ b
  Move-root_one (lock_root g) e a b h k = ground (arith, g a, g b)
  Move-root_one (relock_root g) e a b h k = ground (arith, g a, g b)
  Move-root_one mv e a b h k =
      root_one a b (had has_root _ _ (λ r. ground arith) e a h)
        (had has_root _ _ (λ r. ground arith) e b k)

  Move-dir_one :
      {p p' : Pc} {m' : Shared}
      → Move m pcs p m' p'
      → pcs i ≡ p
      → IsFresh m p
      → (a b : ℕ) → has_dir (update pcs i p' a) ≡ true
      → has_dir (update pcs i p' b) ≡ true
      → a ≡ b
  Move-dir_one (lock_dir g) e f a b h k =
      ground (arith, g a, g b, has_dir-stands m (pcs a), has_dir-stands m (pcs b), fresh a, fresh b)
  Move-dir_one (relock_dir g) e f a b h k =
      ground (arith, g a, g b, has_dir-stands m (pcs a), has_dir-stands m (pcs b), fresh a, fresh b)
  Move-dir_one mv e f a b h k =
      dir_one a b (had has_dir _ _ (λ r. ground arith) e a h)
        (had has_dir _ _ (λ r. ground arith) e b k)

  Move-alone :
      {p p' : Pc} {m' : Shared}
      → Move m pcs p m' p'
      → pcs i ≡ p
      → IsFresh m p
      → (a b : ℕ) → cleaning (update pcs i p' a) ≡ true
      → reads (update pcs i p' b) ≡ false
  Move-alone (try_free g) e f a b h = ground (arith, g b, reads-stands m (pcs b), fresh b)
  Move-alone (lock_read g) e f a b h =
      ground (arith, alone a b, cleaning-has_dir (pcs a), dir_one i a)
  Move-alone mv e f a b h = still_alone _ _ (λ r. ground arith) (λ r. ground arith) e a b h

  Move-IsFresh :
      {p p' : Pc} {m' : Shared}
      → Move m pcs p m' p'
      → pcs i ≡ p
      → IsFresh m p
      → (a : ℕ) → IsFresh m' (update pcs i p' a)
  Move-IsFresh make_dir e f a = ground (arith, made-IsFresh m (pcs a) (fresh a))
  Move-IsFresh remove e f a = ground (
    arith,
    calm-IsFresh (record { removals = suc m.removals; dir_exists = false }) (pcs a),
    root_one i a,
    dir_one i a,
    alone i a,
  )
  Move-IsFresh mv e f a = ground (arith, fresh a)

  Move-rest :
      {p p' : Pc} {m' : Shared}
      → Move m pcs p m' p'
      → i < n
      → (a : ℕ) → n ≤ a
      → update pcs i p' a ≡ idle
  Move-rest start lt a h = ground (arith, inv.rest a)
  Move-rest mv lt a h = ground (arith, inv.rest a)

  pub Move-Inv :
      {p' : Pc} {m' : Shared} → i < n → Move m pcs (pcs i) m' p' → Inv n m' (update pcs i p')
  Move-Inv lt mv = record {
    rest = Move-rest mv lt;
    root_one = Move-root_one mv refl;
    dir_one = Move-dir_one mv refl (fresh i);
    fresh = Move-IsFresh mv refl (fresh i);
    alone = Move-alone mv refl (fresh i);
  }

  Fault-root_one :
      {p p' : Pc}
      → Fault p p'
      → pcs i ≡ p
      → (a b : ℕ) → has_root (update pcs i p' a) ≡ true
      → has_root (update pcs i p' b) ≡ true
      → a ≡ b
  Fault-root_one dies e a b h k = ground (arith, root_one a b, root_one i b, root_one a i)
  Fault-root_one ft e a b h k =
      root_one a b (had has_root _ _ (λ r. ground arith) e a h)
        (had has_root _ _ (λ r. ground arith) e b k)

  Fault-dir_one :
      {p p' : Pc}
      → Fault p p'
      → pcs i ≡ p
      → (a b : ℕ) → has_dir (update pcs i p' a) ≡ true
      → has_dir (update pcs i p' b) ≡ true
      → a ≡ b
  Fault-dir_one dies e a b h k = ground (arith, dir_one a b, dir_one i b, dir_one a i)
  Fault-dir_one ft e a b h k =
      dir_one a b (had has_dir _ _ (λ r. ground arith) e a h)
        (had has_dir _ _ (λ r. ground arith) e b k)

  Fault-alone :
      {p p' : Pc}
      → Fault p p'
      → pcs i ≡ p
      → (a b : ℕ) → cleaning (update pcs i p' a) ≡ true
      → reads (update pcs i p' b) ≡ false
  Fault-alone dies e a b h = ground (arith, alone a b, alone i b, alone a i)
  Fault-alone ft e a b h = still_alone _ _ (λ r. ground arith) (λ r. ground arith) e a b h

  Fault-IsFresh :
      {p p' : Pc} → Fault p p' → pcs i ≡ p → IsFresh m p → (a : ℕ) → IsFresh m (update pcs i p' a)
  Fault-IsFresh dies e f a = ground (arith, fresh a)
  Fault-IsFresh ft e f a = ground (arith, fresh a)

  pub Fault-Inv : {p' : Pc} → i < n → Fault (pcs i) p' → Inv n m (update pcs i p')
  Fault-Inv lt ft = record {
    rest = λ a h. ground (arith, inv.rest a);
    root_one = Fault-root_one ft refl;
    dir_one = Fault-dir_one ft refl;
    fresh = Fault-IsFresh ft refl (fresh i);
    alone = Fault-alone ft refl;
  }

init-Inv : (n : ℕ) → Inv n init.shared init.pcs
init-Inv n = record {
  rest = λ i h. refl;
  root_one = λ i j h k. absurd (ground arith);
  dir_one = λ i j h k. absurd (ground arith);
  fresh = λ i. tt;
  alone = λ i j h. absurd (ground arith);
}

Step-Inv : {n : ℕ} {s t : System} → Step n s t → Inv n s.shared s.pcs → Inv n t.shared t.pcs
Step-Inv (moves i lt mv) inv = Move-Inv inv i lt mv
Step-Inv (fails i lt ft) inv = Fault-Inv inv i lt ft

pub Reach-Inv : {n : ℕ} {s : System} → Reach n s → Inv n s.shared s.pcs
Reach-Inv {n} begin = init-Inv n
Reach-Inv (later r st) = Step-Inv st (Reach-Inv r)
