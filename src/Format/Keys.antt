-- ===== src/Format/Keys.antt =====
-- `sort.Strings` over the keys of a map, and the visit of a map by its sorted keys.
use mathlib.Core.Option
use primordium.Base.{
  Option-cases, ◌≡◌, ◌≢◌, refl, sym, ap, ◌∙◌, ◌⊎◌, inl, inr, Bool, true, false, Bool-cases, Bytes,
  bytes_eq, eq_of_bytes_eq, find, ltb, ◌==◌, List, [], ◌∷◌, map, Option, none, some, arith,
  if◌then◌else◌,
}

-- `<=` on strings: byte by byte.
unfoldable pub bytes_le : Bytes → Bytes → Bool
bytes_le [] ys = true
bytes_le (x ∷ xs) [] = false
bytes_le (x ∷ xs) (y ∷ ys) = if x == y then bytes_le xs ys else ltb x y

unfoldable pub insert : Bytes → List Bytes → List Bytes
insert a [] = a ∷ []
insert a (b ∷ bs) = if bytes_le a b then a ∷ b ∷ bs else b ∷ insert a bs

-- `sort.Strings`
unfoldable pub sort_strings : List Bytes → List Bytes
unfolding insert bytes_le
sort_strings [] = []
sort_strings (a ∷ as') = insert a (sort_strings as')

abbrev pub key {ℓ} : {A : Type ℓ} → Bytes × A → Bytes
key e = e.0

-- The keys of a map, sorted.
unfoldable pub sorted_keys {ℓ} : {A : Type ℓ} → List (Bytes × A) → List Bytes
unfolding sort_strings
sorted_keys m = sort_strings (map key m)

bytes_le_total : (a b : Bytes) → (bytes_le a b ≡ true) ⊎ (bytes_le b a ≡ true)
unfolding bytes_le
bytes_le_total [] b = inl refl
bytes_le_total (x ∷ a) [] = inr refl
bytes_le_total (x ∷ a) (y ∷ b) = ground (arith, bytes_le_total a b)

bytes_le_antisymm : (a b : Bytes) → bytes_le a b ≡ true → bytes_le b a ≡ true → a ≡ b
unfolding bytes_le
bytes_le_antisymm [] [] h k = refl
bytes_le_antisymm [] (y ∷ b) h k = cc
bytes_le_antisymm (x ∷ a) [] h k = cc
bytes_le_antisymm (x ∷ a) (y ∷ b) h k = ground (arith, bytes_le_antisymm a b)

bytes_le_trans : (a b c : Bytes) → bytes_le a b ≡ true → bytes_le b c ≡ true → bytes_le a c ≡ true
unfolding bytes_le
bytes_le_trans [] b c h k = refl
bytes_le_trans (x ∷ a) [] c h k = cc
bytes_le_trans (x ∷ a) (y ∷ b) [] h k = cc
bytes_le_trans (x ∷ a) (y ∷ b) (z ∷ c) h k = ground (arith, bytes_le_trans a b c)

insert_comm : (a b : Bytes) (l : List Bytes) → insert a (insert b l) ≡ insert b (insert a l)
unfolding insert
insert_comm a b [] = ground (arith, bytes_le_total a b, bytes_le_antisymm a b)
insert_comm a b (c ∷ l) = ground (
  arith,
  insert_comm a b l,
  bytes_le_total a b,
  bytes_le_total a c,
  bytes_le_total b c,
  bytes_le_antisymm a b,
  bytes_le_antisymm a c,
  bytes_le_antisymm b c,
  bytes_le_trans a b c,
  bytes_le_trans b a c,
  bytes_le_trans a c b,
  bytes_le_trans b c a,
)

-- The same entries in another order. Entries that change places have different keys.
pub data Reordered {ℓ} {A : Type ℓ} : List (Bytes × A) → List (Bytes × A) → Type ℓ where
  same : (l : List (Bytes × A)) → Reordered l l
  next : (e : Bytes × A) {l m : List (Bytes × A)} → Reordered l m → Reordered (e ∷ l) (e ∷ m)
  swap : (d e : Bytes × A) (l : List (Bytes × A)) → d.0 ≢ e.0 → Reordered (d ∷ e ∷ l) (e ∷ d ∷ l)
  trans : {l m n : List (Bytes × A)} → Reordered l m → Reordered m n → Reordered l n

module _ {ℓ} {A : Type ℓ} where
  -- The order of the entries does not show in the sorted keys, nor in a lookup.
  pub sorted_keys-Reordered :
      {l m : List (Bytes × A)} → Reordered l m → sorted_keys l ≡ sorted_keys m
  unfolding sorted_keys sort_strings
  sorted_keys-Reordered (same l) = refl
  sorted_keys-Reordered (next e r) = ap (insert e.0) (sorted_keys-Reordered r)
  sorted_keys-Reordered (swap d e l h) = insert_comm d.0 e.0 (sort_strings (map key l))
  sorted_keys-Reordered (trans r s) = sorted_keys-Reordered r ∙ sorted_keys-Reordered s

  pub find-Reordered : (k : Bytes) {l m : List (Bytes × A)} → Reordered l m → find k l ≡ find k m
  unfolding find
  find-Reordered k (same l) = refl
  find-Reordered k (next (j, v) r) = rw (find-Reordered k r)
  find-Reordered k (swap (i, v) (j, w) l h) = elim (Bool-cases (bytes_eq i k)) [
    | inl at_i ↦ elim (Bool-cases (bytes_eq j k)) [
      | inl at_j ↦ absurd (h (eq_of_bytes_eq i k at_i ∙ sym (eq_of_bytes_eq j k at_j)))
      | inr not_j ↦ rw (at_i, not_j)
    ]
    | inr not_i ↦ rw not_i
  ]
  find-Reordered k (trans r s) = find-Reordered k r ∙ find-Reordered k s

  -- `step` on what a key holds, if it holds anything.
  abbrev on_value {κ} : {B : Type κ} → (A → B → B) → Option A → B → B
  on_value step none rest = rest
  on_value step (some v) rest = step v rest

  -- What a loop over the keys `ks` does, with `end` at its end: `step` on what each key holds.
  pub over_keys {κ} : {B : Type κ} → (A → B → B) → B → List Bytes → List (Bytes × A) → B
  over_keys step end [] m = end
  over_keys step end (k ∷ ks) m = on_value step (find k m) (over_keys step end ks m)

  -- The loop over a map by its sorted keys.
  unfoldable pub visit {κ} : {B : Type κ} → (A → B → B) → B → List (Bytes × A) → B
  unfolding over_keys sorted_keys find
  visit step end m = over_keys step end (sorted_keys m) m

  over_keys-Reordered {κ} :
      {B : Type κ} (step : A → B → B) (end : B) (ks : List Bytes) {l m : List (Bytes × A)}
      → Reordered l m
      → over_keys step end ks l ≡ over_keys step end ks m
  unfolding over_keys
  over_keys-Reordered step end [] r = refl
  over_keys-Reordered step end (k ∷ ks) r =
      rw (over_keys-Reordered step end ks r, find-Reordered k r)

  -- A loop by sorted keys does not depend on the order of the entries.
  pub visit-Reordered {κ} :
      {B : Type κ} (step : A → B → B) (end : B) {l m : List (Bytes × A)}
      → Reordered l m
      → visit step end l ≡ visit step end m
  unfolding visit
  visit-Reordered step end {l} {m} r =
      rw (sorted_keys-Reordered r) (over_keys-Reordered step end (sorted_keys m) r)

-- A map with `f` applied to what each key holds.
abbrev pub map_values {ℓ κ} :
    {A : Type ℓ} {B : Type κ} → (A → B) → List (Bytes × A) → List (Bytes × B)
map_values f [] = []
map_values f ((k, v) ∷ m) = (k, f v) ∷ map_values f m

module _ {ℓ} {A B : Type ℓ} (f : A → B) where
  keys-map_values : (m : List (Bytes × A)) → map key (map_values f m) ≡ map key m
  keys-map_values [] = refl
  keys-map_values ((k, v) ∷ m) = rw (keys-map_values m)

  find-map_values :
      (k : Bytes) (m : List (Bytes × A)) → find k (map_values f m) ≡ Option.map f (find k m)
  unfolding find
  find-map_values k [] = refl
  find-map_values k ((j, v) ∷ m) = elim (Bool-cases (bytes_eq j k)) [
    | inl here ↦ rw here
    | inr there ↦ rw there (find-map_values k m)
  ]

  module _ {κ} {C D : Type κ} (g : C → D) (step : A → C → C) (step' : B → D → D) (end : C)
      (keep : (a : A) (c : C) → step' (f a) (g c) ≡ g (step a c)) where
    over_keys-map_values :
        (ks : List Bytes) (m : List (Bytes × A))
        → over_keys step' (g end) ks (map_values f m) ≡ g (over_keys step end ks m)
    unfolding over_keys
    over_keys-map_values [] m = refl
    over_keys-map_values (k ∷ ks) m =
        rw (over_keys-map_values ks m, find-map_values k m)
          (elim (Option-cases (find k m)) [
            | inl absent ↦ rw absent
            | inr (v, found) ↦ rw found (keep v _)
          ])

    -- A translation of the steps of a loop by sorted keys translates the loop.
    pub visit-map_values :
        (m : List (Bytes × A)) → visit step' (g end) (map_values f m) ≡ g (visit step end m)
    unfolding visit
    visit-map_values m = rw (keys-map_values m) (over_keys-map_values (sorted_keys m) m)
