-- ===== src/Format/Order.antt =====
-- `%v` does not show the order in which `range` visits a map.
use primordium.Base.{◌≡◌, refl, Bytes, List, [], ◌∷◌}
use primordium.Format.Data.{
  Value, Items, Fields, SameValue, same_str, same_other, same_map, same_slice, SameItems, same_nil,
  same_cons, SameFields, same_end, same_field, same_swap, same_trans,
}
use primordium.Format.Keys.{Reordered, same, next, swap, trans, visit-Reordered}
use primordium.Format.Text.{show, show_items, show_fields}

-- One field's texts in front of reordered fields.
pub next_eq {ℓ} :
    {A : Type ℓ} (k : Bytes) {a b : A} {l m : List (Bytes × A)}
    → a ≡ b
    → Reordered l m
    → Reordered ((k, a) ∷ l) ((k, b) ∷ m)
next_eq k {a} e r = rw (← e) (next (k, a) r)

mutual
  unfolding show

  pub show-Same : {v w : Value} → SameValue v w → show v ≡ show w
  show-Same (same_str s) = refl
  show-Same (same_other s) = refl
  show-Same (same_map r) = rw (visit-Reordered (λ s rest. s ∷ rest) [] (show_fields-Same r))
  show-Same (same_slice r) = rw (show_items-Same r)

  show_items-Same : {xs ys : Items} → SameItems xs ys → show_items xs ≡ show_items ys
  show_items-Same same_nil = refl
  show_items-Same (same_cons r s) = rw (show-Same r, show_items-Same s)

  show_fields-Same : {m n : Fields} → SameFields m n → Reordered (show_fields m) (show_fields n)
  show_fields-Same same_end = same []
  show_fields-Same (same_field k r s) = next_eq k (rw (show-Same r)) (show_fields-Same s)
  show_fields-Same (same_swap j k v w m h) = swap _ _ _ h
  show_fields-Same (same_trans r s) = trans (show_fields-Same r) (show_fields-Same s)
