-- ===== src/Format/Console/Order.antt =====
-- format/console.go: the order in which `range` visits a map does not show.
use primordium.Base.{ℕ, ◌+◌, ◌≡◌, refl, sym, ap, ◌∙◌, Bytes, List, [], ◌∷◌, ◌++◌}
use primordium.Format.Data.{
  Value, Items, Fields, Entry, SameValue, same_str, same_other, same_map, same_slice, SameItems,
  same_nil, same_cons, SameFields, same_end, same_field, same_swap, same_trans, SameEntries,
  same_none, same_entry,
}
use primordium.Format.Writer.{Writer}
use primordium.Format.Keys.{Reordered, same, swap, trans, visit-Reordered}
use primordium.Format.Text.{newline}
use primordium.Format.Order.{next_eq, show-Same}
use primordium.Format.Walk.{joined}
use primordium.Format.Console.Lines.{
  value_lines, field_lines, slice_lines, one_item, meta_lines, entry_lines, rest_lines, all_lines,
}
use primordium.Format.Console.{print_all}
use primordium.Format.Console.Laws.{print_all_lines}

mutual
  unfolding value_lines

  value_lines-Same :
      {v w : Value}
      → SameValue v w
      → (key : Bytes) (n : ℕ) → value_lines v key n ≡ value_lines w key n
  value_lines-Same (same_str s) key n = refl
  value_lines-Same (same_other s) key n = refl
  value_lines-Same (same_map r) key n =
      rw (visit-Reordered (λ t rest. t ++ rest) [] (field_lines-Same r (n + 1)))
  value_lines-Same (same_slice r) key n = rw (slice_lines-Same r 0 (n + 1))

  field_lines-Same :
      {l m : Fields} → SameFields l m → (n : ℕ) → Reordered (field_lines l n) (field_lines m n)
  field_lines-Same same_end n = same []
  field_lines-Same (same_field k r s) n = next_eq k (value_lines-Same r k n) (field_lines-Same s n)
  field_lines-Same (same_swap j k v w m h) n = swap _ _ _ h
  field_lines-Same (same_trans r s) n = trans (field_lines-Same r n) (field_lines-Same s n)

  slice_lines-Same :
      {xs ys : Items} → SameItems xs ys → (i n : ℕ) → slice_lines xs i n ≡ slice_lines ys i n
  slice_lines-Same same_nil i n = refl
  slice_lines-Same (same_cons r s) i n = rw (one_item-Same r i n, slice_lines-Same s (i + 1) n)

  one_item-Same : {v w : Value} → SameValue v w → (i n : ℕ) → one_item v i n ≡ one_item w i n
  one_item-Same (same_str s) i n = refl
  one_item-Same (same_other s) i n = refl
  one_item-Same (same_slice r) i n = rw (show-Same (same_slice r))
  one_item-Same (same_map r) i n =
      rw (visit-Reordered (λ t rest. t ++ rest) [] (field_lines-Same r (n + 1)))

joined-Same :
    {m n : Fields} → SameFields m n → (i : ℕ) → joined (field_lines m i) ≡ joined (field_lines n i)
joined-Same r i = visit-Reordered (λ t rest. t ++ rest) [] (field_lines-Same r i)

meta_lines-Same : {m n : Fields} → SameFields m n → meta_lines m ≡ meta_lines n
unfolding meta_lines
meta_lines-Same same_end = refl
meta_lines-Same (same_field k r s) = ap (λ t. newline ∷ t) (joined-Same (same_field k r s) 0)
meta_lines-Same (same_swap j k v w m h) =
    ap (λ t. newline ∷ t) (joined-Same (same_swap j k v w m h) 0)
meta_lines-Same (same_trans r s) = meta_lines-Same r ∙ meta_lines-Same s

rest_lines-Same : {es fs : List Entry} → SameEntries es fs → rest_lines es ≡ rest_lines fs
unfolding rest_lines entry_lines
rest_lines-Same same_none = refl
rest_lines-Same (same_entry o r s) = rw (meta_lines-Same r, rest_lines-Same s)

all_lines-Same : {es fs : List Entry} → SameEntries es fs → all_lines es ≡ all_lines fs
unfolding all_lines entry_lines
all_lines-Same same_none = refl
all_lines-Same (same_entry o r s) = rw (meta_lines-Same r, rest_lines-Same s)

-- Printing does not depend on the order in which `range` visits any of the maps, at any depth: on
-- the same data it writes the same and returns the same.
pub print_all-SameEntries :
    (W : Writer) {es fs : List Entry} (s : W.State)
    → SameEntries es fs
    → print_all W es s ≡ print_all W fs s
print_all-SameEntries W {es} {fs} s r =
    print_all_lines W es s ∙ (rw (all_lines-Same r) (sym (print_all_lines W fs s)))
