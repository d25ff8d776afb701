-- ===== src/Format/Markdown/Order.antt =====
-- format/markdown.go: the order in which `range` visits a map does not show.
use primordium.Base.{
  ℕ, ◌+◌, ◌≡◌, refl, sym, ap, ◌∙◌, Bool, true, false, Bool-cases, bytes_eq, inl, inr, Bytes, List,
  [], ◌∷◌, ◌++◌, none, some, ◌≢◌, if◌then◌else◌,
}
use primordium.Format.Data.{
  Value, Items, Fields, Entry, SameValue, same_str, same_other, same_map, same_slice, SameItems,
  same_nil, same_cons, SameFields, same_end, same_field, same_swap, same_trans, SameEntries,
  same_none, same_entry,
}
use primordium.Format.Writer.{Writer}
use primordium.Format.Keys.{Reordered, same, next, swap, trans, find-Reordered, visit-Reordered}
use primordium.Format.Walk.{joined}
use primordium.Format.Order.{next_eq, show-Same}
use primordium.Format.Markdown.Text.{
  Scalars, Image, scalars, is_nested, delete, string_of, without, image_of, table_fields,
}
use primordium.Format.Markdown.Lines.{
  row_lines, rows_lines, scalar_lines, value_lines, nested_lines, items_lines, one_item,
  field_lines, meta_lines, entry_lines, rest_lines, all_lines,
}
use primordium.Format.Markdown.{print_all}
use primordium.Format.Markdown.Laws.{print_all_texts}

joined-Reordered : {l m : List (Bytes × List Bytes)} → Reordered l m → joined l ≡ joined m
joined-Reordered r = visit-Reordered (λ t rest. t ++ rest) [] r

delete-Reordered : (k : Bytes) {l m : Scalars} → Reordered l m → Reordered (delete k l) (delete k m)
unfolding delete
delete-Reordered k (same l) = same _
delete-Reordered k (next (j, v) r) = elim (Bool-cases (bytes_eq j k)) [
  | inl gone ↦ rw gone (delete-Reordered k r)
  | inr kept ↦ rw kept (next _ (delete-Reordered k r))
]
delete-Reordered k (swap (i, v) (j, w) l h) = elim (Bool-cases (bytes_eq i k)) [
  | inl gone ↦ rw gone (same _)
  | inr kept ↦ rw kept (elim (Bool-cases (bytes_eq j k)) [
    | inl gone' ↦ rw gone' (same _)
    | inr kept' ↦ rw kept' (swap _ _ _ h)
  ])
]
delete-Reordered k (trans r s) = trans (delete-Reordered k r) (delete-Reordered k s)

image_of-Reordered : {l m : Scalars} → Reordered l m → image_of l ≡ image_of m
unfolding image_of
image_of-Reordered r = ap string_of (find-Reordered _ r)

without-Reordered :
    (i : Image) {l m : Scalars} → Reordered l m → Reordered (without i l) (without i m)
without-Reordered none r = r
without-Reordered (some p) r = delete-Reordered _ (delete-Reordered _ r)

table_fields-Reordered :
    {l m : Scalars} → Reordered l m → Reordered (table_fields l) (table_fields m)
unfolding table_fields
table_fields-Reordered {m} r = rw (image_of-Reordered r) (without-Reordered (image_of m) r)

-- Two fields in front, each only if its test says so, in either order.
swap_if {ℓ} :
    {A : Type ℓ} (b c : Bool) {j k : Bytes} (x y : A) (l : List (Bytes × A))
    → j ≢ k
    → let one = if c then (k, y) ∷ l else l in
      let two = if b then (j, x) ∷ l else l in
      Reordered (if b then (j, x) ∷ one else one) (if c then (k, y) ∷ two else two)
swap_if true true x y l h = swap _ _ _ h
swap_if true false x y l h = same _
swap_if false true x y l h = same _
swap_if false false x y l h = same _

row_lines-Reordered : {l m : Scalars} → Reordered l m → Reordered (row_lines l) (row_lines m)
unfolding row_lines
row_lines-Reordered (same l) = same _
row_lines-Reordered (next (k, v) r) = next _ (row_lines-Reordered r)
row_lines-Reordered (swap (j, v) (k, w) l h) = swap _ _ _ h
row_lines-Reordered (trans r s) = trans (row_lines-Reordered r) (row_lines-Reordered s)

rows_lines-Reordered : {l m : Scalars} → Reordered l m → rows_lines l ≡ rows_lines m
unfolding rows_lines
rows_lines-Reordered (same l) = refl
rows_lines-Reordered (next e r) = rw (joined-Reordered (row_lines-Reordered (next e r)))
rows_lines-Reordered (swap d e l h) = rw (joined-Reordered (row_lines-Reordered (swap d e l h)))
rows_lines-Reordered (trans r s) = rows_lines-Reordered r ∙ rows_lines-Reordered s

scalar_lines-Reordered : {l m : Scalars} → Reordered l m → scalar_lines l ≡ scalar_lines m
unfolding scalar_lines
scalar_lines-Reordered (same l) = refl
scalar_lines-Reordered (next e r) =
    rw (rows_lines-Reordered (table_fields-Reordered (next e r)), image_of-Reordered (next e r))
scalar_lines-Reordered (swap d e l h) = rw (
  rows_lines-Reordered (table_fields-Reordered (swap d e l h)),
  image_of-Reordered (swap d e l h),
)
scalar_lines-Reordered (trans r s) = scalar_lines-Reordered r ∙ scalar_lines-Reordered s

swap_unless {ℓ} :
    {A : Type ℓ} (b c : Bool) {j k : Bytes} (x y : A) (l : List (Bytes × A))
    → j ≢ k
    → let one = if c then l else (k, y) ∷ l in
      let two = if b then l else (j, x) ∷ l in
      Reordered (if b then one else (j, x) ∷ one) (if c then two else (k, y) ∷ two)
swap_unless true true x y l h = same _
swap_unless true false x y l h = same _
swap_unless false true x y l h = same _
swap_unless false false x y l h = swap _ _ _ h

is_nested-Same : {v w : Value} → SameValue v w → is_nested v ≡ is_nested w
unfolding is_nested
is_nested-Same (same_str s) = refl
is_nested-Same (same_other s) = refl
is_nested-Same (same_map r) = refl
is_nested-Same (same_slice r) = refl

flat-Same : {v w : Value} → SameValue v w → is_nested v ≡ false → v ≡ w
unfolding is_nested
flat-Same (same_str s) h = refl
flat-Same (same_other s) h = refl
flat-Same (same_map r) h = cc
flat-Same (same_slice r) h = cc

scalars-Same : {l m : Fields} → SameFields l m → Reordered (scalars l) (scalars m)
unfolding scalars
scalars-Same same_end = same []
scalars-Same (same_field k {v} r s) = elim (Bool-cases (is_nested v)) [
  | inl deep ↦ rw (← is_nested-Same r, deep) (scalars-Same s)
  | inr flat ↦ rw (← is_nested-Same r, flat) (next_eq k (flat-Same r flat) (scalars-Same s))
]
scalars-Same (same_swap j k v w m h) = swap_unless (is_nested v) (is_nested w) v w (scalars m) h
scalars-Same (same_trans r s) = trans (scalars-Same r) (scalars-Same s)

mutual
  unfolding value_lines

  value_lines-Same :
      {v w : Value}
      → SameValue v w
      → (key : Bytes) (n : ℕ) → value_lines v key n ≡ value_lines w key n
  value_lines-Same (same_str s) key n = refl
  value_lines-Same (same_other s) key n = refl
  value_lines-Same (same_map r) key n =
      rw (scalar_lines-Reordered (scalars-Same r), joined-Reordered (nested_lines-Same r (n + 1)))
  value_lines-Same (same_slice r) key n = rw (items_lines-Same r 0 n)

  nested_lines-Same :
      {l m : Fields} → SameFields l m → (n : ℕ) → Reordered (nested_lines l n) (nested_lines m n)
  nested_lines-Same same_end n = same []
  nested_lines-Same (same_field k {v} r s) n = elim (Bool-cases (is_nested v)) [
    | inl deep ↦
        rw (← is_nested-Same r, deep) (next_eq k (value_lines-Same r k n) (nested_lines-Same s n))
    | inr flat ↦ rw (← is_nested-Same r, flat) (nested_lines-Same s n)
  ]
  nested_lines-Same (same_swap j k v w m h) n =
      swap_if (is_nested v) (is_nested w) (value_lines v j n) (value_lines w k n) (nested_lines m n)
        h
  nested_lines-Same (same_trans r s) n = trans (nested_lines-Same r n) (nested_lines-Same s n)

  items_lines-Same :
      {xs ys : Items} → SameItems xs ys → (i n : ℕ) → items_lines xs i n ≡ items_lines ys i n
  items_lines-Same same_nil i n = refl
  items_lines-Same (same_cons r s) i n = rw (one_item-Same r i n, items_lines-Same s (i + 1) n)

  one_item-Same : {v w : Value} → SameValue v w → (i n : ℕ) → one_item v i n ≡ one_item w i n
  one_item-Same (same_str s) i n = refl
  one_item-Same (same_other s) i n = refl
  one_item-Same (same_slice r) i n = rw (show-Same (same_slice r))
  one_item-Same (same_map r) i n =
      rw (scalar_lines-Reordered (scalars-Same r), joined-Reordered (nested_lines-Same r (n + 2)))

field_lines-Same :
    {l m : Fields} → SameFields l m → (n : ℕ) → Reordered (field_lines l n) (field_lines m n)
unfolding field_lines
field_lines-Same same_end n = same []
field_lines-Same (same_field k r s) n = next_eq k (value_lines-Same r k n) (field_lines-Same s n)
field_lines-Same (same_swap j k v w m h) n = swap _ _ _ h
field_lines-Same (same_trans r s) n = trans (field_lines-Same r n) (field_lines-Same s n)

meta_lines-Same : {m n : Fields} → SameFields m n → meta_lines m ≡ meta_lines n
unfolding meta_lines
meta_lines-Same same_end = refl
meta_lines-Same (same_field k r s) = joined-Reordered (field_lines-Same (same_field k r s) 3)
meta_lines-Same (same_swap j k v w m h) =
    joined-Reordered (field_lines-Same (same_swap j k v w m h) 3)
meta_lines-Same (same_trans r s) = meta_lines-Same r ∙ meta_lines-Same s

rest_lines-Same : {es fs : List Entry} → SameEntries es fs → rest_lines es ≡ rest_lines fs
unfolding rest_lines entry_lines
rest_lines-Same same_none = refl
rest_lines-Same (same_entry o r s) = rw (meta_lines-Same r, rest_lines-Same s)

all_lines-Same : {es fs : List Entry} → SameEntries es fs → all_lines es ≡ all_lines fs
unfolding all_lines entry_lines
all_lines-Same same_none = refl
all_lines-Same (same_entry o r s) = rw (meta_lines-Same r, rest_lines-Same s)

-- Printing does not depend on the order in which `range` visits any of the maps, at any depth: on
-- the same data it writes the same and returns the same.
pub print_all_unordered :
    (W : Writer) {es fs : List Entry} (s : W.State)
    → SameEntries es fs
    → print_all W es s ≡ print_all W fs s
print_all_unordered W {es} {fs} s r =
    print_all_texts W es s ∙ (rw (all_lines-Same r) (sym (print_all_texts W fs s)))
