-- ===== src/Format/Markdown/Lines.antt =====
-- format/markdown.go without a writer: the texts that printing data gives, in order.
use primordium.Base.{ℕ, ◌+◌, none, some, Bytes, List, [], ◌∷◌, ◌++◌, if◌then◌else◌}
use primordium.Format.Data.{Value, map_of, slice_of, Items, nil, cons, Fields, end, field, Entry}
use primordium.Format.Text.{show}
use primordium.Format.Walk.{joined}
use primordium.Format.Markdown.Text.{
  Scalars, scalars, is_nested, Image, image_of, table_fields, heading, table_header, table_rule,
  table_end, row, image_text, item_heading, item_text, separator, title,
}

unfoldable pub row_lines : Scalars → List (Bytes × List Bytes)
row_lines [] = []
row_lines ((key, v) ∷ fields) = (key, row key (show v) ∷ []) ∷ row_lines fields

unfoldable pub rows_lines : Scalars → List Bytes
rows_lines [] = []
rows_lines fields = table_header ∷ table_rule ∷ joined (row_lines fields) ++ table_end ∷ []

unfoldable pub image_lines : Image → List Bytes
image_lines none = []
image_lines (some []) = []
image_lines (some (c ∷ s)) = image_text (c ∷ s) ∷ []

unfoldable pub scalar_lines : Scalars → List Bytes
scalar_lines [] = []
scalar_lines fields = rows_lines (table_fields fields) ++ image_lines (image_of fields)

unfoldable mutual
  pub value_lines : Value → Bytes → ℕ → List Bytes
  value_lines (map_of m) key level =
      heading level key ∷ scalar_lines (scalars m) ++ joined (nested_lines m (level + 1))
  value_lines (slice_of xs) key level = heading level key ∷ items_lines xs 0 level
  value_lines v key level = []

  pub nested_lines : Fields → ℕ → List (Bytes × List Bytes)
  nested_lines end level = []
  nested_lines (field key v m) level =
      let rest = nested_lines m level in
      let this = value_lines v key level in if is_nested v then (key, this) ∷ rest else rest

  pub items_lines : Items → ℕ → ℕ → List Bytes
  items_lines nil index level = []
  items_lines (cons v xs) index level = one_item v index level ++ items_lines xs (index + 1) level

  pub one_item : Value → ℕ → ℕ → List Bytes
  one_item (map_of m) index level =
      item_heading (level + 1) index ∷ scalar_lines (scalars m)
      ++ joined (nested_lines m (level + 2))
  one_item v index level = item_text (show v) ∷ []

unfoldable pub field_lines : Fields → ℕ → List (Bytes × List Bytes)
field_lines end level = []
field_lines (field key v m) level = (key, value_lines v key level) ∷ field_lines m level

unfoldable pub meta_lines : Fields → List Bytes
meta_lines end = []
meta_lines m = joined (field_lines m 3)

unfoldable pub entry_lines : Entry → List Bytes
unfolding meta_lines
entry_lines e = title e.object ∷ meta_lines e.meta

unfoldable pub rest_lines : List Entry → List Bytes
rest_lines [] = []
rest_lines (e ∷ es) = separator ∷ entry_lines e ++ rest_lines es

unfoldable pub all_lines : List Entry → List Bytes
unfolding rest_lines
all_lines [] = []
all_lines (e ∷ es) = entry_lines e ++ rest_lines es
