-- ===== src/Format/Markdown.antt =====
-- format/markdown.go: headings and tables. The functions that print are as in Format/Console.
pub mod Text
pub mod Lines
pub mod Laws
pub mod Order
mod Examples
use primordium.Base.{none, some, ℕ, ◌+◌, Bool, Bytes, List, [], ◌∷◌, if◌then◌else◌}
use primordium.Format.Data.{Value, map_of, slice_of, Items, nil, cons, Fields, end, field, Entry}
use primordium.Format.Writer.{Writer, Print, emit, done, ◌then_do◌}
use primordium.Format.Text.{show}
use primordium.Format.Walk.{by_keys}
use Text.{
  Scalars, scalars, is_nested, Image, image_of, table_fields, heading, table_header, table_rule,
  table_end, row, image_text, item_heading, item_text, separator, title,
}

module _ (W : Writer) where
  -- What the loop over the table's rows does at each key.
  row_printers : Scalars → List (Bytes × Print W)
  row_printers [] = []
  row_printers ((key, v) ∷ fields) = (key, emit W (row key (show v))) ∷ row_printers fields

  print_rows : Scalars → Print W
  unfolding row_printers
  print_rows [] = done W
  print_rows fields = ◌then_do◌ W (emit W table_header) (
      ◌then_do◌ W (emit W table_rule)
        (◌then_do◌ W (by_keys W (row_printers fields)) (emit W table_end)))

  -- The image, if `spectrogramPath != ""`.
  print_image : Image → Print W
  print_image none = done W
  print_image (some []) = done W
  print_image (some (c ∷ s)) = emit W (image_text (c ∷ s))

  unfoldable pub print_table : Scalars → Print W
  unfolding print_rows print_image
  print_table fields =
      ◌then_do◌ W (print_rows (table_fields fields)) (print_image (image_of fields))

  -- The table of a map's scalar fields, if there are any.
  unfoldable pub print_scalars : Scalars → Print W
  print_scalars [] = done W
  print_scalars fields = print_table fields

  unfoldable mutual
    pub print_value : Value → Bytes → ℕ → Print W
    print_value (map_of m) key level =
        ◌then_do◌ W (emit W (heading level key))
          (◌then_do◌ W (print_scalars (scalars m)) (by_keys W (nested m (level + 1))))
    print_value (slice_of xs) key level =
        ◌then_do◌ W (emit W (heading level key)) (print_items xs 0 level)
    print_value v key level = done W

    -- What the loop over the nested fields does at each key.
    pub nested : Fields → ℕ → List (Bytes × Print W)
    nested end level = []
    nested (field key v m) level =
        let rest = nested m level in
        let this = print_value v key level in if is_nested v then (key, this) ∷ rest else rest

    -- The loop of `printSliceSection` from `index` on.
    pub print_items : Items → ℕ → ℕ → Print W
    print_items nil index level = done W
    print_items (cons v xs) index level =
        ◌then_do◌ W (print_item v index level) (print_items xs (index + 1) level)

    pub print_item : Value → ℕ → ℕ → Print W
    print_item (map_of m) index level =
        ◌then_do◌ W (emit W (item_heading (level + 1) index))
          (◌then_do◌ W (print_scalars (scalars m)) (by_keys W (nested m (level + 2))))
    print_item v index level = emit W (item_text (show v))

  -- What the loop of `printMap` does at each key.
  printers : Fields → ℕ → List (Bytes × Print W)
  printers end level = []
  printers (field key v m) level = (key, print_value v key level) ∷ printers m level

  unfoldable pub print_map : Fields → ℕ → Print W
  unfolding printers
  print_map m level = by_keys W (printers m level)

  print_meta : Fields → Print W
  print_meta end = done W
  print_meta m = print_map m 3

  unfoldable pub print_one : Entry → Print W
  unfolding print_meta
  print_one e = ◌then_do◌ W (emit W (title e.object)) (print_meta e.meta)

  -- The entries from the second on, each behind a rule.
  print_rest : List Entry → Print W
  print_rest [] = done W
  print_rest (e ∷ es) = ◌then_do◌ W (emit W separator) (◌then_do◌ W (print_one e) (print_rest es))

  -- `PrintAll`
  unfoldable pub print_all : List Entry → Print W
  unfolding print_rest
  print_all [] = done W
  print_all (e ∷ es) = ◌then_do◌ W (print_one e) (print_rest es)
