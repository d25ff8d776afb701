-- ===== src/Format/Console/Lines.antt =====
-- format/console.go without a writer: the texts that printing data gives, in order.
use primordium.Base.{ℕ, ◌+◌, Bytes, List, [], ◌∷◌, ◌++◌}
use primordium.Format.Data.{Value, map_of, slice_of, Items, nil, cons, Fields, end, field, Entry}
use primordium.Format.Text.{newline, show}
use primordium.Format.Walk.{joined}
use primordium.Format.Console.Text.{
  separator, key_line, pair_line, index_line, item_line, path_line,
}

unfoldable mutual
  pub value_lines : Value → Bytes → ℕ → List Bytes
  value_lines (map_of m) key indent = key_line indent key ∷ joined (field_lines m (indent + 1))
  value_lines (slice_of xs) key indent = key_line indent key ∷ slice_lines xs 0 (indent + 1)
  value_lines v key indent = pair_line indent key (show v) ∷ []

  pub field_lines : Fields → ℕ → List (Bytes × List Bytes)
  field_lines end indent = []
  field_lines (field key v m) indent = (key, value_lines v key indent) ∷ field_lines m indent

  pub slice_lines : Items → ℕ → ℕ → List Bytes
  slice_lines nil index indent = []
  slice_lines (cons v xs) index indent =
      one_item v index indent ++ slice_lines xs (index + 1) indent

  pub one_item : Value → ℕ → ℕ → List Bytes
  one_item (map_of m) index indent = index_line indent index ∷ joined (field_lines m (indent + 1))
  one_item v index indent = item_line indent index (show v) ∷ []

unfoldable pub meta_lines : Fields → List Bytes
meta_lines end = []
meta_lines m = newline ∷ joined (field_lines m 0)

unfoldable pub entry_lines : Entry → List Bytes
unfolding meta_lines
entry_lines e = path_line e.object ∷ meta_lines e.meta

unfoldable pub rest_lines : List Entry → List Bytes
rest_lines [] = []
rest_lines (e ∷ es) = separator ∷ entry_lines e ++ rest_lines es

unfoldable pub all_lines : List Entry → List Bytes
unfolding rest_lines
all_lines [] = []
all_lines (e ∷ es) = entry_lines e ++ rest_lines es
