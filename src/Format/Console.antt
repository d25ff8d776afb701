-- ===== src/Format/Console.antt =====
-- format/console.go: human-readable key-value pairs. A function that prints takes the writer's state
-- and gives the new one with the error, if any. `fmt.Fprintf` writes its whole text at once.
pub mod Text
pub mod Lines
pub mod Laws
pub mod Order
mod Examples
use primordium.Base.{ℕ, zero, suc, ◌+◌, Bytes, codes, List, [], ◌∷◌, ◌++◌, replicate}
use primordium.Format.Data.{
  Value, str, other, map_of, slice_of, Items, nil, cons, Fields, end, field, Entry,
}
use primordium.Format.Writer.{Writer, Print, emit, done, ◌then_do◌}
use primordium.Format.Text.{newline, show}
use primordium.Format.Walk.{by_keys}
use Text.{separator, key_line, pair_line, index_line, item_line, path_line}

module _ (W : Writer) where
  unfoldable mutual
    pub print_value : Value → Bytes → ℕ → Print W
    print_value (map_of m) key indent =
        ◌then_do◌ W (emit W (key_line indent key)) (by_keys W (printers m (indent + 1)))
    print_value (slice_of xs) key indent =
        ◌then_do◌ W (emit W (key_line indent key)) (print_slice xs 0 (indent + 1))
    print_value v key indent = emit W (pair_line indent key (show v))

    -- What `printMap` does at each key.
    pub printers : Fields → ℕ → List (Bytes × Print W)
    printers end indent = []
    printers (field key v m) indent = (key, print_value v key indent) ∷ printers m indent

    -- The loop of `printSlice` from `index` on.
    pub print_slice : Items → ℕ → ℕ → Print W
    print_slice nil index indent = done W
    print_slice (cons v xs) index indent =
        ◌then_do◌ W (print_item v index indent) (print_slice xs (index + 1) indent)

    pub print_item : Value → ℕ → ℕ → Print W
    print_item (map_of m) index indent =
        ◌then_do◌ W (emit W (index_line indent index)) (by_keys W (printers m (indent + 1)))
    print_item v index indent = emit W (item_line indent index (show v))

  -- `printMap`
  unfoldable pub print_map : Fields → ℕ → Print W
  unfolding print_value
  print_map m indent = by_keys W (printers m indent)

  print_meta : Fields → Print W
  print_meta end = done W
  print_meta m = ◌then_do◌ W (emit W newline) (print_map m 0)

  unfoldable pub print_one : Entry → Print W
  unfolding print_meta
  print_one e = ◌then_do◌ W (emit W (path_line e.object)) (print_meta e.meta)

  -- The entries from the second on, each behind a rule.
  print_rest : List Entry → Print W
  print_rest [] = done W
  print_rest (e ∷ es) = ◌then_do◌ W (emit W separator) (◌then_do◌ W (print_one e) (print_rest es))

  -- `PrintAll`
  unfoldable pub print_all : List Entry → Print W
  unfolding print_rest
  print_all [] = done W
  print_all (e ∷ es) = ◌then_do◌ W (print_one e) (print_rest es)
