-- ===== src/Format/Markdown/Laws.antt =====
-- format/markdown.go: what is written, to any writer.
use primordium.Base.{
  ℕ, ◌+◌, ◌≡◌, refl, sym, ap, Bool-cases, inl, inr, none, some, Bytes, List, [], ◌∷◌,
}
use primordium.Format.Data.{
  Value, str, other, map_of, slice_of, Items, nil, cons, Fields, end, field, Entry,
}
use primordium.Format.Writer.{Writer, Print, write_all, write_all-one, write_all-nil}
use primordium.Format.Keys.{map_values}
use primordium.Format.Walk.{cons_lines, append_lines, by_keys_lines}
use primordium.Format.Markdown.Text.{Scalars, scalars, is_nested, Image, image_of, table_fields}
use primordium.Format.Markdown.Lines.{
  row_lines, rows_lines, image_lines, scalar_lines, value_lines, nested_lines, items_lines,
  one_item, field_lines, meta_lines, entry_lines, rest_lines, all_lines,
}
use primordium.Format.Markdown.{
  row_printers, print_rows, print_image, print_table, print_scalars, print_value, nested,
  print_items, print_item, printers, print_map, print_meta, print_one, print_rest, print_all,
}

module _ (W : Writer) where
  row_printers_lines : (m : Scalars) → row_printers W m ≡ map_values (write_all W) (row_lines m)
  unfolding row_printers row_lines
  row_printers_lines [] = refl
  row_printers_lines ((k, v) ∷ m) = rw (row_printers_lines m, write_all-one)

  print_rows_lines : (m : Scalars) → print_rows W m ≡ write_all W (rows_lines m)
  unfolding print_rows rows_lines
  print_rows_lines [] = write_all-nil W
  print_rows_lines (e ∷ m) = cons_lines W _ _ _ (
      cons_lines W _ _ _ (
        append_lines W _ _ _ _ (by_keys_lines W _ _ (row_printers_lines (e ∷ m)))
          (sym (write_all-one W _))))

  print_image_lines : (i : Image) → print_image W i ≡ write_all W (image_lines i)
  unfolding print_image image_lines
  print_image_lines none = write_all-nil W
  print_image_lines (some []) = write_all-nil W
  print_image_lines (some (c ∷ s)) = sym (write_all-one W _)

  print_scalars_lines : (m : Scalars) → print_scalars W m ≡ write_all W (scalar_lines m)
  unfolding print_scalars scalar_lines print_table
  print_scalars_lines [] = write_all-nil W
  print_scalars_lines (e ∷ m) =
      append_lines W _ _ _ _ (print_rows_lines (table_fields (e ∷ m)))
        (print_image_lines (image_of (e ∷ m)))

  mutual
    unfolding print_value value_lines

    print_value_lines :
        (v : Value) (key : Bytes) (n : ℕ)
        → print_value W v key n ≡ write_all W (value_lines v key n)
    print_value_lines (str s) key n = write_all-nil W
    print_value_lines (other s) key n = write_all-nil W
    print_value_lines (map_of m) key n = cons_lines W _ _ _ (
        append_lines W _ _ _ _ (print_scalars_lines (scalars m))
          (by_keys_lines W _ _ (nested_lines_lem m (n + 1))))
    print_value_lines (slice_of xs) key n = cons_lines W _ _ _ (print_items_lines xs 0 n)

    nested_lines_lem :
        (m : Fields) (n : ℕ) → nested W m n ≡ map_values (write_all W) (nested_lines m n)
    nested_lines_lem end n = refl
    nested_lines_lem (field key v m) n =
        rw (print_value_lines v key n, nested_lines_lem m n)
          (elim (Bool-cases (is_nested v)) [ inl deep ↦ rw deep | inr flat ↦ rw flat ])

    print_items_lines :
        (xs : Items) (i n : ℕ) → print_items W xs i n ≡ write_all W (items_lines xs i n)
    print_items_lines nil i n = write_all-nil W
    print_items_lines (cons v xs) i n =
        append_lines W _ _ _ _ (print_item_lines v i n) (print_items_lines xs (i + 1) n)

    print_item_lines : (v : Value) (i n : ℕ) → print_item W v i n ≡ write_all W (one_item v i n)
    print_item_lines (str s) i n = sym (write_all-one W _)
    print_item_lines (other s) i n = sym (write_all-one W _)
    print_item_lines (slice_of xs) i n = sym (write_all-one W _)
    print_item_lines (map_of m) i n = cons_lines W _ _ _ (
        append_lines W _ _ _ _ (print_scalars_lines (scalars m))
          (by_keys_lines W _ _ (nested_lines_lem m (n + 2))))

  printers_lines :
      (m : Fields) (n : ℕ) → printers W m n ≡ map_values (write_all W) (field_lines m n)
  unfolding printers field_lines
  printers_lines end n = refl
  printers_lines (field key v m) n = rw (print_value_lines v key n, printers_lines m n)

  print_meta_lines : (m : Fields) → print_meta W m ≡ write_all W (meta_lines m)
  unfolding print_meta meta_lines print_map
  print_meta_lines end = write_all-nil W
  print_meta_lines (field k v m) = by_keys_lines W _ _ (printers_lines (field k v m) 3)

  print_one_lines : (e : Entry) → print_one W e ≡ write_all W (entry_lines e)
  unfolding print_one entry_lines
  print_one_lines e = cons_lines W _ _ _ (print_meta_lines e.meta)

  print_rest_lines : (es : List Entry) → print_rest W es ≡ write_all W (rest_lines es)
  unfolding print_rest rest_lines
  print_rest_lines [] = write_all-nil W
  print_rest_lines (e ∷ es) =
      cons_lines W _ _ _ (append_lines W _ _ _ _ (print_one_lines e) (print_rest_lines es))

  -- Printing is writing the lines of the data one by one, in order: it stops at the first write that
  -- fails and returns that failure, wrapped, with nothing written after it. A field at the top of Meta
  -- that is neither a map nor a slice has no text, so the printer loses it.
  pub print_all_texts :
      (es : List Entry) (s : W.State) → print_all W es s ≡ write_all W (all_lines es) s
  unfolding print_all all_lines
  print_all_texts [] s = ap (λ (p : Print W). p s) (write_all-nil W)
  print_all_texts (e ∷ es) s =
      ap (λ (p : Print W). p s) (append_lines W _ _ _ _ (print_one_lines e) (print_rest_lines es))
