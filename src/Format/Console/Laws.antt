-- ===== src/Format/Console/Laws.antt =====
-- format/console.go: what is written, to any writer.
use primordium.Base.{ℕ, ◌+◌, ◌≡◌, refl, sym, ap, Bytes, List, [], ◌∷◌}
use primordium.Format.Data.{
  Value, str, other, map_of, slice_of, Items, nil, cons, Fields, end, field, Entry,
}
use primordium.Format.Writer.{Writer, Print, write_all, write_all-one, write_all-nil}
use primordium.Format.Keys.{map_values}
use primordium.Format.Walk.{cons_lines, append_lines, by_keys_lines}
use primordium.Format.Console.Lines.{
  value_lines, field_lines, slice_lines, one_item, meta_lines, entry_lines, rest_lines, all_lines,
}
use primordium.Format.Console.{
  print_value, printers, print_slice, print_item, print_map, print_meta, print_one, print_rest,
  print_all,
}

module _ (W : Writer) where
  mutual
    unfolding print_value value_lines

    print_value_lines :
        (v : Value) (key : Bytes) (n : ℕ)
        → print_value W v key n ≡ write_all W (value_lines v key n)
    print_value_lines (str s) key n = sym (write_all-one W _)
    print_value_lines (other s) key n = sym (write_all-one W _)
    print_value_lines (map_of m) key n =
        cons_lines W _ _ _ (by_keys_lines W _ _ (printers_lines m (n + 1)))
    print_value_lines (slice_of xs) key n = cons_lines W _ _ _ (print_slice_lines xs 0 (n + 1))

    printers_lines :
        (m : Fields) (n : ℕ) → printers W m n ≡ map_values (write_all W) (field_lines m n)
    printers_lines end n = refl
    printers_lines (field key v m) n = rw (print_value_lines v key n, printers_lines m n)

    print_slice_lines :
        (xs : Items) (i n : ℕ) → print_slice W xs i n ≡ write_all W (slice_lines xs i n)
    print_slice_lines nil i n = write_all-nil W
    print_slice_lines (cons v xs) i n =
        append_lines W _ _ _ _ (print_item_lines v i n) (print_slice_lines xs (i + 1) n)

    print_item_lines : (v : Value) (i n : ℕ) → print_item W v i n ≡ write_all W (one_item v i n)
    print_item_lines (str s) i n = sym (write_all-one W _)
    print_item_lines (other s) i n = sym (write_all-one W _)
    print_item_lines (slice_of xs) i n = sym (write_all-one W _)
    print_item_lines (map_of m) i n =
        cons_lines W _ _ _ (by_keys_lines W _ _ (printers_lines m (n + 1)))

  print_meta_lines : (m : Fields) → print_meta W m ≡ write_all W (meta_lines m)
  unfolding print_meta meta_lines print_map
  print_meta_lines end = write_all-nil W
  print_meta_lines (field k v m) =
      cons_lines W _ _ _ (by_keys_lines W _ _ (printers_lines (field k v m) 0))

  print_one_lines : (e : Entry) → print_one W e ≡ write_all W (entry_lines e)
  unfolding print_one entry_lines
  print_one_lines e = cons_lines W _ _ _ (print_meta_lines e.meta)

  print_rest_lines : (es : List Entry) → print_rest W es ≡ write_all W (rest_lines es)
  unfolding print_rest rest_lines
  print_rest_lines [] = write_all-nil W
  print_rest_lines (e ∷ es) =
      cons_lines W _ _ _ (append_lines W _ _ _ _ (print_one_lines e) (print_rest_lines es))

  -- Printing is writing the lines of the data one by one, in order: it stops at the first write that
  -- fails and returns that failure, wrapped, with nothing written after it.
  pub print_all_lines :
      (es : List Entry) (s : W.State) → print_all W es s ≡ write_all W (all_lines es) s
  unfolding print_all all_lines
  print_all_lines [] s = ap (λ (p : Print W). p s) (write_all-nil W)
  print_all_lines (e ∷ es) s =
      ap (λ (p : Print W). p s) (append_lines W _ _ _ _ (print_one_lines e) (print_rest_lines es))
