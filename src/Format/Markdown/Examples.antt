-- ===== src/Format/Markdown/Examples.antt =====
-- format/markdown.go: runs of the model to a buffer that may be full, and the theorems there.
use primordium.Base.{◌≡◌, ◌≢◌, refl, codes, bytes_eq, none, [], ◌∷◌, ◌++◌}
use primordium.Format.Data.{
  str, other, map_of, Fields, end, field, Entry, same_none, same_entry, same_swap, same_field,
  same_map, same_end,
}
use primordium.Format.Buffer.{put, buffer, empty}
use primordium.Format.Writer.{emit, write_all}
use primordium.Format.Keys.{visit}
use primordium.Format.Text.{newline, show}
use primordium.Format.Markdown.Text.{
  scalars, is_nested, table_fields, heading, row, title, image_text, table_header, table_rule,
}
use primordium.Format.Markdown.Lines.{all_lines}
use primordium.Format.Markdown.{
  print_value, print_scalars, print_table, print_map, print_one, print_all,
}
use primordium.Format.Markdown.Laws.{print_all_texts}
use primordium.Format.Markdown.Order.{print_all_unordered}

abbrev tags : Fields
tags = field (codes "year") (other (codes "1999")) (field (codes "artist") (str (codes "x")) end)

abbrev entry : Fields → Entry
entry m = record { object = codes "a"; meta = field (codes "tags") (map_of m) end }

prints : print_all buffer (entry tags ∷ []) (empty 9) ≡ (
  record {
    text =
        title (codes "a")
        ++ heading 3 (codes "tags")
        ++ table_header
        ++ table_rule
        ++ row (codes "artist") (codes "x")
        ++ row (codes "year") (codes "1999")
        ++ newline;
    room = 2;
  },
  none,
)
unfolding print_all print_one print_map print_value print_scalars print_table scalars is_nested
    table_fields visit bytes_eq emit put show title heading row
prints = refl

-- The spectrogram's fields leave the table and become an image.
image :
    print_all buffer
      (entry (
          field
            (codes "spectrogram_path")
            (str (codes "p"))
            (field (codes "spectrogram_rel_path") (str (codes "q")) end))
        ∷ [])
      (empty 9)
    ≡ (
      record {
        text = title (codes "a") ++ heading 3 (codes "tags") ++ image_text (codes "p");
        room = 6;
      },
      none,
    )
unfolding print_all print_one print_map print_value print_scalars print_table scalars is_nested
    table_fields visit bytes_eq emit put show title heading row image_text
image = refl

print_all_texts_example :
    print_all buffer (entry tags ∷ []) (empty 2)
    ≡ write_all buffer (all_lines (entry tags ∷ [])) (empty 2)
print_all_texts_example = print_all_texts buffer (entry tags ∷ []) (empty 2)

abbrev tags_swapped : Fields
tags_swapped =
    field (codes "artist") (str (codes "x")) (field (codes "year") (other (codes "1999")) end)

keys_differ : codes "year" ≢ codes "artist"
keys_differ h = cc

print_all_unordered_example :
    print_all buffer (entry tags ∷ []) (empty 9)
    ≡ print_all buffer (entry tags_swapped ∷ []) (empty 9)
print_all_unordered_example = print_all_unordered buffer (empty 9) (
    same_entry (codes "a")
      (same_field (codes "tags")
        (same_map (
          same_swap (codes "year") (codes "artist") (other (codes "1999")) (str (codes "x")) end
            keys_differ))
        same_end)
      same_none)
