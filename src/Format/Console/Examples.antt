-- ===== src/Format/Console/Examples.antt =====
-- format/console.go: runs of the model to a buffer that may be full, and the theorems there.
use primordium.Base.{◌≡◌, ◌≢◌, refl, codes, bytes_eq, none, some, [], ◌∷◌, ◌++◌}
use primordium.Errors.{sentinel, wrap}
use primordium.Format.Data.{str, other, Fields, end, field, Entry, same_none, same_entry, same_swap}
use primordium.Format.Buffer.{put, buffer, empty}
use primordium.Format.Writer.{emit, write_all}
use primordium.Format.Keys.{visit}
use primordium.Format.Text.{newline, show}
use primordium.Format.Console.Text.{pair_line, path_line}
use primordium.Format.Console.Lines.{all_lines}
use primordium.Format.Console.{print_map, print_one, print_all}
use primordium.Format.Console.Laws.{print_all_lines}
use primordium.Format.Console.Order.{print_all-SameEntries}

abbrev song : Fields
song = field (codes "rate") (other (codes "44100")) (field (codes "codec") (str (codes "flac")) end)

abbrev entry : Fields → Entry
entry m = record { object = codes "a"; meta = m }

prints : print_all buffer (entry song ∷ []) (empty 9) ≡ (
  record {
    text =
        path_line (codes "a")
        ++ newline
        ++ codes "codec: flac"
        ++ newline
        ++ codes "rate: 44100"
        ++ newline;
    room = 5;
  },
  none,
)
unfolding print_all print_one print_map visit bytes_eq emit put path_line pair_line show
prints = refl

full :
    print_all buffer (entry song ∷ []) (empty 1)
    ≡ (record { text = path_line (codes "a"); room = 0 }, some (wrap (sentinel 92)))
unfolding print_all print_one print_map visit bytes_eq emit put path_line pair_line show
full = refl

print_all_lines_example :
    print_all buffer (entry song ∷ []) (empty 2)
    ≡ write_all buffer (all_lines (entry song ∷ [])) (empty 2)
print_all_lines_example = print_all_lines buffer (entry song ∷ []) (empty 2)

abbrev song_swapped : Fields
song_swapped =
    field (codes "codec") (str (codes "flac")) (field (codes "rate") (other (codes "44100")) end)

keys_differ : codes "rate" ≢ codes "codec"
keys_differ h = cc

print_all-SameEntries_example :
    print_all buffer (entry song ∷ []) (empty 9)
    ≡ print_all buffer (entry song_swapped ∷ []) (empty 9)
print_all-SameEntries_example = print_all-SameEntries buffer (empty 9) (
    same_entry (codes "a")
      (same_swap (codes "rate") (codes "codec") (other (codes "44100")) (str (codes "flac")) end
        keys_differ)
      same_none)
