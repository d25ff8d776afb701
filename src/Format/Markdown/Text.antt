-- ===== src/Format/Markdown/Text.antt =====
-- format/markdown.go: the texts of single writes, and the fields of a map by kind.
use primordium.Base.{
  ℕ, ◌+◌, min, Bool, true, false, Bytes, codes, bytes_eq, find, Option, none, some, List, [], ◌∷◌,
  ◌++◌, if◌then◌else◌,
}
use primordium.Format.Data.{Value, str, map_of, slice_of, Fields, end, field}
use primordium.Format.Text.{newline, repeat, decimal}

-- A map of values that are neither maps nor slices.
abbrev pub Scalars : Type 0
Scalars = List (Bytes × Value)

unfoldable pub is_nested : Value → Bool
is_nested (map_of m) = true
is_nested (slice_of xs) = true
is_nested _ = false

-- The first result of `separateFields`.
unfoldable pub scalars : Fields → Scalars
unfolding is_nested
scalars end = []
scalars (field k v m) = let rest = scalars m in if is_nested v then rest else (k, v) ∷ rest

-- `delete(fields, key)`
unfoldable pub delete : Bytes → Scalars → Scalars
delete key [] = []
delete key ((k, v) ∷ m) = let rest = delete key m in if bytes_eq k key then rest else (k, v) ∷ rest

-- The spectrogram's path, if that field is a string.
abbrev pub Image : Type 0
Image = Option Bytes

abbrev pub string_of : Option Value → Image
string_of (some (str s)) = some s
string_of _ = none

unfoldable pub image_of : Scalars → Image
unfolding find
image_of fields = string_of (find (codes "spectrogram_path") fields)

-- The fields that are left for the table.
abbrev pub without : Image → Scalars → Scalars
without none fields = fields
without (some _) fields =
    delete (codes "spectrogram_rel_path") (delete (codes "spectrogram_path") fields)

unfoldable pub table_fields : Scalars → Scalars
unfolding image_of delete
table_fields fields = without (image_of fields) fields

abbrev pub max_heading_level : ℕ
max_heading_level = 6

-- `strings.Repeat(headingChar, min(level, maxHeadingLevel))`
unfoldable pub heading_mark : ℕ → Bytes
unfolding repeat
heading_mark level = repeat (min level max_heading_level) (codes "#")

-- `"%s %s\n\n"`
unfoldable pub heading : ℕ → Bytes → Bytes
unfolding heading_mark
heading level key = heading_mark level ++ codes " " ++ key ++ newline ++ newline

-- `"%s Stream %d\n\n"`
unfoldable pub item_heading : ℕ → ℕ → Bytes
unfolding heading_mark decimal
item_heading level index =
    heading_mark level ++ codes " Stream " ++ decimal (index + 1) ++ newline ++ newline

-- `"- %v\n"`
unfoldable pub item_text : Bytes → Bytes
item_text value = codes "- " ++ value ++ newline

abbrev pub table_header : Bytes
table_header = codes "| Field | Value |" ++ newline

abbrev pub table_rule : Bytes
table_rule = codes "|-------|-------|" ++ newline

abbrev pub table_end : Bytes
table_end = newline

-- `"| %s | %v |\n"`
unfoldable pub row : Bytes → Bytes → Bytes
row key value = codes "| " ++ key ++ codes " | " ++ value ++ codes " |" ++ newline

-- `"**Spectrogram:**\n\n![Spectrogram](%s)\n\n"`
unfoldable pub image_text : Bytes → Bytes
image_text path =
    codes "**Spectrogram:**"
    ++ newline
    ++ newline
    ++ codes "![Spectrogram]("
    ++ path
    ++ codes ")"
    ++ newline
    ++ newline

-- `"\n---\n\n"`
abbrev pub separator : Bytes
separator = newline ++ codes "---" ++ newline ++ newline

-- `"## %s\n\n"`
unfoldable pub title : Bytes → Bytes
title object = codes "## " ++ object ++ newline ++ newline
