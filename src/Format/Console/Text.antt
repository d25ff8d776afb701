-- ===== src/Format/Console/Text.antt =====
-- format/console.go: the texts of single lines.
use primordium.Base.{ℕ, Bytes, codes, [], ◌∷◌, ◌++◌}
use primordium.Format.Text.{newline, repeat, decimal}

abbrev pub indent_unit : Bytes
indent_unit = codes "  "

-- 80 times U+2500, in UTF-8.
unfoldable pub rule_separator : Bytes
unfolding repeat
rule_separator = repeat 80 (0xe2 ∷ 0x94 ∷ 0x80 ∷ [])

-- `strings.Repeat(indentUnit, indent)`
unfoldable pub prefix : ℕ → Bytes
unfolding repeat
prefix indent = repeat indent indent_unit

-- `"%s%s:\n"`
unfoldable pub key_line : ℕ → Bytes → Bytes
unfolding prefix
key_line indent key = prefix indent ++ key ++ codes ":" ++ newline

-- `"%s%s: %v\n"`
unfoldable pub pair_line : ℕ → Bytes → Bytes → Bytes
unfolding prefix
pair_line indent key value = prefix indent ++ key ++ codes ": " ++ value ++ newline

-- `"%s[%d]:\n"`
unfoldable pub index_line : ℕ → ℕ → Bytes
unfolding prefix decimal
index_line indent index = prefix indent ++ codes "[" ++ decimal index ++ codes "]:" ++ newline

-- `"%s[%d]: %v\n"`
unfoldable pub item_line : ℕ → ℕ → Bytes → Bytes
unfolding prefix decimal
item_line indent index value =
    prefix indent ++ codes "[" ++ decimal index ++ codes "]: " ++ value ++ newline

-- `"Path: %s\n"`
unfoldable pub path_line : Bytes → Bytes
path_line object = codes "Path: " ++ object ++ newline

-- `"\n%s\n\n"`
unfoldable pub separator : Bytes
unfolding rule_separator
separator = newline ++ rule_separator ++ newline ++ newline
