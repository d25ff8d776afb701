-- ===== src/Format/Json.antt =====
-- format/json.go: an indented JSON array. The encoder of encoding/json is a parameter. It sees more of
-- the data than the other printers, such as the types of the values, so the type of the data is a
-- parameter too.
use primordium.Base.{Bytes, codes, [], List}
use primordium.Format.Writer.{Writer, Print, wrapped}

-- An encoder on a writer: `SetIndent` with a prefix and an indent, then `Encode`.
pub record Encoder (Data : Type 0) : Type 1 where
  pub encode : (W : Writer) → Bytes → Bytes → List Data → Print W

-- `PrintAll`
unfoldable pub print_all : {Data : Type 0} → Encoder Data → (W : Writer) → List Data → Print W
print_all E W es s = wrapped W (E.encode W [] (codes "  ") es s)
