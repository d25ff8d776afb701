-- ===== src/Format/Text.antt =====
-- What the printers use of Go's packages fmt and strings: `%d`, `%v` and `strings.Repeat`.
use primordium.Base.{
  ℕ, zero, suc, ◌+◌, ◌/◌, ◌%◌, Bytes, codes, List, [], ◌∷◌, ◌++◌, ltb, if◌then◌else◌,
}
use primordium.Format.Data.{
  Value, str, other, map_of, slice_of, Items, nil, cons, Fields, end, field,
}
use primordium.Format.Keys.{visit}

abbrev pub newline : Bytes
newline = 0x0a ∷ []

-- `strings.Repeat`
unfoldable pub repeat : ℕ → Bytes → Bytes
repeat zero s = []
repeat (suc n) s = s ++ repeat n s

-- `%d`, on fuel; the number of digits of `n` is at most `n + 1`.
digits_onto : ℕ → ℕ → Bytes → Bytes
digits_onto zero n s = s
digits_onto (suc f) n s =
    let d = (n % 10 + b'0') ∷ s in
    let more = digits_onto f (n / 10) d in if ltb n 10 then d else more

unfoldable pub decimal : ℕ → Bytes
unfolding digits_onto
decimal n = digits_onto (n + 1) n []

-- Texts with a space between two of them.
unfoldable pub spaced : List Bytes → Bytes
spaced [] = []
spaced (s ∷ []) = s
spaced (s ∷ t ∷ ts) = s ++ codes " " ++ spaced (t ∷ ts)

-- `%v`: a slice as `[a b]`, a map as `map[k:v k:v]` with its keys sorted.
unfoldable mutual
  unfolding visit spaced

  pub show : Value → Bytes
  show (str s) = s
  show (other s) = s
  show (slice_of xs) = codes "[" ++ spaced (show_items xs) ++ codes "]"
  show (map_of m) =
      codes "map[" ++ spaced (visit (λ s rest. s ∷ rest) [] (show_fields m)) ++ codes "]"

  pub show_items : Items → List Bytes
  show_items nil = []
  show_items (cons v xs) = show v ∷ show_items xs

  pub show_fields : Fields → List (Bytes × Bytes)
  show_fields end = []
  show_fields (field k v m) = (k, k ++ codes ":" ++ show v) ∷ show_fields m
