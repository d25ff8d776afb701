-- ===== src/Filesystem/Path/Text.antt =====
-- What filesystem/path*.go use of Go's packages strings and regexp, on bytes.
use primordium.Base.{
  ℕ, ◌+◌, Bool, true, false, ◌&&◌, ◌||◌, Bytes, leb, ◌==◌, List, [], ◌∷◌, if◌then◌else◌,
}

unfoldable pub any : (ℕ → Bool) → Bytes → Bool
any p [] = false
any p (c ∷ s) = p c || any p s

-- A byte that is white space by itself: tab to carriage return, and the space.
unfoldable pub space : ℕ → Bool
space c = (leb 9 c && leb c 13) || c == 0x20

-- U+0085 and U+00A0 in UTF-8.
unfoldable pub space_two : ℕ → ℕ → Bool
space_two a b = a == 0xc2 && (b == 0x85 || b == 0xa0)

-- U+1680, U+2000 to U+200A, U+2028, U+2029, U+202F, U+205F and U+3000 in UTF-8.
unfoldable pub space_three : ℕ → ℕ → ℕ → Bool
space_three a b c =
    (a == 0xe1 && b == 0x9a && c == 0x80)
    || (a == 0xe2
        && b == 0x80
        && ((leb 0x80 c && leb c 0x8a) || c == 0xa8 || c == 0xa9 || c == 0xaf))
    || (a == 0xe2 && b == 0x81 && c == 0x9f)
    || (a == 0xe3 && b == 0x80 && c == 0x80)

-- `strings.TrimSpace(s) == ""`: the text is made of white space alone.
unfoldable pub is_blank : Bytes → Bool
is_blank [] = true
is_blank (a ∷ []) = space a
is_blank (a ∷ b ∷ []) = (space a && space b) || space_two a b
is_blank (a ∷ b ∷ c ∷ s) =
    (space a && is_blank (b ∷ c ∷ s))
    || (space_two a b && is_blank (c ∷ s))
    || (space_three a b c && is_blank s)

-- An ASCII letter in lower case.
unfoldable pub fold : ℕ → ℕ
fold c = if leb b'A' c && leb c b'Z' then c + 32 else c

-- `s[len(s)-1:] == string(c)`
unfoldable pub last_is : ℕ → Bytes → Bool
last_is d [] = false
last_is d (c ∷ []) = c == d
last_is d (_ ∷ c ∷ s) = last_is d (c ∷ s)

-- Put a byte in front of the first part.
abbrev pub onto_first : ℕ → List Bytes → List Bytes
onto_first c [] = (c ∷ []) ∷ []
onto_first c (p ∷ ps) = (c ∷ p) ∷ ps

-- `strings.SplitSeq` at every separator.
unfoldable pub split_on : ℕ → Bytes → List Bytes
split_on sep [] = [] ∷ []
split_on sep (c ∷ s) =
    let parts = split_on sep s in if c == sep then [] ∷ parts else onto_first c parts
