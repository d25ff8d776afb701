-- ===== src/Digest/RoundTrip.antt =====
-- digest/digest.go: `FromString` against `String`.
use primordium.Base.{
  find, ℕ, ◌≡◌, ◌≢◌, refl, sym, inl, inr, true, Bool-cases, Option-cases, Bytes, none, some, ◌∷◌,
  ◌++◌, arith, All, all, length,
}
use primordium.Errors.{Error, is, Result, ok, err, panic}
use primordium.Fault.{err_invalid_argument}
use primordium.Digest.{
  Algorithm, Digest, hash_constructors, hex_lower, match_hex, cut_colon, parse_parts, from_string,
  string, invalid,
}
use primordium.Digest.Laws.{
  HasDigits, has_sha1, has_sha256, has_sha384, has_sha512, has_blake2b_256, has_blake2b_512,
  IsValid, constructor-HasDigits, find-regexps, find-constructors, append-cut_colon,
  cut_colon-append, match_hex_iff,
}

HasDigits-no_colon : {a : Algorithm} {n : ℕ} → HasDigits a n → All (λ c. c ≢ b':') a
HasDigits-no_colon has_sha1 = omega arith
HasDigits-no_colon has_sha256 = omega arith
HasDigits-no_colon has_sha384 = omega arith
HasDigits-no_colon has_sha512 = omega arith
HasDigits-no_colon has_blake2b_256 = omega arith
HasDigits-no_colon has_blake2b_512 = omega arith

-- Printing a valid digest and parsing the text gives the digest back.
pub from_string-string : (d : Digest) → IsValid d → from_string (string d) ≡ ok d
unfolding from_string parse_parts string
from_string-string d v = ground (
  arith,
  cut_colon-append d.algorithm d.encoded (HasDigits-no_colon v.registered),
  (find-constructors v.registered).1,
  find-regexps v.registered,
  (match_hex_iff v.digits d.encoded).1 (v.hex, v.sized),
)

-- What an outcome of parsing says of the text `s`.
abbrev pub Decides : Bytes → Result Digest → Type 0
Decides s (ok d) = IsValid d × (string d ≡ s)
Decides s (err e) = (is e err_invalid_argument ≡ true) × ((d : Digest) → IsValid d → string d ≢ s)
Decides s panic = ⊥

-- A refusal is right: were `s` the text of a valid digest, it would parse.
refused : (s : Bytes) {e : Error} → from_string s ≡ err e → (d : Digest) → IsValid d → string d ≢ s
refused s h d v p = let q : from_string s ≡ ok d = rw (← p) (from_string-string d v) in cc

-- The outcome on a text with algorithm part `a` and encoded part `b`.
data Parts (s a b : Bytes) : Result Digest → Type 0 where
  good :
      (n : ℕ)
      → HasDigits a n
      → all hex_lower b ≡ true
      → length b ≡ n
      → Parts s a b (ok (record { algorithm = a; encoded = b }))
  bad : (e : Error) → is e err_invalid_argument ≡ true → Parts s a b (err e)

parse_parts-Parts : (s a b : Bytes) → Parts s a b (parse_parts a b (find a hash_constructors))
unfolding parse_parts
parse_parts-Parts s a b = elim (Option-cases (find a hash_constructors)) [
  | inl missing ↦ rw missing (bad _ refl)
  | inr (c, found) ↦
      let (n, r) = constructor-HasDigits a found in
      rw (found, find-regexps r)
        (elim (Bool-cases (match_hex n b)) [
          | inl yes' ↦ rw yes' (let (x, l) = (match_hex_iff n b).0 yes' in good n r x l)
          | inr no' ↦ rw no' (bad _ refl)
        ])
]

Parts-Decides :
    (s a b : Bytes) {r : Result Digest}
    → s ≡ a ++ b':' ∷ b
    → Parts s a b r
    → from_string s ≡ r
    → Decides s r
unfolding string
Parts-Decides s a b e (good n r x l) h =
    (record { digits = n; registered = r; hex = x; sized = l }, sym e)
Parts-Decides s a b e (bad w i) h = (i, refused s h)

no_colon-eq : (s : Bytes) → cut_colon s ≡ none → from_string s ≡ err invalid
unfolding from_string
no_colon-eq s h = rw (h, from_string)

cut-eq :
    (s a b : Bytes)
    → cut_colon s ≡ some (a, b)
    → from_string s ≡ parse_parts a b (find a hash_constructors)
unfolding from_string
cut-eq s a b h = rw (h, from_string)

-- Parsing decides whether a text is a digest. It returns a digest exactly when the text is that of
-- a valid digest, and then that digest; on any other text it fails with an error that is
-- `ErrInvalidArgument`; and it never panics.
pub from_string-Decides : (s : Bytes) → Decides s (from_string s)
from_string-Decides s = elim (Option-cases (cut_colon s)) [
  | inl none' ↦ let q = no_colon-eq s none' in rw q (refl, refused s q)
  | inr (p, found) ↦
      let q = cut-eq s p.0 p.1 found in
      rw q (Parts-Decides s p.0 p.1 (append-cut_colon s found) (parse_parts-Parts s p.0 p.1) q)
]
