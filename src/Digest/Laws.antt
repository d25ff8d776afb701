-- ===== src/Digest/Laws.antt =====
-- digest/digest.go: what `FromString` accepts, and how it fails.

use primordium.Base.{
  find, ℕ, ◌≡◌, ◌≢◌, refl, inl, inr, ◌↔◌, true, Bytes, Bool-cases, Option-cases, some, List, [],
  All, eq_of_bytes_eq, bytes_eq, ◌∷◌, ◌++◌, arith, all, length,
}
use primordium.Digest.{
  Algorithm, Digest, Constructor, hash_constructors, anchored_encoded_regexps, hex_lower, match_hex,
  cut_colon, sha1, sha256, sha384, sha512, blake2b_256, blake2b_512,
}

-- The algorithms of the package, each with the number of hexadecimal digits of its hashes.
pub data HasDigits : Algorithm → ℕ → Type 0 where
  has_sha1 : HasDigits sha1 40
  has_sha256 : HasDigits sha256 64
  has_sha384 : HasDigits sha384 96
  has_sha512 : HasDigits sha512 128
  has_blake2b_256 : HasDigits blake2b_256 64
  has_blake2b_512 : HasDigits blake2b_512 128

-- A digest that the package calls valid.
pub record IsValid (d : Digest) : Type 0 where
  pub digits : ℕ
  pub registered : HasDigits d.algorithm digits
  pub hex : all hex_lower d.encoded ≡ true
  pub sized : length d.encoded ≡ digits

-- What holds of every key of a map holds of a key that is found in it.
find-All {ℓ κ} :
    {V : Type ℓ} (P : Algorithm → Type κ) (m : List (Algorithm × V)) (key : Algorithm) {v : V}
    → All (λ (e : Algorithm × V). P e.0) m
    → find key m ≡ some v
    → P key
unfolding find
find-All P [] key h e = cc
find-All P ((k, w) ∷ m) key h e = elim (Bool-cases (bytes_eq k key)) [
  | inl found ↦ rw (eq_of_bytes_eq k key found) at h.0
  | inr other ↦ find-All P m key h.1 (rw other at e)
]

-- Every algorithm with a constructor has a length.
pub constructor-HasDigits :
    (a : Algorithm) {c : Constructor} → find a hash_constructors ≡ some c → (n : ℕ) × HasDigits a n
constructor-HasDigits a =
    find-All (λ a. (n : ℕ) × HasDigits a n) hash_constructors a
      (
        (40, has_sha1),
        (
          (64, has_sha256),
          (
            (96, has_sha384),
            ((128, has_sha512), ((64, has_blake2b_256), ((128, has_blake2b_512), tt))),
          ),
        ),
      )

-- Every algorithm with a length has an expression that checks it, and a constructor.
pub find-regexps :
    {a : Algorithm} {n : ℕ} → HasDigits a n → find a anchored_encoded_regexps ≡ some n
unfolding find bytes_eq
find-regexps has_sha1 = refl
find-regexps has_sha256 = refl
find-regexps has_sha384 = refl
find-regexps has_sha512 = refl
find-regexps has_blake2b_256 = refl
find-regexps has_blake2b_512 = refl

pub find-constructors :
    {a : Algorithm} {n : ℕ}
    → HasDigits a n
    → (c : Constructor) × (find a hash_constructors ≡ some c)
unfolding find bytes_eq
find-constructors has_sha1 = (_, refl)
find-constructors has_sha256 = (_, refl)
find-constructors has_sha384 = (_, refl)
find-constructors has_sha512 = (_, refl)
find-constructors has_blake2b_256 = (_, refl)
find-constructors has_blake2b_512 = (_, refl)

-- The cut takes a text apart at its first colon.
pub append-cut_colon : (s : Bytes) {a e : Bytes} → cut_colon s ≡ some (a, e) → s ≡ a ++ b':' ∷ e
unfolding cut_colon
append-cut_colon [] h = cc
append-cut_colon (c ∷ s) h = elim (Option-cases (cut_colon s)) [
  | inl stuck ↦ ground arith
  | inr (p, found) ↦ ground (arith, append-cut_colon s {a = p.0} {e = p.1} found)
]

-- A prefix with no colon is cut off whole.
pub cut_colon-append :
    (a e : Bytes) → All (λ c. c ≢ b':') a → cut_colon (a ++ b':' ∷ e) ≡ some (a, e)
unfolding cut_colon
cut_colon-append [] e h = refl
cut_colon-append (c ∷ a) e h = ground (arith, cut_colon-append a e h.1)

pub match_hex_iff :
    (n : ℕ) (s : Bytes) → (match_hex n s ≡ true) ↔ ((all hex_lower s ≡ true) × (length s ≡ n))
unfolding match_hex
match_hex_iff n s = ground arith
