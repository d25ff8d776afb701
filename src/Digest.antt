-- ===== src/Digest.antt =====
-- digest/digest.go: digests in the form "algorithm:encoded", and the registries of algorithms.
-- Hash functions are values of an unknown type: the constructors of crypto and of
-- golang.org/x/crypto/blake2b are parameters of `Algorithm.hash`.
pub mod Laws
pub mod RoundTrip
mod Examples
use primordium.Base.{
  ℕ, Bool, true, ◌&&◌, ◌||◌, Bytes, codes, find, leb, ◌==◌, List, [], ◌∷◌, ◌++◌, Option, none, some,
  all, length, if◌then◌else◌,
}
use primordium.Errors.{Error, Result, ok, err, panic, wrap, ◌>>=◌}
use primordium.Fault.{err_invalid_argument}

-- `type Algorithm string`
abbrev pub Algorithm : Type 0
Algorithm = Bytes

abbrev pub sha1 : Algorithm
sha1 = codes "sha1"

abbrev pub sha256 : Algorithm
sha256 = codes "sha256"

abbrev pub sha384 : Algorithm
sha384 = codes "sha384"

abbrev pub sha512 : Algorithm
sha512 = codes "sha512"

abbrev pub blake2b_256 : Algorithm
blake2b_256 = codes "blake2b-256"

abbrev pub blake2b_512 : Algorithm
blake2b_512 = codes "blake2b-512"

-- The functions that `hashConstructors` names.
pub data Constructor : Type 0 where
  crypto_sha1_new crypto_sha256_new crypto_sha384_new crypto_sha512_new : Constructor
  new_blake2b_256 new_blake2b_512 : Constructor

abbrev pub hash_constructors : List (Algorithm × Constructor)
hash_constructors =
    (sha1, crypto_sha1_new)
    ∷ (sha256, crypto_sha256_new)
    ∷ (sha384, crypto_sha384_new)
    ∷ (sha512, crypto_sha512_new)
    ∷ (blake2b_256, new_blake2b_256)
    ∷ (blake2b_512, new_blake2b_512)
    ∷ []

-- `[a-f0-9]`
unfoldable pub hex_lower : ℕ → Bool
hex_lower c = (leb b'a' c && leb c b'f') || (leb b'0' c && leb c b'9')

-- `^[a-f0-9]{n}$`
unfoldable pub match_hex : ℕ → Bytes → Bool
unfolding hex_lower
match_hex n s = all hex_lower s && (length s == n)

-- Each regular expression by the count in its braces.
abbrev pub anchored_encoded_regexps : List (Algorithm × ℕ)
anchored_encoded_regexps =
    (sha1, 40)
    ∷ (sha256, 64)
    ∷ (sha384, 96)
    ∷ (sha512, 128)
    ∷ (blake2b_256, 64)
    ∷ (blake2b_512, 128)
    ∷ []

-- `MatchString` on the expression found in the map; a missing one is nil, and its method panics.
abbrev pub match_string : Option ℕ → Bytes → Result Bool
match_string none s = panic
match_string (some n) s = ok (match_hex n s)

pub record Digest : Type 0 where
  pub algorithm : Algorithm
  pub encoded : Bytes

-- `strings.Cut` at the first colon.
unfoldable pub cut_colon : Bytes → Option (Bytes × Bytes)
cut_colon [] = none
cut_colon (c ∷ s) =
    if c == b':'
    then some ([], s)
    else elim (cut_colon s) [ none ↦ none | some (before, after) ↦ some (c ∷ before, after) ]

abbrev pub invalid : Error
invalid = wrap err_invalid_argument

-- The last step of `FromString`, on the value of the test.
abbrev pub accept : Algorithm → Bytes → Bool → Result Digest
accept alg encoded matched =
    if matched then ok (record { algorithm = alg; encoded = encoded }) else err invalid

-- `FromString` after the cut.
unfoldable pub parse_parts : Algorithm → Bytes → Option Constructor → Result Digest
parse_parts alg encoded none = err invalid
parse_parts alg encoded (some _) = do
  matched ← match_string (find alg anchored_encoded_regexps) encoded
  accept alg encoded matched

unfoldable pub from_string : Bytes → Result Digest
from_string dgst = elim (cut_colon dgst) [
  | none ↦ err invalid
  | some (before, after) ↦ parse_parts before after (find before hash_constructors)
]

-- `String`
unfoldable pub string : Digest → Bytes
string d = d.algorithm ++ b':' ∷ d.encoded

-- `Algorithm.Hash`, over the constructors that the packages crypto and blake2b provide.
module _ {ℓ} {H : Type ℓ} (crypto_new : Constructor → H)
    (new_256 new_512 : Option Bytes → Result H) where
  unfoldable pub or_panic : Result H → Result H
  or_panic (ok h) = ok h
  or_panic (err e) = panic
  or_panic panic = panic

  unfoldable pub construct : Constructor → Result H
  construct new_blake2b_256 = or_panic (new_256 none)
  construct new_blake2b_512 = or_panic (new_512 none)
  construct c = ok (crypto_new c)

  unfoldable pub hash : Algorithm → Result H
  hash a = elim (find a hash_constructors) [ none ↦ panic | some c ↦ construct c ]
