-- ===== src/Digest/Examples.antt =====
-- digest/digest.go: runs of the model, and the theorems at concrete digests.
use primordium.Base.{find, ◌≡◌, refl, Bytes, bytes_eq, codes}
use primordium.Errors.{Result, ok, err}
use primordium.Digest.{
  Digest, sha1, match_hex, cut_colon, parse_parts, from_string, string, invalid,
}
use primordium.Digest.Laws.{IsValid, has_sha1}
use primordium.Digest.RoundTrip.{Decides, from_string-Decides, from_string-string}

-- The digest of the empty text.
abbrev empty_hash : Bytes
empty_hash = codes "da39a3ee5e6b4b0d3255bfef95601890afd80709"

abbrev empty_digest : Digest
empty_digest = record { algorithm = sha1; encoded = empty_hash }

empty_digest-IsValid : IsValid empty_digest
unfolding match_hex
empty_digest-IsValid = record { digits = 40; registered = has_sha1; hex = refl; sized = refl }

parse : Bytes → Result Digest
unfolding from_string cut_colon parse_parts find match_hex bytes_eq
parse s = from_string s

upper_case : parse (codes "sha1:DA39a3ee5e6b4b0d3255bfef95601890afd80709") ≡ err invalid
unfolding parse
upper_case = refl

unknown_algorithm : parse (codes "md5:00") ≡ err invalid
unfolding parse
unknown_algorithm = refl

parses : parse (codes "sha1:da39a3ee5e6b4b0d3255bfef95601890afd80709") ≡ ok empty_digest
unfolding parse
parses = refl

from_string-string_example : from_string (string empty_digest) ≡ ok empty_digest
from_string-string_example = from_string-string empty_digest empty_digest-IsValid

from_string-Decides_example : Decides (codes "md5:00") (from_string (codes "md5:00"))
from_string-Decides_example = from_string-Decides (codes "md5:00")
