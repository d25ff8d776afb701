-- ===== src/Network/Http/Examples.antt =====
-- A transport that answers each request by the length of its address.
use primordium.Base.{ℕ, ◌<◌, ◌≡◌, refl, bytes_eq, codes, get_elem?, [], ◌∷◌, inr}
use primordium.Network.Http.{
  Request, Program, RoundTripper, Answer, prepare, round_trip, authorization,
}
use primordium.Network.Http.Laws.{Prepared, Logs, round_trip-Prepared}

abbrev busy : Program → ℕ → Program × Answer
busy p ref = (p, inr (record { status_code = 503 }))

abbrev plain : Request
plain = record {
  url = codes "http://a";
  header = (authorization, codes "Basic x" ∷ codes "Basic y" ∷ []) ∷ [];
}

abbrev program : Program
program = record { requests = plain ∷ []; log = [] }

abbrev bearer : RoundTripper
bearer = record { token_value = codes "t"; token_type = codes "Bearer" }

sends_token :
    (prepare bearer program 0).0.requests
    ≡ plain
      ∷ record { url = codes "http://a"; header = (authorization, codes "Bearer t" ∷ []) ∷ [] }
      ∷ []
unfolding prepare bytes_eq
sends_token = refl

round_trip-Prepared_example :
    Prepared bearer program plain (prepare bearer program 0)
    × ((round_trip busy bearer program 0).1 ≡ inr (record { status_code = 503 }))
    × ((i : ℕ)
        → i < 1
        → get_elem? (round_trip busy bearer program 0).0.requests i ≡ get_elem? (plain ∷ []) i)
    × Logs (round_trip busy bearer program 0).1 [] (round_trip busy bearer program 0).0.log
round_trip-Prepared_example =
    round_trip-Prepared busy (λ p ref. (refl, refl)) bearer program 0 {req = plain} refl
