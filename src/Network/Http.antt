-- ===== src/Network/Http.antt =====
-- network/http.go: `RoundTrip`, with the requests in a store, since the caller keeps its own. The
-- wrapped transport and the canonical form of a header's name are parameters.
pub mod Laws
mod Examples
use primordium.Base.{
  ℕ, zero, suc, ◌==◌, Bool, Bytes, codes, bytes_eq, find, length, get_elem?, List, [], ◌∷◌, ◌++◌,
  Option, none, some, ◌⊎◌, inl, inr, if◌then◌else◌,
}
use primordium.Errors.{Error}

-- Part of a request that the code reads or sets. A name in a header has a list of values. The header
-- is not nil, as `http.Client` sees to before it calls a transport: `Set` would panic on a nil one.
pub record Request : Type 0 where
  pub url : Bytes
  pub header : List (Bytes × List Bytes)

pub record Response : Type 0 where
  pub status_code : ℕ

-- `RetryStatusCodes`
unfoldable pub retry_status_codes : List ℕ
retry_status_codes = 429 ∷ 500 ∷ 502 ∷ 503 ∷ 504 ∷ []

abbrev pub lookup {ℓ} : {A : Type ℓ} → ℕ → List (ℕ × A) → Option A
lookup key [] = none
lookup key ((k, v) ∷ m) = let rest = lookup key m in if k == key then some v else rest

-- `retryReasons`
unfoldable pub retry_reasons : List (ℕ × Bytes)
retry_reasons =
    (429, codes "rate limited")
    ∷ (500, codes "server error")
    ∷ (502, codes "bad gateway")
    ∷ (503, codes "service unavailable")
    ∷ (504, codes "gateway timeout")
    ∷ []

-- `Header.Set`, for a name in canonical form: the value replaces all that the name had.
unfoldable pub set_header : Bytes → Bytes → List (Bytes × List Bytes) → List (Bytes × List Bytes)
set_header key value [] = (key, value ∷ []) ∷ []
set_header key value ((k, v) ∷ m) =
    let rest = set_header key value m in
    if bytes_eq k key then (key, value ∷ []) ∷ m else (k, v) ∷ rest

abbrev pub authorization : Bytes
authorization = codes "Authorization"

-- A debug line: the address, the status and the reason.
pub record LogLine : Type 0 where
  pub url : Bytes
  pub status : ℕ
  pub reason : Bytes

-- The requests that the program has, by number, and what was logged.
pub record Program : Type 0 where
  pub requests : List Request
  pub log : List LogLine

-- The fields of `RoundTripper`, without the transport.
pub record RoundTripper : Type 0 where
  pub token_value : Bytes
  pub token_type : Bytes

-- `fmt.Sprintf("%s %s", rt.TokenType, rt.TokenValue)`
abbrev pub credentials : RoundTripper → Bytes
credentials rt = rt.token_type ++ codes " " ++ rt.token_value

-- A copy of a request with the header set.
unfoldable pub authorized : RoundTripper → Request → Request
unfolding set_header
authorized rt req = record req { header = set_header authorization (credentials rt) req.header }

-- The request that goes to the transport: the caller's, or a new one.
unfoldable pub prepare : RoundTripper → Program → ℕ → Program × ℕ
unfolding authorized
prepare rt p ref =
    if bytes_eq rt.token_value [] then (p, ref) else elim (get_elem? p.requests ref) [
      | none ↦ (p, ref)
      | some req ↦ (record p { requests = p.requests ++ authorized rt req ∷ [] }, length p.requests)
    ]

-- What a transport gives for a request: a response, or an error.
abbrev pub Answer : Type 0
Answer = Error ⊎ Response

abbrev pub url_of : Program → ℕ → Bytes
url_of p ref = elim (get_elem? p.requests ref) [ none ↦ [] | some req ↦ req.url ]

-- The debug line of a response, if there is a reason to retry.
unfoldable pub log_reason : ℕ → Program → Response → Option Bytes → Program
log_reason ref p resp none = p
log_reason ref p resp (some reason) = record p {
  log = p.log ++ record { url = url_of p ref; status = resp.status_code; reason = reason } ∷ [];
}

unfoldable pub logged : ℕ → Program → Answer → Program
unfolding log_reason
logged ref p (inl e) = p
logged ref p (inr resp) = log_reason ref p resp (lookup resp.status_code retry_reasons)

module _ (transport : Program → ℕ → Program × Answer) where
  -- `RoundTrip`
  unfoldable pub round_trip : RoundTripper → Program → ℕ → Program × Answer
  unfolding prepare logged
  round_trip rt p ref =
      let (p', ref') = prepare rt p ref in
      let (p'', answer) = transport p' ref' in (logged ref' p'' answer, answer)
