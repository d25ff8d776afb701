-- ===== src/Network/Http/Laws.antt =====
-- network/http.go: what `RoundTrip` sends, and what it leaves of the caller's requests.
use mathlib.Core.Path.{subst}
use primordium.Base.{
  ℕ, suc, ◌<◌, ◌==◌, ◌≡◌, ◌≢◌, refl, ◌∙◌, ap, Bool, true, false, Bool-cases, Bytes, bytes_eq,
  eq_of_bytes_eq, bytes_eq_refl, find, length, List, [], ◌∷◌, Option, none, some, inl, inr, arith,
  length-append, get_elem?, get_elem?-append_left, get_elem?-append_last, ◌||◌,
}
use primordium.Network.Http.{
  Request, Response, Program, RoundTripper, LogLine, Answer, lookup, retry_status_codes,
  retry_reasons, set_header, authorization, credentials, authorized, prepare, log_reason, logged,
  round_trip,
}

find-set_header :
    (key value : Bytes) (m : List (Bytes × List Bytes))
    → find key (set_header key value m) ≡ some (value ∷ [])
unfolding find set_header
find-set_header key value [] = rw (bytes_eq_refl key) refl
find-set_header key value ((k, v) ∷ m) = elim (Bool-cases (bytes_eq k key)) [
  | inl same ↦ rw same (rw (bytes_eq_refl key) refl)
  | inr other ↦ rw other (rw other (find-set_header key value m))
]

find-set_header_other :
    (key value other : Bytes) (m : List (Bytes × List Bytes))
    → bytes_eq key other ≡ false
    → find other (set_header key value m) ≡ find other m
unfolding find set_header
find-set_header_other key value other [] h = rw h refl
find-set_header_other key value other ((k, v) ∷ m) h = elim (Bool-cases (bytes_eq k key)) [
  | inl same ↦ let e : k ≡ key = eq_of_bytes_eq k key same in rw (same, e, h) refl
  | inr apart ↦ rw (apart, find-set_header_other key value other m h) refl
]

-- A request as it is sent: with the credentials, if there are any, and else as it is.
abbrev pub Sent : RoundTripper → Request → Request → Type 0
Sent rt req out =
    (out.url ≡ req.url)
    × (rt.token_value ≡ [] → out ≡ req)
    × (rt.token_value ≢ [] → find authorization out.header ≡ some (credentials rt ∷ []))
    × ((key : Bytes)
        → bytes_eq authorization key ≡ false
        → find key out.header ≡ find key req.header)

authorized-Sent :
    (rt : RoundTripper) (req : Request) → rt.token_value ≢ [] → Sent rt req (authorized rt req)
unfolding authorized
authorized-Sent rt req h = (
  refl,
  λ e. absurd (h e),
  λ _. find-set_header authorization (credentials rt) req.header,
  λ key k. find-set_header_other authorization (credentials rt) key req.header k,
)

-- The request that `prepare` chooses, and the ones that were there before.
abbrev pub Prepared : RoundTripper → Program → Request → Program × ℕ → Type 0
Prepared rt p req (p', ref') =
    (out : Request) × (get_elem? p'.requests ref' ≡ some out)
    × Sent rt req out
    × ((i : ℕ) → i < length p.requests → get_elem? p'.requests i ≡ get_elem? p.requests i)
    × (p'.log ≡ p.log)

prepare-Prepared :
    (rt : RoundTripper) (p : Program) (ref : ℕ) {req : Request}
    → get_elem? p.requests ref ≡ some req
    → Prepared rt p req (prepare rt p ref)
unfolding prepare
prepare-Prepared rt p ref {req} h = elim (Bool-cases (bytes_eq rt.token_value [])) [
  | inl bare ↦
      let e : rt.token_value ≡ [] = eq_of_bytes_eq rt.token_value [] bare in
      rw bare (req, h, (refl, λ _. refl, λ k. absurd (k e), λ key k. refl), λ i k. refl, refl)
  | inr token ↦
      rw (token, h)
        (
          authorized rt req,
          get_elem?-append_last p.requests (authorized rt req),
          authorized-Sent rt req (λ e.
              let t : bytes_eq rt.token_value [] ≡ true =
                ap (λ b. bytes_eq b []) e ∙ bytes_eq_refl [] in
              cc),
          λ i k. get_elem?-append_left p.requests _ i k,
          refl,
        )
]

abbrev pub elem : ℕ → List ℕ → Bool
elem key [] = false
elem key (k ∷ ks) = (k == key) || elem key ks

-- The answer is a response whose status is to be retried.
abbrev pub retried : Answer → Bool
retried (inl e) = false
retried (inr resp) = elem resp.status_code retry_status_codes

-- One line more for an answer to retry, and none for another.
abbrev pub Logs : Answer → List LogLine → List LogLine → Type 0
Logs answer before after =
    (retried answer ≡ true → length after ≡ suc (length before))
    × (retried answer ≡ false → after ≡ before)

abbrev has_reason : Option Bytes → Bool
has_reason none = false
has_reason (some reason) = true

-- The two tables of the package agree.
retry_reasons-codes :
    (status : ℕ) → elem status retry_status_codes ≡ has_reason (lookup status retry_reasons)
unfolding retry_status_codes retry_reasons
retry_reasons-codes status = ground arith

log_reason-Logs :
    (ref : ℕ) (p : Program) (resp : Response) (reason : Option Bytes)
    → elem resp.status_code retry_status_codes ≡ has_reason reason
    → Logs (inr resp) p.log (log_reason ref p resp reason).log
      × ((log_reason ref p resp reason).requests ≡ p.requests)
unfolding log_reason
log_reason-Logs ref p resp none e = ((λ h. cc, λ h. refl), refl)
log_reason-Logs ref p resp (some reason) e =
    ((λ h. omega (arith, length-append {0} p.log), λ h. cc), refl)

logged-Logs :
    (ref : ℕ) (p : Program) (answer : Answer)
    → Logs answer p.log (logged ref p answer).log × ((logged ref p answer).requests ≡ p.requests)
unfolding logged
logged-Logs ref p (inl e) = ((λ h. absurd (ground arith), λ h. refl), refl)
logged-Logs ref p (inr resp) = log_reason-Logs ref p resp _ (retry_reasons-codes resp.status_code)

module _ (transport : Program → ℕ → Program × Answer)
    (keeps : (p : Program) (ref : ℕ)
      → ((transport p ref).0.requests ≡ p.requests) × ((transport p ref).0.log ≡ p.log)) where
  -- `RoundTrip` over a transport that leaves requests as they are. It sends the caller's request as it
  -- is if there is no token, and else a copy that has the credentials, as the one value of their name, and is otherwise the same. It
  -- returns what the transport returns. Every request that the caller has stays as it was. It logs one
  -- line for a response with one of the `RetryStatusCodes`, and none for another or for an error.
  pub round_trip-Prepared :
      (rt : RoundTripper) (p : Program) (ref : ℕ) {req : Request}
      → get_elem? p.requests ref ≡ some req
      → let (p', ref') = prepare rt p ref in
        let (p'', answer) = round_trip transport rt p ref in
        Prepared rt p req (p', ref')
        × (answer ≡ (transport p' ref').1)
        × ((i : ℕ) → i < length p.requests → get_elem? p''.requests i ≡ get_elem? p.requests i)
        × Logs answer p.log p''.log
  unfolding round_trip
  round_trip-Prepared rt p ref {req} h =
      let (p', ref') = prepare rt p ref in
      let f : Prepared rt p req (p', ref') = prepare-Prepared rt p ref h in
      let (q, answer) = transport p' ref' in
      let (l, r) = logged-Logs ref' q answer in
      let same : q.requests ≡ p'.requests = (keeps p' ref').0 in
      let quiet : q.log ≡ p.log = (keeps p' ref').1 ∙ f.4 in
      (
        f,
        refl,
        λ i k. ap (λ rs. get_elem? rs i) (r ∙ same) ∙ f.3 i k,
        subst (λ b. Logs answer b (logged ref' q answer).log) quiet l,
      )
