-- ===== src/Reporter/Laws.antt =====
-- reporter/sentry.go: what `Initialize` reports.
use primordium.Base.{◌≡◌, refl, true, Option, none, some, codes, [], ◌∷◌, ◌++◌, arith}
use primordium.Errors.{Error, is}
use primordium.Reporter.{
  Sentry, Config, Reporter, options, initialized, initialize, err_reporter_initialization_fail,
}

module _ (S : Sentry) where
  -- The answer of `Initialize` to one of the client.
  abbrev Reports : Reporter S → Option Error → Reporter S × Option Error → Type 0
  Reports r none (r', e) =
      (e ≡ none) × (r'.infos ≡ r.infos ++ codes "Reporter Sentry configured" ∷ [])
  Reports r (some e) (r', none) = ⊥
  Reports r (some e) (r', some f) =
      (r'.infos ≡ r.infos)
      × (is f err_reporter_initialization_fail ≡ true)
      × ((target : Error) → is e target ≡ true → is f target ≡ true)

  initialized-Reports :
      (r : Reporter S) (x : S.State × Option Error) → Reports r x.1 (initialized S r x)
  initialized-Reports r (s, none) = (refl, refl)
  initialized-Reports r (s, some e) = (refl, refl, λ target h. ground arith)

  -- `Initialize` hands the client its options. If the client refuses them, the error is an
  -- `ErrReporterInitializationFail` and whatever the client's error is, and nothing is logged; else
  -- there is no error, and one message is logged.
  initialize-Reports :
      (conf : Config) (r : Reporter S)
      → Reports r (S.init (options S conf) r.client).1 (initialize S conf r)
  unfolding initialize
  initialize-Reports conf r = initialized-Reports r (S.init (options S conf) r.client)
