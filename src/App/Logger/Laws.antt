-- ===== src/App/Logger/Laws.antt =====
-- app/logger/logger.go: which level is chosen, and whether the two packages agree on it.
use native.Mathlib.Decide.{dec_lt, ℕ_discrete}
use primordium.Base.{
  sym, ap, ◌∙◌, ℕ, ◌+◌, ◌%◌, ◌≤◌, ◌<◌, ◌≡◌, ◌≢◌, refl, leb, Bool, false, Bytes, codes, List, [],
  ◌∷◌, ◌++◌, ◌⊎◌, inl, inr, arith,
}
use primordium.Errors.{Error}
use primordium.Filesystem.ReadSeeker.{signed_le}
use primordium.App.Logger.{
  Host, Globals, log_level, parsed, effective_level, set_defaults_for_logger, zerolog_to_slog,
  debug_level, info_level, warn_level, error_level, trace_level, disabled, slog_debug, slog_info,
  slog_warn, slog_error,
}

-- `a <= b` on `int8`.
abbrev pub level_le : ℕ → ℕ → Bool
level_le a b = leb ((a + 128) % 256) ((b + 128) % 256)

-- A level that zerolog has a name for.
abbrev pub Named : ℕ → Type 0
Named level = (level ≡ trace_level) ⊎ (level ≤ disabled)

-- Of a record at a level, `s` to slog and `z` to zerolog, slog does what zerolog would, or the level of
-- the logger is above that of errors, and zerolog would stop the record.
abbrev pub Agrees : ℕ → ℕ → ℕ → ℕ → Type 0
Agrees level slog_level s z =
    (signed_le slog_level s ≡ level_le level z)
    ⊎ ((level_le level error_level ≡ false) × (level_le level z ≡ false))

-- They agree so on records at each of the four levels that slog has names for.
abbrev pub Twinned : ℕ → ℕ → Type 0
Twinned level slog_level =
    Agrees level slog_level slog_debug debug_level
    × Agrees level slog_level slog_info info_level
    × Agrees level slog_level slog_warn warn_level
    × Agrees level slog_level slog_error error_level

-- The level of slog for one of zerolog, which has a name there or not.
abbrev pub Follows : ℕ → ℕ → Type 0
Follows level slog_level =
    (Named level × Twinned level slog_level)
    ⊎ ((level ≢ trace_level) × (disabled < level) × (slog_level ≡ slog_info))

zerolog_to_slog-Twinned : (level : ℕ) → Named level → Twinned level (zerolog_to_slog level)
unfolding zerolog_to_slog
zerolog_to_slog-Twinned level n = (ground arith, ground arith, ground arith, ground arith)

zerolog_to_slog-Follows : (level : ℕ) → Follows level (zerolog_to_slog level)
unfolding zerolog_to_slog
zerolog_to_slog-Follows level = elim (ℕ_discrete level trace_level) [
  | yes trace ↦ inl (inl trace, zerolog_to_slog-Twinned level (inl trace))
  | no other ↦ elim (dec_lt disabled level) [
    | yes above ↦ inr (other, above, ground arith)
    | no named ↦
        let within : level ≤ disabled = omega arith in
        inl (inr within, zerolog_to_slog-Twinned level (inr within))
  ]
]

module _ (H : Host) where
  -- The level that is chosen, with the warnings so far before and after: the argument, or what the
  -- variable says, or "info" where it is empty; if that value cannot be read, the level of
  -- information, with a warning of it.
  pub data Chosen : List ℕ → List Bytes → ℕ → List Bytes → Type 0 where
    given : (level : ℕ) (levels : List ℕ) (ws : List Bytes) → Chosen (level ∷ levels) ws level ws
    from_variable :
        {level : ℕ} (ws : List Bytes)
        → H.getenv (codes "LOG_LEVEL") ≢ []
        → H.parse_level (H.getenv (codes "LOG_LEVEL")) ≡ inr level
        → Chosen [] ws level ws
    by_default :
        {level : ℕ} (ws : List Bytes)
        → H.getenv (codes "LOG_LEVEL") ≡ []
        → H.parse_level (codes "info") ≡ inr level
        → Chosen [] ws level ws
    refused :
        {e : Error} (ws : List Bytes) (value : Bytes)
        → value ≡ (elim (H.getenv (codes "LOG_LEVEL")) [ [] ↦ codes "info" | c ∷ cs ↦ c ∷ cs ])
        → H.parse_level value ≡ inl e
        → Chosen [] ws info_level (ws ++ value ∷ [])

  parsed-Chosen :
      (ws : List Bytes) (value variable : Bytes) (x : Error ⊎ ℕ)
      → variable ≡ H.getenv (codes "LOG_LEVEL")
      → value ≡ (elim variable [ [] ↦ codes "info" | c ∷ cs ↦ c ∷ cs ])
      → H.parse_level value ≡ x
      → Chosen [] ws (parsed H value ws x).0 (parsed H value ws x).1
  parsed-Chosen ws value variable (inl e) v w p =
      refused ws value (w ∙ ap (λ (x : Bytes). elim x [ [] ↦ codes "info" | c ∷ cs ↦ c ∷ cs ]) v) p
  parsed-Chosen ws value [] (inr level) v w p = by_default ws (sym v) (ap H.parse_level (sym w) ∙ p)
  parsed-Chosen ws value (c ∷ cs) (inr level) v w p =
      from_variable ws (λ e. cc) (ap H.parse_level (sym (w ∙ v)) ∙ p)

  effective_level-Chosen :
      (levels : List ℕ) (ws : List Bytes)
      → Chosen levels ws (effective_level H levels ws).0 (effective_level H levels ws).1
  unfolding effective_level log_level
  effective_level-Chosen (level ∷ levels) ws = given level levels ws
  effective_level-Chosen [] ws = parsed-Chosen ws _ (H.getenv (codes "LOG_LEVEL")) _ refl refl refl

  -- `SetDefaultsForLogger` chooses the level so, and warns of a value that cannot be read. Where the
  -- level has a name in zerolog, slog passes a record at each of its four levels exactly if zerolog
  -- would, or the level is above that of errors, and zerolog would stop the record. Where it has no name,
  -- slog has the level of information.
  pub set_defaults_for_logger-Chosen :
      (levels : List ℕ) (g : Globals H)
      → let g' = set_defaults_for_logger H levels g in
        Chosen levels g.warnings g'.global_level g'.warnings × Follows g'.global_level g'.slog_level
  unfolding set_defaults_for_logger
  set_defaults_for_logger-Chosen levels g = (
    effective_level-Chosen levels g.warnings,
    zerolog_to_slog-Follows (effective_level H levels g.warnings).0,
  )
