-- ===== src/App/Logger.antt =====
-- app/logger/logger.go: the levels of the two logging packages, zerolog and slog. A level of zerolog
-- is an `int8` as an 8-bit pattern, one of slog an `int` as a 64-bit pattern.
pub mod Laws
mod Examples
use primordium.Base.{
  ℕ, ◌+◌, ◌-◌, ◌%◌, ◌==◌, leb, Bool, ◌||◌, Bytes, codes, List, [], ◌∷◌, ◌++◌, ◌⊎◌, inl, inr,
  if◌then◌else◌,
}
use primordium.Errors.{Error}
use primordium.Filesystem.ReadSeeker.{word}

-- The constants of zerolog.
abbrev pub debug_level : ℕ
debug_level = 0

abbrev pub info_level : ℕ
info_level = 1

abbrev pub warn_level : ℕ
warn_level = 2

abbrev pub error_level : ℕ
error_level = 3

abbrev pub fatal_level : ℕ
fatal_level = 4

abbrev pub panic_level : ℕ
panic_level = 5

abbrev pub no_level : ℕ
no_level = 6

abbrev pub disabled : ℕ
disabled = 7

-- -1
abbrev pub trace_level : ℕ
trace_level = 255

-- The constants of slog: -4, 0, 4 and 8.
abbrev pub slog_debug : ℕ
slog_debug = word - 4

abbrev pub slog_info : ℕ
slog_info = 0

abbrev pub slog_warn : ℕ
slog_warn = 4

abbrev pub slog_error : ℕ
slog_error = 8

-- `zerologToSlog`
unfoldable pub zerolog_to_slog : ℕ → ℕ
zerolog_to_slog level =
    if level == trace_level
    then (slog_debug + word - 4) % word
    else if level == debug_level
    then slog_debug
    else if level == warn_level
    then slog_warn
    else if (level == error_level) || ((level == fatal_level) || (level == panic_level))
    then slog_error
    else slog_info

-- What the code takes from its environment: the variable, `zerolog.ParseLevel`, and `log.Output` with
-- a console writer on the standard error.
pub record Host : Type 1 where
  pub Logger : Type 0
  pub getenv : Bytes → Bytes
  pub parse_level : Bytes → Error ⊎ ℕ
  pub console : Logger → Logger

-- `time.RFC3339`
abbrev pub rfc3339 : Bytes
rfc3339 = codes "2006-01-02T15:04:05Z07:00"

module _ (H : Host) where
  -- The global variables of zerolog and slog. `warnings` are the values of `LOG_LEVEL` that were
  -- warned of. The handler of slog logs to zerolog's logger.
  pub record Globals : Type 0 where
    pub time_field_format : Bytes
    pub logger : H.Logger
    pub warnings : List Bytes
    pub global_level : ℕ
    pub slog_level : ℕ

  unfoldable pub log_level : Bytes
  log_level =
      let value = H.getenv (codes "LOG_LEVEL") in elim value [ [] ↦ codes "info" | c ∷ cs ↦ c ∷ cs ]

  -- A level, or the default with a warning.
  abbrev pub parsed : Bytes → List Bytes → Error ⊎ ℕ → ℕ × List Bytes
  parsed value warnings (inr level) = (level, warnings)
  parsed value warnings (inl e) = (info_level, warnings ++ value ∷ [])

  -- The level, and the warnings so far.
  unfoldable pub effective_level : List ℕ → List Bytes → ℕ × List Bytes
  unfolding log_level
  effective_level (level ∷ levels) warnings = (level, warnings)
  effective_level [] warnings = parsed log_level warnings (H.parse_level log_level)

  -- `SetDefaultsForLogger`
  unfoldable pub set_defaults_for_logger : List ℕ → Globals → Globals
  unfolding effective_level
  set_defaults_for_logger levels g =
      let (level, warnings) = effective_level levels g.warnings in
      record {
        time_field_format = rfc3339;
        logger = H.console g.logger;
        warnings = warnings;
        global_level = level;
        slog_level = zerolog_to_slog level;
      }
