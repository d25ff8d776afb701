-- ===== src/App/Logger/Examples.antt =====
-- A program that is told to log warnings.
use primordium.Base.{ℕ, codes, bytes_eq, [], inl, inr, if◌then◌else◌}
use primordium.Errors.{sentinel}
use primordium.App.Logger.{Host, Globals, set_defaults_for_logger}
use primordium.App.Logger.Laws.{Follows, Chosen, set_defaults_for_logger-Chosen}

abbrev host : Host
host = record {
  Logger = ℕ;
  getenv = λ name. codes "warn";
  parse_level = λ value. if bytes_eq value (codes "warn") then inr 2 else inl (sentinel 60);
  console = λ l. l;
}

abbrev globals : Globals host
globals = record {
  time_field_format = [];
  logger = 0;
  warnings = [];
  global_level = 0;
  slog_level = 0;
}

set_defaults_for_logger-Chosen_example :
    let g = set_defaults_for_logger host [] globals in
    Chosen host [] [] g.global_level g.warnings × Follows g.global_level g.slog_level
set_defaults_for_logger-Chosen_example = set_defaults_for_logger-Chosen host [] globals
