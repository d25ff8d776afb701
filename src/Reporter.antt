-- ===== src/Reporter.antt =====
-- reporter/sentry.go: errors and messages that are sent to Sentry.
mod Laws
use primordium.Base.{ℕ, ◌+◌, Bool, true, Bytes, codes, Option, none, some, List, ◌∷◌, [], ◌++◌}
use primordium.Errors.{Error, sentinel, wrap_two}

-- `ErrReporterInitializationFail`
abbrev pub err_reporter_initialization_fail : Error
err_reporter_initialization_fail = sentinel 51

-- Nanoseconds.
abbrev pub flush_timeout : ℕ
flush_timeout = 2000000000

pub record Config : Type 0 where
  pub dsn : Bytes
  pub debug : Bool
  pub release : Bytes
  pub environment : Bytes

-- The fields of `sentry.ClientOptions` that the code sets. The rate is in percent.
pub record ClientOptions : Type 0 where
  pub dsn : Bytes
  pub debug : Bool
  pub send_default_pii : Bool
  pub enable_tracing : Bool
  pub environment : Bytes
  pub release : Bytes
  pub traces_sample_rate : ℕ
  pub enable_logs : Bool

-- The Sentry client, with its state.
pub record Sentry : Type 1 where
  pub State : Type 0
  pub Event : Type 0
  pub EventId : Type 0
  pub init : ClientOptions → State → State × Option Error
  pub capture_exception : Error → State → State × Option EventId
  pub capture_message : Bytes → State → State × Option EventId
  pub capture_event : Event → State → State × Option EventId
  pub flush : ℕ → State → State × Bool

module _ (S : Sentry) where
  -- The client, and the messages logged.
  pub record Reporter : Type 0 where
    pub client : S.State
    pub infos : List Bytes

  -- What `Initialize` asks of the client.
  unfoldable pub options : Config → ClientOptions
  options conf = record {
    dsn = conf.dsn;
    debug = conf.debug;
    send_default_pii = true;
    enable_tracing = true;
    environment = conf.environment;
    release = conf.release;
    traces_sample_rate = 100;
    enable_logs = true;
  }

  abbrev pub initialized : Reporter → S.State × Option Error → Reporter × Option Error
  initialized r (s, some e) =
      (record r { client = s }, some (wrap_two err_reporter_initialization_fail e))
  initialized r (s, none) =
      (record { client = s; infos = r.infos ++ codes "Reporter Sentry configured" ∷ [] }, none)

  unfoldable pub initialize : Config → Reporter → Reporter × Option Error
  unfolding options
  initialize conf r = initialized r (S.init (options conf) r.client)

  -- The client's answer.
  abbrev captured : Reporter → S.State × Option S.EventId → Reporter × Option S.EventId
  captured r (s, id) = (record r { client = s }, id)

  unfoldable pub capture_exception : Error → Reporter → Reporter × Option S.EventId
  capture_exception e r = captured r (S.capture_exception e r.client)

  unfoldable pub capture_message : Bytes → Reporter → Reporter × Option S.EventId
  capture_message msg r = captured r (S.capture_message msg r.client)

  unfoldable pub capture_event : S.Event → Reporter → Reporter × Option S.EventId
  capture_event event r = captured r (S.capture_event event r.client)

  unfoldable pub shutdown : Reporter → Reporter
  shutdown r = record r { client = (S.flush flush_timeout r.client).0 }
