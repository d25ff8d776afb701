-- ===== src/Network/Transport.antt =====
-- network/http.go: `SetDefaults` and `NewTransport`, with the transports in a store.
pub mod Laws
pub mod Small
mod Examples
use primordium.Base.{
  ℕ, zero, suc, ◌*◌, ◌^◌, Bool, true, List, [], ◌∷◌, ◌++◌, length, get_elem?, modify, Option, none,
  some,
}
use primordium.Errors.{Result, ok, panic}

-- In nanoseconds.
abbrev pub second : ℕ
second = 10 ^ 9

abbrev pub dial_timeout : ℕ
dial_timeout = 30 * second

abbrev pub dial_keep_alive : ℕ
dial_keep_alive = 30 * second

abbrev pub max_conns : ℕ
max_conns = 100

-- `tls.VersionTLS13`, `tls.X25519MLKEM768` and `tls.X25519`, as their documents number them.
abbrev pub version_tls13 : ℕ
version_tls13 = 772

-- `tls.Config`, as far as it is set.
pub record TlsConfig : Type 0 where
  pub min_version : ℕ
  pub curve_preferences : List ℕ

-- `defaultTLSConfig`
unfoldable pub default_tls_config : TlsConfig
default_tls_config = record { min_version = version_tls13; curve_preferences = 4588 ∷ 29 ∷ [] }

-- `proxy_from_environment` is `http.ProxyFromEnvironment`, `dialer` is `net.Dialer.DialContext` for a
-- timeout and a keep-alive, `clone` is `(*http.Transport).Clone` on the rest of a transport, which the
-- code neither reads nor sets.
pub record Net : Type 1 where
  pub Proxy : Type 0
  pub Dialer : Type 0
  pub Rest : Type 0
  pub proxy_from_environment : Proxy
  pub dialer : ℕ → ℕ → Dialer
  pub clone : Rest → Rest

module _ (N : Net) where
  -- `http.Transport`
  pub record Transport : Type 0 where
    pub proxy : N.Proxy
    pub dial_context : N.Dialer
    pub force_attempt_http2 : Bool
    pub tls_handshake_timeout : ℕ
    pub response_header_timeout : ℕ
    pub idle_conn_timeout : ℕ
    pub expect_continue_timeout : ℕ
    pub max_idle_conns : ℕ
    pub max_idle_conns_per_host : ℕ
    pub max_conns_per_host : ℕ
    pub tls_client_config : Option TlsConfig
    pub rest : N.Rest

  -- The settings of `SetDefaults`.
  unfoldable pub configured : Transport → Transport
  configured t = record t {
    proxy = N.proxy_from_environment;
    dial_context = N.dialer dial_timeout dial_keep_alive;
    force_attempt_http2 = true;
    tls_handshake_timeout = 10 * second;
    response_header_timeout = 30 * second;
    idle_conn_timeout = 90 * second;
    expect_continue_timeout = 1 * second;
    max_idle_conns = max_conns;
    max_idle_conns_per_host = max_conns;
    max_conns_per_host = max_conns;
    tls_client_config = some default_tls_config;
  }

  -- What `http.DefaultTransport` is: a transport, our `RoundTripper` around one, or another type.
  pub data RoundTrip : Type 0 where
    plain : ℕ → RoundTrip
    wrapped : ℕ → RoundTrip
    foreign : RoundTrip

  -- The transports, `http.DefaultTransport` and the package's `defaultTransport`.
  pub record Globals : Type 0 where
    pub transports : List Transport
    pub http_default : RoundTrip
    pub default_transport : Option ℕ

  unfoldable pub set_defaults_of : Globals → RoundTrip → Result Globals
  unfolding configured
  set_defaults_of g (plain ref) = ok (record {
    transports = modify configured ref g.transports;
    http_default = wrapped ref;
    default_transport = some ref;
  })
  set_defaults_of g _ = panic

  unfoldable pub set_defaults : Globals → Result Globals
  unfolding set_defaults_of
  set_defaults g = set_defaults_of g g.http_default

  -- A clone copies the fields; then it gets a configuration of its own.
  unfoldable pub copied : Transport → Transport
  copied t = record t { tls_client_config = some default_tls_config; rest = N.clone t.rest }

  -- The new transport's number.
  unfoldable pub clone_of : Globals → Option Transport → Result (Globals × ℕ)
  unfolding copied
  clone_of g none = panic
  clone_of g (some t) =
      ok (record g { transports = g.transports ++ copied t ∷ [] }, length g.transports)

  unfoldable pub new_transport_of : Globals → Option ℕ → Result (Globals × ℕ)
  unfolding clone_of copied
  new_transport_of g none = panic
  new_transport_of g (some ref) = clone_of g (get_elem? g.transports ref)

  -- `NewTransport`
  unfoldable pub new_transport : Globals → Result (Globals × ℕ)
  unfolding new_transport_of
  new_transport g = new_transport_of g g.default_transport
