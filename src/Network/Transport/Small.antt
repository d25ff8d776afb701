-- ===== src/Network/Transport/Small.antt =====
-- A network for the examples, with one transport at the start.
use primordium.Base.{ℕ, false, [], ◌∷◌, none}
use primordium.Network.Transport.{Net, Transport, plain, Globals}

abbrev pub net : Net
net = record {
  Proxy = ℕ;
  Dialer = ℕ;
  Rest = ℕ;
  proxy_from_environment = 7;
  dialer = λ timeout keep_alive. timeout;
  clone = λ rest. rest;
}

abbrev pub first : Transport net
first = record {
  proxy = 0;
  dial_context = 0;
  force_attempt_http2 = false;
  tls_handshake_timeout = 0;
  response_header_timeout = 0;
  idle_conn_timeout = 0;
  expect_continue_timeout = 0;
  max_idle_conns = 0;
  max_idle_conns_per_host = 0;
  max_conns_per_host = 0;
  tls_client_config = none;
  rest = 5;
}

abbrev pub at_start : Globals net
at_start = record { transports = first ∷ []; http_default = plain 0; default_transport = none }
