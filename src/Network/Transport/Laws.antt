-- ===== src/Network/Transport/Laws.antt =====
-- network/http.go: the life of the transports.
use primordium.Base.{
  ℕ, ◌*◌, ◌^◌, ◌<◌, true, ◌≡◌, refl, ap, List, length, get_elem?, modify, get_elem?-append_left,
  get_elem?-append_last, get_elem?-modify, length-modify, none, some, ◌∙◌, [], ◌∷◌, ◌++◌,
}
use primordium.Errors.{ok, panic}
use primordium.Network.Transport.{
  Net, TlsConfig, default_tls_config, Transport, configured, plain, wrapped, Globals,
  set_defaults_of, set_defaults, clone_of, new_transport_of, new_transport, copied,
}

-- TLS 1.3 or later (version 0x0304), and of the curves X25519MLKEM768 (0x11EC) and then X25519 (29).
abbrev pub hardened : TlsConfig
hardened = record { min_version = 772; curve_preferences = 4588 ∷ 29 ∷ [] }

module _ (N : Net) where
  -- A transport with the package's settings, and such a rest. Times are in nanoseconds.
  pub record HasSettings (rest : N.Rest) (t : Transport N) : Type 0 where
    pub proxied : t.proxy ≡ N.proxy_from_environment
    pub dials : t.dial_context ≡ N.dialer (30 * 10 ^ 9) (30 * 10 ^ 9)
    pub speaks_http2 : t.force_attempt_http2 ≡ true
    pub handshakes : t.tls_handshake_timeout ≡ 10 * 10 ^ 9
    pub waits_for_header : t.response_header_timeout ≡ 30 * 10 ^ 9
    pub keeps_idle : t.idle_conn_timeout ≡ 90 * 10 ^ 9
    pub waits_for_continue : t.expect_continue_timeout ≡ 10 ^ 9
    pub pools : t.max_idle_conns ≡ 100
    pub pools_per_host : t.max_idle_conns_per_host ≡ 100
    pub connects_per_host : t.max_conns_per_host ≡ 100
    pub secured : t.tls_client_config ≡ some hardened
    pub keeps_rest : t.rest ≡ rest

  configured-HasSettings : (t : Transport N) → HasSettings t.rest (configured N t)
  unfolding configured default_tls_config
  configured-HasSettings t = record {
    proxied = refl;
    dials = refl;
    speaks_http2 = refl;
    handshakes = refl;
    waits_for_header = refl;
    keeps_idle = refl;
    waits_for_continue = refl;
    pools = refl;
    pools_per_host = refl;
    connects_per_host = refl;
    secured = refl;
    keeps_rest = refl;
  }

  copied-HasSettings :
      {rest : N.Rest} (t : Transport N)
      → HasSettings rest t
      → HasSettings (N.clone rest) (copied N t)
  unfolding copied default_tls_config
  copied-HasSettings t h = record {
    proxied = h.proxied;
    dials = h.dials;
    speaks_http2 = h.speaks_http2;
    handshakes = h.handshakes;
    waits_for_header = h.waits_for_header;
    keeps_idle = h.keeps_idle;
    waits_for_continue = h.waits_for_continue;
    pools = h.pools;
    pools_per_host = h.pools_per_host;
    connects_per_host = h.connects_per_host;
    secured = refl;
    keeps_rest = ap N.clone h.keeps_rest;
  }

  -- After the first `SetDefaults` on the transport number `ref`, which was `t`.
  abbrev pub Ready : Globals N → ℕ → Transport N → Globals N → Type 0
  Ready g ref t g' =
      (g'.http_default ≡ wrapped ref)
      × ((t' : Transport N) × (get_elem? g'.transports ref ≡ some t') × HasSettings t.rest t')
      × (length g'.transports ≡ length g.transports)
      × (set_defaults N g' ≡ panic)

  -- A new transport, with the same settings, beside the ones that were there.
  abbrev pub Adds : Globals N → Transport N → Globals N → Type 0
  Adds g t g'' =
      ((u : Transport N) × (get_elem? g''.transports (length g.transports) ≡ some u)
        × HasSettings (N.clone t.rest) u)
      × ((i : ℕ) → i < length g.transports → get_elem? g''.transports i ≡ get_elem? g.transports i)
      × (g''.http_default ≡ g.http_default)

  -- `NewTransport` panics before `SetDefaults`. The first `SetDefaults`, where the default transport is
  -- Go's own, wraps it and gives it the settings that `HasSettings` lists, with the rest of it kept; a
  -- second one panics. After the first, `NewTransport` gives a new transport with those settings and a
  -- clone of that rest, and leaves all others and the default one as they are.
  pub set_defaults-Ready :
      (g : Globals N) (ref : ℕ) (t : Transport N)
      → g.http_default ≡ plain ref
      → g.default_transport ≡ none
      → get_elem? g.transports ref ≡ some t
      → (new_transport N g ≡ panic)
        × (g' : Globals N) × (set_defaults N g ≡ ok g')
        × Ready g ref t g'
        × (g'' : Globals N) × (new_transport N g' ≡ ok (g'', length g.transports))
        × Adds g' t g''
  unfolding set_defaults new_transport set_defaults_of new_transport_of clone_of
  set_defaults-Ready g ref t h d e =
      let ts : List (Transport N) = modify (configured N) ref g.transports in
      let g' : Globals N = record {
        transports = ts;
        http_default = wrapped ref;
        default_transport = some ref;
      } in
      let u : Transport N = copied N (configured N t) in
      let g'' : Globals N = record g' { transports = ts ++ u ∷ [] } in
      let got : get_elem? ts ref ≡ some (configured N t) =
        get_elem?-modify (configured N) ref g.transports e in
      let same : length ts ≡ length g.transports = length-modify (configured N) ref g.transports in
      (
        ap (new_transport_of N g) d,
        g',
        ap (set_defaults_of N g) h,
        (refl, (configured N t, got, configured-HasSettings t), same, refl),
        g'',
        ap (clone_of N g') got ∙ ap (λ (i : ℕ). ok (g'', i)) same,
        (
          (
            u,
            get_elem?-append_last ts u,
            copied-HasSettings (configured N t) (configured-HasSettings t),
          ),
          λ i k. get_elem?-append_left ts (u ∷ []) i k,
          refl,
        ),
      )
