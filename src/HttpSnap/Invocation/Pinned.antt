-- ===== src/HttpSnap/Invocation/Pinned.antt =====
-- A response comes over a connection with one of the pins.
use fabric_snaps.Common.{
  String, ◌≡◌, ◌≢◌, refl, sym, ap, ◌∙◌, Bool, true, false, Option, none, some, List, [], arith,
  is_empty, Bool-cases, inl, inr, is_empty_iff,
}
use fabric_snaps.Errors.{http_client_error, validation_error}
use fabric_snaps.HttpSnap.Config.{HttpConfig, is_key_cache_enabled}
use fabric_snaps.HttpSnap.Outcome.{
  Outcome, returned, failed, panicked, Proc, ◌>>=◌, ask, proceed-returned, recode, recode-returned,
}
use fabric_snaps.HttpSnap.Platform.{
  HttpClient, Request, HttpResponse, Conn, Dialer, TlsConfig, Platform, NetState,
}
use fabric_snaps.HttpSnap.Tls.{get_tls_config, verify_pin_dialer}
use fabric_snaps.HttpSnap.Tls.Pins.{Dialed, Pinned, verify_pin_dialer_iff}
use fabric_snaps.HttpSnap.Service.{
  InvokeRequest, Invoker, prepare_http_request, send_http_request, get_http_client, do_sent,
  pin_dialer, read_response,
}
use fabric_snaps.HttpSnap.Invocation.{try_again, send_twice, get_data_from_source, invoke}

abbrev dial_of : Outcome HttpClient → Option Dialer
dial_of (returned client) = client.dial_tls
dial_of (failed code) = none
dial_of panicked = none

module _ {Pool Keys : Type 0} where
  -- The transport has opened a connection with the client's dialer, if the client has one, before there
  -- is a response.
  abbrev pub DialsFirst : Platform Pool Keys → Type 0
  DialsFirst p =
      (client : HttpClient) (req : Request) (resp : HttpResponse) (dial : Dialer)
      → p.do_request client req ≡ some resp
      → client.dial_tls ≡ some dial
      → (network : String) × ((addr : String) × ((conn : Conn) × (dial network addr
              ≡ returned conn)))

  -- A handshake with the request's TLS configuration, on a connection whose leaf certificate has one of
  -- the request's pins.
  abbrev pub PinnedConn : Platform Pool Keys → HttpConfig → List String → Type 0
  PinnedConn p config pins =
      (tls_config : TlsConfig) × ((network : String) × ((addr : String) × ((conn : Conn) × (Dialed p
                tls_config config network addr conn
              × Pinned p pins conn.verified_chains))))

  do_sent-returned :
      (p : Platform Pool Keys) (req : Request) (client : HttpClient) (s : NetState Pool Keys)
      (resp : HttpResponse)
      → (do_sent p req client s).0 ≡ returned resp
      → p.do_request client req ≡ some resp
  do_sent-returned p req client s resp h = ground (arith)

  pin_dialer-some :
      (p : Platform Pool Keys) (tls_config : TlsConfig) (config : HttpConfig)
      (request : InvokeRequest)
      → request.pin_set ≢ []
      → pin_dialer p tls_config config request
        ≡ some (verify_pin_dialer p tls_config request.pin_set config)
  pin_dialer-some p tls_config config request pins = elim (Bool-cases (is_empty request.pin_set)) [
    | inl e ↦ absurd (pins ((is_empty_iff request.pin_set).0 e))
    | inr e ↦ rw e refl
  ]

  send_http_request-Pinned :
      (p : Platform Pool Keys) (config : HttpConfig) (request : InvokeRequest) (req : Request)
      (reload : Bool) (s : NetState Pool Keys) (resp : HttpResponse)
      → DialsFirst p
      → request.pin_set ≢ []
      → (send_http_request p config request req reload s).0 ≡ returned resp
      → PinnedConn p config request.pin_set
  unfolding send_http_request get_http_client
  send_http_request-Pinned p config request req reload s resp law pins h =
      let (client, e, sent) =
        proceed-returned (get_http_client p config request reload s).0 _ _ h in
      let (tls_config, e', given) =
        proceed-returned (get_tls_config p request.named_client config reload s).0 _ _ e in
      let dials : client.dial_tls ≡ some (verify_pin_dialer p tls_config request.pin_set config) =
        ap dial_of (sym given) ∙ pin_dialer-some p tls_config config request pins in
      let (network, (addr, (conn, dialed))) =
        law client req resp (verify_pin_dialer p tls_config request.pin_set config)
          (do_sent-returned p req client (get_http_client p config request reload s).1 resp sent)
          dials in
      (
        tls_config,
        (
          network,
          (
            addr,
            (
              conn,
              (verify_pin_dialer_iff p tls_config request.pin_set config network addr conn).0
                  dialed,
            ),
          ),
        ),
      )

module _ {Pool Keys : Type 0} (platform : Bool → Platform Pool Keys) (config : HttpConfig)
    (law : (b : Bool) → DialsFirst (platform b)) where
  try_again-Pinned :
      (request : InvokeRequest) (req : Request) (s s' : NetState Pool Keys) (resp : HttpResponse)
      (o : Outcome HttpResponse)
      → request.pin_set ≢ []
      → (send_http_request (platform false) config request req false s).0 ≡ o
      → (try_again platform config request req o s').0 ≡ returned resp
      → (b : Bool) × PinnedConn (platform b) config request.pin_set
  unfolding try_again
  try_again-Pinned request req s s' resp (returned r) pins e h = (
    false,
    send_http_request-Pinned (platform false) config request req false s r (law false) pins e,
  )
  try_again-Pinned request req s s' resp panicked pins e h = cc
  try_again-Pinned request req s s' resp (failed code) pins e h =
      elim (Bool-cases (is_key_cache_enabled config)) [
        | inr off ↦ cc
        | inl on ↦ (
          true,
          send_http_request-Pinned (platform true) config request req true s' resp (law true) pins
              (ground (arith, h, on)),
        )
      ]

  get_data_from_source-Pinned :
      (request : InvokeRequest) (s : NetState Pool Keys) (data_ : String × String)
      → request.pin_set ≢ []
      → (get_data_from_source platform config request s).0 ≡ returned data_
      → (b : Bool) × PinnedConn (platform b) config request.pin_set
  unfolding get_data_from_source send_twice
  get_data_from_source-Pinned request s data_ pins h =
      go (prepare_http_request (platform false) config request) h
    where
      go :
          (o : Option Request)
          → (elim o as (λ o. Proc (NetState Pool Keys) (String × String)) [
            | none ↦ (λ s'. (failed validation_error, s'))
            | some req ↦
                recode http_client_error (send_twice platform config request req) >>= λ resp.
                ask (read_response (platform false).to_lower request resp)
          ]
              s).0
            ≡ returned data_
          → (b : Bool) × PinnedConn (platform b) config request.pin_set
      go none h = cc
      go (some req) h =
          let (resp, e, read) =
            proceed-returned (recode http_client_error (send_twice platform config request req) s).0
              _ _ h in
          try_again-Pinned request req s _ resp _ pins refl
            (recode-returned http_client_error (send_twice platform config request req) s e)

  -- If the transport opens a connection with its dialer before there is a response, an invocation with
  -- pins returns a response only if one of its tries has opened a connection whose handshake verified a
  -- chain that begins with a certificate whose public key has one of the pins.
  pub invoke-Pinned :
      (inv : Invoker) (s : NetState Pool Keys) (response : String)
      → inv.request.pin_set ≢ []
      → (invoke platform config inv s).0 ≡ returned response
      → (b : Bool) × PinnedConn (platform b) config inv.request.pin_set
  unfolding invoke
  invoke-Pinned inv s response pins h =
      let (data_, e, rest) =
        proceed-returned (get_data_from_source platform config inv.request s).0 _ _ h in
      get_data_from_source-Pinned inv.request s data_ pins e
