-- ===== src/HttpSnap/Invocation/Unsent.antt =====
-- What sends nothing, and a try that sends a request at most once.
use fabric_snaps.Common.{
  String, ◌≡◌, refl, ap, ◌∙◌, ◌⊎◌, inl, inr, Bool, true, false, List, [], ◌∷◌, ◌++◌, arith,
  if◌then◌else◌,
}
use fabric_snaps.Errors.{ErrorCode, or_err, crypto_config_error, get_key_error}
use fabric_snaps.HttpSnap.Config.{HttpConfig, get_crypto_provider, is_peer_tls_config_enabled}
use fabric_snaps.HttpSnap.Outcome.{
  Outcome, returned, failed, panicked, Proc, proceed, ◌>>=◌, recode, outcome_of,
}
use fabric_snaps.HttpSnap.Platform.{Key, HttpClient, Request, TlsCertificate, Platform, NetState}
use fabric_snaps.HttpSnap.KeyCache.{get_key, get_cached}
use fabric_snaps.HttpSnap.Certificates.{validate_client_config, get_public_key_from_pem}
use fabric_snaps.HttpSnap.Tls.{
  get_tls_config, tls_config_for, prepare_tls_config_from_cert, prepare_tls_config_from_private_key,
  prepare_tls_config_from_client_key_bytes,
}
use fabric_snaps.HttpSnap.Service.{InvokeRequest, send_http_request, get_http_client, do_sent}

module _ {Pool Keys : Type 0} where
  -- The computation sends nothing.
  abbrev pub Unsent {ℓ} : {A : Type ℓ} → Proc (NetState Pool Keys) A → Type 0
  Unsent m = (s : NetState Pool Keys) → (m s).1.sent ≡ s.sent

  proceed-sent {ℓ κ} :
      {A : Type ℓ} {B : Type κ} (o : Outcome A) (rest : A → Proc (NetState Pool Keys) B)
      (s : NetState Pool Keys)
      → ((a : A) → Unsent (rest a))
      → (proceed o rest s).1.sent ≡ s.sent
  proceed-sent (returned a) rest s h = h a s
  proceed-sent (failed code) rest s h = refl
  proceed-sent panicked rest s h = refl

  >>=-Unsent {ℓ κ} :
      {A : Type ℓ} {B : Type κ} (m : Proc (NetState Pool Keys) A)
      (rest : A → Proc (NetState Pool Keys) B)
      → Unsent m
      → ((a : A) → Unsent (rest a))
      → Unsent (m >>= rest)
  >>=-Unsent m rest hm hr s = proceed-sent (m s).0 rest (m s).1 hr ∙ hm s

  if-Unsent {ℓ} :
      {A : Type ℓ} (b : Bool) (m n : Proc (NetState Pool Keys) A)
      → Unsent m
      → Unsent n
      → Unsent (if b then m else n)
  if-Unsent true m n hm hn = hm
  if-Unsent false m n hm hn = hn

  recode-state {ℓ} :
      {A : Type ℓ} (code : ErrorCode) (m : Proc (NetState Pool Keys) A) (s : NetState Pool Keys)
      → (recode code m s).1 ≡ (m s).1
  recode-state code m s = ground (arith)

  -- How often a try sends the request: not at all, or once.
  abbrev pub Once : Request → NetState Pool Keys → NetState Pool Keys → Type 0
  Once req s s' = (s'.sent ≡ s.sent) ⊎ (s'.sent ≡ s.sent ++ req ∷ [])

  module _ (p : Platform Pool Keys) where
    get_key-Unsent :
        (ski : String) (config : HttpConfig) (provider : String) (reload : Bool)
        → Unsent (get_key p ski config provider reload)
    unfolding get_key get_cached
    get_key-Unsent ski config provider reload s = ground (arith)

    prepare-Unsent :
        (cert : TlsCertificate) (ca_certs : List String)
        → Unsent (prepare_tls_config_from_cert p cert ca_certs)
    unfolding prepare_tls_config_from_cert
    prepare-Unsent cert ca_certs s = ground (arith)

    private_key-Unsent :
        (pk : Key) (client_cert : String) (ca_certs : List String)
        → Unsent (prepare_tls_config_from_private_key p pk client_cert ca_certs)
    unfolding prepare_tls_config_from_private_key
    private_key-Unsent pk client_cert ca_certs =
        >>=-Unsent _ _ (λ s. refl) (λ cert. prepare-Unsent cert ca_certs)

    key_bytes-Unsent :
        (client_cert client_key : String) (ca_certs : List String)
        → Unsent (prepare_tls_config_from_client_key_bytes p client_cert client_key ca_certs)
    unfolding prepare_tls_config_from_client_key_bytes
    key_bytes-Unsent client_cert client_key ca_certs =
        >>=-Unsent _ _ (λ s. refl) (λ cert. prepare-Unsent cert ca_certs)

    tls_config_for-Unsent :
        (pk : Key) (client_cert : String) (ca_certs : List String) (config : HttpConfig)
        → Unsent (tls_config_for p pk client_cert ca_certs config)
    unfolding tls_config_for
    tls_config_for-Unsent pk client_cert ca_certs config =
        if-Unsent pk.private _ _ (private_key-Unsent pk client_cert ca_certs) (
          if-Unsent (is_peer_tls_config_enabled config) _ _
            (>>=-Unsent _ _ (λ s. refl) (λ key. key_bytes-Unsent client_cert key ca_certs))
            (λ s. refl))

    get_tls_config-Unsent :
        (client : String) (config : HttpConfig) (reload : Bool)
        → Unsent (get_tls_config p client config reload)
    unfolding get_tls_config
    get_tls_config-Unsent client config reload s =
        proceed-sent (outcome_of (get_crypto_provider config)) _ s (λ provider. λ s.
          proceed-sent (outcome_of (or_err (p.get_bccsp provider) crypto_config_error)) _ s
            (λ suite. λ s.
              proceed-sent (outcome_of (validate_client_config p client config)) _ s (λ certs. λ s.
                proceed-sent (outcome_of (get_public_key_from_pem p suite certs.0)) _ s
                  (λ key. λ s. found_key-sent key provider certs s))))
      where
        found_key-sent :
            (key : Key) (provider : String) (certs : String × List String)
            → Unsent (
                recode get_key_error (get_key p key.ski config provider reload) >>= λ pk.
                tls_config_for p pk certs.0 certs.1 config)
        found_key-sent key provider certs =
            >>=-Unsent (recode get_key_error (get_key p key.ski config provider reload))
              (λ pk. tls_config_for p pk certs.0 certs.1 config)
              (λ s.
                ap (λ x. x.sent) (recode-state _ (get_key p key.ski config provider reload) s)
                ∙ get_key-Unsent key.ski config provider reload s)
              (λ pk. tls_config_for-Unsent pk certs.0 certs.1 config)

    get_http_client-Unsent :
        (config : HttpConfig) (request : InvokeRequest) (reload : Bool)
        → Unsent (get_http_client p config request reload)
    unfolding get_http_client
    get_http_client-Unsent config request reload =
        >>=-Unsent _ _ (get_tls_config-Unsent request.named_client config reload)
          (λ tls_config. λ s. refl)

    proceed-Once :
        (req : Request) (o : Outcome HttpClient) (s s' : NetState Pool Keys)
        → s'.sent ≡ s.sent
        → Once req s (proceed o (do_sent p req) s').1
    proceed-Once req (returned c) s s' e = inr (ap (λ x. x ++ req ∷ []) e)
    proceed-Once req (failed code) s s' e = inl e
    proceed-Once req panicked s s' e = inl e

    pub send_http_request-Once :
        (config : HttpConfig) (request : InvokeRequest) (req : Request) (reload : Bool)
        (s : NetState Pool Keys)
        → Once req s (send_http_request p config request req reload s).1
    unfolding send_http_request
    send_http_request-Once config request req reload s =
        proceed-Once req (get_http_client p config request reload s).0 s _
          (get_http_client-Unsent config request reload s)
