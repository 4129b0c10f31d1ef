-- ===== src/HttpSnap/Tls.antt =====
-- The TLS configuration of a request and the dialer that checks pins, of
-- httpsnap/cmd/httpsnapservice/httpsnapservice.go.
pub mod Pins
use fabric_snaps.Common.{
  String, ◌==◌, Bool, true, false, Option, none, some, List, [], ◌∷◌, contains, if◌then◌else◌,
}
use fabric_snaps.Errors.{
  Result, ok, err, or_err, system_error, crypto_config_error, get_key_error, crypto_error,
  missing_config_data_error, http_client_error, invalid_cert_pin_error,
}
use fabric_snaps.HttpSnap.Config.{
  HttpConfig, get_crypto_provider, get_peer_client_key, is_peer_tls_config_enabled,
  timeout_or_default, dialer_timeout, dialer_keep_alive,
}
use fabric_snaps.HttpSnap.Outcome.{
  Outcome, returned, failed, panicked, Proc, ◌>>=◌, give, ask, recode, outcome_of,
}
use fabric_snaps.HttpSnap.Platform.{
  Key, Certificate, TlsCertificate, TlsConfig, Conn, Dialer, Platform, NetState,
}
use fabric_snaps.HttpSnap.KeyCache.{get_key}
use fabric_snaps.HttpSnap.Certificates.{
  decode_certs, validate_client_config, get_public_key_from_pem, x509_key_pair, with_code,
}

module _ {Pool Keys : Type 0} (p : Platform Pool Keys) where
  -- `prepareTLSConfigFromCert`
  unfoldable pub prepare_tls_config_from_cert :
      TlsCertificate → List String → Proc (NetState Pool Keys) TlsConfig
  prepare_tls_config_from_cert cert ca_certs s = elim s.cert_pool [
    | none ↦ (panicked, s)
    | some old_pool ↦
        let (pool, cert_pool) = p.get_pool (p.add_certs (decode_certs p ca_certs) old_pool) in
        (
          elim pool [
            | none ↦ failed system_error
            | some root_cas ↦ returned (record {
              tls_certificate = cert;
              root_cas = root_cas;
              verify_peer_certificate = p.verify_certificate;
            })
          ],
          record s { cert_pool = some cert_pool },
        )
  ]

  -- `prepareTLSConfigFromClientKeyBytes`
  unfoldable pub prepare_tls_config_from_client_key_bytes :
      String → String → List String → Proc (NetState Pool Keys) TlsConfig
  prepare_tls_config_from_client_key_bytes client_cert client_key ca_certs = do
    cert ← ask (or_err (p.x509_key_pair client_cert client_key) crypto_error)
    prepare_tls_config_from_cert cert ca_certs

  -- `prepareTLSConfigFromPrivateKey`
  unfoldable pub prepare_tls_config_from_private_key :
      Key → String → List String → Proc (NetState Pool Keys) TlsConfig
  prepare_tls_config_from_private_key client_key client_cert ca_certs = do
    cert ← λ s. (x509_key_pair p client_cert client_key, s)
    prepare_tls_config_from_cert cert ca_certs

  -- The end of `getTLSConfig`, for the key that was found. The error of its last branch has no cause, and
  -- the caller panics when it asks for the text of that error.
  unfoldable pub tls_config_for :
      Key → String → List String → HttpConfig → Proc (NetState Pool Keys) TlsConfig
  tls_config_for pk client_cert ca_certs config =
      if pk.private
      then prepare_tls_config_from_private_key pk client_cert ca_certs
      else if is_peer_tls_config_enabled config
      then (do
        peer_client_tls_key ←
            ask (with_code (get_peer_client_key p.files config) (err missing_config_data_error))
        prepare_tls_config_from_client_key_bytes client_cert peer_client_tls_key ca_certs)
      else (λ s. (panicked, s))

  -- `getTLSConfig`
  unfoldable pub get_tls_config : String → HttpConfig → Bool → Proc (NetState Pool Keys) TlsConfig
  get_tls_config client config reload = do
    crypto_provider ← ask (get_crypto_provider config)
    crypto_suite ← ask (or_err (p.get_bccsp crypto_provider) crypto_config_error)
    certs ← ask (validate_client_config p client config)
    key ← ask (get_public_key_from_pem p crypto_suite certs.0)
    pk ← recode get_key_error (get_key p key.ski config crypto_provider reload)
    tls_config_for pk certs.0 certs.1 config

  -- `GeneratePin`
  abbrev pub generate_pin : Certificate → String
  generate_pin c = p.sha256_base64 c.raw_subject_public_key_info

  -- The part of the dialer of `verifyPinDialer` after the handshake.
  unfoldable pub check_pin : List String → Conn → List (List Certificate) → Outcome Conn
  check_pin pins c [] = panicked
  check_pin pins c ([] ∷ chains) = failed invalid_cert_pin_error
  check_pin pins c ((leaf_cert ∷ certs) ∷ chains) =
      if contains pins (generate_pin leaf_cert) then returned c else failed invalid_cert_pin_error

  -- `verifyPinDialer`
  unfoldable pub verify_pin_dialer : TlsConfig → List String → HttpConfig → Dialer
  verify_pin_dialer tls_config pins config network addr =
      elim (p.dial_with_dialer (timeout_or_default config dialer_timeout)
        (timeout_or_default config dialer_keep_alive) network addr tls_config) [
          | none ↦ failed http_client_error
          | some c ↦ check_pin pins c c.verified_chains
        ]
