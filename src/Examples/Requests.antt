-- ===== src/Examples/Requests.antt =====
-- The HTTP snap at a request.
use fabric_snaps.Common.{
  All, ◌==◌, if◌then◌else◌, ◌≡◌, ap, refl, Bool, true, false, none, some, List, [], ◌∷◌, inl,
  lookup, insert, string_eq, contains,
}
use fabric_snaps.Errors.{http_client_error}
use fabric_snaps.HttpSnap.Config.{
  timeout_or_default, is_header_allowed, get_crypto_provider, get_client_cert, get_ca_certs,
  key_cache_refresh_interval,
}
use fabric_snaps.HttpSnap.Outcome.{returned, failed, recode, ask, ◌>>=◌, outcome_of}
use fabric_snaps.HttpSnap.Platform.{
  Request, NetState, TlsConfig, signer, rsa_public_key, Certificate,
}
use fabric_snaps.HttpSnap.KeyCache.{get_key, get_cached, get_key_by_ski}
use fabric_snaps.HttpSnap.KeyCache.Fresh.{get_key-Fresh}
use fabric_snaps.HttpSnap.Service.{
  send_http_request, get_http_client, read_response, validate, validate_json, Invoker,
  prepare_http_request, set_headers,
}
use fabric_snaps.HttpSnap.Service.Headers.{IsAllowed, prepare_http_request-IsAllowed}
use fabric_snaps.HttpSnap.Tls.{
  get_tls_config, tls_config_for, prepare_tls_config_from_private_key, prepare_tls_config_from_cert,
  verify_pin_dialer, check_pin,
}
use fabric_snaps.HttpSnap.Certificates.{
  validate_client_config, get_public_key_from_pem, x509_key_pair, certificate_blocks, pair_blocks,
  decode_certs,
}
use fabric_snaps.HttpSnap.Invocation.{send_twice, try_again, invoke, get_data_from_source}
use fabric_snaps.HttpSnap.Invocation.Pinned.{PinnedConn, invoke-Pinned}
use fabric_snaps.HttpSnap.Invocation.Tries.{Sent, get_data_from_source-Sent}
use fabric_snaps.Examples.Platforms.{
  platform, lazy_cache, dials_first, schema, config, request, net, key, Keys, response,
}

abbrev pub inv : Invoker
inv = record {
  request = record request {
    request_headers = ("content-type", "application/json") ∷ ("Other", "x") ∷ [];
  };
  schema_config = schema;
  headers = ("content-type", "application/json") ∷ ("Other", "x") ∷ [];
}

abbrev pub req : Request
req = record {
  method = "POST";
  url = "https://example.com";
  body = "{}";
  header = ("content-type", "application/json") ∷ [];
}

abbrev keys : Keys
keys = λ j. if j == "ski_SW" then some key else none

-- The state after the first try, and after the second one.
abbrev pub tried : List Request → NetState (List Certificate) Keys
tried requests = record { key_cache = some keys; cert_pool = some []; sent = requests }

abbrev second_keys : Keys
second_keys = λ j. if j == "ski_SW" then some key else if j == "ski_SW" then none else keys j

abbrev tls_config : TlsConfig
tls_config = record {
  tls_certificate = record { certificates = "der" ∷ []; private_key = signer key rsa_public_key };
  root_cas = "pool";
  verify_peer_certificate = λ raw. true;
}

pub prepares : (b : Bool) → prepare_http_request (platform b) config inv.request ≡ some req
unfolding prepare_http_request set_headers is_header_allowed insert lookup
prepares b = refl

pub first_tls :
    (b : Bool) → get_tls_config (platform b) "" config false net ≡ (returned tls_config, tried [])
unfolding get_tls_config get_crypto_provider validate_client_config get_client_cert get_ca_certs
    get_public_key_from_pem get_key get_cached get_key_by_ski tls_config_for
    prepare_tls_config_from_private_key x509_key_pair certificate_blocks pair_blocks
    prepare_tls_config_from_cert decode_certs key_cache_refresh_interval
first_tls b = refl

abbrev renewed : List Request → NetState (List Certificate) Keys
renewed requests = record { key_cache = some second_keys; cert_pool = some []; sent = requests }

second_tls :
    get_tls_config (platform true) "" config true (tried (req ∷ []))
    ≡ (returned tls_config, renewed (req ∷ []))
unfolding get_tls_config get_crypto_provider validate_client_config get_client_cert get_ca_certs
    get_public_key_from_pem get_key get_cached get_key_by_ski tls_config_for
    prepare_tls_config_from_private_key x509_key_pair certificate_blocks pair_blocks
    prepare_tls_config_from_cert decode_certs
second_tls = refl

first_send :
    send_http_request (platform false) config inv.request req false net
    ≡ (failed http_client_error, tried (req ∷ []))
unfolding send_http_request get_http_client verify_pin_dialer check_pin timeout_or_default
first_send = rw (first_tls false) refl

second_send :
    send_http_request (platform true) config inv.request req true (tried (req ∷ []))
    ≡ (returned response, renewed (req ∷ req ∷ []))
unfolding send_http_request get_http_client verify_pin_dialer check_pin timeout_or_default contains
second_send = rw second_tls refl

-- The first try fails and the second one gets the response.
twice :
    send_twice platform config inv.request req net ≡ (returned response, renewed (req ∷ req ∷ []))
unfolding send_twice try_again
twice = rw (first_send, second_send) refl

gets :
    get_data_from_source platform config inv.request net
    ≡ (returned ("application/json", "{}"), renewed (req ∷ req ∷ []))
unfolding get_data_from_source read_response lookup
gets =
    rw (get_data_from_source, prepares false)
      (ap
        (λ x.
          (recode http_client_error (λ s. x) >>= λ resp.
          ask (read_response (platform false).to_lower inv.request resp))
            net)
        twice)

answers : (invoke platform config inv net).0 ≡ returned "{}"
unfolding invoke validate validate_json lookup
answers = rw (invoke, gets) refl

invoke-Pinned_example : (b : Bool) × PinnedConn (platform b) config inv.request.pin_set
invoke-Pinned_example = invoke-Pinned platform config dials_first inv net "{}" (λ e. cc) answers

get_data_from_source-Sent_example :
    Sent platform config inv.request req net
      (get_data_from_source platform config inv.request net).1.sent
get_data_from_source-Sent_example =
    get_data_from_source-Sent platform config inv.request req net (prepares false)

prepare_http_request-IsAllowed_example :
    (req.method ≡ "POST")
    × (req.url ≡ inv.request.request_url)
    × (req.body ≡ inv.request.request_body)
    × All (IsAllowed (platform false) config inv.request.request_headers) req.header
prepare_http_request-IsAllowed_example =
    prepare_http_request-IsAllowed (platform false) config inv.request req (prepares false)

get_key-Fresh_example :
    (get_key (platform true) "ski" config "SW" true (tried [])).0
    ≡ outcome_of (get_key_by_ski (platform true) "ski" "SW")
get_key-Fresh_example =
    get_key-Fresh (platform true) (lazy_cache true) "ski" config "SW" true (tried []) (inl refl)
