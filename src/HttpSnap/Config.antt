-- ===== src/HttpSnap/Config.antt =====
-- The configuration of the HTTP snap: httpsnap/cmd/config/config.go. viper, the files of the peer and
-- `strings.ToLower` are parameters. The level of the log is only checked.
pub mod Preloaded
use fabric_snaps.Common.{
  ℕ, String, ◌==◌, Bool, true, false, not, ◌&&◌, Option, none, some, List, [], ◌∷◌, is_empty, eqb,
  if◌then◌else◌, Dict, ℤ, pos, is_zero, lookup, insert, string_eq,
}
use fabric_snaps.Errors.{
  Result, ok, err, ◌>>=◌, ◌>>◌, or_err, system_error, initialize_config_error,
  initialize_logging_error, missing_config_data_error, crypto_config_error,
}
use fabric_snaps.Config.Parse.{Bytes}
use fabric_snaps.Config.Service
use fabric_snaps.Config.Service.{ConfigService, Peer}

pub record SchemaConfig : Type 0 where
  pub content_type : String
  pub request : String
  pub response : String

pub record ClientTls : Type 0 where
  pub ca : String
  pub crt : String

-- What the code uses of a `viper.Viper`; a duration is in nanoseconds. `UnmarshalKey` has a field for each type it decodes into, and
-- fails with `none`; a client of the override may be null.
pub record Viper : Type 0 where
  pub get_string : String → String
  pub get_bool : String → Bool
  pub get_duration : String → ℤ
  pub get_string_slice : String → List String
  pub unmarshal_client_tls : String → Option (Dict String (Option ClientTls))
  pub unmarshal_strings : String → Option (List String)
  pub unmarshal_schemas : String → Option (List SchemaConfig)

-- The file system.
pub record Files : Type 0 where
  pub read_file : String → Option String
  pub is_abs : String → Bool
  pub join_path : String → String → String

-- The struct `config`.
pub record HttpConfig : Type 0 where
  pub peer_config : Viper
  pub http_snap_config : Viper
  pub peer_config_path : String
  pub client_tls : Dict String (Option ClientTls)
  pub headers : Dict String Bool
  pub schema_configs : Dict String SchemaConfig

abbrev pub default_timeout : ℤ
default_timeout = pos 5000000000

abbrev pub default_cache_refresh : ℤ
default_cache_refresh = pos 10800000000000

-- `HTTPClientTimeoutType`
pub data TimeoutType : Type 0 where
  global_timeout transport_tls_handshake transport_response_header : TimeoutType
  transport_expect_continue transport_idle_conn dialer_timeout dialer_keep_alive : TimeoutType

abbrev pub timeout_key : TimeoutType → String
timeout_key global_timeout = "httpclient.timeout.client.timeout"
timeout_key transport_tls_handshake = "httpclient.timeout.transport.tlsHandshake"
timeout_key transport_response_header = "httpclient.timeout.transport.responseHeader"
timeout_key transport_expect_continue = "httpclient.timeout.transport.expectContinue"
timeout_key transport_idle_conn = "httpclient.timeout.transport.idleConn"
timeout_key dialer_timeout = "httpclient.timeout.dialer.timeout"
timeout_key dialer_keep_alive = "httpclient.timeout.dialer.keepAlive"

unfoldable pub timeout_or_default : HttpConfig → TimeoutType → ℤ
timeout_or_default c timeout_type =
    let timeout = c.http_snap_config.get_duration (timeout_key timeout_type) in
    if is_zero timeout then default_timeout else timeout

abbrev pub is_key_cache_enabled : HttpConfig → Bool
is_key_cache_enabled c = c.http_snap_config.get_bool "cache.keycache.enabled"

unfoldable pub key_cache_refresh_interval : HttpConfig → ℤ
key_cache_refresh_interval c =
    let refresh = c.http_snap_config.get_duration "cache.keycache.refresh" in
    if is_zero refresh then default_cache_refresh else refresh

abbrev pub is_system_cert_pool_enabled : HttpConfig → Bool
is_system_cert_pool_enabled c = c.http_snap_config.get_bool "tls.enableSystemCertPool"

abbrev pub is_peer_tls_config_enabled : HttpConfig → Bool
is_peer_tls_config_enabled c = c.http_snap_config.get_bool "tls.allowPeerConfig"

unfoldable pub get_schema_config : HttpConfig → String → Result SchemaConfig
get_schema_config c content_type =
    or_err (lookup content_type c.schema_configs) missing_config_data_error

unfoldable pub get_crypto_provider : HttpConfig → Result String
get_crypto_provider c =
    let crypto_provider = c.peer_config.get_string "peer.BCCSP.Default" in
    if crypto_provider == "" then err crypto_config_error else ok crypto_provider

-- The peer's certificates and keys, which stand in files.
module _ (files : Files) where
  unfoldable pub translate_peer_path : HttpConfig → String → String
  translate_peer_path c path =
      if files.is_abs path then path else files.join_path c.peer_config_path path

  abbrev pub read_peer_file : HttpConfig → String → Result String
  read_peer_file c location = or_err (files.read_file (translate_peer_path c location)) system_error

  -- The first of two settings that is not empty.
  abbrev pub first_location : HttpConfig → String → String → String
  first_location c name other =
      let location = c.peer_config.get_string name in
      if location == "" then c.peer_config.get_string other else location

  unfoldable pub get_peer_client_key : HttpConfig → Result String
  get_peer_client_key c =
      read_peer_file c (first_location c "peer.tls.clientKey.file" "peer.tls.key.file")

  unfoldable pub get_peer_client_cert : HttpConfig → Result String
  get_peer_client_cert c =
      read_peer_file c (first_location c "peer.tls.clientCert.file" "peer.tls.cert.file")

  unfoldable pub get_peer_tls_root_cert : HttpConfig → Result (List String)
  get_peer_tls_root_cert c =
      let location = c.peer_config.get_string "peer.tls.rootcert.file" in
      if location == "" then ok [] else (read_peer_file c location >>= λ data_. ok (data_ ∷ []))

  unfoldable pub get_ca_certs : HttpConfig → Result (List String)
  get_ca_certs c =
      let ca_certs = c.http_snap_config.get_string_slice "tls.caCerts" in
      if is_empty ca_certs && is_peer_tls_config_enabled c
      then get_peer_tls_root_cert c
      else ok ca_certs

  unfoldable pub get_client_cert : HttpConfig → Result String
  get_client_cert c =
      let client_cert = c.http_snap_config.get_string "tls.clientCert" in
      if client_cert == "" && is_peer_tls_config_enabled c
      then get_peer_client_cert c
      else ok client_cert

-- `for _, sc := range allSchemas { c.schemaConfigs[sc.Type] = &sc }`
unfoldable pub add_schemas : List SchemaConfig → Dict String SchemaConfig → Dict String SchemaConfig
add_schemas [] m = m
add_schemas (sc ∷ all_schemas) m = add_schemas all_schemas (insert sc.content_type sc m)

module _ (to_lower : String → String) where
  -- `for _, h := range allHeaders { c.headers[strings.ToLower(h)] = true }`
  unfoldable pub add_headers : List String → Dict String Bool → Dict String Bool
  add_headers [] m = m
  add_headers (h ∷ all_headers) m = add_headers all_headers (insert (to_lower h) true m)

  unfoldable pub is_header_allowed : HttpConfig → String → Bool
  is_header_allowed c name = elim (lookup (to_lower name) c.headers) [ none ↦ false | some v ↦ v ]

  unfoldable pub preload_entities : HttpConfig → Result HttpConfig
  preload_entities c = do
    client_tls ←
        or_err (c.http_snap_config.unmarshal_client_tls "tls.namedClientOverride")
          initialize_config_error
    all_headers ← or_err (c.http_snap_config.unmarshal_strings "headers") initialize_config_error
    if is_empty all_headers then err initialize_config_error else ok tt
    all_schemas ← or_err (c.http_snap_config.unmarshal_schemas "schemas") initialize_config_error
    ok (record c {
      client_tls = client_tls;
      headers = add_headers all_headers [];
      schema_configs = add_schemas all_schemas [];
    })
