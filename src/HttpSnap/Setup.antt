-- ===== src/HttpSnap/Setup.antt =====
-- How the service gets its configuration: NewConfig of httpsnap/cmd/config/config.go, and Get,
-- newHTTPService and initialize of httpsnap/cmd/httpsnapservice/httpsnapservice.go. The file of the
-- peer's configuration and the decoding of YAML are viper's.
pub mod Renewal
use fabric_snaps.Common.{String, ◌==◌, Bool, true, false, Option, none, some, [], if◌then◌else◌}
use fabric_snaps.Errors.{
  Result, ok, err, ◌>>=◌, ◌>>◌, or_err, system_error, initialize_config_error,
  initialize_logging_error,
}
use fabric_snaps.Config.Key.{ConfigKey}
use fabric_snaps.Config.Parse.{Bytes}
use fabric_snaps.Config.Service
use fabric_snaps.Config.Service.{ConfigService, Peer}
use fabric_snaps.HttpSnap.Config.{Viper, HttpConfig, preload_entities, is_system_cert_pool_enabled}
use fabric_snaps.HttpSnap.Outcome.{Outcome, returned, failed, Proc}
use fabric_snaps.HttpSnap.Platform.{Platform, NetState}

-- What NewConfig uses: the cached configuration of the peer by its path, viper's decoding of YAML, and
-- the levels that the logging library knows.
pub record ConfigSource : Type 0 where
  pub peer : Peer
  pub peer_config_path : String
  pub get_peer_config : String → Result Viper
  pub read_config : Bytes → Option Viper
  pub log_level : String → Bool

-- The package's instance, if it was made, what it uses of the network and of its caches, and the
-- configuration service, if there is one.
pub record HttpState (Pool Keys : Type 0) : Type 0 where
  pub instance_config : Option HttpConfig
  pub net : NetState Pool Keys
  pub configs : Option ConfigService

abbrev pub http_snap_key : Viper → ConfigKey
http_snap_key peer_config = record {
  msp_id = peer_config.get_string "peer.localMspId";
  peer_id = peer_config.get_string "peer.id";
  app_name = "httpsnap";
  app_version = "";
  component_name = "";
  component_version = "";
}

-- `initializeLogging`
unfoldable pub initialize_logging : ConfigSource → HttpConfig → Result (Unit {0})
initialize_logging source c =
    let level = c.http_snap_config.get_string "logging.level" in
    if source.log_level (if level == "" then "info" else level)
    then ok tt
    else err initialize_logging_error

-- The part of `NewConfig` after the configuration service has answered.
unfoldable pub read_http_config :
    ConfigSource
    → (String → String)
    → Viper
    → Result (Option Bytes × Bool)
    → Result (HttpConfig × Bool)
read_http_config source to_lower peer_config (err e) = err system_error
read_http_config source to_lower peer_config (ok (none, dirty)) = err initialize_config_error
read_http_config source to_lower peer_config (ok (some config_data, dirty)) = do
  http_snap_config ← or_err (source.read_config config_data) initialize_config_error
  c ← preload_entities to_lower (record {
    peer_config = peer_config;
    http_snap_config = http_snap_config;
    peer_config_path = source.peer_config_path;
    client_tls = [];
    headers = [];
    schema_configs = [];
  })
  if dirty then initialize_logging source c else ok tt
  ok (c, dirty)

-- `NewConfig`
unfoldable pub new_config :
    ConfigSource
    → (String → String)
    → String
    → Option ConfigService
    → Result (HttpConfig × Bool) × Option ConfigService
new_config source to_lower channel_id configs =
    elim (source.get_peer_config source.peer_config_path) [
      | err e ↦ (err e, configs)
      | ok peer_config ↦ elim configs [
        | none ↦ (err system_error, none)
        | some csi ↦
            let (r, csi') = Service.get source.peer channel_id (http_snap_key peer_config) csi in
            (read_http_config source to_lower peer_config r, some csi')
      ]
    ]

module _ {Pool Keys : Type 0} (p : Platform Pool Keys) where
  -- `initialize`; whether the pool of certificates could be made.
  unfoldable pub initialize : HttpConfig → HttpState Pool Keys → Bool × HttpState Pool Keys
  initialize config st =
      let cert_pool = p.new_cert_pool (is_system_cert_pool_enabled config) in
      (
        elim cert_pool [ none ↦ false | some _ ↦ true ],
        record st { instance_config = some config; net = record st.net { cert_pool = cert_pool } },
      )

  abbrev pub initialized : HttpConfig → Proc (HttpState Pool Keys) HttpConfig
  initialized config st =
      let (done, st') = initialize config st in
      (if done then returned config else failed initialize_config_error, st')

  -- The part of `newHTTPService` after `NewConfig`, which gives the configuration of the instance. The
  -- first call makes the instance, and a later one only renews it if the configuration is new.
  unfoldable pub renew : Result (HttpConfig × Bool) → Proc (HttpState Pool Keys) HttpConfig
  renew (err e) st = (failed initialize_config_error, st)
  renew (ok (config, dirty)) st = elim st.instance_config [
    | none ↦ initialized config st
    | some current ↦ if dirty then initialized config st else (returned current, st)
  ]

  -- `newHTTPService`
  unfoldable pub new_http_service : ConfigSource → String → Proc (HttpState Pool Keys) HttpConfig
  new_http_service source channel_id st =
      let (r, configs) = new_config source p.to_lower channel_id st.configs in
      renew r (record st { configs = configs })
