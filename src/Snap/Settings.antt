-- ===== src/Snap/Settings.antt =====
-- The configuration of the configuration snap:
-- configurationsnap/cmd/configurationscc/config/config.go, with GetViper of
-- configmanager/pkg/service/configmgmtservice.go. viper, the peer's file, the logging levels and net.ParseIP
-- are parameters. A duration is in nanoseconds.
use fabric_snaps.Common.{
  String, ◌==◌, Bool, true, Option, none, some, List, [], ◌∷◌, if◌then◌else◌, ℤ, pos, ltz,
}
use fabric_snaps.Errors.{
  Result, ok, err, or_err, ◌>>=◌ as bind, initialize_config_error, initialize_logging_error,
  missing_config_data_error, peer_config_error,
}
use fabric_snaps.Exec.{Exec, ◌>>=◌, lift}
use fabric_snaps.Config.Key.{ConfigKey}
use fabric_snaps.Config.Parse.{Bytes}
use fabric_snaps.Config.Service
use fabric_snaps.Config.Service.{ConfigService, Peer, no_bytes}

pub record Viper : Type 0 where
  pub get_string : String → String
  pub get_duration : String → ℤ
  pub get_string_slice : String → List String

pub record Library : Type 0 where
  pub read_in_config : String → Option Viper
  pub read_config : Bytes → Option Viper
  pub log_level : String → Bool
  pub parse_ip : String → Option Bytes
  pub peer : Peer

-- `Config`
pub record CsccConfig : Type 0 where
  pub peer_id : String
  pub peer_msp_id : String
  pub refresh_interval : ℤ
  pub config_snap_config : Option Viper

-- `CSRConfig`
pub record CsrConfig : Type 0 where
  pub common_name : String
  pub country : String
  pub state_province : String
  pub locality : String
  pub org : String
  pub org_unit : String
  pub dns_names : List String
  pub email_addresses : List String
  pub ip_addresses : List Bytes

abbrev pub default_refresh_interval : ℤ
default_refresh_interval = pos 10000000000

abbrev pub minimum_refresh_interval : ℤ
minimum_refresh_interval = pos 5000000000

abbrev pub config_key : String → String → ConfigKey
config_key msp_id peer_id = record {
  msp_id = msp_id;
  peer_id = peer_id;
  app_name = "configurationsnap";
  app_version = "";
  component_name = "";
  component_version = "";
}

-- An interval that is not below the minimum
abbrev pub at_least_minimum : ℤ → ℤ
at_least_minimum interval =
    if ltz interval minimum_refresh_interval then minimum_refresh_interval else interval

module _ (library : Library) where
  -- `newPeerViper`
  unfoldable pub new_peer_viper : String → Option Viper
  new_peer_viper path =
      library.read_in_config (if path == "" then "/etc/hyperledger/fabric" else path)

  -- The value of the peer's configuration for a name: `GetPeerMSPID`, `GetPeerID`, `GetBCCSPProvider`
  unfoldable pub get_peer_value : String → String → Result String
  get_peer_value name path = elim (new_peer_viper path) [
    | none ↦ err peer_config_error
    | some v ↦ ok (v.get_string name)
  ]

  abbrev pub get_peer_msp_id : String → Result String
  get_peer_msp_id = get_peer_value "peer.localMspId"

  abbrev pub get_peer_id : String → Result String
  get_peer_id = get_peer_value "peer.id"

  abbrev pub get_bccsp_provider : String → Result String
  get_bccsp_provider = get_peer_value "peer.BCCSP.Default"

  -- `initializeLogging`
  unfoldable pub initialize_logging : Option Viper → Result (Unit {0})
  initialize_logging none = ok tt
  initialize_logging (some v) =
      let level = v.get_string "configsnap.loglevel" in
      if library.log_level (if level == "" then "info" else level)
      then ok tt
      else err initialize_logging_error

  -- The part of `New` that reads the data of a channel: the interval and the channel's configuration.
  unfoldable pub read_data : Option Bytes → Result (ℤ × Viper)
  read_data none = err initialize_config_error
  read_data (some bytes) = elim (library.read_config bytes) [
    | none ↦ err initialize_config_error
    | some v ↦ ok (at_least_minimum (v.get_duration "cache.refreshInterval"), v)
  ]

  -- `cacheInstance.Get` with the code of its error
  abbrev pub get_data : String → ConfigKey → Exec ConfigService (Option Bytes × Bool)
  get_data channel_id key csi =
      let (r, csi') = Service.get library.peer channel_id key csi in
      (elim r [ err _ ↦ err initialize_config_error | ok a ↦ ok a ], csi')

  -- The end of `New`: logging is initialized for a configuration that changed.
  abbrev pub made : Bool → CsccConfig → Result CsccConfig
  made dirty c = if dirty then bind (initialize_logging c.config_snap_config) (λ _. ok c) else ok c

  abbrev pub channel_config : String → Viper → Exec ConfigService CsccConfig
  channel_config channel_id peer_config = do
    answer ←
        get_data channel_id
          (config_key (peer_config.get_string "peer.localMspId") (peer_config.get_string "peer.id"))
    data_config ← lift (read_data answer.0)
    lift (
        made answer.1 (record {
          peer_id = peer_config.get_string "peer.id";
          peer_msp_id = peer_config.get_string "peer.localMspId";
          refresh_interval = data_config.0;
          config_snap_config = some data_config.1;
        }))

  -- `New`
  unfoldable pub new_config : String → String → Exec ConfigService CsccConfig
  new_config channel_id path csi = elim (new_peer_viper path) [
    | none ↦ (err peer_config_error, csi)
    | some peer_config ↦
        if channel_id == ""
        then (
          made true (record {
            peer_id = peer_config.get_string "peer.id";
            peer_msp_id = peer_config.get_string "peer.localMspId";
            refresh_interval = default_refresh_interval;
            config_snap_config = none;
          }),
          csi,
        )
        else channel_config channel_id peer_config csi
  ]

  -- What `GetViper` makes of the bytes: nil for none.
  unfoldable pub viper_of : Option Bytes → Result (Option Viper)
  viper_of bytes = if no_bytes bytes then ok none else elim bytes [
    | none ↦ ok none
    | some b ↦ bind (or_err (library.read_config b) initialize_config_error) (λ v. ok (some v))
  ]

  -- `GetViper`, without the flag
  unfoldable pub get_viper : String → ConfigKey → Exec ConfigService (Option Viper)
  get_viper channel_id key csi =
      let (r, csi') = Service.get library.peer channel_id key csi in
      (bind r (λ (bytes, dirty). viper_of bytes), csi')

  -- `getMyConfig`
  unfoldable pub get_my_config : String → String → Exec ConfigService Viper
  get_my_config channel_id path = do
    peer_msp_id ← lift (get_peer_msp_id path)
    peer_id ← lift (get_peer_id path)
    v ← λ csi.
        let (r, csi') = get_viper channel_id (config_key peer_msp_id peer_id) csi in
        (elim r [ err _ ↦ err initialize_config_error | ok a ↦ ok a ], csi')
    lift (or_err v missing_config_data_error)

  -- The loop over the addresses: one that does not parse is left out.
  unfoldable pub parse_ips : List String → List Bytes
  parse_ips [] = []
  parse_ips (v ∷ vs) = elim (library.parse_ip v) [
    | none ↦ parse_ips vs
    | some ip ↦ ip ∷ parse_ips vs
  ]

  -- `GetCSRConfigOptions`
  unfoldable pub get_csr_config_options : String → String → Exec ConfigService CsrConfig
  get_csr_config_options channel_id path = do
    v ← get_my_config channel_id path
    lift (
        ok (record {
          common_name = v.get_string "csr.cn";
          country = v.get_string "csr.names.country";
          state_province = v.get_string "csr.names.stateprovince";
          locality = v.get_string "csr.names.locality";
          org = v.get_string "csr.names.org";
          org_unit = v.get_string "csr.names.orgunit";
          dns_names = v.get_string_slice "csr.alternativenames.DNSNames";
          email_addresses = v.get_string_slice "csr.alternativenames.EmailAddresses";
          ip_addresses = parse_ips (v.get_string_slice "csr.alternativenames.IPAddresses");
        }))
