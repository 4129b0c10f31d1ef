-- ===== src/TxnSettings.antt =====
-- The configuration of the transaction snap: transactionsnap/pkg/config/config.go. viper, the peer's
-- files, the decoding of certificates and the SDK's defaults are parameters.
pub mod Defaults
use fabric_snaps.Common.{
  ℕ, String, ◌==◌, Bool, true, false, not, Option, none, some, List, [], ◌∷◌, if◌then◌else◌, ℤ, pos,
  is_zero, to_int32,
}
use fabric_snaps.Common.Strings.{split}
use fabric_snaps.Errors.{
  Result, ok, err, ◌>>=◌, ◌>>◌, or_err, system_error, initialize_config_error,
  missing_config_data_error, peer_config_error, crypto_config_error, invalid_config_data_error,
}
use fabric_snaps.Config.Key.{ConfigKey}
use fabric_snaps.Config.Parse.{Bytes}
use fabric_snaps.Config.Service
use fabric_snaps.Config.Service.{ConfigService, Peer}

-- What the code uses of a `viper.Viper`; a duration is in nanoseconds.
pub record Viper (Float : Type 0) : Type 0 where
  pub get_string : String → String
  pub get_int : String → ℤ
  pub get_duration : String → ℤ
  pub get_float64 : String → Float
  pub get_string_slice : String → List String
  pub config_file_used : String

-- The libraries: strconv.Atoi, path/filepath, the reading of a file, PEM and X.509, and the comparison
-- of a float with 0.
pub record Library (Float Cert : Type 0) : Type 0 where
  pub atoi : String → Option ℤ
  pub dir : String → String
  pub is_abs : String → Bool
  pub join_path : String → String → String
  pub clean : String → String
  pub read_file : String → Option Bytes
  pub pem_decode : Bytes → Option Bytes
  pub parse_certificate : Bytes → Option Cert
  pub float_is_zero : Float → Bool
  pub read_config : Bytes → Option (Viper Float)
  pub get_peer_config : String → Option (Viper Float)
  pub peer : Peer

-- `retry.Opts` of the SDK
pub record RetryOpts (Float : Type 0) : Type 0 where
  pub attempts : ℤ
  pub initial_backoff : ℤ
  pub max_backoff : ℤ
  pub backoff_factor : Float

-- `Config`
pub record TxnSnapConfig (Float : Type 0) : Type 0 where
  pub peer_config : Viper Float
  pub txn_snap_config : Viper Float
  pub txn_snap_config_bytes : Bytes

-- `api.PeerConfig`
pub record LocalPeer : Type 0 where
  pub host : String
  pub port : ℤ
  pub msp_id : String

module _ {Float Cert : Type 0} (library : Library Float Cert) where
  abbrev pub txn_snap_key : Viper Float → ConfigKey
  txn_snap_key peer_config = record {
    msp_id = peer_config.get_string "peer.localMspId";
    peer_id = peer_config.get_string "peer.id";
    app_name = "txnsnap";
    app_version = "";
    component_name = "";
    component_version = "";
  }

  -- The part of `NewConfig` after the configuration service has answered.
  unfoldable pub read_txn_config :
      Viper Float → Result (Option Bytes × Bool) → Result (TxnSnapConfig Float)
  read_txn_config peer_config (err e) = err initialize_config_error
  read_txn_config peer_config (ok (none, dirty)) = err missing_config_data_error
  read_txn_config peer_config (ok (some data_config, dirty)) = do
    txn_snap_config ← or_err (library.read_config data_config) initialize_config_error
    ok (record {
      peer_config = peer_config;
      txn_snap_config = txn_snap_config;
      txn_snap_config_bytes = data_config;
    })

  -- `NewConfig`
  unfoldable pub new_config :
      String → String → Option ConfigService → Result (TxnSnapConfig Float) × Option ConfigService
  new_config peer_config_path channel_id configs = elim (library.get_peer_config peer_config_path) [
    | none ↦ (err initialize_config_error, configs)
    | some peer_config ↦ elim configs [
      | none ↦ (err system_error, none)
      | some csi ↦
          let (r, csi') = Service.get library.peer channel_id (txn_snap_key peer_config) csi in
          (read_txn_config peer_config r, some csi')
    ]
  ]

  abbrev pub get_msp_id : TxnSnapConfig Float → String
  get_msp_id c = c.peer_config.get_string "peer.localMspId"

  -- The part of `GetLocalPeer` after the port; the port is the second part of the address.
  unfoldable pub local_peer : TxnSnapConfig Float → String → String → Result LocalPeer
  local_peer c host port = do
    port_number ← or_err (library.atoi port) peer_config_error
    if get_msp_id c == "" then err peer_config_error else ok tt
    ok (record { host = host; port = port_number; msp_id = get_msp_id c })

  -- `GetLocalPeer`; without a colon in the address `splitPeerAddress[1]` panics, which is `none`.
  unfoldable pub get_local_peer : TxnSnapConfig Float → Option (Result LocalPeer)
  get_local_peer c =
      let address = c.peer_config.get_string "peer.address" in
      if address == "" then some (err peer_config_error) else elim (split address 58) [
        | [] ↦ none
        | host ∷ parts ↦ elim parts [ [] ↦ none | port ∷ rest ↦ some (local_peer c host port) ]
      ]

  unfoldable pub get_config_path : TxnSnapConfig Float → String → String
  get_config_path c path =
      if library.is_abs path
      then path
      else library.join_path (library.dir c.txn_snap_config.config_file_used) path

  -- `getCertPemFromPath`
  abbrev pub get_cert_pem_from_path : String → Option Bytes
  get_cert_pem_from_path path = library.read_file (library.clean path)

  -- `getCertFromPath`
  unfoldable pub get_cert_from_path : String → Option Cert
  get_cert_from_path path = elim (library.read_file (library.clean path)) [
    | none ↦ none
    | some pem ↦ elim (library.pem_decode pem) [
      | none ↦ none
      | some block ↦ library.parse_certificate block
    ]
  ]

  abbrev pub get_tls_root_cert : TxnSnapConfig Float → Option Cert
  get_tls_root_cert c =
      get_cert_from_path (get_config_path c (c.peer_config.get_string "peer.tls.rootcert.file"))

  abbrev pub get_tls_cert : TxnSnapConfig Float → Option Cert
  get_tls_cert c =
      get_cert_from_path (get_config_path c (c.peer_config.get_string "peer.tls.cert.file"))

  abbrev pub get_tls_cert_pem : TxnSnapConfig Float → Option Bytes
  get_tls_cert_pem c =
      get_cert_pem_from_path (get_config_path c (c.peer_config.get_string "peer.tls.cert.file"))

  abbrev pub get_tls_key_path : TxnSnapConfig Float → String
  get_tls_key_path c = get_config_path c (c.peer_config.get_string "peer.tls.key.file")
