-- ===== src/Client/Peers.antt =====
-- The peers that a client finds and how it is set up: getLocalPeer, getDiscoveredPeer, ChannelPeers,
-- getEndpointConfig and updateLogLevel of transactionsnap/pkg/client/client.go, with NewNetworkPeer of
-- transactionsnap/pkg/config/peerconfig.go. The SDK's configuration, discovery and peers are parameters.
use Prim.Native.String.{◌++◌ as concat}
use fabric_snaps.Common.{
  String, ◌==◌, eq_iff, ◌≡◌, Bool, Option, none, some, List, [], ◌∷◌, if◌then◌else◌, arith, ℤ,
}
use fabric_snaps.Errors.{
  Result, ok, err, or_err, ◌>>=◌, general_error, system_error, missing_config_data_error,
  initialize_logging_error,
}
use fabric_snaps.Config.Parse.{Bytes}
use fabric_snaps.TxnSettings.{LocalPeer}

-- `fab.NetworkPeer`, with its certificate if there is one
pub record NetworkPeer (PeerConfig Cert : Type 0) : Type 0 where
  pub peer_config : PeerConfig
  pub msp_id : String
  pub tls_ca_cert : Option Cert

-- What the functions use of the SDK and of other libraries: a peer's configuration by its URL, the peer
-- that is made for it with the root certificate, the peers that discovery finds, and the logging levels.
pub record PeerSdk (PeerConfig Cert Peer Backend : Type 0) : Type 0 where
  pub itoa : ℤ → String
  pub peer_config : String → Option PeerConfig
  pub pem_decode : Bytes → Option Bytes
  pub parse_certificate : Bytes → Option Cert
  pub new_peer : NetworkPeer PeerConfig Cert → Option Cert → Option Peer
  pub discovery : Option (Option (List Peer))
  pub url : Peer → String
  pub from_raw : Bytes → Option Backend
  pub config_from_backend : Backend → Bool
  pub get_string : Backend → String → String
  pub log_level : String → Bool

module _ {PeerConfig Cert Peer Backend : Type 0} (sdk : PeerSdk PeerConfig Cert Peer Backend) where
  -- `fmt.Sprintf("%s:%d", peer.Host, peer.Port)`
  abbrev pub address_of : LocalPeer → String
  address_of p = concat p.host (concat ":" (sdk.itoa p.port))

  -- `NewNetworkPeer`: a text without a PEM block gives no certificate.
  unfoldable pub new_network_peer :
      PeerConfig → String → Bytes → Option (NetworkPeer PeerConfig Cert)
  new_network_peer config msp_id pem_bytes = elim (sdk.pem_decode pem_bytes) [
    | none ↦ some (record { peer_config = config; msp_id = msp_id; tls_ca_cert = none })
    | some block ↦ elim (sdk.parse_certificate block) [
      | none ↦ none
      | some cert ↦ some (record { peer_config = config; msp_id = msp_id; tls_ca_cert = some cert })
    ]
  ]

  -- `ChannelPeers`: the local peer, in each of the roles, or nil
  unfoldable pub channel_peers : LocalPeer → Bytes → List (NetworkPeer PeerConfig Cert)
  channel_peers local tls_cert_pem = elim (sdk.peer_config (address_of local)) [
    | none ↦ []
    | some config ↦ elim (new_network_peer config local.msp_id tls_cert_pem) [
      | none ↦ []
      | some peer ↦ peer ∷ []
    ]
  ]

  -- `getLocalPeer`, for what the configuration's GetLocalPeer and GetTLSRootCert return
  unfoldable pub get_local_peer : Result LocalPeer → Option Cert → Result Peer
  get_local_peer configured tls_root_cert = do
    local ← configured
    config ← or_err (sdk.peer_config (address_of local)) missing_config_data_error
    or_err
        (sdk.new_peer (record { peer_config = config; msp_id = local.msp_id; tls_ca_cert = none })
          tls_root_cert)
        system_error

  -- The loop of `getDiscoveredPeer`
  unfoldable pub find_peer : String → List Peer → Result Peer
  find_peer url [] = err system_error
  find_peer url (p ∷ peers) = if sdk.url p == url then ok p else find_peer url peers

  -- `getDiscoveredPeer`
  unfoldable pub get_discovered_peer : String → Result Peer
  get_discovered_peer url = do
    service ← or_err sdk.discovery system_error
    peers ← or_err service system_error
    find_peer url peers

  -- `getEndpointConfig`: the backend, if the SDK can read an endpoint configuration from it
  unfoldable pub get_endpoint_config : Bytes → Result Backend
  get_endpoint_config config_bytes = do
    backend ← or_err (sdk.from_raw config_bytes) general_error
    if sdk.config_from_backend backend then ok backend else err general_error

  -- `updateLogLevel`, for the SDK's backend, if it has one
  unfoldable pub update_log_level : Option Backend → Result (Unit {0})
  update_log_level none = err initialize_logging_error
  update_log_level (some backend) =
      let level = sdk.get_string backend "txnsnap.loglevel" in
      if sdk.log_level (if level == "" then "info" else level)
      then ok tt
      else err initialize_logging_error

  -- A peer that is found in a list has the URL that was asked for.
  pub find_peer-url :
      (url : String) (peers : List Peer) (p : Peer) → find_peer url peers ≡ ok p → sdk.url p ≡ url
  unfolding find_peer
  find_peer-url url [] p h = ground (arith)
  find_peer-url url (q ∷ peers) p h =
      ground (arith, eq_iff (sdk.url q) url, find_peer-url url peers p)
