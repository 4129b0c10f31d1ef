-- ===== src/Membership.antt =====
-- The membership service of membershipsnap/pkg/membership: the peers of a channel and their roles
-- (membership.go), and the map from PKI IDs to MSP IDs that gossip messages fill (mspidmgr.go). The
-- gossip service and the decoding of messages are parameters, and the lazy cache in front of the queries
-- is left out.
pub mod Identities
pub mod Chaincode
use fabric_snaps.Common.{
  ℕ, String, ◌==◌, Bool, true, false, not, Option, none, some, List, [], ◌∷◌, ◌++◌, is_empty,
  contains, if◌then◌else◌, map, Dict, lookup, insert, string_eq,
}
use fabric_snaps.Errors.{Result, ok, err, system_error, missing_required_parameter_error}

-- `Roles.HasRole`
abbrev pub has_role : List String → String → Bool
has_role roles role = if is_empty roles then true else contains roles role

abbrev pub endorser_role : String
endorser_role = "endorser"

-- `api.PeerEndpoint`
pub record PeerEndpoint : Type 0 where
  pub endpoint : String
  pub msp_id : String
  pub ledger_height : ℕ
  pub left_channel : Bool
  pub roles : List String

-- What gossip tells of a peer: `rolesmgr.AllRoles` is the field `all_roles`.
pub record Properties : Type 0 where
  pub ledger_height : ℕ
  pub left_channel : Bool
  pub all_roles : List String

-- `discovery.NetworkMember`
pub record NetworkMember : Type 0 where
  pub preferred_endpoint : String
  pub pki_id : String
  pub properties : Option Properties

-- `gossipService.SelfChannelInfo` is nil or has a state, which is nil or has properties, which may be nil.
pub record Gossip : Type 0 where
  pub peers : List NetworkMember
  pub peers_of_channel : String → List NetworkMember
  pub self_endpoint : String
  pub self_channel_info : String → Option (Option (Option Properties))

-- The map of `mspIDMgr`
abbrev pub MspIds : Type 0
MspIds = Dict String String

-- `GetMSPID`: the empty text if the PKI ID is unknown.
unfoldable pub get_msp_id : MspIds → String → String
get_msp_id ids pki_id = elim (lookup pki_id ids) [ none ↦ "" | some msp_id ↦ msp_id ]

-- The decoding of gossip messages. An envelope that cannot be decoded gives a message that is nil, and a
-- message about something else a nil identity: of both the next line takes a field, which panics, and
-- `peer_identity` is none. Otherwise it is the PKI ID and the certificate. `msp_id` is the MSP ID that
-- decoding the certificate leaves, also after an error, which is only logged: the empty text, if nothing
-- could be decoded.
pub record Decoder (Envelope : Type 0) : Type 0 where
  pub peer_identity : Envelope → Option (String × String)
  pub msp_id : String → String

-- The end of `handleUpdate`, for the PKI ID and MSP ID of an identity
abbrev pub map_identity : String → String → MspIds → MspIds
map_identity pki_id msp_id ids = elim (lookup pki_id ids) [
  | none ↦ insert pki_id msp_id ids
  | some old ↦ if not (old == msp_id) then insert pki_id msp_id ids else ids
]

-- What follows a step that may panic
abbrev pub and_then : Option MspIds → (MspIds → Option MspIds) → Option MspIds
and_then none rest = none
and_then (some ids) rest = rest ids

abbrev pub map_certificate : (String → String) → Option (String × String) → MspIds → Option MspIds
map_certificate msp_id none ids = none
map_certificate msp_id (some (pki_id, cert)) ids = some (map_identity pki_id (msp_id cert) ids)

module _ {Envelope : Type 0} (decoder : Decoder Envelope) where
  -- `handleUpdate`; `none` is a panic.
  unfoldable pub handle_update : Envelope → MspIds → Option MspIds
  handle_update envelope ids = map_certificate decoder.msp_id (decoder.peer_identity envelope) ids

  -- The loop over the data of a message
  unfoldable pub handle_updates : List Envelope → MspIds → Option MspIds
  handle_updates [] ids = some ids
  handle_updates (envelope ∷ envelopes) ids =
      and_then (handle_update envelope ids) (handle_updates envelopes)

  -- `receive`, for the messages until the channel is closed; `none` is a message without a data update.
  unfoldable pub receive : List (Option (List Envelope)) → MspIds → Option MspIds
  receive [] ids = some ids
  receive (none ∷ messages) ids = receive messages ids
  receive (some envelopes ∷ messages) ids =
      and_then (handle_updates envelopes ids) (receive messages)

module _ (gossip : Gossip) (ids : MspIds) (local_msp_id : String) where
  -- `getLocalEndpoint`
  abbrev pub get_local_endpoint : PeerEndpoint
  get_local_endpoint = record {
    endpoint = gossip.self_endpoint;
    msp_id = local_msp_id;
    ledger_height = 0;
    left_channel = false;
    roles = [];
  }

  abbrev pub with_properties : Option Properties → PeerEndpoint → PeerEndpoint
  with_properties none e = e
  with_properties (some p) e = record e { ledger_height = p.ledger_height; roles = p.all_roles }

  -- The body of the loop of `getEndpoints`.
  abbrev pub get_endpoint : NetworkMember → PeerEndpoint
  get_endpoint member =
      let e : PeerEndpoint = record {
        endpoint = member.preferred_endpoint;
        msp_id = get_msp_id ids member.pki_id;
        ledger_height = 0;
        left_channel = false;
        roles = [];
      } in
      elim member.properties [
        | none ↦ e
        | some p ↦ record e {
          ledger_height = p.ledger_height;
          left_channel = p.left_channel;
          roles = p.all_roles;
        }
      ]

  -- `getEndpoints`
  unfoldable pub get_endpoints : List NetworkMember → List PeerEndpoint
  get_endpoints [] = []
  get_endpoints (member ∷ members) = get_endpoint member ∷ get_endpoints members

  -- `doGetAllPeers`
  unfoldable pub get_all_peers : List PeerEndpoint
  get_all_peers = get_endpoints gossip.peers ++ get_local_endpoint ∷ []

  -- The local endpoint of a channel's peers; its state may be nil.
  abbrev pub local_endpoint_of : Option (Option Properties) → PeerEndpoint
  local_endpoint_of none = get_local_endpoint
  local_endpoint_of (some properties) = with_properties properties get_local_endpoint

  -- `doGetPeersOfChannel`
  unfoldable pub get_peers_of_channel : String → Result (List PeerEndpoint)
  get_peers_of_channel channel_id =
      if channel_id == ""
      then err missing_required_parameter_error
      else (let endpoints = get_endpoints (gossip.peers_of_channel channel_id) in
          elim (gossip.self_channel_info channel_id) [
            | none ↦ ok endpoints
            | some state ↦ ok (endpoints ++ local_endpoint_of state ∷ [])
          ])
