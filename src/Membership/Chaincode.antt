-- ===== src/Membership/Chaincode.antt =====
-- The membership snap's chaincode: membershipsnap/cmd/membershipsnap.go, with HandlePanic of
-- util/utils.go where the chaincode is used before it is initialized. The policy checker, the signed
-- proposal and protobuf are parameters. A response is a payload or the code of an error.
pub mod Answered
use fabric_snaps.Common.{
  String, ◌==◌, Bool, true, false, not, Option, none, some, List, [], ◌∷◌, if◌then◌else◌, string_eq,
}
use fabric_snaps.Errors.{
  ErrorCode, Result, ok, err, or_err, system_error, acl_check_error, membership_error, panic_error,
  invalid_function_error, missing_required_parameter_error, initialize_snap_error,
}
use fabric_snaps.Config.Parse.{Bytes}
use fabric_snaps.Membership.{PeerEndpoint, Gossip, MspIds, get_all_peers, get_peers_of_channel}

-- The queries of `memserviceapi.Service` that the chaincode makes.
pub record Service : Type 0 where
  pub all_peers : List PeerEndpoint
  pub peers_of_channel : String → Result (List PeerEndpoint)

-- The queries, computed without the cache in front of them.
abbrev pub uncached : Gossip → MspIds → String → Service
uncached gossip ids msp_id = record {
  all_peers = get_all_peers gossip ids msp_id;
  peers_of_channel = get_peers_of_channel gossip ids msp_id;
}

-- What a call of the chaincode finds: its channel, the peer's role, the service or an error, the signed
-- proposal and the policy checker's answer.
pub record Stub : Type 0 where
  pub channel_id : String
  pub has_endorser_role : Bool
  pub membership_service : Result Service
  pub has_signed_proposal : Bool
  pub is_member : Bool

-- The fields of `MembershipSnap`, which `initializer` sets together: none before that.
abbrev pub MembershipSnap : Type 0
MembershipSnap = Option Service

-- `initializer`, with the code that `Init` gives its error
unfoldable pub initializer : Stub → MembershipSnap → Result (Unit {0}) × MembershipSnap
initializer stub snap = elim stub.membership_service [
  | ok service ↦ (ok tt, some service)
  | err _ ↦ (err initialize_snap_error, snap)
]

-- `Init`
unfoldable pub init : Stub → MembershipSnap → Result (Unit {0}) × MembershipSnap
init stub snap =
    if not (stub.channel_id == "")
    then (ok tt, snap)
    else if not stub.has_endorser_role
    then (ok tt, snap)
    else initializer stub snap

module _ (marshal : List PeerEndpoint → Option Bytes) where
  -- `getAllPeers` of the chaincode
  unfoldable pub answer_all_peers : Service → Result Bytes
  answer_all_peers service = or_err (marshal service.all_peers) membership_error

  -- `getPeersOfChannel` of the chaincode, on the arguments after the function's name
  unfoldable pub answer_peers_of_channel : Service → List Bytes → Result Bytes
  answer_peers_of_channel service [] = err missing_required_parameter_error
  answer_peers_of_channel service (channel_id ∷ args) =
      if channel_id == ""
      then err missing_required_parameter_error
      else elim (service.peers_of_channel channel_id) [
        | ok endpoints ↦ or_err (marshal endpoints) system_error
        | err _ ↦ err membership_error
      ]

  -- The access check and the switch of `Invoke`. Before `Init` the policy checker is nil, and to call
  -- it panics.
  unfoldable pub dispatch : Stub → MembershipSnap → String → List Bytes → Result Bytes
  dispatch stub none function args = err panic_error
  dispatch stub (some service) function args =
      if not stub.is_member
      then err acl_check_error
      else if function == "getAllPeers"
      then answer_all_peers service
      else if function == "getPeersOfChannel"
      then answer_peers_of_channel service args
      else err invalid_function_error

  -- `Invoke`
  unfoldable pub invoke : Stub → MembershipSnap → List Bytes → Result Bytes
  invoke stub snap [] = err missing_required_parameter_error
  invoke stub snap (function ∷ args) =
      if not stub.has_signed_proposal then err system_error else dispatch stub snap function args
