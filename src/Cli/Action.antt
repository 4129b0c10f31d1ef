-- ===== src/Cli/Action.antt =====
-- The base action of the command line client: configcli/action/action.go and
-- configkeyutil/configkeyutil.go. An error that has no code counts as a general error.
pub mod Selected
use Prim.Native.Char.{code}
use fabric_snaps.Common.{
  String, ◌==◌, Bool, true, false, not, ◌||◌, Option, none, some, List, [], ◌∷◌, ◌++◌, is_empty,
  if◌then◌else◌, Dict, lookup, insert, contains, eqb, string_eq,
}
use fabric_snaps.Errors.{ErrorCode, Result, ok, err, or_err, for_each, general_error}
use fabric_snaps.Config.Parse.{Bytes}
use fabric_snaps.Config.Key.{ConfigKey}
use fabric_snaps.HttpSnap.Outcome.{Outcome, returned, failed, panicked, Proc, ◌>>=◌, outcome_of}
use fabric_snaps.Cli.{
  Options, Network, Session, Request, Sdk, Codec, config_snap_id, peers as peer_urls,
}

-- `action`, with the configuration that it was initialised from
pub record Action (Peer : Type 0) : Type 0 where
  pub network : Network
  pub peers : List Peer
  pub org_id_by_peer : Dict String String

pub data Level : Type 0 where
  error warning info debug : Level

unfoldable pub level_from_name : String → Level
level_from_name name =
    if name == "ERROR"
    then error
    else if name == "WARNING"
    then warning
    else if name == "INFO"
    then info
    else if name == "DEBUG"
    then debug
    else error

-- `YesNoPrompt` on the line that the terminal gives: its first byte, in lower case, is a y.
unfoldable pub yes_no_prompt : String → Bool
yes_no_prompt String.[] = false
yes_no_prompt (String.◌∷◌ c line) = eqb (code c) 121 || eqb (code c) 89

-- A command that gives up with an error if its action is not initialised
abbrev pub after {ℓ κ} :
    {S : Type ℓ} {A : Type κ} {Peer : Type 0}
    → Result (Action Peer)
    → (Action Peer → Proc S A)
    → Proc S A
after (err code) work s = (failed code, s)
after (ok a) work s = work a s

-- `configkeyutil.Unmarshal`
unfoldable pub unmarshal_key : Codec → Bytes → Result (Option ConfigKey)
unmarshal_key json bytes =
    if bytes == "" then err general_error else or_err (json.unmarshal_key bytes) general_error

module _ {Peer S : Type 0} (sdk : Sdk Peer S) (opts : Options) where
  -- `includePeer`
  unfoldable pub include_peer : Network → String → String → String → String → Bool
  include_peer network org_msp_id url org_id selected_org_id =
      if not (network.has_peer_config url)
      then false
      else if not (is_empty (peer_urls opts))
      then contains (peer_urls opts) url
      else selected_org_id == org_id || opts.msp_id == org_msp_id

  -- The body of the loop over the peers of an organisation.
  unfoldable pub add_peer : String → String → String → String → Action Peer → Result (Action Peer)
  add_peer org_id msp_id selected_org_id url a =
      if include_peer a.network msp_id url org_id selected_org_id
      then elim (sdk.new_peer url msp_id) [
        | none ↦ err general_error
        | some endorser ↦ ok (record a {
          peers = a.peers ++ endorser ∷ [];
          org_id_by_peer = insert (sdk.url endorser) org_id a.org_id_by_peer;
        })
      ]
      else ok a

  -- `initTargetPeersForOrg`
  unfoldable pub init_target_peers_for_org : String → String → Action Peer → Result (Action Peer)
  init_target_peers_for_org selected_org_id org_id a = elim (a.network.peers_config org_id) [
    | none ↦ err general_error
    | some urls ↦ elim (lookup org_id a.network.organizations) [
      | none ↦ err general_error
      | some msp_id ↦ for_each (add_peer org_id msp_id selected_org_id) urls a
    ]
  ]

  unfoldable pub selected_org : Network → String
  selected_org network = if opts.org_id == "" then network.client_organization else opts.org_id

  -- `initTargetPeers`
  unfoldable pub init_target_peers : Action Peer → Result (Action Peer)
  init_target_peers a =
      for_each (λ e. init_target_peers_for_org (selected_org a.network) e.0) a.network.organizations
        (record a { org_id_by_peer = [] })

  -- `Initialize` of a new action, `InitConfig` and `initSDK` included
  unfoldable pub initialize : Result (Action Peer)
  initialize =
      if opts.client_config_file == ""
      then err general_error
      else elim (sdk.load opts.client_config_file) [
        | none ↦ err general_error
        | some network ↦
            if opts.user == "" || not sdk.starts
            then err general_error
            else if opts.channel_id == ""
            then err general_error
            else init_target_peers (record { network = network; peers = []; org_id_by_peer = [] })
      ]

  -- `OrgID`, which panics if it finds no organisation.
  unfoldable pub org_id : Action Peer → Outcome String
  org_id a = elim a.peers [
    | [] ↦ panicked
    | peer ∷ rest ↦ elim (lookup (sdk.url peer) a.org_id_by_peer) [
      | none ↦ panicked
      | some org ↦ returned org
    ]
  ]

  abbrev pub session : String → Session
  session org = record { channel_id = opts.channel_id; user_name = opts.user; org_id = org }

  -- `ChannelClient`
  unfoldable pub channel_client : Action Peer → Proc S Session
  channel_client a s = elim (org_id a) [
    | panicked ↦ (panicked, s)
    | failed e ↦ (failed e, s)
    | returned org ↦
        (if sdk.new_channel (session org) then returned (session org) else failed general_error, s)
  ]

  abbrev pub snap_request : String → List Bytes → Request
  snap_request fcn args = record { chaincode_id = config_snap_id; fcn = fcn; args = args }

  abbrev pub answered : Option Bytes × S → Outcome Bytes × S
  answered (none, s) = (failed general_error, s)
  answered (some payload, s) = (returned payload, s)

  abbrev pub executed : Bool × S → Outcome (Unit {0}) × S
  executed (false, s) = (failed general_error, s)
  executed (true, s) = (returned tt, s)

  -- `Query` of the configuration snap
  unfoldable pub query : Action Peer → String → List Bytes → Proc S Bytes
  query a fcn args =
      channel_client a >>= λ client s. answered (sdk.query client (snap_request fcn args) a.peers s)

  -- `ExecuteTx` on the configuration snap
  unfoldable pub execute_tx : Action Peer → String → List Bytes → Proc S (Unit {0})
  execute_tx a fcn args = channel_client a >>= λ client s.
      executed (sdk.execute client (snap_request fcn args) a.peers s)

  -- The MSP ID of the key: the option's, or that of the organisation of the first peer.
  unfoldable pub key_msp_id : Action Peer → Outcome String
  key_msp_id a = if not (opts.msp_id == "") then returned opts.msp_id else elim (org_id a) [
    | panicked ↦ panicked
    | failed e ↦ failed e
    | returned org ↦
        if org == ""
        then returned ""
        else outcome_of (or_err (lookup org a.network.organizations) general_error)
  ]

  -- `ConfigKey`; a nil pointer is `none`.
  unfoldable pub config_key : Codec → Action Peer → Outcome (Option ConfigKey)
  config_key json a =
      if not (opts.config_key == "")
      then outcome_of (unmarshal_key json opts.config_key)
      else elim (key_msp_id a) [
        | panicked ↦ panicked
        | failed e ↦ failed e
        | returned msp ↦ returned (
            some (record {
              msp_id = msp;
              peer_id = opts.peer_id;
              app_name = opts.app_name;
              app_version = opts.app_ver;
              component_name = opts.component_name;
              component_version = opts.component_ver;
            }))
      ]
