-- ===== src/Snap/Refreshing.antt =====
-- How the configuration snap starts and keeps its cache fresh: Init, periodicRefresh, listenConfigEvents
-- and sendRefreshRequest of configurationsnap/cmd/configurationscc/configurationscc.go, with the listener of
-- listener/cclistener.go. A goroutine is the list of what it does, for the answers that it gets. Metrics and
-- logging are left out.
pub mod Intervals
use fabric_snaps.Common.{
  String, ◌==◌, Bool, true, false, not, ◌||◌, Option, none, some, List, [], ◌∷◌, ◌++◌,
  if◌then◌else◌, map, ℤ,
}
use fabric_snaps.Errors.{
  Result, ok, err, initialize_snap_error, system_error, or_err, ◌>>=◌ as bind,
}
use fabric_snaps.Exec.{Exec}
use fabric_snaps.Config.Parse.{Bytes, Json}
use fabric_snaps.Config.Service
use fabric_snaps.Config.Service.{ConfigService}
use fabric_snaps.Config.Stub.{Stub}
use fabric_snaps.Handler.CheckForCommit.{commit_on_write}
use fabric_snaps.Snap.Settings.{
  CsccConfig, Library, default_refresh_interval, at_least_minimum, get_peer_msp_id, get_peer_id,
}
use fabric_snaps.TxnService.{SnapTransactionRequest, Call, endorse_transaction}
use fabric_snaps.TxnService as Txn

-- `EventSource` of cclistener.go
pub record EventSource : Type 0 where
  pub channel_id : String
  pub chaincode_id : String
  pub event_name : String

-- `NewChaincodeListener`, of a source that is not nil
unfoldable pub new_chaincode_listener : EventSource → Result EventSource
new_chaincode_listener source =
    if source.chaincode_id == "" || (source.channel_id == "" || source.event_name == "")
    then err system_error
    else ok source

-- `configSnapName` and `ConfigCCEventName` name the source.
abbrev pub event_source : String → String → EventSource
event_source event_name channel_id = record {
  channel_id = channel_id;
  chaincode_id = "configurationsnap";
  event_name = event_name;
}

-- What `Init` starts: the listener, and the periodic refresh with its first interval.
pub data Started : Type 0 where
  nothing : Started
  started : EventSource → ℤ → Started

module _ (stub : Stub) (json : Json) (library : Library) (peer_config_path event_name : String)
    (has_endorser_role : Bool) where
  -- The end of `Init`, after the service is initialized
  abbrev pub start : String → Result (Unit {0}) × Started
  start channel_id = elim (new_chaincode_listener (event_source event_name channel_id)) [
    | err _ ↦ (err initialize_snap_error, nothing)
    | ok source ↦ (ok tt, started source default_refresh_interval)
  ]

  abbrev pub initialize_on :
      String → stub.State → ConfigService → (Result (Unit {0}) × Started) × ConfigService
  initialize_on channel_id s csi =
      elim (bind (get_peer_msp_id library peer_config_path)
        (λ msp_id. bind (get_peer_id library peer_config_path) (λ peer_id. ok msp_id))) [
          | err _ ↦ ((err initialize_snap_error, nothing), csi)
          | ok msp_id ↦ (start channel_id, Service.initialize stub json msp_id s csi)
        ]

  -- `Init`
  unfoldable pub init : stub.State → ConfigService → (Result (Unit {0}) × Started) × ConfigService
  init s csi =
      let channel_id = stub.get_channel_id s in
      if channel_id == ""
      then ((ok tt, nothing), csi)
      else if not has_endorser_role
      then ((ok tt, nothing), csi)
      else initialize_on channel_id s csi

-- What the two goroutines do.
pub data Action : Type 0 where
  sleep : ℤ → Action
  back_off : Action
  send_refresh_request : Action

-- The interval after a round of `periodicRefresh`, by what `config.New` returned
unfoldable pub next_interval : Result CsccConfig → ℤ
next_interval (err _) = default_refresh_interval
next_interval (ok c) = at_least_minimum c.refresh_interval

-- The rounds of `periodicRefresh`, for the configurations that they find
unfoldable pub periodic_refresh : ℤ → List (Result CsccConfig) → List Action
periodic_refresh interval [] = sleep interval ∷ []
periodic_refresh interval (c ∷ configs) =
    sleep interval ∷ send_refresh_request ∷ periodic_refresh (next_interval c) configs

-- The events of one channel of events; nil is skipped.
unfoldable pub on_events : List (Option Bytes) → List Action → List Action
on_events [] rest = rest
on_events (none ∷ events) rest = on_events events rest
on_events (some e ∷ events) rest = send_refresh_request ∷ on_events events rest

-- `listenConfigEvents`, for what `Listen` returns in each round: an error, or the events until the channel
-- is closed
unfoldable pub listen_config_events : List (Option (List (Option Bytes))) → List Action
listen_config_events [] = []
listen_config_events (none ∷ rounds) = back_off ∷ listen_config_events rounds
listen_config_events (some events ∷ rounds) = on_events events (listen_config_events rounds)

-- The answers of the client that a refresh request asks: the local peer, and the configurations of the
-- channel's MSPs; with the name in such a configuration (also after an error of its decoder, which is only
-- logged), and JSON.
pub record RefreshSource : Type 0 where
  pub local_peer : Option String
  pub msps : Option (List Bytes)
  pub msp_name : Bytes → String
  pub marshal_names : List String → Option Bytes

-- The calls of the channel's client by which a refresh request asks for its data
pub data Query : Type 0 where
  get_local_peer channel_config : Query

-- The calls of clients: the queries, and those of the transaction service
pub record ClientCalls : Type 0 where
  pub queries : List Query
  pub calls : List Call

abbrev pub asked : Query → ClientCalls → ClientCalls
asked q s = record s { queries = s.queries ++ q ∷ [] }

-- `createTransactionSnapRequest`
abbrev pub create_transaction_snap_request :
    String → String → List Bytes → List String → SnapTransactionRequest
create_transaction_snap_request chaincode_id channel_id endorser_args cc_ids = record {
  channel_id = channel_id;
  chaincode_id = chaincode_id;
  transient_map = [];
  endorser_args = endorser_args;
  cc_ids_for_endorsement = cc_ids;
  register_tx_event = false;
  peer_filter = none;
  commit_type = commit_on_write;
  rw_set_ignore_name_space = [];
  transaction_id = "";
  nonce = "";
}

module _ (service : Txn.Service) (source : RefreshSource) where
  -- The end of `sendEndorseRequest`; an error is only logged.
  abbrev pub endorse_refresh : String → String → Option Bytes → ClientCalls → ClientCalls
  endorse_refresh channel_id peer none s = s
  endorse_refresh channel_id peer (some names) s = record s {
    calls =
        (endorse_transaction service channel_id
          (create_transaction_snap_request "configurationsnap" channel_id ("refresh" ∷ names ∷ [])
            [])
          (peer ∷ []) s.calls).1;
  }

  -- `sendEndorseRequest` from the channel's configuration on
  abbrev pub with_msps : String → String → Option (List Bytes) → ClientCalls → ClientCalls
  with_msps channel_id peer none s = s
  with_msps channel_id peer (some configs) s =
      endorse_refresh channel_id peer (source.marshal_names (map source.msp_name configs)) s

  -- `sendEndorseRequest` from the target peer on
  abbrev pub with_peer : String → Option String → ClientCalls → ClientCalls
  with_peer channel_id none s = s
  with_peer channel_id (some peer) s =
      with_msps channel_id peer source.msps (asked channel_config s)

  -- `sendEndorseRequest`: the calls of the client after it
  unfoldable pub send_endorse_request : String → ClientCalls → ClientCalls
  send_endorse_request channel_id s =
      with_peer channel_id source.local_peer (asked get_local_peer s)

  -- `sendRefreshRequest`
  unfoldable pub send_refresh : String → ClientCalls → ClientCalls
  send_refresh channel_id s =
      if service.has_client channel_id then send_endorse_request channel_id s else s
