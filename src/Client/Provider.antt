-- ===== src/Client/Provider.antt =====
-- With which options the event client of a channel is made: newServiceProvider of
-- transactionsnap/pkg/client/client.go, and the options of
-- transactionsnap/pkg/client/chprovider/chprovider.go. The SDK's caches, its services and the snapshots of
-- event registrations are parameters.
pub mod Starts
use Prim.Native.String.{◌++◌ as concat}
use fabric_snaps.Common.{
  ℕ, ◌-◌, String, ◌==◌, Bool, true, false, not, Option, none, some, List, [], ◌∷◌, ◌++◌,
  if◌then◌else◌, ltb, Dict, lookup, string_eq,
}
use fabric_snaps.Errors.{Result, ok, err, ◌>>=◌}
use fabric_snaps.Client.{RetryableCodes}

-- `chprovider.Opt`; the retry options are the codes that newServiceProvider sets in them.
pub data Opt (Snapshot : Type 0) : Type 0 where
  with_local_peer_url : String → Opt Snapshot
  with_block_events : Opt Snapshot
  with_initial_block_num : ℕ → Opt Snapshot
  with_event_snapshots : Dict String Snapshot → Opt Snapshot
  with_selection_retry_opts : RetryableCodes → Opt Snapshot

-- `params` of chprovider.go
pub record Params (Snapshot : Type 0) : Type 0 where
  pub local_peer_url : String
  pub initial_block_num : ℕ
  pub event_snapshots : Dict String Snapshot
  pub enable_block_events : Bool
  pub selection_retry_opts : RetryableCodes

-- The options of the SDK's event client
pub data EventOption (Snapshot : Type 0) : Type 0 where
  max_connect_attempts : ℕ → EventOption Snapshot
  block_events seek_from_block : EventOption Snapshot
  prefer_peer : String → EventOption Snapshot
  snapshot : Snapshot → EventOption Snapshot
  block_num : ℕ → EventOption Snapshot

-- What newServiceProvider reads: the local peer's URL, if it is configured, the variable that turns block
-- events on, whether there is a current client, its snapshot, if one was taken, and the height of the
-- ledger when the peer joined the channel, if it is known.
pub record Origin (Snapshot : Type 0) : Type 0 where
  pub local_peer_url : Option String
  pub enable_block_events : Bool
  pub has_current_client : Bool
  pub event_snapshot : Option Snapshot
  pub initial_height : Option ℕ

-- `retryableCodes` of newServiceProvider
abbrev pub selection_retryable_codes : RetryableCodes
selection_retryable_codes =
    ("GRPCTransportStatus", "Unavailable" ∷ [])
    ∷ ("DiscoveryServerStatus", "QueryEndorsers" ∷ [])
    ∷ []

module _ {Snapshot : Type 0} where
  -- Where the first client of a channel starts
  abbrev pub initial_opts : Option ℕ → List (Opt Snapshot)
  initial_opts none = []
  initial_opts (some height) = if ltb 0 height then with_initial_block_num (height - 1) ∷ [] else []

  -- Where a client that follows another starts
  abbrev pub snapshot_opts : String → Option Snapshot → List (Opt Snapshot)
  snapshot_opts channel_id none = []
  snapshot_opts channel_id (some s) = with_event_snapshots ((channel_id, s) ∷ []) ∷ []

  abbrev pub url_opts : Option String → List (Opt Snapshot)
  url_opts none = []
  url_opts (some url) = with_local_peer_url url ∷ []

  -- `newServiceProvider`
  unfoldable pub new_service_provider : String → Origin Snapshot → List (Opt Snapshot)
  new_service_provider channel_id origin =
      url_opts origin.local_peer_url
      ++ ((if origin.enable_block_events then with_block_events ∷ [] else [])
          ++ ((if origin.has_current_client
                then snapshot_opts channel_id origin.event_snapshot
                else initial_opts origin.initial_height)
              ++ with_selection_retry_opts selection_retryable_codes ∷ []))

  -- An option as a function on the parameters
  abbrev pub apply_opt : Opt Snapshot → Params Snapshot → Params Snapshot
  apply_opt (with_local_peer_url url) p = record p { local_peer_url = url }
  apply_opt with_block_events p = record p { enable_block_events = true }
  apply_opt (with_initial_block_num n) p = record p { initial_block_num = n }
  apply_opt (with_event_snapshots snapshots) p = record p { event_snapshots = snapshots }
  apply_opt (with_selection_retry_opts codes) p = record p { selection_retry_opts = codes }

  -- The loop of `New` over its options
  abbrev pub apply_opts : List (Opt Snapshot) → Params Snapshot → Params Snapshot
  apply_opts [] p = p
  apply_opts (opt ∷ opts) p = apply_opts opts (apply_opt opt p)

  abbrev pub no_params : Params Snapshot
  no_params = record {
    local_peer_url = "";
    initial_block_num = 0;
    event_snapshots = [];
    enable_block_events = false;
    selection_retry_opts = [];
  }

  -- `New` of chprovider.go, as far as the options go
  unfoldable pub new_params : List (Opt Snapshot) → Params Snapshot
  new_params opts = apply_opts opts no_params

  abbrev pub block_options : ℕ → List (EventOption Snapshot)
  block_options initial_block_num =
      if ltb 0 initial_block_num then seek_from_block ∷ block_num initial_block_num ∷ [] else []

  -- `newEventClientRef`: the options, and whether the client is made at once.
  unfoldable pub new_event_client_ref :
      Params Snapshot → String → List (EventOption Snapshot) × Bool
  new_event_client_ref p channel_id =
      let opts : List (EventOption Snapshot) =
        max_connect_attempts 0
        ∷ ((if p.enable_block_events then block_events ∷ [] else [])
            ++ (if not (p.local_peer_url == "") then prefer_peer p.local_peer_url ∷ [] else [])) in
      elim (lookup channel_id p.event_snapshots) [
        | some s ↦ (opts ++ snapshot s ∷ [], true)
        | none ↦ (opts ++ block_options p.initial_block_num, false)
      ]

-- What the provider asks of the SDK: references of channel configurations and their contents, the cached
-- event service, whose answer is the event client, and the transfer of its registrations.
pub record ChannelSdk (Cfg Client Snapshot Error : Type 0) : Type 0 where
  pub load_channel_cfg_ref : String → Option (Option Cfg)
  pub system_cfg : Cfg
  pub event_service : Cfg → Option Client
  pub connected : Client → Bool
  pub transfer_registrations : Client → Option Snapshot

module _ {Cfg Client Snapshot Error : Type 0} (sdk : ChannelSdk Cfg Client Snapshot Error) where
  -- `channelConfig`; `none` is an error.
  unfoldable pub channel_config : String → Option Cfg
  channel_config channel_id =
      if channel_id == ""
      then some sdk.system_cfg
      else elim (sdk.load_channel_cfg_ref channel_id) [ none ↦ none | some ref ↦ ref ]

  -- `EventService`
  unfoldable pub event_service : String → Option Client
  event_service channel_id = elim (channel_config channel_id) [
    | none ↦ none
    | some cfg ↦ sdk.event_service cfg
  ]

  abbrev pub connect : Client → Option Client
  connect client = if sdk.connected client then some client else none

  -- `TransferEventRegistrations`, where the reference makes and connects the client if it is not there
  unfoldable pub transfer_event_registrations : String → Option Snapshot
  transfer_event_registrations channel_id = elim (event_service channel_id) [
    | none ↦ none
    | some client ↦ elim (connect client) [ none ↦ none | some c ↦ sdk.transfer_registrations c ]
  ]
