-- ===== src/Client/Provider/Starts.antt =====
-- Where the events of a channel start for a new client.
use fabric_snaps.Common.{
  ℕ, ◌-◌, String, ◌≡◌, Bool, true, false, Option, none, some, List, [], ◌∷◌, arith, if◌then◌else◌,
  ltb, lookup, string_eq, eq_self,
}
use fabric_snaps.Client.Provider.{
  Origin, EventOption, max_connect_attempts, block_events, seek_from_block, prefer_peer, snapshot,
  block_num, new_service_provider, new_params, new_event_client_ref,
}

-- The options that tell the event client where to start: a snapshot, the kind of seek and a block number.
module _ {Snapshot : Type 0} where
  abbrev pub start_options : List (EventOption Snapshot) → List (EventOption Snapshot)
  start_options [] = []
  start_options (snapshot s ∷ opts) = snapshot s ∷ start_options opts
  start_options (block_num n ∷ opts) = block_num n ∷ start_options opts
  start_options (seek_from_block ∷ opts) = seek_from_block ∷ start_options opts
  start_options (max_connect_attempts n ∷ opts) = start_options opts
  start_options (block_events ∷ opts) = start_options opts
  start_options (prefer_peer url ∷ opts) = start_options opts

  -- A later client is given the snapshot of the one before it, and a first client is told to seek from the
  -- last block of a ledger that had more than one; otherwise there is no such option.
  abbrev pub due_options : Origin Snapshot → List (EventOption Snapshot)
  due_options origin =
      if origin.has_current_client
      then elim origin.event_snapshot [ none ↦ [] | some s ↦ snapshot s ∷ [] ]
      else elim origin.initial_height [
        | none ↦ []
        | some height ↦ if ltb 1 height then seek_from_block ∷ block_num (height - 1) ∷ [] else []
      ]

  -- There is a snapshot of a current client.
  abbrev pub follows_snapshot : Origin Snapshot → Bool
  follows_snapshot origin = elim origin.event_snapshot [
    | none ↦ false
    | some s ↦ origin.has_current_client
  ]

  abbrev IsDue : String → Origin Snapshot → List (EventOption Snapshot) × Bool → Type 0
  IsDue channel_id origin (opts, at_once) =
      (start_options opts ≡ due_options origin) × (at_once ≡ follows_snapshot origin)

  IsDue_lem :
      (channel_id : String) (url : Option String) (events current : Bool) (snap : Option Snapshot)
      (height : Option ℕ)
      → (let origin : Origin Snapshot = record {
        local_peer_url = url;
        enable_block_events = events;
        has_current_client = current;
        event_snapshot = snap;
        initial_height = height;
      } in
          IsDue channel_id origin
            (new_event_client_ref (new_params (new_service_provider channel_id origin)) channel_id))
  unfolding new_service_provider new_params new_event_client_ref lookup
  IsDue_lem channel_id url events true none height = ground (arith)
  IsDue_lem channel_id url events true (some s) height = ground (arith, eq_self channel_id)
  IsDue_lem channel_id url events false none none = ground (arith)
  IsDue_lem channel_id url events false (some s) none = ground (arith)
  IsDue_lem channel_id url events false none (some height) = ground (arith)
  IsDue_lem channel_id url events false (some s) (some height) = ground (arith)

  -- Of the options that tell where to start, the event client of a channel is given just these: the
  -- snapshot of the client before it, or none if no snapshot was taken; if there was no client before, to
  -- seek from a block together with the number of the last block that the ledger had when the peer joined,
  -- or none if that is not known or is block 0. The client is made at once exactly if it is given a
  -- snapshot.
  pub new_event_client_ref-start :
      (channel_id : String) (origin : Origin Snapshot)
      → (start_options
            (new_event_client_ref
              (new_params (new_service_provider channel_id origin))
              channel_id).0
          ≡ due_options origin)
        × ((new_event_client_ref (new_params (new_service_provider channel_id origin)) channel_id).1
            ≡ follows_snapshot origin)
  unfolding new_service_provider new_params new_event_client_ref
  new_event_client_ref-start channel_id origin =
      IsDue_lem channel_id origin.local_peer_url origin.enable_block_events
        origin.has_current_client origin.event_snapshot origin.initial_height
