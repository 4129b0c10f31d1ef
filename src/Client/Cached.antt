-- ===== src/Client/Cached.antt =====
-- How the cached client of a channel is made and renewed: checkClient and newInitializer of
-- transactionsnap/pkg/client/cache.go, and newClient, getOrgName and the holder of event snapshots of
-- client.go. The configuration, the SDK and SHA-256 with base64 are parameters, as is the transfer of the
-- event registrations. The service provider is the default one.
pub mod Made
pub mod Renewed
use fabric_snaps.Common.{
  String, ◌==◌, Bool, true, false, not, Option, none, some, List, [], ◌∷◌, ◌++◌, if◌then◌else◌,
}
use fabric_snaps.Errors.{
  ErrorCode, Result, ok, err, ◌>>=◌, ◌>>◌, or_err, general_error, initialize_config_error,
}
use fabric_snaps.Config.Parse.{Bytes}

-- The parts of `api.Config` that a client is made of. An organization of the network is its name and its
-- MSP ID, in the order in which the code ranges over them.
pub record TxnConfig : Type 0 where
  pub config_bytes : Option Bytes
  pub organizations : Option (List (String × String))
  pub get_local_peer : Result String
  pub crypto_provider : Option String

-- The parts of `clientImpl` that this code sets; `snapshot` is the event snapshot its provider was given.
pub record CachedClient : Type 0 where
  pub channel_id : String
  pub sdk : String
  pub config_hash : String
  pub snapshot : Option String

-- The SDK. `transfer` gives a snapshot of the event registrations of a client, which the client then
-- lacks, or nothing.
pub record Sdk : Type 0 where
  pub config_provider : String → Option (Option TxnConfig)
  pub generate_hash : Bytes → String
  pub transfer : CachedClient → Option String
  pub new_sdk : String → TxnConfig → String → Option String → Option String
  pub channel_context : String → String → String → Bool
  pub new_channel_client : String → String → Bool

-- The client that the initializer keeps, the clients that are asked to close, and the snapshots that are
-- closed.
pub record CacheState : Type 0 where
  pub client : Option CachedClient
  pub closing : List CachedClient
  pub closed_snapshots : List String

-- The loop of `getOrgName`
unfoldable pub find_org : List (String × String) → String → String
find_org [] local_msp_id = ""
find_org ((name, msp_id) ∷ orgs) local_msp_id =
    if msp_id == local_msp_id then name else find_org orgs local_msp_id

-- `getOrgName`
unfoldable pub get_org_name : List (String × String) → String → Result String
get_org_name orgs local_msp_id =
    let orgname = find_org orgs local_msp_id in
    if orgname == "" then err general_error else ok orgname

module _ (sdk : Sdk) where
  -- `takeEventSnapshot`
  unfoldable pub take_event_snapshot : Option CachedClient → Option String
  take_event_snapshot none = none
  take_event_snapshot (some client) = sdk.transfer client

  -- `newSDK`
  unfoldable pub new_sdk : String → TxnConfig → Option String → Result String
  new_sdk channel_id cfg snapshot = do
    crypto_provider ← or_err cfg.crypto_provider general_error
    or_err (sdk.new_sdk channel_id cfg crypto_provider snapshot) general_error

  -- The part of `newClient` after the event snapshot is taken.
  unfoldable pub build_client :
      String → TxnConfig → Bytes → String → Option String → Result CachedClient
  build_client channel_id cfg bytes org_name snapshot = do
    id ← new_sdk channel_id cfg snapshot
    if sdk.channel_context id channel_id org_name then ok tt else err general_error
    if sdk.new_channel_client id channel_id then ok tt else err general_error
    ok (record {
      channel_id = channel_id;
      sdk = id;
      config_hash = sdk.generate_hash bytes;
      snapshot = snapshot;
    })

  -- `snapshotHolder.close`
  abbrev pub close_snapshot : Option String → CacheState → CacheState
  close_snapshot none s = s
  close_snapshot (some snapshot) s = record s {
    closed_snapshots = s.closed_snapshots ++ snapshot ∷ [];
  }

  -- The deferred close of the snapshot: after `done` it does nothing.
  abbrev pub with_snapshot :
      Option String → Result CachedClient → CacheState → Result CachedClient × CacheState
  with_snapshot snapshot (ok client) s = (ok client, s)
  with_snapshot snapshot (err e) s = (err e, close_snapshot snapshot s)

  -- The checks of `newClient` before the snapshot is taken: the organization.
  unfoldable pub client_org : TxnConfig → Result String
  client_org cfg = do
    orgs ← or_err cfg.organizations general_error
    msp_id ← cfg.get_local_peer
    get_org_name orgs msp_id

  -- `newClient`
  unfoldable pub new_client :
      String
      → TxnConfig
      → Bytes
      → Option CachedClient
      → CacheState
      → Result CachedClient × CacheState
  new_client channel_id cfg bytes current s = elim (client_org cfg) [
    | err e ↦ (err e, s)
    | ok org_name ↦
        let snapshot = take_event_snapshot current in
        with_snapshot snapshot (build_client channel_id cfg bytes org_name snapshot) s
  ]

  -- The close of the old client, which runs in the background.
  abbrev pub close_old : Option CachedClient → CacheState → CacheState
  close_old none s = s
  close_old (some old) s = record s { closing = s.closing ++ old ∷ [] }

  -- The end of `checkClient`, for the result of `newClient`.
  abbrev pub after_new :
      Option CachedClient → Result CachedClient × CacheState → Result CachedClient × CacheState
  after_new current (err e, s) = (err e, s)
  after_new current (ok client, s) = (ok client, close_old current s)

  -- `cfgHash == currentHash` for the current client, if there is one
  abbrev pub unchanged : String → CachedClient → Bool
  unchanged cfg_hash client = cfg_hash == client.config_hash

  -- The part of `checkClient` after the configuration is there.
  unfoldable pub renew :
      String
      → TxnConfig
      → Bytes
      → Option CachedClient
      → CacheState
      → Result CachedClient × CacheState
  renew channel_id cfg bytes none s = after_new none (new_client channel_id cfg bytes none s)
  renew channel_id cfg bytes (some client) s =
      if unchanged (sdk.generate_hash bytes) client
      then (ok client, s)
      else after_new (some client) (new_client channel_id cfg bytes (some client) s)

  -- `checkClient`
  unfoldable pub check_client :
      String → Option CachedClient → CacheState → Result CachedClient × CacheState
  check_client channel_id current s = elim (sdk.config_provider channel_id) [
    | none ↦ (err initialize_config_error, s)
    | some none ↦ (err initialize_config_error, s)
    | some (some cfg) ↦ elim cfg.config_bytes [
      | none ↦ (err initialize_config_error, s)
      | some bytes ↦ renew channel_id cfg bytes current s
    ]
  ]

  -- What the initializer keeps of the result.
  abbrev pub keep : Result CachedClient × CacheState → Result CachedClient × CacheState
  keep (err e, s) = (err e, s)
  keep (ok client, s) = (ok client, record s { client = some client })

  -- The function that `newInitializer` returns
  unfoldable pub initializer : String → CacheState → Result CachedClient × CacheState
  initializer channel_id s = keep (check_client channel_id s.client s)
