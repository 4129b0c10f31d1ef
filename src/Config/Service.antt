-- ===== src/Config/Service.antt =====
-- `ConfigServiceImpl` of configmanager/pkg/service/configmgmtservice.go: the cache of an organisation's
-- configurations by channel, and the hashes that tell whether a configuration changed since it was
-- last read. The receiver is the package's one instance, so its tests against nil are left out.
pub mod Expected
pub mod Growth
pub mod Refreshed
pub mod Served
use Prim.Native.String.{◌++◌ as concat}
use fabric_snaps.Common.{
  String, ◌==◌, Bool, true, false, not, Option, none, some, List, [], ◌∷◌, ◌++◌, is_empty,
  if◌then◌else◌, Dict, lookup, insert, string_eq,
}
use fabric_snaps.Errors.{
  Result, ok, err, ◌>>=◌, ◌>>◌, or_err, for_each, system_error, unmarshal_error,
}
use fabric_snaps.Config.Key.{ConfigKey, config_key_to_string}
use fabric_snaps.Config.Message.{ComponentConfig}
use fabric_snaps.Config.Parse.{Bytes, Json}
use fabric_snaps.Config.Stub.{Stub}
use fabric_snaps.Config.Manager
use fabric_snaps.Config.Manager.{ConfigKv}
use fabric_snaps.Config.Manager.Erased.{organisation_key}

-- `type cache map[string][]byte`; a value may be nil.
abbrev pub Cache : Type 0
Cache = Dict String (Option Bytes)

pub record ConfigService : Type 0 where
  pub cache_map : Dict String Cache
  pub config_hashes : Dict String String

-- `api.VERSION`
abbrev pub version : String
version = "1"

-- `newConfigService`
abbrev pub new_config_service : ConfigService
new_config_service = record { cache_map = []; config_hashes = [] }

-- `len(val) == 0` on bytes that may be nil
abbrev pub no_bytes : Option Bytes → Bool
no_bytes none = true
no_bytes (some b) = b == ""

abbrev pub cache_key : String → String → String
cache_key channel_id msp_id = concat channel_id (concat "_" msp_id)

unfoldable pub get_cache : String → String → ConfigService → Option Cache
get_cache channel_id msp_id csi = lookup (cache_key channel_id msp_id) csi.cache_map

-- An empty app version stands for the current one.
abbrev pub with_version : ConfigKey → ConfigKey
with_version key = if key.app_version == "" then record key { app_version = version } else key

-- `channelCache[keyStr]`, nil if the key is missing
abbrev pub cached : String → Cache → Option Bytes
cached key_str cache = elim (lookup key_str cache) [ none ↦ none | some v ↦ v ]

-- The caches that a refresh builds: by key, and the versions of each component by its key without a
-- version.
pub record Building : Type 0 where
  pub cache : Cache
  pub comp_cache : Dict String (List ComponentConfig)

abbrev pub versions : String → Dict String (List ComponentConfig) → List ComponentConfig
versions k m = elim (lookup k m) [ none ↦ [] | some cs ↦ cs ]

-- `json.Unmarshal` of a value; it fails on nil as on any bytes with no JSON value.
abbrev pub unmarshal_value : Json → Option Bytes → Option ComponentConfig
unmarshal_value json none = none
unmarshal_value json (some b) = json.unmarshal_component b

-- The part of the first loop of `refreshCache` that is run for a component.
unfoldable pub add_version : Json → ConfigKv → Building → Result Building
add_version json val b = do
  comp_str ← config_key_to_string (record val.key { component_version = "" })
  comp ← or_err (unmarshal_value json val.value) unmarshal_error
  ok (record b {
    comp_cache = insert comp_str (versions comp_str b.comp_cache ++ comp ∷ []) b.comp_cache;
  })

-- The body of the first loop of `refreshCache`.
unfoldable pub add_config : Json → ConfigKv → Building → Result Building
add_config json val b = do
  key_str ← config_key_to_string val.key
  let b₁ : Building = record b { cache = insert key_str val.value b.cache }
  if val.key.component_name == "" then ok b₁ else add_version json val b₁

-- The body of the second loop: a component's key without a version holds all its versions. The keys
-- of the map that the loop ranges over differ, so its order changes nothing.
unfoldable pub add_component : Json → String × List ComponentConfig → Cache → Result Cache
add_component json (key, comps) cache = do
  comps_bytes ← or_err (json.marshal_components comps) system_error
  ok (insert key (some comps_bytes) cache)

unfoldable pub build_cache : Json → List ConfigKv → Result Cache
build_cache json messages = do
  b ← for_each (add_config json) messages (record { cache = []; comp_cache = [] })
  for_each (add_component json) b.comp_cache b.cache

unfoldable pub refresh_cache :
    Json → String → List ConfigKv → String → ConfigService → Result (Unit {0}) × ConfigService
refresh_cache json channel_id messages msp_id csi = elim (build_cache json messages) [
  | err e ↦ (err e, csi)
  | ok cache ↦
      (ok tt, record csi { cache_map = insert (cache_key channel_id msp_id) cache csi.cache_map })
]

-- `Refresh`; the stub is only read.
unfoldable pub refresh :
    (stub : Stub) → Json → String → stub.State → ConfigService → Result (Unit {0}) × ConfigService
refresh stub json msp_id s csi = elim (Manager.get stub (organisation_key msp_id) s).0 [
  | err e ↦ (err e, csi)
  | ok messages ↦
      if is_empty messages
      then (err system_error, csi)
      else refresh_cache json (stub.get_channel_id s) messages msp_id csi
]

-- `GeneralMspID` of configurationsnap/api/config.go
abbrev pub general_msp_id : String
general_msp_id = "general"

-- `Initialize`: two refreshes, whose errors are logged.
unfoldable pub initialize :
    (stub : Stub) → Json → String → stub.State → ConfigService → ConfigService
initialize stub json msp_id s csi =
    (refresh stub json general_msp_id s (refresh stub json msp_id s csi).1).1

unfoldable pub get_from_cache : String → ConfigKey → ConfigService → Result (Option Bytes)
get_from_cache channel_id config_key csi =
    let key = with_version config_key in
    elim (get_cache channel_id key.msp_id csi) [
      | none ↦ err system_error
      | some cache ↦ elim (config_key_to_string key) [
        | err e ↦ err e
        | ok key_str ↦
            if no_bytes (cached key_str cache) then err system_error else ok (cached key_str cache)
      ]
    ]

-- What the service uses of the peer and of crypto/sha256 with base64.
pub record Peer : Type 0 where
  pub get_ledger : String → Bool
  pub new_tx_simulator : String → Bool
  -- `txsim.GetState("configurationsnap", key)` on a channel's ledger; `none` is an error.
  pub get_state : String → String → Option (Option Bytes)
  pub generate_hash : Bytes → String

-- The new hash differs from the one that was kept, or none was kept.
abbrev pub differs : String → Option String → Bool
differs current_hash none = true
differs current_hash (some hash) = not (current_hash == hash)

module _ (peer : Peer) where
  -- `isConfigDirty` with its update of the hashes.
  unfoldable pub is_config_dirty : String → Option Bytes → ConfigService → Bool × ConfigService
  is_config_dirty key_str none csi = (false, csi)
  is_config_dirty key_str (some config) csi =
      let current_hash = peer.generate_hash config in
      if config == ""
      then (false, csi)
      else if differs current_hash (lookup key_str csi.config_hashes)
      then (true, record csi { config_hashes = insert key_str current_hash csi.config_hashes })
      else (false, csi)

  -- A read that also reports whether the value is new.
  abbrev pub with_dirty :
      String → Option Bytes → ConfigService → Result (Option Bytes × Bool) × ConfigService
  with_dirty key_str v csi =
      let (dirty, csi') = is_config_dirty key_str v csi in (ok (v, dirty), csi')

  unfoldable pub get_config_from_ledger :
      String → ConfigKey → ConfigService → Result (Option Bytes × Bool) × ConfigService
  get_config_from_ledger channel_id key csi =
      if not (peer.get_ledger channel_id)
      then (err system_error, csi)
      else if not (peer.new_tx_simulator channel_id)
      then (err system_error, csi)
      else elim (config_key_to_string key) [
        | err e ↦ (err e, csi)
        | ok key_str ↦ elim (peer.get_state channel_id key_str) [
          | none ↦ (err system_error, csi)
          | some config ↦ with_dirty key_str config csi
        ]
      ]

  unfoldable pub get :
      String → ConfigKey → ConfigService → Result (Option Bytes × Bool) × ConfigService
  get channel_id config_key csi =
      let key = with_version config_key in
      elim (get_cache channel_id key.msp_id csi) [
        | none ↦ get_config_from_ledger channel_id key csi
        | some cache ↦ elim (config_key_to_string key) [
          | err e ↦ (err e, csi)
          | ok key_str ↦
              if no_bytes (cached key_str cache)
              then get_config_from_ledger channel_id key csi
              else with_dirty key_str (cached key_str cache) csi
        ]
      ]
