-- ===== src/Config/Manager.antt =====
-- `configManagerImpl` of configmanager/pkg/mgmt/configmanager.go, over the chaincode stub. A Go map is
-- ranged over in an order that the language leaves open: `Save` takes the order as an argument.
pub mod Saved
pub mod Erased
pub mod Deleted
pub mod Persisted
use fabric_snaps.Common.{
  String, ◌==◌, Bool, ◌&&◌, not, Option, none, some, List, [], ◌∷◌, ◌++◌, is_empty, if◌then◌else◌,
}
use fabric_snaps.Errors.{
  ErrorCode, Result, ok, err, missing_required_parameter_error, system_error, invalid_config_key,
  get_key_error, panic_error, or_err,
}
use fabric_snaps.Exec.{Exec, ◌>>=◌, ◌>>◌, pure, fail, lift, read_or, call_or, each}
use fabric_snaps.Config.Key.{
  ConfigKey, validate_config_key, config_key_to_string, string_to_config_key,
}
use fabric_snaps.Config.Parse.{Bytes, Json, ConfigMap, parse_config_message}
use fabric_snaps.Config.Stub.{Stub}

-- `ConfigCCEventName` of configurationsnap/api/config.go
abbrev pub config_cc_event_name : String
config_cc_event_name = "cfgsnap-event"

abbrev pub index_msp_id : String
index_msp_id = "cfgmgmt-mspid"

abbrev pub indexes : List String
indexes = index_msp_id ∷ []

-- `api.ConfigKv`; nil where the ledger has nothing for the key.
pub record ConfigKv : Type 0 where
  pub key : ConfigKey
  pub value : Option Bytes

unfoldable pub get_fields_for_index : String → ConfigKey → Result (List String)
get_fields_for_index index key = elim (validate_config_key key) [
  | err e ↦ err e
  | ok _ ↦ if index == index_msp_id then ok (key.msp_id ∷ []) else err system_error
]

unfoldable pub get_indexed_fields : ConfigKey → Result (List String)
get_indexed_fields key = if key.msp_id == "" then err invalid_config_key else ok (key.msp_id ∷ [])

unfoldable pub get_index_and_fields : ConfigKey → Result (String × List String)
get_index_and_fields key = elim (get_indexed_fields key) [
  | err e ↦ err e
  | ok fields ↦ ok (index_msp_id, fields)
]

-- `errors.Wrap(code, err, ...)` on the error of a call
abbrev pub wrap {ℓ} : {A : Type ℓ} → ErrorCode → Result A → Result A
wrap c (ok a) = ok a
wrap c (err e) = err c

-- `compositeKeyParts[len(compositeKeyParts)-1]`; `none` is the panic on an empty list.
unfoldable pub last_part : List String → Option String
last_part [] = none
last_part (p ∷ []) = some p
last_part (p ∷ q ∷ ps) = last_part (q ∷ ps)

-- The test that selects the versions of one component.
abbrev pub same_component : ConfigKey → ConfigKey → Bool
same_component key other =
    other.component_name == key.component_name && other.app_name == key.app_name

unfoldable pub filter_component : ConfigKey → List ConfigKv → List ConfigKv
filter_component key [] = []
filter_component key (v ∷ vs) =
    let rest = filter_component key vs in if same_component key v.key then v ∷ rest else rest

-- A component with no version: all its versions are meant.
abbrev pub all_versions : ConfigKey → Bool
all_versions key = not (key.component_name == "") && key.component_version == ""

module _ (stub : Stub) where
  unfoldable pub get_index_key : String → String → List String → Result String
  get_index_key index key fields =
      if index == ""
      then err missing_required_parameter_error
      else if key == ""
      then err missing_required_parameter_error
      else if is_empty fields
      then err missing_required_parameter_error
      else or_err (stub.create_composite_key index (fields ++ key ∷ [])) system_error

  unfoldable pub add_index : String → ConfigKey → Exec stub.State (Unit {0})
  add_index index key = if index == "" then fail system_error else do
    lift (validate_config_key key)
    fields ← lift (get_fields_for_index index key)
    str_key ← lift (config_key_to_string key)
    index_key ← lift (get_index_key index str_key fields)
    call_or system_error (stub.put_state index_key "\0")

  unfoldable pub add_indexes : ConfigKey → Exec stub.State (Unit {0})
  add_indexes key = do lift (validate_config_key key); each (λ index. add_index index key) indexes

  -- The body of the loop of `saveConfigs`.
  unfoldable pub save_config : ConfigKey × Bytes → Exec stub.State (Unit {0})
  save_config (key, value) = do
    str_key ← lift (config_key_to_string key)
    call_or system_error (stub.put_state str_key value)
    add_indexes key

  unfoldable pub save_configs : ConfigMap → Exec stub.State (Unit {0})
  save_configs = each save_config

  -- `range_order` is the order in which Go hands out the entries of the map.
  unfoldable pub save : Json → (ConfigMap → ConfigMap) → Bytes → Exec stub.State (Unit {0})
  save json range_order config_data s =
      if config_data == ""
      then (err missing_required_parameter_error, s)
      else (do
        m ← lift (parse_config_message json config_data (stub.get_tx_id s))
        call_or system_error (stub.set_event config_cc_event_name)
        save_configs (range_order m))
          s

  -- The bytes of a key, nil if there are none.
  unfoldable pub get_config : ConfigKey → Exec stub.State (Option Bytes)
  get_config key = do
    str_key ← lift (config_key_to_string key)
    λ s. read_or system_error (stub.get_state str_key s) s

  -- The body of the loop over the iterator. A panic of the code is the error `panic_error`, into which
  -- the snap's `HandlePanic` turns it.
  unfoldable pub get_configuration : Option String → Exec stub.State ConfigKv
  get_configuration none = fail system_error
  get_configuration (some composite_key) = do
    split ← lift (or_err (stub.split_composite_key composite_key) system_error)
    config_id ← lift (or_err (last_part split.1) panic_error)
    key ← lift (string_to_config_key config_id)
    value ← get_config key
    pure (record { key = key; value = value })

  unfoldable pub collect : List (Option String) → Exec stub.State (List ConfigKv)
  collect [] = pure []
  collect (k ∷ ks) = do kv ← get_configuration k; kvs ← collect ks; pure (kv ∷ kvs)

  unfoldable pub get_configurations : String → List String → Exec stub.State (List ConfigKv)
  get_configurations index fields = do
    it ← λ s. read_or system_error (stub.get_state_by_partial_composite_key index fields s) s
    collect it

  -- `errors.Wrap(GetKeyError, ...)` on both calls.
  unfoldable pub search : ConfigKey → Exec stub.State (List ConfigKv)
  search key s =
      if key.msp_id == ""
      then (err invalid_config_key, s)
      else (do
        index ← lift (wrap get_key_error (get_index_and_fields key))
        λ s'. let (r, s'') = get_configurations index.0 index.1 s' in (wrap get_key_error r, s''))
          s

  unfoldable pub get_configs : ConfigKey → Exec stub.State (List ConfigKv)
  get_configs key = if key.msp_id == "" then fail invalid_config_key else search key

  unfoldable pub get : ConfigKey → Exec stub.State (List ConfigKv)
  get key s = elim (validate_config_key key) [
    | err _ ↦ get_configs key s
    | ok _ ↦
        if all_versions key
        then (do values ← get_configs key; pure (filter_component key values)) s
        else (do config ← get_config key; pure (record { key = key; value = config } ∷ [])) s
  ]

  -- The body of the loop of `deleteConfigs`.
  unfoldable pub delete_config : ConfigKv → Exec stub.State (Unit {0})
  delete_config v = do
    key_str ← lift (config_key_to_string v.key)
    call_or system_error (stub.del_state key_str)

  unfoldable pub delete_configs : ConfigKey → Exec stub.State (Unit {0})
  delete_configs key =
      if key.msp_id == ""
      then fail invalid_config_key
      else do configs ← get_configs key; each delete_config configs

  -- The body of the loop of `deleteState`.
  unfoldable pub delete_version : ConfigKey → ConfigKv → Exec stub.State (Unit {0})
  delete_version key v = do
    key_str ← lift (config_key_to_string v.key)
    if same_component key v.key then call_or system_error (stub.del_state key_str) else pure tt

  unfoldable pub delete_state : ConfigKey → Exec stub.State (Unit {0})
  delete_state key =
      if all_versions key
      then (do configs ← get_configs key; each (delete_version key) configs)
      else pure tt

  unfoldable pub delete : ConfigKey → Exec stub.State (Unit {0})
  delete key s = elim (validate_config_key key) [
    | err _ ↦ delete_configs key s
    | ok _ ↦
        (do
          delete_state key
          key_str ← lift (config_key_to_string key)
          call_or system_error (stub.del_state key_str))
          s
  ]
