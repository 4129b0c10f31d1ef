-- ===== src/Snap.antt =====
-- The chaincode of configurationsnap/cmd/configurationscc/configurationscc.go: the entry point with its
-- registry, the access checks, and the functions save, get, delete, refresh and getFromCache over the
-- configuration manager and its service. The functions healthCheck, generateKeyPair and generateCSR only
-- call other systems and stand for a parameter. Metrics, logging and the error's message are left out: a
-- response is a payload or an error's code.
pub mod Access
pub mod Keys
pub mod Settings
pub mod Csr
pub mod Refreshing
use Prim.Native.String.{◌++◌ as concat}
use fabric_snaps.Common.{
  String, ◌==◌, Bool, true, false, not, Option, none, some, List, [], ◌∷◌, if◌then◌else◌,
}
use fabric_snaps.Errors.{
  ErrorCode, Result, ok, err, ◌>>=◌, ◌>>◌, or_err, panic_error, system_error, unmarshal_error,
  missing_required_parameter_error, invalid_function_error, acl_check_error, get_config_error,
}
use fabric_snaps.Config.Key.{ConfigKey}
use fabric_snaps.Config.Parse.{Bytes, Json, ConfigMap, parse_config_message}
use fabric_snaps.Config.Stub.{Stub}
use fabric_snaps.Config.Manager
use fabric_snaps.Config.Manager.{ConfigKv}
use fabric_snaps.Config.Manager.Erased.{organisation_key}
use fabric_snaps.Config.Service
use fabric_snaps.Config.Service.{ConfigService, get_from_cache, general_msp_id}

-- What the chaincode uses of the call's signed proposal and creator, of Fabric's ACL provider and of
-- encoding/json. A key that is decoded from null is nil.
pub record Caller : Type 0 where
  pub get_signed_proposal : Bool
  pub get_creator : Option Bytes
  pub unmarshal_identity : Bytes → Option String
  pub check_acl : String → String → Bool
  pub get_peer_msp_id : Option String
  pub unmarshal_key : Bytes → Option (Option ConfigKey)
  pub unmarshal_msps : Bytes → Option (List String)
  pub marshal_configs : List ConfigKv → Option Bytes

abbrev pub config_data_read_acl_prefix : String
config_data_read_acl_prefix = "configdata/read/"

abbrev pub config_data_write_acl_prefix : String
config_data_write_acl_prefix = "configdata/write/"

-- `if !ok { return errors.New(code, ...) }`
abbrev pub check : Bool → ErrorCode → Result (Unit {0})
check true e = ok tt
check false e = err e

-- `shim.Success(payload)` or an error's response
abbrev pub Response : Type 0
Response = Result (Option Bytes)

abbrev pub success : Response
success = ok none

-- `getKey`
unfoldable pub get_key : Caller → List Bytes → Result ConfigKey
get_key caller [] = err missing_required_parameter_error
get_key caller (config_bytes ∷ args) =
    if config_bytes == ""
    then err missing_required_parameter_error
    else elim (caller.unmarshal_key config_bytes) [
      | none ↦ err unmarshal_error
      | some none ↦ err panic_error
      | some (some key) ↦ ok key
    ]

-- `getMspID`
unfoldable pub get_msp_id : Caller → Result String
get_msp_id caller = do
  creator ← or_err caller.get_creator system_error
  or_err (caller.unmarshal_identity creator) unmarshal_error

-- `checkACLforKey`
unfoldable pub check_acl_for_key : Caller → String → String → ConfigKey → Result (Unit {0})
check_acl_for_key caller channel_id acl_resource_prefix config_key =
    if config_key.msp_id == "" then err system_error else do
      check caller.get_signed_proposal system_error
      _ ← get_msp_id caller
      check (caller.check_acl (concat acl_resource_prefix config_key.msp_id) channel_id)
          acl_check_error

-- The loop of `save` over the keys of the parsed message.
unfoldable pub check_acl_for_keys : Caller → String → ConfigMap → Result (Unit {0})
check_acl_for_keys caller channel_id [] = ok tt
check_acl_for_keys caller channel_id ((key, value) ∷ m) =
    check_acl_for_key caller channel_id config_data_write_acl_prefix key >>= λ _.
    check_acl_for_keys caller channel_id m

module _ (stub : Stub) (caller : Caller) (json : Json) where
  -- What a function answers, and the ledger after it.
  abbrev pub Answer : Type 0
  Answer = Response × stub.State

  abbrev pub finish : Result (Unit {0}) × stub.State → Answer
  finish (ok _, s) = (success, s)
  finish (err e, s) = (err e, s)

  -- `save`: the message is parsed for the access checks, and parsed again by the manager. Go ranges over
  -- the map of the first parse in the order `check_order` and over that of the second in `range_order`.
  unfoldable pub save :
      (ConfigMap → ConfigMap) → (ConfigMap → ConfigMap) → List Bytes → stub.State → Answer
  save check_order range_order [] s = (err panic_error, s)
  save check_order range_order (config_msg ∷ args) s =
      if config_msg == ""
      then (err missing_required_parameter_error, s)
      else elim (parse_config_message json config_msg (stub.get_tx_id s)) [
        | err e ↦ (err e, s)
        | ok m ↦ elim (check_acl_for_keys caller (stub.get_channel_id s) (check_order m)) [
          | err e ↦ (err e, s)
          | ok _ ↦ finish (Manager.save stub json range_order config_msg s)
        ]
      ]

  abbrev pub marshalled : Result (List ConfigKv) → Response
  marshalled (err e) = err get_config_error
  marshalled (ok config) = elim (caller.marshal_configs config) [
    | none ↦ err system_error
    | some b ↦ ok (some b)
  ]

  -- `get`
  unfoldable pub get : List Bytes → stub.State → Answer
  get args s =
      elim (get_key caller args >>= λ key.
      check_acl_for_key caller (stub.get_channel_id s) config_data_read_acl_prefix key >>= λ _.
      ok key) [
        | err e ↦ (err e, s)
        | ok key ↦ let (config, s') = Manager.get stub key s in (marshalled config, s')
      ]

  -- `delete`
  unfoldable pub delete : List Bytes → stub.State → Answer
  delete args s =
      elim (get_key caller args >>= λ key.
      check_acl_for_key caller (stub.get_channel_id s) config_data_write_acl_prefix key >>= λ _.
      ok key) [ err e ↦ (err e, s) | ok key ↦ finish (Manager.delete stub key s) ]

  -- `getFromCache`
  unfoldable pub get_from_cached : List Bytes → stub.State → ConfigService → Response
  get_from_cached args s csi = do
    key ← get_key caller args
    check_acl_for_key caller (stub.get_channel_id s) config_data_read_acl_prefix key
    get_from_cache (stub.get_channel_id s) key csi

  -- The refresh of each organisation; an error is only logged.
  unfoldable pub refresh_all : List String → stub.State → ConfigService → ConfigService
  refresh_all [] s csi = csi
  refresh_all (msp ∷ msps) s csi = refresh_all msps s (Service.refresh stub json msp s csi).1

  -- `refresh`
  unfoldable pub refresh : List Bytes → stub.State → ConfigService → Response × ConfigService
  refresh [] s csi = (err missing_required_parameter_error, csi)
  refresh (arg ∷ args) s csi =
      elim (do
        msps ← or_err (caller.unmarshal_msps arg) unmarshal_error
        peer_msp_id ← or_err caller.get_peer_msp_id unmarshal_error
        check_acl_for_key caller (stub.get_channel_id s) config_data_read_acl_prefix
            (organisation_key peer_msp_id)
        ok msps) [
          | err e ↦ (err e, csi)
          | ok msps ↦
              (success, (Service.refresh stub json general_msp_id s (refresh_all msps s csi)).1)
        ]

  -- A function of the registry that is not modelled.
  abbrev pub Other : Type 0
  Other = List Bytes → stub.State → ConfigService → Response × (stub.State × ConfigService)

  unfoldable pub call :
      (ConfigMap → ConfigMap) → (ConfigMap → ConfigMap) → (String → Option Other) → String → Other
  call check_order range_order others name args s csi =
      if name == "save"
      then (let (r, s') = save check_order range_order args s in (r, (s', csi)))
      else if name == "get"
      then (let (r, s') = get args s in (r, (s', csi)))
      else if name == "getFromCache"
      then (get_from_cached args s csi, (s, csi))
      else if name == "delete"
      then (let (r, s') = delete args s in (r, (s', csi)))
      else if name == "refresh"
      then (let (r, csi') = refresh args s csi in (r, (s, csi')))
      else elim (others name) [
        | none ↦ (err invalid_function_error, (s, csi))
        | some f ↦ f args s csi
      ]

  -- `Invoke` on the arguments of the call.
  unfoldable pub invoke :
      (ConfigMap → ConfigMap) → (ConfigMap → ConfigMap) → (String → Option Other) → Other
  invoke check_order range_order others [] s csi = (err missing_required_parameter_error, (s, csi))
  invoke check_order range_order others (name ∷ args) s csi =
      call check_order range_order others name args s csi
