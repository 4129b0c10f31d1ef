-- ===== src/Config/Parse.antt =====
-- `ParseConfigMessage` and `parseConfigComponent` of configmanager/pkg/mgmt/configmanager.go: from the
-- bytes of a message to the map of configurations. JSON is a parameter.
pub mod Entries
pub mod Stored
use fabric_snaps.Common.{String, Option, List, [], is_empty, if◌then◌else◌, Dict, insert}
use fabric_snaps.Errors.{Result, ok, ◌>>=◌, ◌>>◌, or_err, for_each, unmarshal_error, system_error}
use fabric_snaps.Config.Key.{ConfigKey, create_config_key}
use fabric_snaps.Config.Key.Equality.{key_eq}
use fabric_snaps.Config.Message.{
  ComponentConfig, AppConfig, PeerConfig, ConfigMessage, validate_message,
}

-- A `[]byte` that is not nil. Its contents are a text.
abbrev pub Bytes : Type 0
Bytes = String

-- What the configuration manager uses of encoding/json; `none` is an error.
pub record Json : Type 0 where
  pub unmarshal_message : Bytes → Option ConfigMessage
  pub marshal_component : ComponentConfig → Option Bytes
  pub unmarshal_component : Bytes → Option ComponentConfig
  pub marshal_components : List ComponentConfig → Option Bytes

-- `map[api.ConfigKey][]byte`
abbrev pub ConfigMap : Type 0
ConfigMap = Dict ConfigKey Bytes

module _ (json : Json) where
  -- The body of the loop over the apps of a peer.
  unfoldable pub parse_peer_app : String → String → AppConfig → ConfigMap → Result ConfigMap
  parse_peer_app msp peer app m = do
    key ← create_config_key msp peer app.app_name app.version "" ""
    ok (insert key app.config m)

  unfoldable pub parse_peer : String → PeerConfig → ConfigMap → Result ConfigMap
  parse_peer msp p m = for_each (parse_peer_app msp p.peer_id) p.app m

  -- The body of the loop over the components of an app. The component gets the transaction's ID.
  unfoldable pub parse_component :
      String → String → AppConfig → ComponentConfig → ConfigMap → Result ConfigMap
  parse_component msp tx app c m = do
    let v : ComponentConfig = record c { tx_id = tx }
    key ← create_config_key msp "" app.app_name app.version v.name v.version
    bytes ← or_err (json.marshal_component v) system_error
    ok (insert key bytes m)

  -- The body of the loop of `parseConfigComponent`.
  unfoldable pub parse_app : String → String → AppConfig → ConfigMap → Result ConfigMap
  parse_app msp tx app m =
      if is_empty app.components
      then (do
        key ← create_config_key msp "" app.app_name app.version "" ""
        ok (insert key app.config m))
      else for_each (parse_component msp tx app) app.components m

  unfoldable pub parse_config_component : ConfigMessage → ConfigMap → String → Result ConfigMap
  parse_config_component cm m tx = for_each (parse_app cm.msp_id tx) cm.apps m

  unfoldable pub parse_config_message : Bytes → String → Result ConfigMap
  parse_config_message config_data tx = do
    cm ← or_err (json.unmarshal_message config_data) unmarshal_error
    validate_message cm
    m ← for_each (parse_peer cm.msp_id) cm.peers []
    parse_config_component cm m tx
