-- ===== src/Config/Message.antt =====
-- Configuration messages and their validation: the structs and `IsValid` methods of
-- configmanager/api/configmanager.go.
use fabric_snaps.Common.{String, ◌==◌, not, ◌&&◌, List, [], ◌∷◌, is_empty, if◌then◌else◌}
use fabric_snaps.Errors.{
  Result, ok, err, ◌>>◌, invalid_config_message, invalid_peer_config, invalid_app_config,
  invalid_component_config,
}

pub record ComponentConfig : Type 0 where
  pub name : String
  pub config : String
  pub version : String
  pub tx_id : String

pub record AppConfig : Type 0 where
  pub app_name : String
  pub version : String
  pub config : String
  pub components : List ComponentConfig

pub record PeerConfig : Type 0 where
  pub peer_id : String
  pub app : List AppConfig

pub record ConfigMessage : Type 0 where
  pub msp_id : String
  pub peers : List PeerConfig
  pub apps : List AppConfig

-- `ComponentConfig.IsValid`
unfoldable pub validate_component : ComponentConfig → Result (Unit {0})
validate_component cc =
    if cc.name == ""
    then err invalid_component_config
    else if not (cc.tx_id == "")
    then err invalid_component_config
    else if cc.config == ""
    then err invalid_component_config
    else if cc.version == ""
    then err invalid_component_config
    else ok tt

-- `AppConfig.IsValid`
unfoldable pub validate_app : AppConfig → Result (Unit {0})
validate_app ac =
    if ac.app_name == ""
    then err invalid_app_config
    else if ac.config == "" && is_empty ac.components
    then err invalid_app_config
    else if ac.version == ""
    then err invalid_app_config
    else ok tt

unfoldable pub validate_apps : List AppConfig → Result (Unit {0})
validate_apps [] = ok tt
validate_apps (a ∷ as') = do validate_app a; validate_apps as'

-- `PeerConfig.IsValid`
unfoldable pub validate_peer : PeerConfig → Result (Unit {0})
validate_peer pc =
    if pc.peer_id == ""
    then err invalid_peer_config
    else if is_empty pc.app
    then err invalid_peer_config
    else validate_apps pc.app

unfoldable pub validate_peers : List PeerConfig → Result (Unit {0})
validate_peers [] = ok tt
validate_peers (p ∷ ps) = do validate_peer p; validate_peers ps

-- `ConfigMessage.IsValid`. The apps outside `peers` are not looked at.
unfoldable pub validate_message : ConfigMessage → Result (Unit {0})
validate_message cm =
    if cm.msp_id == ""
    then err invalid_config_message
    else if is_empty cm.peers && is_empty cm.apps
    then err invalid_config_message
    else validate_peers cm.peers
