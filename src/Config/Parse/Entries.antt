-- ===== src/Config/Parse/Entries.antt =====
-- A message as one list of entries, and the parser as one loop over it.
use mathlib.Core.Path.{fun_ext}
use mathlib.Core.List.{flat_map}
use fabric_snaps.Common.{
  String, ◌≡◌, ap, Option, some, List, [], ◌∷◌, ◌++◌, is_empty, if◌then◌else◌, insert, arith, map,
  Bool-cases, ◌∙◌, sym, inl, inr,
}
use fabric_snaps.Errors.{
  Result, ok, ◌>>=◌, ◌>>◌, or_err, for_each, for_each-append, for_each-map, for_each-flat_map,
  unmarshal_error, system_error,
}
use fabric_snaps.Config.Key.{ConfigKey, validate_config_key, create_config_key}
use fabric_snaps.Config.Key.Equality.{key_eq}
use fabric_snaps.Config.Message.{
  ComponentConfig, AppConfig, PeerConfig, ConfigMessage, validate_message,
}
use fabric_snaps.Config.Parse.{
  Bytes, Json, ConfigMap, parse_peer_app, parse_peer, parse_component, parse_app,
  parse_config_component, parse_config_message,
}

-- A configuration that a message asks for; no bytes where the component does not marshal.
abbrev pub Entry : Type 0
Entry = ConfigKey × Option Bytes

abbrev pub app_key : String → String → AppConfig → ConfigKey
app_key msp peer app = record {
  msp_id = msp;
  peer_id = peer;
  app_name = app.app_name;
  app_version = app.version;
  component_name = "";
  component_version = "";
}

abbrev pub component_key : String → AppConfig → ComponentConfig → ConfigKey
component_key msp app c = record {
  msp_id = msp;
  peer_id = "";
  app_name = app.app_name;
  app_version = app.version;
  component_name = c.name;
  component_version = c.version;
}

abbrev pub peer_entries : String → PeerConfig → List Entry
peer_entries msp p = map (λ a. (app_key msp p.peer_id a, some a.config)) p.app

module _ (json : Json) (msp tx : String) where
  abbrev pub component_entry : AppConfig → ComponentConfig → Entry
  component_entry a c = (component_key msp a c, json.marshal_component (record c { tx_id = tx }))

  abbrev pub app_entries : AppConfig → List Entry
  app_entries a =
      if is_empty a.components
      then (app_key msp "" a, some a.config) ∷ []
      else map (component_entry a) a.components

abbrev pub entries : Json → String → ConfigMessage → List Entry
entries json tx cm =
    flat_map (peer_entries cm.msp_id) cm.peers ++ flat_map (app_entries json cm.msp_id tx) cm.apps

unfoldable pub store_entry : Entry → ConfigMap → Result ConfigMap
store_entry (k, v) m = do validate_config_key k; b ← or_err v system_error; ok (insert k b m)

abbrev pub store : List Entry → ConfigMap → Result ConfigMap
store = for_each store_entry

module _ (json : Json) (msp tx : String) where
  parse_peer_app-eq :
      (peer : String) (a : AppConfig) (m : ConfigMap)
      → parse_peer_app json msp peer a m ≡ store_entry (app_key msp peer a, some a.config) m
  unfolding parse_peer_app store_entry create_config_key
  parse_peer_app-eq peer a m = ground arith

  parse_peer-eq :
      (p : PeerConfig) (m : ConfigMap) → parse_peer json msp p m ≡ store (peer_entries msp p) m
  unfolding parse_peer
  parse_peer-eq p = for_each-map store_entry _ _ (parse_peer_app-eq p.peer_id) p.app

  parse_component-eq :
      (a : AppConfig) (c : ComponentConfig) (m : ConfigMap)
      → parse_component json msp tx a c m ≡ store_entry (component_entry json msp tx a c) m
  unfolding parse_component store_entry create_config_key
  parse_component-eq a c m = ground arith

  parse_app-eq :
      (a : AppConfig) (m : ConfigMap)
      → parse_app json msp tx a m ≡ store (app_entries json msp tx a) m
  unfolding parse_app
  parse_app-eq a m = elim (Bool-cases (is_empty a.components)) [
    | inl e ↦ rw e (unfold for_each store_entry create_config_key in ground arith)
    | inr e ↦ rw e (for_each-map store_entry _ _ (parse_component-eq a) a.components m)
  ]

-- A message parses as one loop over its entries, in the order of the message: it is refused if it
-- does not unmarshal or is not valid, and else each entry's key is checked and its value stored.
pub parse_config_message-eq :
    (json : Json) (d : Bytes) (tx : String)
    → parse_config_message json d tx ≡ (do
      cm ← or_err (json.unmarshal_message d) unmarshal_error
      validate_message cm
      store (entries json tx cm) [])
unfolding parse_config_message parse_config_component
parse_config_message-eq json d tx =
    ap (λ k. or_err (json.unmarshal_message d) unmarshal_error >>= k)
      (fun_ext λ cm. ap (λ k. validate_message cm >>= k) (fun_ext λ _. both cm))
  where
    both :
        (cm : ConfigMessage)
        → (for_each (parse_peer json cm.msp_id) cm.peers [] >>= λ m.
            for_each (parse_app json cm.msp_id tx) cm.apps m)
          ≡ store (entries json tx cm) []
    both cm =
        ap (λ r. r >>= λ m. for_each (parse_app json cm.msp_id tx) cm.apps m)
          (for_each-flat_map store_entry _ _ (parse_peer-eq json cm.msp_id tx) cm.peers [])
        ∙ ap (λ k. store (flat_map (peer_entries cm.msp_id) cm.peers) [] >>= k)
            (fun_ext (for_each-flat_map store_entry _ _ (parse_app-eq json cm.msp_id tx) cm.apps))
        ∙ sym (for_each-append store_entry _ _ [])
