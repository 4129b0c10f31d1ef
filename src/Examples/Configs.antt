-- ===== src/Examples/Configs.antt =====
-- Configurations that are saved and deleted.
use fabric_snaps.Common.{
  ◌≡◌, refl, none, some, [], ◌∷◌, if◌then◌else◌, ◌==◌, lookup, insert, string_eq, All,
}
use fabric_snaps.Errors.{ok, ◌>>=◌}
use fabric_snaps.Config.Key.{
  ConfigKey, string, config_key_to_string, string_to_config_key, validate_config_key,
}
use fabric_snaps.Config.Key.Validity.{IsValid, validate_config_key_iff}
use fabric_snaps.Config.Key.RoundTrip.{string_to_config_key-config_key_to_string}
use fabric_snaps.Config.Parse.{ConfigMap, parse_config_message}
use fabric_snaps.Config.Parse.Stored.{parse_config_message-lookup}
use fabric_snaps.Config.Manager.{get_configs, save, delete}
use fabric_snaps.Config.Manager.Persisted.{save-committed}
use fabric_snaps.Config.Manager.Erased.{delete_one, delete_without_version}
use fabric_snaps.Common.Strings.{join, split, extend}
use fabric_snaps.Config.Parse.Entries.{entries}
use fabric_snaps.Config.Parse.Stored.{last_value}
use fabric_snaps.Config.Message.{ConfigMessage}
use fabric_snaps.Config.Manager.{
  delete_state, delete_configs, delete_config, delete_version, search, get_configurations, collect,
  get_configuration, get_config, last_part,
}
use fabric_snaps.Examples.Ledger.{remove, index_key}
use fabric_snaps.Config.Key.{create_config_key}
use fabric_snaps.Config.Key.RoundTrip.{LacksDivider}
use fabric_snaps.Config.Message.{validate_message, validate_peers}
use fabric_snaps.Config.Parse.{parse_config_component, parse_app}
use fabric_snaps.Errors.{for_each}
use fabric_snaps.Exec.{each}
use fabric_snaps.Config.Key.Equality.{key_eq, key_beq}
use fabric_snaps.Config.Manager.{
  save_configs, save_config, add_indexes, add_index, get_fields_for_index, get_indexed_fields,
  get_index_and_fields, get_index_key,
}
use fabric_snaps.Config.Manager.Erased.{organisation_key}
use fabric_snaps.Examples.Ledger.{app_key, component_key, json, stub, ledger, saved}

abbrev parsed_map : ConfigMap
parsed_map = (app_key, "cfg") ∷ []

app_key_valid : validate_config_key app_key ≡ ok tt
unfolding validate_config_key
app_key_valid = refl

component_key_valid : validate_config_key component_key ≡ ok tt
unfolding validate_config_key
component_key_valid = refl

app_key-IsValid : IsValid app_key
app_key-IsValid = (validate_config_key_iff app_key).0 app_key_valid

app_key-LacksDivider : LacksDivider app_key
app_key-LacksDivider = (
  (refl, (refl, (refl, (refl, tt)))),
  (tt, ((refl, (refl, (refl, tt))), ((refl, tt), (tt, (tt, tt))))),
)

parses : parse_config_message json "{}" "tx" ≡ ok parsed_map
unfolding parse_config_message validate_message validate_peers parse_config_component for_each
    parse_app create_config_key validate_config_key insert
parses = refl

saves : (save stub json (λ m. m) "{}" saved).0 ≡ ok tt
unfolding save save_configs save_config each config_key_to_string validate_config_key add_indexes
    add_index get_fields_for_index get_indexed_fields get_index_and_fields get_index_key
    parse_config_message validate_message validate_peers parse_config_component for_each parse_app
    create_config_key insert join
saves = refl

save-committed_example :
    ledger.committed (save stub json (λ m. m) "{}" saved).1 (string app_key) ≡ some "cfg"
unfolding string join lookup key_beq
save-committed_example =
    save-committed stub ledger json (λ m. m) "{}" saved parses saves
      (record { once = (tt, tt); same = λ k. refl }) ((app_key-LacksDivider, refl), tt) app_key
      "cfg" refl

deletes_one : (delete stub component_key saved).0 ≡ ok tt
unfolding delete delete_state delete_configs delete_config delete_version get_configs search
    get_configurations collect get_configuration get_config last_part string_to_config_key split
    extend each config_key_to_string validate_config_key get_indexed_fields get_index_and_fields
    join lookup remove
deletes_one = refl

delete_one_example :
    ledger.committed (delete stub component_key saved).1 index_key
    ≡ (if string component_key == index_key then none else lookup index_key saved)
delete_one_example =
    delete_one stub ledger component_key saved component_key_valid refl deletes_one index_key

delete_without_version_example :
    delete stub (record app_key { app_version = "" }) saved
    ≡ delete stub (organisation_key "Org1") saved
delete_without_version_example =
    delete_without_version stub (record app_key { app_version = "" }) saved refl

string_to_config_key-config_key_to_string_example :
    (config_key_to_string app_key >>= string_to_config_key) ≡ ok app_key
string_to_config_key-config_key_to_string_example =
    string_to_config_key-config_key_to_string app_key app_key-IsValid app_key-LacksDivider

parse_config_message-lookup_example :
    (cm : ConfigMessage) × (json.unmarshal_message "{}" ≡ some cm)
    × (validate_message cm ≡ ok tt)
    × All (λ e. IsValid e.0) (entries json "tx" cm)
    × ((k : ConfigKey) → lookup k parsed_map ≡ last_value k (entries json "tx" cm))
parse_config_message-lookup_example = parse_config_message-lookup json "{}" "tx" parsed_map parses
