-- ===== src/Examples/Services.antt =====
-- A refreshed cache and calls that are refused.
use fabric_snaps.Common.{
  ◌≡◌, ◌≢◌, refl, true, false, none, some, List, [], ◌∷◌, ◌++◌, lookup, insert, string_eq, eq→≢,
}
use fabric_snaps.Common.Strings.{join}
use fabric_snaps.Errors.{ErrorCode, ok, err, for_each}
use fabric_snaps.Config.Key.{string, config_key_to_string, validate_config_key, create_config_key}
use fabric_snaps.Config.Key.Equality.{key_eq}
use fabric_snaps.Config.Key.Validity.{validate_config_key_iff}
use fabric_snaps.Config.Message.{validate_message, validate_peers}
use fabric_snaps.Config.Parse.{ConfigMap, parse_config_message, parse_config_component, parse_app}
use fabric_snaps.Config.Manager.{ConfigKv}
use fabric_snaps.Config.Service.{
  Cache, ConfigService, Peer, new_config_service, build_cache, add_config, add_component,
  add_version, refresh_cache, get_from_cache,
}
use fabric_snaps.Config.Service.Expected.{refreshed}
use fabric_snaps.Config.Service.Refreshed.{build_cache-lookup, build_cache-no_value}
use fabric_snaps.Config.Service.Served.{served, refresh_cache-get_from_cache}
use fabric_snaps.Snap.{Caller, get_key, save, delete}
use fabric_snaps.Snap.Access.{save_refused, delete_refused}
use fabric_snaps.Examples.Ledger.{app_key, component_key, json, stub, saved}

-- What the ledger has for the organisation.
abbrev configs : List ConfigKv
configs =
    record { key = component_key; value = some "c" }
    ∷ record { key = app_key; value = some "cfg" }
    ∷ []

abbrev cache : Cache
cache =
    ("Org1!!app!1!comp!2", some "c")
    ∷ ("Org1!!app!1!!", some "cfg")
    ∷ ("Org1!!app!1!comp!", some "[]")
    ∷ []

builds : build_cache json configs ≡ ok cache
unfolding build_cache for_each add_config add_component add_version config_key_to_string
    validate_config_key join insert lookup
builds = refl

build_cache-lookup_example :
    lookup "Org1!!app!1!comp!" cache ≡ refreshed json "Org1!!app!1!comp!" configs
build_cache-lookup_example = build_cache-lookup json configs cache builds "Org1!!app!1!comp!"

build_cache-no_value_example :
    build_cache json (configs ++ record { key = component_key; value = none } ∷ []) ≢ ok cache
build_cache-no_value_example =
    build_cache-no_value json configs (record { key = component_key; value = none }) []
      (eq→≢ "comp" "" refl) refl cache

abbrev after_refresh : ConfigService
after_refresh = record new_config_service { cache_map = ("mychannel_Org1", cache) ∷ [] }

refreshes :
    refresh_cache json "mychannel" configs "Org1" new_config_service ≡ (ok tt, after_refresh)
unfolding refresh_cache build_cache for_each add_config add_component add_version
    config_key_to_string validate_config_key join insert lookup
refreshes = refl

component_key_valid : validate_config_key component_key ≡ ok tt
unfolding validate_config_key
component_key_valid = refl

refresh_cache-get_from_cache_example :
    get_from_cache "mychannel" component_key after_refresh
    ≡ served (refreshed json (string component_key) configs)
refresh_cache-get_from_cache_example =
    refresh_cache-get_from_cache json "mychannel" configs component_key new_config_service
      after_refresh refreshes ((validate_config_key_iff component_key).0 component_key_valid)

abbrev peer : Peer
peer = record {
  get_ledger = λ c. true;
  new_tx_simulator = λ c. true;
  get_state = λ c k. some (some "c");
  generate_hash = λ b. b;
}

-- A caller that the access provider grants nothing.
abbrev stranger : Caller
stranger = record {
  get_signed_proposal = true;
  get_creator = some "creator";
  unmarshal_identity = λ b. some "Org2";
  check_acl = λ r c. false;
  get_peer_msp_id = some "Org1";
  unmarshal_key = λ b. some (some app_key);
  unmarshal_msps = λ b. some [];
  marshal_configs = λ vs. some "[]";
}

abbrev parsed_map : ConfigMap
parsed_map = (app_key, "cfg") ∷ []

parses : parse_config_message json "{}" "tx" ≡ ok parsed_map
unfolding parse_config_message validate_message validate_peers parse_config_component for_each
    parse_app create_config_key validate_config_key insert
parses = refl

decodes : get_key stranger ("{}" ∷ []) ≡ ok app_key
unfolding get_key
decodes = refl

save_refused_example :
    (e : ErrorCode) × (save stub stranger json (λ m. m) (λ m. m) ("{}" ∷ []) saved ≡ (err e, saved))
save_refused_example =
    save_refused stub stranger json saved (λ m. m) (λ m. m) "{}" [] parsed_map parses
      (λ h. absurd (cc (h.0)))

delete_refused_example :
    (e : ErrorCode) × (delete stub stranger json ("{}" ∷ []) saved ≡ (err e, saved))
delete_refused_example =
    delete_refused stub stranger json saved ("{}" ∷ []) app_key decodes (λ h. absurd (cc h))
