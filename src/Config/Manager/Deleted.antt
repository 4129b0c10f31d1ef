-- ===== src/Config/Manager/Deleted.antt =====
-- What `Get` and `Delete` read and write.
use fabric_snaps.Common.{
  String, ◌==◌, ◌≡◌, refl, ap, Option, none, some, List, [], ◌∷◌, Bool-cases, inl, inr,
}
use fabric_snaps.Errors.{Result, system_error, panic_error, get_key_error, or_err}
use fabric_snaps.Exec.{continue-reads, >>=-reads, read_or, read_or-reads}
use fabric_snaps.Config.Key.{ConfigKey, config_key_to_string, string_to_config_key}
use fabric_snaps.Config.Stub.{Stub}
use fabric_snaps.Config.Manager.{
  ConfigKv, get_config, get_configuration, collect, get_configurations, search, get_configs,
  get_index_and_fields, get_indexed_fields, last_part, wrap,
}

module _ (stub : Stub) where
  get_config_reads : (k : ConfigKey) (s : stub.State) → (get_config stub k s).1 ≡ s
  unfolding get_config
  get_config_reads k s =
      continue-reads (config_key_to_string k) _ s
        λ t. read_or-reads system_error (stub.get_state t s) s

  get_configuration_reads :
      (k : Option String) (s : stub.State) → (get_configuration stub k s).1 ≡ s
  unfolding get_configuration
  get_configuration_reads none s = refl
  get_configuration_reads (some c) s =
      continue-reads (or_err (stub.split_composite_key c) system_error) _ s λ split.
        continue-reads (or_err (last_part split.1) panic_error) _ s λ id.
          continue-reads (string_to_config_key id) _ s
            λ k. >>=-reads (get_config stub k) _ s (get_config_reads k s) (λ v. refl)

  collect_reads : (ks : List (Option String)) (s : stub.State) → (collect stub ks s).1 ≡ s
  unfolding collect
  collect_reads [] s = refl
  collect_reads (k ∷ ks) s =
      >>=-reads (get_configuration stub k) _ s (get_configuration_reads k s)
        λ kv. >>=-reads (collect stub ks) _ s (collect_reads ks s) (λ kvs. refl)

  get_configurations_reads :
      (i : String) (fields : List String) (s : stub.State)
      → (get_configurations stub i fields s).1 ≡ s
  unfolding get_configurations
  get_configurations_reads i fields s =
      >>=-reads
        (λ s'. read_or system_error (stub.get_state_by_partial_composite_key i fields s') s')
        (collect stub) s
        (read_or-reads system_error (stub.get_state_by_partial_composite_key i fields s) s)
        (λ ks. collect_reads ks s)

  search_reads : (k : ConfigKey) (s : stub.State) → (search stub k s).1 ≡ s
  unfolding search
  search_reads k s = elim (Bool-cases (k.msp_id == "")) [
    | inl e ↦ rw e
    | inr e ↦ rw e (
        continue-reads (wrap get_key_error (get_index_and_fields k)) _ s
          λ i. get_configurations_reads i.0 i.1 s)
  ]

  -- The list of an organisation's configurations is read without a write.
  pub get_configs_reads : (k : ConfigKey) (s : stub.State) → (get_configs stub k s).1 ≡ s
  unfolding get_configs
  get_configs_reads k s = elim (Bool-cases (k.msp_id == "")) [
    | inl e ↦ rw e
    | inr e ↦ rw e (search_reads k s)
  ]

  -- Only the MSP ID of the key counts for the list.
  pub get_configs_msp :
      (k k' : ConfigKey) (s : stub.State)
      → k.msp_id ≡ k'.msp_id
      → get_configs stub k s ≡ get_configs stub k' s
  unfolding get_configs search get_index_and_fields get_indexed_fields
  get_configs_msp k k' s e = ap (λ (m : String). by_msp m) e
    where
      by_msp : String → Result (List ConfigKv) × stub.State
      by_msp m =
          get_configs stub
            (record {
              msp_id = m;
              peer_id = "";
              app_name = "";
              app_version = "";
              component_name = "";
              component_version = "";
            })
            s
