-- ===== src/Config/Manager/Erased.antt =====
-- What the ledger holds after `Delete`, for each kind of key that it is given.
use fabric_snaps.Common.{
  String, ◌==◌, ◌≡◌, refl, sym, ◌∙◌, Bool, true, false, Option, none, List, [], ◌∷◌, if◌then◌else◌,
  arith, Bool-cases, inl, inr,
}
use fabric_snaps.Errors.{Result, ok, err, ErrorCode, system_error, invalid_config_key}
use fabric_snaps.Exec.{◌>>=◌, ◌>>◌, lift, call_or, each, >>=-ok, call_or-ok, continue-ok}
use fabric_snaps.Config.Key.{ConfigKey, string, config_key_to_string, validate_config_key}
use fabric_snaps.Config.Key.Validity.{config_key_to_string-ok}
use fabric_snaps.Config.Parse.{Bytes}
use fabric_snaps.Config.Stub.{Stub, IsLedger}
use fabric_snaps.Config.Manager.{
  ConfigKv, get_configs, delete_config, delete_configs, delete_version, delete_state, delete,
  all_versions, same_component,
}
use fabric_snaps.Config.Manager.Deleted.{get_configs_reads, get_configs_msp}

-- What a key text holds once the configurations that pass the test are deleted.
abbrev pub erased : (ConfigKey → Bool) → String → List ConfigKv → Option Bytes → Option Bytes
erased test j [] o = o
erased test j (v ∷ vs) o =
    erased test j vs (if test v.key then (if string v.key == j then none else o) else o)

abbrev pub every : ConfigKey → Bool
every k = true

-- The two ways of `Delete`, by the key's validity.
delete-valid :
    (stub : Stub) (key : ConfigKey) (s : stub.State)
    → validate_config_key key ≡ ok tt
    → delete stub key s
      ≡ (do
        delete_state stub key
        key_str ← lift (config_key_to_string key)
        call_or system_error (stub.del_state key_str))
          s
unfolding delete
delete-valid stub key s v = rw (v, delete)

delete-invalid :
    (stub : Stub) (key : ConfigKey) (s : stub.State) {e : ErrorCode}
    → validate_config_key key ≡ err e
    → delete stub key s ≡ delete_configs stub key s
unfolding delete
delete-invalid stub key s v = rw (v, delete)

module _ (stub : Stub) (L : IsLedger stub) where
  del_text-committed :
      (k : ConfigKey) (s : stub.State) (j : String)
      → ((do key_str ← lift (config_key_to_string k); call_or system_error (stub.del_state key_str))
          s).0
        ≡ ok tt
      → L.committed
          ((do
            key_str ← lift (config_key_to_string k)
            call_or system_error (stub.del_state key_str))
            s).1
          j
        ≡ (if string k == j then none else L.committed s j)
  del_text-committed k s j h =
      let (text, e, h₁, p) = continue-ok (config_key_to_string k) _ s h in
      let (done, q) = call_or-ok system_error (stub.del_state text) s h₁ in
      rw (p, q, L.committed-del text j s done, (config_key_to_string-ok k text e).1)

  delete_config-committed :
      (v : ConfigKv) (s : stub.State) (j : String)
      → (delete_config stub v s).0 ≡ ok tt
      → L.committed (delete_config stub v s).1 j
        ≡ (if string v.key == j then none else L.committed s j)
  unfolding delete_config
  delete_config-committed v s j h = del_text-committed v.key s j h

  delete_version-committed :
      (key : ConfigKey) (v : ConfigKv) (s : stub.State) (j : String)
      → (delete_version stub key v s).0 ≡ ok tt
      → L.committed (delete_version stub key v s).1 j ≡ (
          if same_component key v.key
          then (if string v.key == j then none else L.committed s j)
          else L.committed s j)
  unfolding delete_version
  delete_version-committed key v s j h =
      let (text, e, h₁, p) = continue-ok (config_key_to_string v.key) _ s h in
      elim (Bool-cases (same_component key v.key)) [
        | inl t ↦
            let (done, q) = call_or-ok system_error (stub.del_state text) s (rw t at h₁) in
            rw (p, t, q, L.committed-del text j s done, (config_key_to_string-ok v.key text e).1)
        | inr t ↦ rw (p, t)
      ]

  -- A loop whose body deletes the configurations that pass a test.
  each-erased :
      (body : ConfigKv → stub.State → Result (Unit {0}) × stub.State) (test : ConfigKey → Bool)
      → ((v : ConfigKv) (s : stub.State) (j : String)
          → (body v s).0 ≡ ok tt
          → L.committed (body v s).1 j ≡ (
              if test v.key
              then (if string v.key == j then none else L.committed s j)
              else L.committed s j))
      → (vs : List ConfigKv) (s : stub.State) (j : String) → (each body vs s).0 ≡ ok tt
      → L.committed (each body vs s).1 j ≡ erased test j vs (L.committed s j)
  unfolding each
  each-erased body test step [] s j h = refl
  each-erased body test step (v ∷ vs) s j h =
      let (_, e, h₁, p) = >>=-ok (body v) (λ _. each body vs) s h in
      rw (p, each-erased body test step vs _ j h₁, step v s j e)

  -- A key that names one configuration: after a `Delete` that succeeds its text holds nothing, and
  -- every other key of the ledger, that of its index entry too, holds what it held.
  pub delete_one :
      (key : ConfigKey) (s : stub.State)
      → validate_config_key key ≡ ok tt
      → all_versions key ≡ false
      → (delete stub key s).0 ≡ ok tt
      → (j : String)
      → L.committed (delete stub key s).1 j ≡ (if string key == j then none else L.committed s j)
  unfolding delete_state
  delete_one key s v a h j =
      let d = delete-valid stub key s v in
      rw d (rw a (del_text-committed key s j (rw a at (rw d at h))))

  -- A key that names a component and no version: after a `Delete` that succeeds the key's own text
  -- holds nothing, the same goes for every configuration of the organisation with that component and
  -- app name, and every other key holds what it held.
  pub delete-all_versions :
      (key : ConfigKey) (s : stub.State)
      → validate_config_key key ≡ ok tt
      → all_versions key ≡ true
      → (delete stub key s).0 ≡ ok tt
      → (vs : List ConfigKv) × ((get_configs stub key s).0 ≡ ok vs)
        × ((j : String)
            → L.committed (delete stub key s).1 j ≡ (
                if string key == j
                then none
                else erased (same_component key) j vs (L.committed s j)))
  unfolding delete_state
  delete-all_versions key s v a h =
      let d = delete-valid stub key s v in
      let (_, e, h₁, p) =
        >>=-ok (do configs ← get_configs stub key; each (delete_version stub key) configs) _ s
          (rw a at (rw d at h)) in
      let (vs, e₂, h₂, p₂) = >>=-ok (get_configs stub key) (each (delete_version stub key)) s e in
      (
        vs,
        e₂,
        λ j.
            rw (d, a)
              (rw (
                p,
                del_text-committed key _ j h₁,
                p₂,
                each-erased (delete_version stub key) (same_component key)
                    (delete_version-committed key) vs _ j h₂,
                get_configs_reads stub key s,
              )),
      )

  -- A key that is not valid but has an MSP ID: a `Delete` that succeeds deletes every configuration
  -- that the organisation's index lists, and every other key holds what it held.
  pub delete_organisation :
      (key : ConfigKey) (s : stub.State) {e : ErrorCode}
      → validate_config_key key ≡ err e
      → (delete stub key s).0 ≡ ok tt
      → (vs : List ConfigKv) × ((get_configs stub key s).0 ≡ ok vs)
        × ((j : String) → L.committed (delete stub key s).1 j ≡ erased every j vs (L.committed s j))
  unfolding delete_configs
  delete_organisation key s v h = elim (Bool-cases (key.msp_id == "")) [
    | inl m ↦ absurd (cc (rw m at (rw (delete-invalid stub key s v) at h)))
    | inr m ↦
        let (vs, e, h₁, p) =
          >>=-ok (get_configs stub key) (each (delete_config stub)) s
            (rw m at (rw (delete-invalid stub key s v) at h)) in
        (
          vs,
          e,
          λ j.
              rw (delete-invalid stub key s v, m)
                (rw (
                  p,
                  each-erased (delete_config stub) every delete_config-committed vs _ j h₁,
                  get_configs_reads stub key s,
                )),
        )
  ]

-- The key with an MSP ID and nothing else.
abbrev pub organisation_key : String → ConfigKey
organisation_key msp = record {
  msp_id = msp;
  peer_id = "";
  app_name = "";
  app_version = "";
  component_name = "";
  component_version = "";
}

no_version : (k : ConfigKey) → k.app_version ≡ "" → validate_config_key k ≡ err invalid_config_key
unfolding validate_config_key
no_version k e = rw e (ground arith)

-- A key with no app version, whatever peer, app and component it names, deletes as the key of its MSP
-- ID alone does: all of the organisation.
pub delete_without_version :
    (stub : Stub) (key : ConfigKey) (s : stub.State)
    → key.app_version ≡ ""
    → delete stub key s ≡ delete stub (organisation_key key.msp_id) s
unfolding delete_configs
delete_without_version stub key s e =
    let only = organisation_key key.msp_id in
    delete-invalid stub key s (no_version key e)
    ∙ ground (arith, get_configs_msp stub key only s refl)
    ∙ sym (delete-invalid stub only s (no_version only refl))
