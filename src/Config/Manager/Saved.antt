-- ===== src/Config/Manager/Saved.antt =====
-- What the ledger holds after `Save`.
use fabric_snaps.Common.{
  String, ◌==◌, eq_iff, ◌≡◌, refl, true, false, Option, some, List, [], ◌∷◌, ◌++◌, if◌then◌else◌,
  arith, Bool-cases, inl, inr,
}
use fabric_snaps.Errors.{ok, system_error}
use fabric_snaps.Exec.{pure, call_or, each, >>=-ok, call_or-ok, continue-ok}
use fabric_snaps.Config.Key.{ConfigKey, string, config_key_to_string, validate_config_key}
use fabric_snaps.Config.Key.Equality.{key_eq}
use fabric_snaps.Config.Key.Validity.{config_key_to_string-ok}
use fabric_snaps.Config.Parse.{Bytes, ConfigMap}
use fabric_snaps.Config.Stub.{Stub, IsLedger}
use fabric_snaps.Config.Manager.{
  get_fields_for_index, get_index_key, add_index, add_indexes, save_config, save_configs,
}

-- What a key text holds once the entries are written in this order over an old value.
abbrev pub written : String → ConfigMap → Option Bytes → Option Bytes
written j [] o = o
written j ((k, v) ∷ es) o = written j es (if string k == j then some v else o)

module _ (stub : Stub) (L : IsLedger stub) where
  get_index_key-is_composite :
      (i k : String) (fields : List String) (c : String)
      → get_index_key stub i k fields ≡ ok c
      → L.is_composite c ≡ true
  unfolding get_index_key
  get_index_key-is_composite i k fields c h =
      let attrs = fields ++ k ∷ [] in ground (arith, L.composite-is_composite i attrs c)

  -- An index entry is written under a composite key, so that plain keys keep their values.
  add_index-committed :
      (i : String) (k : ConfigKey) (s : stub.State) (j : String)
      → (add_index stub i k s).0 ≡ ok tt
      → L.is_composite j ≡ false
      → L.committed (add_index stub i k s).1 j ≡ L.committed s j
  unfolding add_index
  add_index-committed i k s j h plain = elim (Bool-cases (i == "")) [
    | inl e ↦ absurd (cc (rw e at h))
    | inr e ↦
        let g = rw e at h in
        let (_, _, h₁, p₁) = continue-ok (validate_config_key k) _ s g in
        let (fields, _, h₂, p₂) = continue-ok (get_fields_for_index i k) _ s h₁ in
        let (text, _, h₃, p₃) = continue-ok (config_key_to_string k) _ s h₂ in
        let (c, e₄, h₄, p₄) = continue-ok (get_index_key stub i text fields) _ s h₃ in
        ground (
          arith,
          L.committed-put c j "\0" s,
          get_index_key-is_composite i text fields c e₄,
          eq_iff c j,
        )
  ]

  add_indexes-committed :
      (k : ConfigKey) (s : stub.State) (j : String)
      → (add_indexes stub k s).0 ≡ ok tt
      → L.is_composite j ≡ false
      → L.committed (add_indexes stub k s).1 j ≡ L.committed s j
  unfolding add_indexes each
  add_indexes-committed k s j h plain =
      let (_, _, h₁, p₁) = continue-ok (validate_config_key k) _ s h in
      let (_, e₂, h₂, p₂) =
        >>=-ok (add_index stub "cfgmgmt-mspid" k) (λ _. pure {S = stub.State} tt) s h₁ in
      rw p₁ (rw p₂ (add_index-committed "cfgmgmt-mspid" k s j e₂ plain))

  save_config-committed :
      (k : ConfigKey) (v : Bytes) (s : stub.State) (j : String)
      → (save_config stub (k, v) s).0 ≡ ok tt
      → L.is_composite j ≡ false
      → L.committed (save_config stub (k, v) s).1 j
        ≡ (if string k == j then some v else L.committed s j)
  unfolding save_config
  save_config-committed k v s j h plain =
      let (text, e₁, h₁, p₁) = continue-ok (config_key_to_string k) _ s h in
      let (_, e₂, h₂, p₂) =
        >>=-ok (call_or system_error (stub.put_state text v)) (λ _. add_indexes stub k) s h₁ in
      let (done, q) = call_or-ok system_error (stub.put_state text v) s e₂ in
      let same = (config_key_to_string-ok k text e₁).1 in
      rw (p₁, p₂, add_indexes-committed k _ j h₂ plain, q, L.committed-put text j v s done, same)

  -- A loop that succeeds has written its entries in its order, and no other plain key.
  pub save_configs-committed :
      (es : ConfigMap) (s : stub.State) (j : String)
      → (save_configs stub es s).0 ≡ ok tt
      → L.is_composite j ≡ false
      → L.committed (save_configs stub es s).1 j ≡ written j es (L.committed s j)
  unfolding save_configs each
  save_configs-committed [] s j h plain = refl
  save_configs-committed ((k, v) ∷ es) s j h plain =
      let (_, e₁, h₁, p₁) = >>=-ok (save_config stub (k, v)) (λ _. save_configs stub es) s h in
      rw (p₁, save_configs-committed es _ j h₁ plain, save_config-committed k v s j e₁ plain)
