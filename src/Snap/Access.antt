-- ===== src/Snap/Access.antt =====
-- What the chaincode does only with the access that it checks.
use Prim.Native.String.{◌++◌ as concat}
use fabric_snaps.Common.{
  String, ◌==◌, ◌≡◌, refl, true, List, [], ◌∷◌, arith, All, inl, inr, Bool-cases,
}
use fabric_snaps.Errors.{
  ErrorCode, Result-cases, ok, err, >>=-eq-ok, missing_required_parameter_error,
}
use fabric_snaps.Config.Key.{ConfigKey}
use fabric_snaps.Config.Parse.{Bytes, Json, ConfigMap, parse_config_message}
use fabric_snaps.Config.Stub.{Stub}
use fabric_snaps.Snap.{
  Caller, config_data_write_acl_prefix, config_data_read_acl_prefix, check_acl_for_key,
  check_acl_for_keys, get_key, save, get, delete,
}

-- The access provider grants the signer of the call this resource of an organisation.
abbrev pub Granted : Caller → String → String → ConfigKey → Type 0
Granted caller channel_id prefix key = caller.check_acl (concat prefix key.msp_id) channel_id ≡ true

check_acl_for_key-Granted :
    (caller : Caller) (channel_id prefix : String) (key : ConfigKey)
    → check_acl_for_key caller channel_id prefix key ≡ ok tt
    → Granted caller channel_id prefix key
unfolding check_acl_for_key
check_acl_for_key-Granted caller channel_id prefix key h = ground (arith)

check_acl_for_keys-Granted :
    (caller : Caller) (channel_id : String) (m : ConfigMap)
    → check_acl_for_keys caller channel_id m ≡ ok tt
    → All (λ e. Granted caller channel_id config_data_write_acl_prefix e.0) m
unfolding check_acl_for_keys
check_acl_for_keys-Granted caller channel_id [] h = tt
check_acl_for_keys-Granted caller channel_id ((key, value) ∷ m) h =
    let (u, e, h₁) =
      >>=-eq-ok (check_acl_for_key caller channel_id config_data_write_acl_prefix key) _ h in
    (
      check_acl_for_key-Granted caller channel_id config_data_write_acl_prefix key e,
      check_acl_for_keys-Granted caller channel_id m h₁,
    )

module _ (stub : Stub) (caller : Caller) (json : Json) (s : stub.State) where
  -- If the message parses and the write access of some organisation of its keys is not granted, in
  -- whatever order Go ranges over them, then `save` answers with an error and leaves the ledger as it was.
  pub save_refused :
      (check_order range_order : ConfigMap → ConfigMap) (config_msg : Bytes) (args : List Bytes)
      (m : ConfigMap)
      → parse_config_message json config_msg (stub.get_tx_id s) ≡ ok m
      → ¬ (
          All
            (λ e. Granted caller (stub.get_channel_id s) config_data_write_acl_prefix e.0)
            (check_order m))
      → (e : ErrorCode) × (save stub caller json check_order range_order (config_msg ∷ args) s
          ≡ (err e, s))
  unfolding save
  save_refused check_order range_order config_msg args m p n =
      elim (Bool-cases (config_msg == "")) [
        | inl q ↦ (missing_required_parameter_error, rw q refl)
        | inr q ↦
            elim (Result-cases
              (check_acl_for_keys caller (stub.get_channel_id s) (check_order m))) [
                | inl (u, e) ↦ absurd (
                    n (check_acl_for_keys-Granted caller (stub.get_channel_id s) (check_order m) e))
                | inr (c, e) ↦ (c, rw (q, save, p, e) refl)
              ]
      ]

  -- If the key decodes and the write access of its organisation is not granted, `delete` answers with an
  -- error and leaves the ledger as it was.
  pub delete_refused :
      (args : List Bytes) (key : ConfigKey)
      → get_key caller args ≡ ok key
      → ¬ (Granted caller (stub.get_channel_id s) config_data_write_acl_prefix key)
      → (e : ErrorCode) × (delete stub caller json args s ≡ (err e, s))
  unfolding delete
  delete_refused args key p n =
      elim (Result-cases
        (check_acl_for_key caller (stub.get_channel_id s) config_data_write_acl_prefix key)) [
          | inl (u, e) ↦ absurd (
              n (
                check_acl_for_key-Granted caller (stub.get_channel_id s)
                  config_data_write_acl_prefix key e))
          | inr (c, e) ↦ (c, rw (delete, p, e) refl)
        ]

  -- If the key decodes and the read access of its organisation is not granted, `get` answers with an
  -- error and leaves the ledger as it was.
  pub get_refused :
      (args : List Bytes) (key : ConfigKey)
      → get_key caller args ≡ ok key
      → ¬ (Granted caller (stub.get_channel_id s) config_data_read_acl_prefix key)
      → (e : ErrorCode) × (get stub caller json args s ≡ (err e, s))
  unfolding get
  get_refused args key p n =
      elim (Result-cases
        (check_acl_for_key caller (stub.get_channel_id s) config_data_read_acl_prefix key)) [
          | inl (u, e) ↦ absurd (
              n (
                check_acl_for_key-Granted caller (stub.get_channel_id s) config_data_read_acl_prefix
                  key e))
          | inr (c, e) ↦ (c, rw (get, p, e) refl)
        ]
