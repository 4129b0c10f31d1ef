-- ===== src/Config/Key/Validity.antt =====
-- Which keys `ValidateConfigKey` accepts.
use fabric_snaps.Common.{String, eq_iff, ◌≡◌, refl, ◌≢◌, arith, ◌↔◌}
use fabric_snaps.Errors.{ErrorCode, Result, ok, err, invalid_config_key, ◌>>=◌}
use fabric_snaps.Config.Key.{ConfigKey, validate_config_key, config_key_to_string, string}

-- What a key needs to name one configuration.
pub record IsValid (k : ConfigKey) : Type 0 where
  pub has_msp : k.msp_id ≢ ""
  pub has_app : k.app_name ≢ ""
  pub has_version : k.app_version ≢ ""

-- A key passes validation exactly when its MSP ID, app name and app version are not empty; the peer ID
-- and the component may be empty.
pub validate_config_key_iff : (k : ConfigKey) → (validate_config_key k ≡ ok tt) ↔ IsValid k
unfolding validate_config_key
validate_config_key_iff k = (
  ground (arith, eq_iff k.msp_id "", eq_iff k.app_name "", eq_iff k.app_version ""),
  ground (arith, eq_iff k.msp_id "", eq_iff k.app_name "", eq_iff k.app_version ""),
)

-- A key that is refused is refused with `InvalidConfigKey`.
pub validate_config_key-err :
    (k : ConfigKey) (e : ErrorCode) → validate_config_key k ≡ err e → e ≡ invalid_config_key
unfolding validate_config_key
validate_config_key-err k e h = ground arith

pub validate_of_IsValid : (k : ConfigKey) → IsValid k → validate_config_key k ≡ ok tt
validate_of_IsValid k h = (validate_config_key_iff k).1 h

-- The text of a key: the key is checked first.
pub config_key_to_string_of_IsValid :
    (k : ConfigKey) → IsValid k → config_key_to_string k ≡ ok (string k)
unfolding config_key_to_string string
config_key_to_string_of_IsValid k h = rw (validate_of_IsValid k h)

pub config_key_to_string-ok :
    (k : ConfigKey) (s : String) → config_key_to_string k ≡ ok s → IsValid k × (s ≡ string k)
unfolding config_key_to_string string
config_key_to_string-ok k s h = go (validate_config_key k) refl h
  where
    go :
        (r : Result (Unit {0}))
        → validate_config_key k ≡ r
        → (r >>= λ _. ok (string k)) ≡ ok s
        → IsValid k × (s ≡ string k)
    go (ok _) e p = ((validate_config_key_iff k).0 e, cc)
    go (err _) e p = cc
