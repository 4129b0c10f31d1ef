-- ===== src/Config/Key/Equality.antt =====
-- Keys compare by their six parts, as Go compares the structs that index its maps.
use fabric_snaps.Common.{◌==◌, eq_iff, ◌≡◌, ◌↔◌, Bool, true, ◌&&◌, arith, Eq}
use fabric_snaps.Config.Key.{ConfigKey}

unfoldable pub key_beq : ConfigKey → ConfigKey → Bool
key_beq a b =
    (a.msp_id == b.msp_id)
    && (a.peer_id == b.peer_id)
    && (a.app_name == b.app_name)
    && (a.app_version == b.app_version)
    && (a.component_name == b.component_name)
    && (a.component_version == b.component_version)

pub key_beq_iff : (a b : ConfigKey) → (key_beq a b ≡ true) ↔ (a ≡ b)
unfolding key_beq
key_beq_iff a b = (
  ground (
    arith,
    eq_iff a.msp_id b.msp_id,
    eq_iff a.peer_id b.peer_id,
    eq_iff a.app_name b.app_name,
    eq_iff a.app_version b.app_version,
    eq_iff a.component_name b.component_name,
    eq_iff a.component_version b.component_version,
  ),
  ground (
    arith,
    eq_iff a.msp_id b.msp_id,
    eq_iff a.peer_id b.peer_id,
    eq_iff a.app_name b.app_name,
    eq_iff a.app_version b.app_version,
    eq_iff a.component_name b.component_name,
    eq_iff a.component_version b.component_version,
  ),
)

instance abbrev pub key_eq : Eq ConfigKey
key_eq = record { beq = key_beq; beq_iff = key_beq_iff }
