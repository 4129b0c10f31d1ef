-- ===== src/Config/Stub.antt =====
-- What the configuration manager uses of `shim.ChaincodeStubInterface`, which Fabric implements: an
-- operation that fails gives `none` or `false`. `IsLedger` states the documented behaviour of a
-- transaction's writes, for the theorems that need it.
use fabric_snaps.Common.{String, ◌==◌, ◌≡◌, Bool, true, Option, none, some, List, if◌then◌else◌}
use fabric_snaps.Config.Parse.{Bytes}

pub record Stub : Type 1 where
  pub State : Type 0
  pub get_tx_id : State → String
  pub get_channel_id : State → String
  pub set_event : String → State → Bool × State
  pub put_state : String → Bytes → State → Bool × State
  pub del_state : String → State → Bool × State
  -- The bytes of a key, or nil.
  pub get_state : String → State → Option (Option Bytes)
  pub create_composite_key : String → List String → Option String
  pub split_composite_key : String → Option (String × List String)
  -- The keys that the iterator hands out, `none` where `Next` fails.
  pub get_state_by_partial_composite_key :
      String → List String → State → Option (List (Option String))

-- The state after the transaction commits, by key, and how a write changes it. A composite key begins
-- with U+0000, which `is_composite` stands for.
pub record IsLedger (stub : Stub) : Type 0 where
  pub committed : stub.State → String → Option Bytes
  pub committed-put :
      (k j : String) (v : Bytes) (s : stub.State)
      → (stub.put_state k v s).0 ≡ true
      → committed (stub.put_state k v s).1 j ≡ (if k == j then some v else committed s j)
  pub committed-del :
      (k j : String) (s : stub.State)
      → (stub.del_state k s).0 ≡ true
      → committed (stub.del_state k s).1 j ≡ (if k == j then none else committed s j)
  pub committed-set_event :
      (e j : String) (s : stub.State) → committed (stub.set_event e s).1 j ≡ committed s j
  pub is_composite : String → Bool
  pub composite-is_composite :
      (i : String) (attrs : List String) (c : String)
      → stub.create_composite_key i attrs ≡ some c
      → is_composite c ≡ true
