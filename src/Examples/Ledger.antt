-- ===== src/Examples/Ledger.antt =====
-- A ledger in memory and one organisation's message, for the examples.
use fabric_snaps.Common.{
  String, ◌==◌, eq_iff, ◌≡◌, refl, true, none, some, [], ◌∷◌, if◌then◌else◌, arith, Dict, lookup,
  insert, lookup-insert, string_eq,
}
use fabric_snaps.Config.Key.{ConfigKey}
use fabric_snaps.Config.Message.{ConfigMessage}
use fabric_snaps.Config.Parse.{Bytes, Json}
use fabric_snaps.Config.Stub.{Stub, IsLedger}

abbrev pub app_key : ConfigKey
app_key = record {
  msp_id = "Org1";
  peer_id = "";
  app_name = "app";
  app_version = "1";
  component_name = "";
  component_version = "";
}

abbrev pub component_key : ConfigKey
component_key = record app_key { component_name = "comp"; component_version = "2" }

abbrev pub message : ConfigMessage
message = record {
  msp_id = "Org1";
  peers = [];
  apps = record { app_name = "app"; version = "1"; config = "cfg"; components = [] } ∷ [];
}

abbrev pub json : Json
json = record {
  unmarshal_message = λ d. if d == "{}" then some message else none;
  marshal_component = λ c. some c.config;
  unmarshal_component = λ b. some (record { name = "comp"; config = b; version = "2"; tx_id = "" });
  marshal_components = λ cs. some "[]";
}

unfoldable pub remove : String → Dict String Bytes → Dict String Bytes
remove k [] = []
remove k ((j, v) ∷ s) = let rest = remove k s in if k == j then rest else (j, v) ∷ rest

pub lookup-remove :
    (k j : String) (s : Dict String Bytes)
    → lookup j (remove k s) ≡ (if k == j then none else lookup j s)
unfolding lookup remove
lookup-remove k j [] = ground (arith)
lookup-remove k j ((i, v) ∷ s) =
    ground (arith, lookup-remove k j s, eq_iff k i, eq_iff k j, eq_iff i j)

-- The key of the one index entry that this ledger has.
abbrev pub index_key : String
index_key = "#index"

abbrev pub stub : Stub
stub = record {
  State = Dict String Bytes;
  get_tx_id = λ s. "tx";
  get_channel_id = λ s. "mychannel";
  set_event = λ e s. (true, s);
  put_state = λ k v s. (true, insert k v s);
  del_state = λ k s. (true, remove k s);
  get_state = λ k s. some (lookup k s);
  create_composite_key = λ i attrs. some index_key;
  split_composite_key = λ k. some ("cfgmgmt-mspid", "Org1" ∷ "Org1!!app!1!comp!2" ∷ []);
  get_state_by_partial_composite_key = λ i attrs s. some (some index_key ∷ []);
}

abbrev pub ledger : IsLedger stub
ledger = record {
  committed = λ s j. lookup j s;
  committed-put = λ k j v s h. lookup-insert k j v s;
  committed-del = λ k j s h. lookup-remove k j s;
  committed-set_event = λ e j s. refl;
  is_composite = λ k. k == index_key;
  composite-is_composite = λ i attrs c h. ground (arith, eq_iff index_key c);
}

-- A ledger that has a component's configuration and its index entry.
abbrev pub saved : Dict String Bytes
saved = ("Org1!!app!1!comp!2", "c") ∷ (index_key, "\0") ∷ []
