-- ===== src/Examples/Wrapped.antt =====
-- The wrapper with a client that is refused first and whose first operation fails, and a renewed client.
use Prim.Native.String.{◌++◌ as concat}
use fabric_snaps.Common.{
  ◌≡◌, ◌⊎◌, ℕ, suc, String, ◌==◌, refl, inr, true, not, Option, none, some, [], ◌∷◌, eqb,
  if◌then◌else◌,
}
use fabric_snaps.Errors.{ok}
use fabric_snaps.Client.Wrapper.{AnyError, plain, Clients, WrapperState, attempt, invoke}
use fabric_snaps.Client.Wrapper.Traces.{Ran, invoke-Ran}
use fabric_snaps.Client.Cached.{TxnConfig, CachedClient, Sdk, CacheState, check_client}
use fabric_snaps.Client.Cached.Renewed.{IsStale, Renewed, check_client-Outcome}

-- The world counts the sleeps and the clearings of the cache.
abbrev clients : Clients ℕ String String
clients = record {
  get_ref = λ w. (inr "channel", w);
  get_value = λ r w. (inr "client", w);
  next_error_id = λ w. "id";
  acquire = λ c w. (not (eqb w 0), w);
  release = λ c w. w;
  delete = λ w. suc w;
  sleep = λ w. suc w;
  match_string = λ v msg. (v == "(?i).*Key not found.*");
}

abbrev op : String → ℕ → (String × Option AnyError) × ℕ
op c w = (if eqb w 1 then ("", some (plain "Key not found")) else ("done", none), w)

abbrev fresh : WrapperState ℕ String
fresh = record { world = 0; events = [] }

invoke-Ran_example :
    Ran clients "" op fresh (attempt clients "" op 3 fresh).0 (invoke clients "" op 3 fresh).1
invoke-Ran_example = invoke-Ran clients "" op 3 fresh

abbrev txn_config : TxnConfig
txn_config = record {
  config_bytes = some "new";
  organizations = some (("org1", "Org1") ∷ []);
  get_local_peer = ok "Org1";
  crypto_provider = some "SW";
}

abbrev sdk : Sdk
sdk = record {
  config_provider = λ channel. some (some txn_config);
  generate_hash = λ bytes. concat "hash of " bytes;
  transfer = λ client. some "snapshot";
  new_sdk = λ channel cfg provider snapshot. some "sdk";
  channel_context = λ id channel org. true;
  new_channel_client = λ id channel. true;
}

abbrev old_client : CachedClient
old_client = record {
  channel_id = "mychannel";
  sdk = "old";
  config_hash = "hash of old";
  snapshot = none;
}

abbrev cache_state : CacheState
cache_state = record { client = some old_client; closing = []; closed_snapshots = [] }

check_client-Outcome_example :
    ((client : CachedClient) × (◌≡◌ {A = Option CachedClient} (some old_client) (some client))
      × (client.config_hash ≡ "hash of new")
      × (check_client sdk "mychannel" (some old_client) cache_state ≡ (ok client, cache_state)))
    ⊎ (IsStale sdk "new" (some old_client)
        × Renewed sdk "mychannel" txn_config "new"
            (some old_client)
            cache_state
            (check_client sdk "mychannel" (some old_client) cache_state))
check_client-Outcome_example =
    check_client-Outcome sdk "mychannel" txn_config "new" (some old_client) cache_state refl refl
