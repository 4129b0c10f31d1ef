-- ===== src/Examples/Refreshing.antt =====
-- The configuration snap's requests, and a client's event stream, at concrete inputs.
use fabric_snaps.Common.{
  String, ◌≡◌, ◌≢◌, refl, true, none, some, List, [], ◌∷◌, ◌++◌, ◌⊎◌, pos, contains, lookup,
}
use fabric_snaps.Errors.{ok}
use fabric_snaps.Config.Service
use fabric_snaps.Config.Key
use fabric_snaps.Config.Parse.{Bytes}
use fabric_snaps.Config.Service.{ConfigService, new_config_service}
use fabric_snaps.Client.Provider.{Origin, new_service_provider, new_params, new_event_client_ref}
use fabric_snaps.Client.Provider.Starts.{
  start_options, due_options, follows_snapshot, new_event_client_ref-start,
}
use fabric_snaps.Snap.Keys
use fabric_snaps.Snap.Settings
use fabric_snaps.Snap.Settings.{Viper, Library, CsrConfig, get_csr_config_options}
use fabric_snaps.Snap.Csr
use fabric_snaps.Snap.Csr.{Crypto, generate_csr, signature_registry}
use fabric_snaps.Snap.Csr.Requested.{IsComplete, generate_csr-Requested}
use fabric_snaps.Snap.Refreshing.{RefreshSource, ClientCalls, Query, send_refresh}
use fabric_snaps.Snap.Refreshing.Intervals.{
  IsReady, Queried, refresh_request, send_refresh-AsksRefresh,
}
use fabric_snaps.TxnService as Txn
use fabric_snaps.TxnService.{endorse, EndorseTxRequest}

abbrev origin : Origin String
origin = record {
  local_peer_url = some "peer0:7051";
  enable_block_events = true;
  has_current_client = true;
  event_snapshot = some "registrations";
  initial_height = some 1002;
}

new_event_client_ref-start_example :
    (start_options (new_event_client_ref (new_params (new_service_provider "ch" origin)) "ch").0
      ≡ due_options origin)
    × ((new_event_client_ref (new_params (new_service_provider "ch" origin)) "ch").1
        ≡ follows_snapshot origin)
new_event_client_ref-start_example = new_event_client_ref-start "ch" origin

-- Every value of this configuration is its name.
abbrev names : Viper
names = record { get_string = λ n. n; get_duration = λ n. pos 0; get_string_slice = λ n. [] }

abbrev library : Library
library = record {
  read_in_config = λ p. some names;
  read_config = λ b. some names;
  log_level = λ l. true;
  parse_ip = λ a. none;
  peer = record {
    get_ledger = λ c. true;
    new_tx_simulator = λ c. true;
    get_state = λ c k. some (some "{}");
    generate_hash = λ b. b;
  };
}

abbrev crypto : Crypto String String String
crypto = record {
  parse_bool = λ b. some true;
  get_bccsp = λ n. some n;
  key_gen = λ s o. some "key";
  private = λ k. true;
  public_key = λ k. some "public key";
  key_bytes = λ k. some k;
  marshal_subject = λ s. some s.common_name;
  new_signer = λ s k. some k;
  create_certificate_request = λ t s. some t.raw_subject;
}

abbrev csr_arguments : List String
csr_arguments = "ECDSA" ∷ "true" ∷ "ECDSAWithSHA256" ∷ "peer0" ∷ []

made : (generate_csr library crypto "" "ch" csr_arguments new_config_service).0 ≡ ok "peer0"
unfolding generate_csr Csr.request_csr Csr.get_csr_template Csr.get_csr_subject Csr.get_csr_config
    Csr.get_bccsp_and_key_pair Csr.get_signature_alg Keys.get_key_opts Keys.get_public_key_alg
    Settings.get_csr_config_options Settings.get_my_config Settings.get_viper Settings.viper_of
    Settings.get_peer_value Settings.new_peer_viper Service.get Service.get_cache
    Service.get_config_from_ledger contains lookup Key.config_key_to_string Key.validate_config_key
    Service.is_config_dirty
made = refl

generate_csr-Requested_example :
    (◌≢◌ {A = String} "ch" "")
    × ((◌≡◌ {A = String} "ECDSA" "RSA") ⊎ (◌≡◌ {A = String} "ECDSA" "ECDSA"))
    × (contains signature_registry "ECDSAWithSHA256" ≡ true)
    × ((c : CsrConfig) × IsComplete c
        × ((get_csr_config_options library "ch" "" new_config_service).0 ≡ ok c))
generate_csr-Requested_example =
    generate_csr-Requested library crypto "" "ch" "ECDSA" "true" "ECDSAWithSHA256" "peer0" []
      new_config_service "peer0" made

abbrev source : RefreshSource
source = record {
  local_peer = some "peer0:7051";
  msps = some ("Org1MSP" ∷ []);
  msp_name = λ b. b;
  marshal_names = λ ns. some "[Org1MSP]";
}

abbrev service : Txn.Service
service = record { has_client = λ c. true; answer = λ c cs. ok none; new_peer_filter = λ o. none }

abbrev no_calls : ClientCalls
no_calls = record { queries = []; calls = [] }

send_refresh-AsksRefresh_example :
    ((queries : List Query) × Queried service source "ch" queries
      × ((send_refresh service source "ch" no_calls).queries ≡ [] ++ queries))
    × ((((peer : String) (names : Bytes) → ¬ IsReady service source "ch" peer names)
          × ((send_refresh service source "ch" no_calls).calls ≡ []))
        ⊎ ((peer : String) × (names : Bytes) × IsReady service source "ch" peer names
            × ((send_refresh service source "ch" no_calls).calls
                ≡ [] ++ endorse "ch" (refresh_request names peer) ∷ [])))
send_refresh-AsksRefresh_example = send_refresh-AsksRefresh service source "ch" no_calls
