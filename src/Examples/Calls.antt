-- ===== src/Examples/Calls.antt =====
-- A transaction that the transaction snap is asked to commit.
use fabric_snaps.Common.{◌≡◌, ◌⊎◌, string_eq, true, none, some, [], ◌∷◌, ◌++◌}
use fabric_snaps.Errors.{ok}
use fabric_snaps.Handler.CheckForCommit.{commit_on_write}
use fabric_snaps.TxnService.{SnapTransactionRequest, Call, Service}
use fabric_snaps.TxnSnap.{SnapLibrary, invoke}
use fabric_snaps.TxnSnap.Due.{Due, invoke-Due}

abbrev request : SnapTransactionRequest
request = record {
  channel_id = "mychannel";
  chaincode_id = "mycc";
  transient_map = ("endorsements", some "endorsed") ∷ [];
  endorser_args = "put" ∷ "a" ∷ [];
  cc_ids_for_endorsement = [];
  register_tx_event = true;
  peer_filter = none;
  commit_type = commit_on_write;
  rw_set_ignore_name_space = [];
  transaction_id = "";
  nonce = "";
}

abbrev library : SnapLibrary
library = record {
  unmarshal_request = λ b. some request;
  unmarshal_endorsements = λ b. some b;
  marshal_response = λ r. some "response";
  unmarshal_proposal = λ b. some b;
  marshal_proposal = λ p. some p;
  get_state_db = λ channel. true;
  open_db = λ channel. true;
  get_db_state = λ channel name_space key. some none;
}

abbrev service : Service
service = record {
  has_client = λ channel. true;
  answer = λ c calls. ok (some "response");
  new_peer_filter = λ opts. none;
}

invoke-Due_example :
    ((invoke library service "commitOnlyTransaction"
        ("commitOnlyTransaction" ∷ "request" ∷ [])
        []).1
      ≡ [])
    ⊎ ((c : Call) × (((invoke library service "commitOnlyTransaction"
              ("commitOnlyTransaction" ∷ "request" ∷ [])
              []).1
            ≡ [] ++ c ∷ [])
          × Due library service "commitOnlyTransaction"
              ("commitOnlyTransaction" ∷ "request" ∷ [])
              c))
invoke-Due_example =
    invoke-Due library service "commitOnlyTransaction" ("commitOnlyTransaction" ∷ "request" ∷ []) []
