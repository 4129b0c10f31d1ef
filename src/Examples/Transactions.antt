-- ===== src/Examples/Transactions.antt =====
-- Transactions that go on to be committed, or do not.
use fabric_snaps.Common.{◌⊎◌, ◌+◌, ◌≡◌, ◌↔◌, refl, true, false, none, some, List, [], ◌∷◌, eq→≢}
use fabric_snaps.Handler.{RequestContext, Handler, get_endorsers_for_chaincode}
use fabric_snaps.Handler.WriteSet.{Namespace, NsRwSet, has_write_set}
use fabric_snaps.Handler.Ignored.{Any, Counts, DistinctNames, has_write_set_iff}
use fabric_snaps.Handler.CheckForCommit.{
  ChaincodeAction, Proto, CheckForCommitHandler, commit_on_write, commit, no_commit,
}
use fabric_snaps.Handler.CheckForCommit
use fabric_snaps.Handler.Forwarding.{CallsForCommit, handle_on_write}
use fabric_snaps.Handler.CommitTx.{
  Answers, CommitTxHandler, create_and_send_transaction, commit_registered,
}
use fabric_snaps.Handler.CommitTx
use fabric_snaps.Handler.Registration.{registrations, unregistrations, handle-registrations}

abbrev namespaces : List Namespace
namespaces =
    record { name = "cc1"; collections = [] }
    ∷ record { name = "cc2"; collections = "coll" ∷ [] }
    ∷ []

namespaces-DistinctNames : DistinctNames namespaces
namespaces-DistinctNames = ((eq→≢ "cc2" "cc1" refl, tt), (tt, tt))

abbrev pub rw_sets : List NsRwSet
rw_sets =
    record { name_space = "cc1"; writes = some ("k" ∷ []); coll_hashed_rw_sets = [] }
    ∷ record {
      name_space = "cc2";
      writes = none;
      coll_hashed_rw_sets =
          record { collection_name = "other"; hashed_writes = some ("h" ∷ []) } ∷ [];
    }
    ∷ []

has_write_set_iff_example :
    (has_write_set namespaces rw_sets ≡ true) ↔ Any (Counts namespaces) rw_sets
has_write_set_iff_example = has_write_set_iff namespaces rw_sets namespaces-DistinctNames

abbrev pub action : ChaincodeAction
action = record { events = ""; results = "results" }

abbrev pub proto : Proto
proto = record {
  unmarshal_payload = λ p. some "extension";
  unmarshal_action = λ e. some action;
  unmarshal_rw_set = λ r. some rw_sets;
}

abbrev context : RequestContext
context = record {
  chaincode_id = "cc2";
  targets = [];
  error = none;
  response = record {
    transaction_id = "tx";
    responses = some "payload" ∷ [];
    tx_validation_code = 254;
  };
}

abbrev next : Handler
next r h = (r, get_endorsers_for_chaincode [] ∷ h)

abbrev handler : CheckForCommitHandler
handler = record {
  rw_set_ignore_name_space = namespaces;
  callback = none;
  commit_type = commit_on_write;
  should_commit = false;
}

handle_on_write_example :
    (CallsForCommit namespaces action rw_sets
      × (CheckForCommit.handle proto next handler context []
          ≡ (record handler { should_commit = true }, next context [])))
    ⊎ (¬ (CallsForCommit namespaces action rw_sets)
        × (CheckForCommit.handle proto next handler context [] ≡ (handler, (context, []))))
handle_on_write_example =
    handle_on_write proto next namespaces context [] action rw_sets
      (record {
        payload = "payload";
        extension = "extension";
        others = [];
        responses = refl;
        extension_of = refl;
        action_of = refl;
        rw_sets_of = refl;
      })
      namespaces-DistinctNames handler refl

abbrev pub answers : Answers
answers = record {
  registers = λ h. true;
  creates = λ h. true;
  sends = λ h. true;
  status = λ h. some 0;
}

abbrev committer : CommitTxHandler
committer = record { next = none; register_tx_event = true }

handle-registrations_example :
    (registrations (CommitTx.handle answers committer context []).1 ≡ 1 + registrations [])
    × (unregistrations (CommitTx.handle answers committer context []).1 ≡ 1 + unregistrations [])
handle-registrations_example =
    handle-registrations answers committer (λ r h. (refl, refl)) context [] refl
