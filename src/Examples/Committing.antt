-- ===== src/Examples/Committing.antt =====
-- A client that commits: an SDK that runs a chain once.
use fabric_snaps.Common.{◌≡◌, refl, true, Option, none, some, [], ◌∷◌}
use fabric_snaps.Handler.{Response, RequestContext, HandlerError, History}
use fabric_snaps.Handler.CheckForCommit
use fabric_snaps.Handler.CheckForCommit.{commit_on_write, no_commit, CommitType}
use fabric_snaps.Handler.CommitTx
use fabric_snaps.Handler.WriteSet
use fabric_snaps.Handler.PeerFilter
use fabric_snaps.Handler.Registration.{sends}
use fabric_snaps.TxnService.{EndorseTxRequest}
use fabric_snaps.Client.{validate}
use fabric_snaps.Client.Channel.{
  Chain, ChannelRequest, RequestOptions, ChannelClient, Runs, gives_up, returns, again, RunsChain,
}
use fabric_snaps.Client.Transactions.{
  passed, Environment, responded, endorse_transaction, commit_transaction, commit_valid,
  commit_only_transaction,
}
use fabric_snaps.Client.Transactions.Advances.{Endorses}
use fabric_snaps.Client.Transactions.Committed.{Told, commit_transaction-Told}
use fabric_snaps.Client.Transactions.Unsent.{endorse_transaction-sends, commit_transaction-sends}
use fabric_snaps.Examples.Transactions.{proto, answers}
use fabric_snaps.Examples.Clients.{context}

abbrev empty_response : Response
empty_response = record { transaction_id = ""; responses = []; tx_validation_code = 0 }

abbrev fresh : ChannelRequest → RequestOptions → RequestContext
fresh request options = record {
  chaincode_id = request.chaincode_id;
  targets = options.targets;
  response = empty_response;
  error = none;
}

abbrev answer_of : Option HandlerError → Response → Option Response
answer_of none response = some response
answer_of (some e) response = none

abbrev once : ChannelClient
once = record {
  invoke_handler = λ S chain request options s.
      let (r, s') = chain (fresh request options) s in (answer_of r.error r.response, s');
}

once-Runs :
    {S : Type 0} (chain : Chain S) (request : ChannelRequest) (options : RequestOptions) (s : S)
    (o : Option HandlerError)
    → (chain (fresh request options) s).0.error ≡ o
    → Runs chain request options
        (
          answer_of o (chain (fresh request options) s).0.response,
          (chain (fresh request options) s).1,
        )
        s
once-Runs chain request options s none e =
    returns (fresh request options)
      (record { chaincode_id = refl; targets = refl; no_error = refl }) e refl
once-Runs chain request options s (some x) e =
    again (fresh request options) (record { chaincode_id = refl; targets = refl; no_error = refl })
      (gives_up refl)

once-RunsChain : RunsChain once
once-RunsChain S chain request options s = once-Runs chain request options s _ refl

abbrev endorsed_response : Response
endorsed_response = record {
  transaction_id = "tx";
  responses = some "payload" ∷ [];
  tx_validation_code = 254;
}

abbrev env : Environment
env = record {
  channel_client = once;
  context = context;
  endorsement = λ n r h. passed (record r { response = endorsed_response }) h;
  selection = λ h. some ("peer0" ∷ []);
  proto = proto;
  answers = answers;
  max_attempts = 3;
  peers_of_channel = none;
  sdk_codes = [];
  cc_codes = none;
}

env-Endorses : Endorses env
env-Endorses n r h = (refl, refl)

abbrev request_of : CommitType → EndorseTxRequest
request_of commit_type = record {
  chaincode_id = "cc2";
  args = "put" ∷ "k" ∷ [];
  transient_data = [];
  targets = [];
  chaincode_ids = [];
  peer_filter = none;
  commit_type = commit_type;
  rw_set_ignore_name_space = [];
  transaction_id = "";
  nonce = "";
}

abbrev committed_response : Response
committed_response = record endorsed_response { tx_validation_code = 0 }

abbrev final_history : History
final_history = (commit_transaction env (request_of commit_on_write) true none []).1

committed :
    commit_transaction env (request_of commit_on_write) true none []
    ≡ (responded committed_response true, final_history)
unfolding commit_transaction commit_valid validate PeerFilter.handle PeerFilter.select
    CheckForCommit.handle CheckForCommit.commit_if_has_write_set CheckForCommit.read_responses
    CommitTx.handle CommitTx.commit_registered CommitTx.create_and_send_transaction
    WriteSet.has_write_set WriteSet.ignore_cc
committed = refl

commit_transaction-Told_example : Told env true [] committed_response true final_history
commit_transaction-Told_example =
    commit_transaction-Told env once-RunsChain true none (request_of commit_on_write) refl
      env-Endorses [] final_history committed_response true committed

endorse_transaction-sends_example :
    sends (endorse_transaction env (request_of no_commit) []).1 ≡ sends []
endorse_transaction-sends_example =
    endorse_transaction-sends env once-RunsChain env-Endorses (request_of no_commit) []

commit_transaction-sends_example :
    (sends (commit_transaction env (request_of no_commit) true none []).1 ≡ sends [])
    × (sends (commit_only_transaction env (request_of no_commit) endorsed_response true none []).1
        ≡ sends [])
commit_transaction-sends_example =
    commit_transaction-sends env once-RunsChain env-Endorses (request_of no_commit) true none refl
      endorsed_response []
