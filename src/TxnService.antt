-- ===== src/TxnService.antt =====
-- The transaction service: transactionsnap/pkg/txsnapservice/txsnapservice.go, over the calls that it makes
-- of the clients of transactionsnap/pkg/client. A client answers a call by the calls before it. The peer
-- filters of transactionsnap/pkg/client/peerfilter are a parameter.
use fabric_snaps.Common.{
  String, ◌==◌, Bool, true, false, Option, none, some, List, [], ◌∷◌, ◌++◌, if◌then◌else◌, Dict,
}
use fabric_snaps.Errors.{
  Result, ok, err, ◌>>=◌ as bind, or_err, system_error, missing_required_parameter_error,
  tx_client_init_error,
}
use fabric_snaps.Exec.{Exec, ◌>>=◌, lift}
use fabric_snaps.Config.Parse.{Bytes}
use fabric_snaps.Handler.CheckForCommit.{CommitType}
use fabric_snaps.Handler.WriteSet.{Namespace}

-- `api.PeerFilterOpts`
pub record PeerFilterOpts : Type 0 where
  pub filter_type : String
  pub args : List String

-- `api.SnapTransactionRequest`. Bytes of the transient map may be nil, and a nil map is an empty one.
pub record SnapTransactionRequest : Type 0 where
  pub channel_id : String
  pub chaincode_id : String
  pub transient_map : Dict String (Option Bytes)
  pub endorser_args : List Bytes
  pub cc_ids_for_endorsement : List String
  pub register_tx_event : Bool
  pub peer_filter : Option PeerFilterOpts
  pub commit_type : CommitType
  pub rw_set_ignore_name_space : List Namespace
  pub transaction_id : String
  pub nonce : Bytes

-- `api.EndorseTxRequest`; a peer is its URL.
pub record EndorseTxRequest : Type 0 where
  pub chaincode_id : String
  pub args : List String
  pub transient_data : Dict String (Option Bytes)
  pub targets : List String
  pub chaincode_ids : List String
  pub peer_filter : Option (String → Bool)
  pub commit_type : CommitType
  pub rw_set_ignore_name_space : List Namespace
  pub transaction_id : String
  pub nonce : Bytes

-- The calls of the client of a channel that the service makes. An endorsement response is text.
pub data Call : Type 0 where
  endorse : String → EndorseTxRequest → Call
  commit : String → EndorseTxRequest → Bool → Call
  commit_only : String → EndorseTxRequest → Bytes → Bool → Call
  verify : String → Bytes → Call

pub record Service : Type 0 where
  -- `GetInstance` finds a client of the channel.
  pub has_client : String → Bool
  -- The response, if the call has one, after the calls before it.
  pub answer : Call → List Call → Result (Option Bytes)
  pub new_peer_filter : PeerFilterOpts → Option (String → Bool)

abbrev pub require : Bool → Result (Unit {0})
require true = err missing_required_parameter_error
require false = ok tt

module _ (service : Service) where
  -- A call of a client.
  abbrev pub perform : Call → Exec (List Call) (Option Bytes)
  perform c calls = (service.answer c calls, calls ++ c ∷ [])

  -- The peer filter of `createEndorseTxRequest`
  abbrev pub filter_of : Option PeerFilterOpts → Result (Option (String → Bool))
  filter_of none = ok none
  filter_of (some opts) =
      bind (or_err (service.new_peer_filter opts) system_error) (λ f. ok (some f))

  -- `createEndorseTxRequest`
  unfoldable pub create_endorse_tx_request :
      Option SnapTransactionRequest → List String → Result EndorseTxRequest
  create_endorse_tx_request none peers = err missing_required_parameter_error
  create_endorse_tx_request (some request) peers = bind (require (request.chaincode_id == "")) (λ _.
      bind (require (request.channel_id == "")) (λ _.
        bind (filter_of request.peer_filter) (λ peer_filter. ok (record {
          chaincode_id = request.chaincode_id;
          args = request.endorser_args;
          transient_data = request.transient_map;
          targets = peers;
          chaincode_ids = request.cc_ids_for_endorsement;
          peer_filter = peer_filter;
          commit_type = request.commit_type;
          rw_set_ignore_name_space = request.rw_set_ignore_name_space;
          transaction_id = request.transaction_id;
          nonce = request.nonce;
        }))))

  -- `newTxService`, for the service of a channel
  unfoldable pub new_tx_service : String → Result (Unit {0})
  new_tx_service channel_id =
      if service.has_client channel_id then ok tt else err tx_client_init_error

  -- `EndorseTransaction`
  unfoldable pub endorse_transaction :
      String → SnapTransactionRequest → List String → Exec (List Call) (Option Bytes)
  endorse_transaction channel_id request peers = do
    tx ← lift (create_endorse_tx_request (some request) peers)
    perform (endorse channel_id tx)

  -- `CommitTransaction`
  unfoldable pub commit_transaction :
      String → SnapTransactionRequest → List String → Exec (List Call) (Option Bytes)
  commit_transaction channel_id request peers = do
    tx ← lift (create_endorse_tx_request (some request) peers)
    perform (commit channel_id tx request.register_tx_event)

  -- `CommitOnlyTransaction`
  unfoldable pub commit_only_transaction :
      String → SnapTransactionRequest → Bytes → List String → Exec (List Call) (Option Bytes)
  commit_only_transaction channel_id request response peers = do
    tx ← lift (create_endorse_tx_request (some request) peers)
    perform (commit_only channel_id tx response request.register_tx_event)

  -- `VerifyTxnProposalSignature`, on a message that is not nil and its encoding
  unfoldable pub verify_txn_proposal_signature :
      String → Option Bytes → Exec (List Call) (Option Bytes)
  verify_txn_proposal_signature channel_id encoded = do
    proposal_bytes ← lift (or_err encoded system_error)
    perform (verify channel_id proposal_bytes)
