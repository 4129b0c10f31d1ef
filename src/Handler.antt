-- ===== src/Handler.antt =====
-- The handlers of transactionsnap/pkg/client/handler, which the SDK's channel client runs in a chain.
-- What they ask of other code (the SDK, Fabric's event service and orderer) is answered by functions of
-- the history of the requests so far.
pub mod WriteSet
pub mod Ignored
pub mod CheckForCommit
pub mod CommitTx
pub mod PeerFilter
pub mod Forwarding
pub mod Registration
pub mod Attempts
use fabric_snaps.Common.{ℕ, String, Option, none, some, List}

-- Why a handler stops: the errors of this package, an error of a step that is not modelled, and the
-- panic of Go on an index out of range.
pub data HandlerError : Type 0 where
  endorsed_callback_error no_proposal_response_payload unmarshal_payload_error
        unmarshal_action_error unmarshal_rw_set_error :
      HandlerError
  register_tx_status_error create_transaction_error send_transaction_error did_not_commit
        no_block_event :
      HandlerError
  get_endorsers_error index_out_of_range : HandlerError

-- `pb.TxValidationCode`; 0 is VALID.
abbrev pub valid : ℕ
valid = 0

-- The parts of `invoke.Response` that the handlers use; a proposal response is its payload, if it has one.
pub record Response : Type 0 where
  pub transaction_id : String
  pub responses : List (Option String)
  pub tx_validation_code : ℕ

-- The parts of `invoke.RequestContext` that the handlers use.
pub record RequestContext : Type 0 where
  pub chaincode_id : String
  pub targets : List String
  pub response : Response
  pub error : Option HandlerError

-- What the handlers ask of other code, and the sleep between two attempts.
pub data Request : Type 0 where
  register_tx_status_event unregister : String → Request
  create_transaction send_transaction : Response → Request
  wait_for_status : String → Request
  get_endorsers_for_chaincode : List String → Request
  sleep : Request

-- The requests so far, the last one first.
abbrev pub History : Type 0
History = List Request

-- `invoke.Handler`
abbrev pub Handler : Type 0
Handler = RequestContext → History → RequestContext × History

-- `requestContext.Error = err; return`
abbrev pub stop : HandlerError → Handler
stop e r h = (record r { error = some e }, h)

-- `if next != nil { next.Handle(...) }`
abbrev pub delegate : Option Handler → Handler
delegate none r h = (r, h)
delegate (some next) r h = next r h
