-- ===== src/TxnSnap.antt =====
-- The transaction snap's chaincode: transactionsnap/cmd/transactionsnap.go, with GetState of
-- util/statemgr. A response is a payload, which may be nil, or an error's code. encoding/json, protobuf
-- and the peer's state database are parameters, and so is a panic of the code they stand for.
pub mod Requests
pub mod Due
pub mod Commits
use fabric_snaps.Common.{
  String, ◌==◌, Bool, true, false, not, Option, none, some, List, [], ◌∷◌, if◌then◌else◌, lookup,
  string_eq,
}
use fabric_snaps.Errors.{
  ErrorCode, Result, ok, err, ◌>>=◌ as bind, or_err, system_error, general_error, unmarshal_error,
  missing_required_parameter_error, invalid_function_error, get_tx_service_error,
}
use fabric_snaps.Exec.{Exec, ◌>>=◌, ◌>>◌, lift}
use fabric_snaps.Config.Parse.{Bytes}
use fabric_snaps.TxnService
use fabric_snaps.TxnService.{SnapTransactionRequest, Call, Service, new_tx_service, require}

-- What the chaincode uses of libraries. A signed proposal is encoded again after it is decoded.
pub record SnapLibrary : Type 0 where
  pub unmarshal_request : Bytes → Option SnapTransactionRequest
  pub unmarshal_endorsements : Bytes → Option Bytes
  pub marshal_response : Option Bytes → Option Bytes
  pub unmarshal_proposal : Bytes → Option String
  pub marshal_proposal : String → Option Bytes
  pub get_state_db : String → Bool
  pub open_db : String → Bool
  pub get_db_state : String → String → String → Option (Option Bytes)

module _ (library : SnapLibrary) (service : Service) where
  -- `getSnapTransactionRequest`
  unfoldable pub get_snap_transaction_request : Bytes → Result SnapTransactionRequest
  get_snap_transaction_request request_bytes =
      or_err (library.unmarshal_request request_bytes) unmarshal_error

  -- The request of a transaction's arguments, which names its channel.
  unfoldable pub request_of : List Bytes → Result SnapTransactionRequest
  request_of [] = err missing_required_parameter_error
  request_of (f ∷ []) = err missing_required_parameter_error
  request_of (f ∷ arg ∷ args) =
      bind (get_snap_transaction_request arg)
        (λ request. bind (require (request.channel_id == "")) (λ _. ok request))

  -- `getTxService` with the code of its error
  abbrev pub get_tx_service : String → Result (Unit {0})
  get_tx_service channel_id = elim (new_tx_service service channel_id) [
    | ok _ ↦ ok tt
    | err _ ↦ err get_tx_service_error
  ]

  -- `endorseTransaction`
  unfoldable pub endorse_transaction : List Bytes → Exec (List Call) (Option Bytes)
  endorse_transaction args = do
    request ← lift (request_of args)
    lift (get_tx_service request.channel_id)
    TxnService.endorse_transaction service request.channel_id request []

  -- `commitTransaction`
  unfoldable pub commit_transaction : List Bytes → Exec (List Call) (Option Bytes)
  commit_transaction args = do
    request ← lift (request_of args)
    lift (get_tx_service request.channel_id)
    TxnService.commit_transaction service request.channel_id request []

  -- `snapTxRequest.TransientMap["endorsements"]`, decoded
  unfoldable pub endorsements_of : SnapTransactionRequest → Result Bytes
  endorsements_of request = elim (lookup "endorsements" request.transient_map) [
    | none ↦ err missing_required_parameter_error
    | some bytes ↦ elim bytes [
      | none ↦ err missing_required_parameter_error
      | some b ↦ or_err (library.unmarshal_endorsements b) unmarshal_error
    ]
  ]

  -- `commitOnlyTransaction`
  unfoldable pub commit_only_transaction : List Bytes → Exec (List Call) (Option Bytes)
  commit_only_transaction args = do
    request ← lift (request_of args)
    lift (get_tx_service request.channel_id)
    response ← lift (endorsements_of request)
    TxnService.commit_only_transaction service request.channel_id request response []

  -- The channel and the decoded proposal of `verifyTxnProposalSignature`
  unfoldable pub proposal_of : List Bytes → Result (String × String)
  proposal_of (f ∷ channel_id ∷ proposal ∷ args) =
      bind (or_err (library.unmarshal_proposal proposal) unmarshal_error) (λ p. ok (channel_id, p))
  proposal_of args = err missing_required_parameter_error

  -- `verifyTxnProposalSignature`, with the number of arguments that `Invoke` asks for
  unfoldable pub verify_txn_proposal_signature : List Bytes → Exec (List Call) (Option Bytes)
  verify_txn_proposal_signature args = do
    p ← lift (proposal_of args)
    lift (get_tx_service p.0)
    TxnService.verify_txn_proposal_signature service p.0 (library.marshal_proposal p.1)

  -- `GetState` of util/statemgr
  unfoldable pub get_state : String → String → String → Result (Option Bytes)
  get_state channel_id cc_namespace key =
      if not (library.get_state_db channel_id)
      then err general_error
      else if not (library.open_db channel_id)
      then err system_error
      else or_err (library.get_db_state channel_id cc_namespace key) system_error

  -- `unsafeGetState`
  unfoldable pub unsafe_get_state : List Bytes → Result (Option Bytes)
  unsafe_get_state (f ∷ channel_id ∷ cc_namespace ∷ key ∷ args) =
      get_state channel_id cc_namespace key
  unsafe_get_state args = err general_error

  -- A response without a payload.
  abbrev pub no_payload : Exec (List Call) (Option Bytes) → Exec (List Call) (Option Bytes)
  no_payload m = m >>= λ _. lift (ok none)

  -- `invokeEndorseTransaction`
  abbrev pub invoke_endorse_transaction : List Bytes → Exec (List Call) (Option Bytes)
  invoke_endorse_transaction args = endorse_transaction args >>= λ r.
      lift (bind (or_err (library.marshal_response r) system_error) (λ b. ok (some b)))

  -- `Invoke`
  unfoldable pub invoke : String → List Bytes → Exec (List Call) (Option Bytes)
  invoke function args =
      if function == "endorseTransaction"
      then invoke_endorse_transaction args
      else if function == "commitTransaction"
      then no_payload (commit_transaction args)
      else if function == "commitOnlyTransaction"
      then no_payload (commit_only_transaction args)
      else if function == "verifyTransactionProposalSignature"
      then no_payload (verify_txn_proposal_signature args)
      else if function == "unsafeGetState"
      then lift (unsafe_get_state args)
      else lift (err invalid_function_error)
