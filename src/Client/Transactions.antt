-- ===== src/Client/Transactions.antt =====
-- The transactions of a client: endorseTransaction, commitTransaction and commitOnlyTransaction of
-- transactionsnap/pkg/client/client.go, over the handlers of Handler and the SDK's channel client. The
-- SDK's handlers between them, which endorse and check the endorsements, are a parameter. Metrics, logging
-- and the back-off of the retries are left out.
pub mod Advances
pub mod Committed
pub mod Unsent
use fabric_snaps.Common.{ℕ, String, Bool, true, false, Option, none, some, List, [], ◌∷◌}
use fabric_snaps.Errors.{
  ErrorCode, Result, ok, err, or_err, missing_required_parameter_error, endorse_tx_error,
  commit_tx_error,
}
use fabric_snaps.Config.Parse.{Bytes}
use fabric_snaps.Handler.{Response, RequestContext, History}
use fabric_snaps.Handler.CheckForCommit
use fabric_snaps.Handler.CheckForCommit.{CheckForCommitHandler, Proto}
use fabric_snaps.Handler.CommitTx
use fabric_snaps.Handler.CommitTx.{Answers, CommitTxHandler}
use fabric_snaps.Handler.PeerFilter
use fabric_snaps.Handler.PeerFilter.{PeerFilterHandler, Selection, handle_pre_endorsed}
use fabric_snaps.Membership.{PeerEndpoint}
use fabric_snaps.TxnService.{EndorseTxRequest}
use fabric_snaps.Client.{
  Context, RetryableCodes, retry_codes, validate, valid_txn, bad_proposal_txid, failed,
}
use fabric_snaps.Client.Endorsers.{accept}
use fabric_snaps.Client.Channel.{ChannelClient, ChannelRequest, RequestOptions, Chain}

-- Where the SDK's handlers end: they stop, or go on to the next handler, if there is one.
pub data Passed : Type 0 where
  stopped passed : RequestContext → History → Passed

-- What is left where no handler follows.
abbrev pub end_of : Passed → RequestContext × History
end_of (stopped r h) = (r, h)
end_of (passed r h) = (r, h)

-- What a client uses of other code: `peers_of_channel` is none if the membership service or its answer is
-- an error, and `cc_codes` if the configured codes do not parse.
pub record Environment : Type 1 where
  pub channel_client : ChannelClient
  pub context : Context
  pub endorsement : Option Bytes → RequestContext → History → Passed
  pub selection : Selection
  pub proto : Proto
  pub answers : Answers
  pub max_attempts : ℕ
  pub peers_of_channel : Option (List PeerEndpoint)
  pub sdk_codes : RetryableCodes
  pub cc_codes : Option (List String)

-- What a commit returns: a response with the flag `ShouldCommit`, the answer to a transaction ID that does
-- not fit, or an error; the flag of the last two is false.
pub data Committal : Type 0 where
  responded : Response → Bool → Committal
  bad_txn_id : Bytes → Committal
  refused : ErrorCode → Committal

-- `NewCheckForCommitHandler`
abbrev pub new_check_for_commit_handler :
    EndorseTxRequest → Option (Response → Bool) → CheckForCommitHandler
new_check_for_commit_handler endorse_request callback = record {
  rw_set_ignore_name_space = endorse_request.rw_set_ignore_name_space;
  callback = callback;
  commit_type = endorse_request.commit_type;
  should_commit = false;
}

-- `NewCommitTxHandler`
abbrev pub new_commit_tx_handler : Bool → CommitTxHandler
new_commit_tx_handler register_tx_event = record {
  next = none;
  register_tx_event = register_tx_event;
}

-- The request of a call of `InvokeHandler`
abbrev pub channel_request : EndorseTxRequest → String → List String → ChannelRequest
channel_request endorse_request fcn args = record {
  chaincode_id = endorse_request.chaincode_id;
  fcn = fcn;
  args = args;
  transient_map = endorse_request.transient_data;
}

module _ (env : Environment) where
  -- `newEndorserFilter`
  unfoldable pub new_endorser_filter : Option (String → Bool) → String → Bool
  new_endorser_filter target_filter =
      let peers : List PeerEndpoint = elim env.peers_of_channel [ none ↦ [] | some ps ↦ ps ] in
      accept peers target_filter

  -- `NewPeerFilterHandler`
  abbrev pub new_peer_filter_handler : EndorseTxRequest → PeerFilterHandler
  new_peer_filter_handler endorse_request = record {
    chaincode_ids = endorse_request.chaincode_ids;
    max_attempts = env.max_attempts;
  }

  -- Its options with a target filter, and without
  abbrev pub request_options : EndorseTxRequest → Option (String → Bool) → RequestOptions
  request_options endorse_request target_filter = record {
    targets = endorse_request.targets;
    target_filter = target_filter;
    retryable_codes = retry_codes env.sdk_codes env.cc_codes;
  }

  abbrev pub filtered : EndorseTxRequest → RequestOptions
  filtered endorse_request =
      request_options endorse_request (some (new_endorser_filter endorse_request.peer_filter))

  -- `customQueryHandler`
  abbrev pub query_chain : Chain (PeerFilterHandler × History)
  query_chain r (p, h) =
      let (p', (r', h')) =
        PeerFilter.handle env.selection (λ left. left)
          (some (λ r₁ h₁. end_of (env.endorsement none r₁ h₁))) p r h in
      (r', (p', h'))

  -- The part of `endorseTransaction` on the arguments of the request
  unfoldable pub endorse_arguments :
      EndorseTxRequest → List String → History → Result Response × History
  endorse_arguments endorse_request [] h = (err missing_required_parameter_error, h)
  endorse_arguments endorse_request (fcn ∷ args) h =
      let (response, (p, h')) =
        env.channel_client.invoke_handler (PeerFilterHandler × History) query_chain
          (channel_request endorse_request fcn args) (filtered endorse_request)
          (new_peer_filter_handler endorse_request, h) in
      (or_err response endorse_tx_error, h')

  -- `endorseTransaction`
  unfoldable pub endorse_transaction : EndorseTxRequest → History → Result Response × History
  endorse_transaction endorse_request h = endorse_arguments endorse_request endorse_request.args h

  -- The state that the handlers of a commit keep, with the history
  abbrev pub Checked : Type 0
  Checked = CheckForCommitHandler × History

  -- `checkForCommit` with the handler after it
  abbrev pub check_chain : Bool → Chain Checked
  check_chain register_tx_event r (c, h) =
      let (c', (r', h')) =
        CheckForCommit.handle env.proto
          (CommitTx.handle env.answers (new_commit_tx_handler register_tx_event)) c r h in
      (r', (c', h'))

  -- What follows the SDK's handlers: `checkForCommit`, unless they stop.
  abbrev pub after_endorsement : Bool → CheckForCommitHandler → Passed → RequestContext × Checked
  after_endorsement register_tx_event c (stopped r h) = (r, (c, h))
  after_endorsement register_tx_event c (passed r h) = check_chain register_tx_event r (c, h)

  -- The handlers after the selection of endorsers
  abbrev pub endorsed_chain : Bytes → Bool → Chain Checked
  endorsed_chain nonce register_tx_event r (c, h) =
      after_endorsement register_tx_event c (env.endorsement (some nonce) r h)

  -- `customExecuteHandler` of `commitTransaction`
  abbrev pub execute_chain : Bytes → Bool → Chain (PeerFilterHandler × Checked)
  execute_chain nonce register_tx_event r (p, (c, h)) =
      let (p', (r', s')) =
        PeerFilter.handle env.selection (λ (r₁, h₁). (r₁, (c, h₁)))
          (some (λ r₁ h₁. endorsed_chain nonce register_tx_event r₁ (c, h₁))) p r h in
      (r', (p', s'))

  -- `customExecuteHandler` of `commitOnlyTransaction`
  abbrev pub commit_chain : Response → Bool → Chain Checked
  commit_chain response register_tx_event r (c, h) =
      handle_pre_endorsed response (λ r₁ h₁. check_chain register_tx_event r₁ (c, h₁)) r h

  abbrev pub committal : Option Response → Checked → Committal × History
  committal none (c, h) = (refused commit_tx_error, h)
  committal (some response) (c, h) = (responded response c.should_commit, h)

  -- The part of `commitTransaction` after `validate`, on the arguments of the request
  unfoldable pub commit_valid :
      EndorseTxRequest
      → Bool
      → Option (Response → Bool)
      → List String
      → History
      → Committal × History
  commit_valid endorse_request register_tx_event callback [] h =
      (refused missing_required_parameter_error, h)
  commit_valid endorse_request register_tx_event callback (fcn ∷ args) h =
      let (response, (p, s)) =
        env.channel_client.invoke_handler (PeerFilterHandler × Checked)
          (execute_chain endorse_request.nonce register_tx_event)
          (channel_request endorse_request fcn args) (filtered endorse_request)
          (
            new_peer_filter_handler endorse_request,
            (new_check_for_commit_handler endorse_request callback, h),
          ) in
      committal response s

  -- `commitTransaction`
  unfoldable pub commit_transaction :
      EndorseTxRequest → Bool → Option (Response → Bool) → History → Committal × History
  commit_transaction endorse_request register_tx_event callback h =
      elim (validate env.context endorse_request.nonce endorse_request.transaction_id) [
        | valid_txn ↦ commit_valid endorse_request register_tx_event callback endorse_request.args h
        | bad_proposal_txid payload ↦ (bad_txn_id payload, h)
        | failed code ↦ (refused code, h)
      ]

  -- The part of `commitOnlyTransaction` after `validate`, which keeps the function among the arguments
  unfoldable pub commit_only_valid :
      EndorseTxRequest
      → Response
      → Bool
      → Option (Response → Bool)
      → List String
      → History
      → Committal × History
  commit_only_valid endorse_request response register_tx_event callback [] h =
      (refused missing_required_parameter_error, h)
  commit_only_valid endorse_request response register_tx_event callback (fcn ∷ args) h =
      let (response', s) =
        env.channel_client.invoke_handler Checked (commit_chain response register_tx_event)
          (channel_request endorse_request fcn (fcn ∷ args)) (request_options endorse_request none)
          (new_check_for_commit_handler endorse_request callback, h) in
      committal response' s

  -- `commitOnlyTransaction`
  unfoldable pub commit_only_transaction :
      EndorseTxRequest → Response → Bool → Option (Response → Bool) → History → Committal × History
  commit_only_transaction endorse_request response register_tx_event callback h =
      elim (validate env.context endorse_request.nonce endorse_request.transaction_id) [
        | valid_txn ↦
            commit_only_valid endorse_request response register_tx_event callback
              endorse_request.args h
        | bad_proposal_txid payload ↦ (bad_txn_id payload, h)
        | failed code ↦ (refused code, h)
      ]
