-- ===== src/Handler/CommitTx.antt =====
-- `CommitTxHandler` of transactionsnap/pkg/client/handler/committx.go, which sends an endorsed
-- transaction to the orderer and waits for its commit.
use fabric_snaps.Common.{ℕ, Bool, not, Option, none, some, ◌∷◌, if◌then◌else◌, eqb}
use fabric_snaps.Handler.{
  HandlerError, register_tx_status_error, create_transaction_error, send_transaction_error,
  did_not_commit, no_block_event, valid, Response, RequestContext, register_tx_status_event,
  unregister, create_transaction, send_transaction, wait_for_status, History, Handler, stop,
  delegate,
}

-- What the event service and the transactor answer to the last request of a history. No status stands
-- for the end of the request's context.
pub record Answers : Type 0 where
  pub registers : History → Bool
  pub creates : History → Bool
  pub sends : History → Bool
  pub status : History → Option ℕ

pub record CommitTxHandler : Type 0 where
  pub next : Option Handler
  pub register_tx_event : Bool

module _ (answers : Answers) where
  -- `createAndSendTransaction`: the error, if any, and the history.
  unfoldable pub create_and_send_transaction : Response → History → Option HandlerError × History
  create_and_send_transaction response h =
      let created = create_transaction response ∷ h in
      if not (answers.creates created)
      then (some create_transaction_error, created)
      else if not (answers.sends (send_transaction response ∷ created))
      then (some send_transaction_error, send_transaction response ∷ created)
      else (none, send_transaction response ∷ created)

  -- A status that the event service has reported.
  abbrev pub with_status : ℕ → Option Handler → Handler
  with_status code next r h =
      let r' : RequestContext = record r {
        response = record r.response { tx_validation_code = code };
      } in
      if not (eqb code valid) then stop did_not_commit r' h else delegate next r' h

  -- The `select` on the status and the end of the context.
  abbrev pub await_status : Option Handler → Handler
  await_status next r h =
      let waited = wait_for_status r.response.transaction_id ∷ h in
      elim (answers.status waited) [
        | none ↦ stop no_block_event r waited
        | some code ↦ with_status code next r waited
      ]

  -- The part of `Handle` after the registration, without the deferred `Unregister`.
  unfoldable pub commit_registered : CommitTxHandler → Handler
  commit_registered l r h =
      let (error, sent) = create_and_send_transaction r.response h in
      elim error [
        | some e ↦ stop e r sent
        | none ↦ if l.register_tx_event then await_status l.next r sent else delegate l.next r sent
      ]

  -- `Handle`
  unfoldable pub handle : CommitTxHandler → Handler
  handle l r h =
      let txn_id = r.response.transaction_id in
      let registered = register_tx_status_event txn_id ∷ h in
      if not (answers.registers registered)
      then stop register_tx_status_error r registered
      else let (r', h') = commit_registered l r registered in (r', unregister txn_id ∷ h')
