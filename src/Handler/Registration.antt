-- ===== src/Handler/Registration.antt =====
-- The registrations, transactions and errors that a commit leaves behind.
use fabric_snaps.Common.{
  false, ◌⊎◌, ℕ, ◌+◌, ◌≡◌, refl, true, Option, none, [], ◌∷◌, arith, inl, inr, Option-cases,
}
use fabric_snaps.Handler.{
  valid, Response, RequestContext, register_tx_status_event, unregister, send_transaction,
  wait_for_status, History, Handler, delegate,
}
use fabric_snaps.Handler.CommitTx.{
  Answers, CommitTxHandler, create_and_send_transaction, commit_registered, handle, await_status,
}

-- How many registrations and how many ends of one a history has.
abbrev pub registrations : History → ℕ
registrations [] = 0
registrations (register_tx_status_event t ∷ h) = 1 + registrations h
registrations (q ∷ h) = registrations h

abbrev pub unregistrations : History → ℕ
unregistrations [] = 0
unregistrations (unregister t ∷ h) = 1 + unregistrations h
unregistrations (q ∷ h) = unregistrations h

abbrev pub sends : History → ℕ
sends [] = 0
sends (send_transaction r ∷ h) = 1 + sends h
sends (q ∷ h) = sends h

-- A next handler that leaves the registrations and their ends as they are.
abbrev pub Quiet : Option Handler → Type 0
Quiet next =
    (r : RequestContext) (h : History)
    → (registrations (delegate next r h).1 ≡ registrations h)
      × (unregistrations (delegate next r h).1 ≡ unregistrations h)

-- No registration and no end of one comes in between.
abbrev Same : History → History → Type 0
Same h h' = (registrations h' ≡ registrations h) × (unregistrations h' ≡ unregistrations h)

module _ (answers : Answers) where
  create_and_send_transaction-Same :
      (response : Response) (h : History)
      → Same h (create_and_send_transaction answers response h).1
  unfolding create_and_send_transaction
  create_and_send_transaction-Same response h = ground (arith)

  await_status-Same :
      (next : Option Handler)
      → Quiet next
      → (r : RequestContext) (h : History) → Same h (await_status answers next r h).1
  await_status-Same next quiet r h =
      elim (Option-cases (answers.status (wait_for_status r.response.transaction_id ∷ h))) [
        | inl e ↦ rw (await_status, e) (refl, refl)
        | inr (code, e) ↦
            let q =
              quiet (record r { response = record r.response { tx_validation_code = code } })
                (wait_for_status r.response.transaction_id ∷ h) in
            rw (await_status, e) (ground (arith))
      ]

  commit_registered-Same :
      (l : CommitTxHandler)
      → Quiet l.next
      → (r : RequestContext) (h : History) → Same h (commit_registered answers l r h).1
  unfolding commit_registered
  commit_registered-Same l quiet r h =
      let sent = (create_and_send_transaction answers r.response h).1 in
      ground (
        arith,
        create_and_send_transaction-Same r.response h,
        await_status-Same l.next quiet r sent,
        quiet r sent,
      )

  -- A handler that succeeds in its registration, and whose next handler leaves the registrations and their
  -- ends as they are, adds one registration and one end of a registration, on every path.
  pub handle-registrations :
      (l : CommitTxHandler)
      → Quiet l.next
      → (r : RequestContext) (h : History)
      → answers.registers (register_tx_status_event r.response.transaction_id ∷ h) ≡ true
      → (registrations (handle answers l r h).1 ≡ 1 + registrations h)
        × (unregistrations (handle answers l r h).1 ≡ 1 + unregistrations h)
  unfolding handle
  handle-registrations l quiet r h e =
      let s =
        commit_registered-Same l quiet r (register_tx_status_event r.response.transaction_id ∷ h) in
      rw e (ground (arith))

  -- A handler with no next handler that leaves no error has sent one transaction, and has the status VALID
  -- if it awaits one.
  pub handle-success :
      (l : CommitTxHandler) (r : RequestContext) (h : History)
      → l.next ≡ none
      → r.error ≡ none
      → (handle answers l r h).0.error ≡ none
      → (sends (handle answers l r h).1 ≡ 1 + sends h)
        × ((l.register_tx_event ≡ false)
            ⊎ ((handle answers l r h).0.response.tx_validation_code ≡ valid))
  unfolding handle commit_registered create_and_send_transaction
  handle-success l r h n e f = ground (arith)
