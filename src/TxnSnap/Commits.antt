-- ===== src/TxnSnap/Commits.antt =====
-- A request that is in order reaches the client.
use fabric_snaps.Common.{String, ◌≡◌, refl, ap, ◌∙◌, true, Option, none, some, List, [], ◌∷◌, ◌++◌}
use fabric_snaps.Errors.{Result, ok, err}
use fabric_snaps.Exec.{Exec, ◌>>=◌, lift, continue}
use fabric_snaps.Config.Parse.{Bytes}
use fabric_snaps.TxnService
use fabric_snaps.TxnService.{
  SnapTransactionRequest, EndorseTxRequest, Call, commit, commit_only, Service, new_tx_service,
  create_endorse_tx_request,
}
use fabric_snaps.TxnSnap.{
  SnapLibrary, request_of, endorsements_of, get_tx_service, commit_transaction,
  commit_only_transaction, invoke,
}

-- The response to a commit: no payload, or the client's error.
abbrev pub committed : Result (Option Bytes) → Result (Option Bytes)
committed (ok response) = ok none
committed (err e) = err e

lift-ok {ℓ κ} :
    {A : Type ℓ} {B : Type κ} (r : Result A) (f : A → Exec (List Call) B) (calls : List Call)
    {a : A}
    → r ≡ ok a
    → (lift r >>= f) calls ≡ f a calls
lift-ok r f calls e = ap (λ x. continue x f calls) e

no_payload_lem :
    (r : Result (Option Bytes)) (calls : List Call)
    → continue r (λ _. lift (ok none)) calls ≡ (committed r, calls)
no_payload_lem (ok response) calls = refl
no_payload_lem (err e) calls = refl

module _ (library : SnapLibrary) (service : Service) where
  in_service :
      (channel_id : String)
      → service.has_client channel_id ≡ true
      → get_tx_service library service channel_id ≡ ok tt
  unfolding new_tx_service
  in_service channel_id c = rw (get_tx_service, new_tx_service, c) refl

  -- If the arguments decode to a request that names a channel with a client, and the client's request can
  -- be made of it, commitTransaction makes one call of the client, to commit this request, and answers
  -- with the client's error or without a payload, whatever the client's response is.
  pub commit_transaction_lem :
      (args : List Bytes) (request : SnapTransactionRequest) (tx : EndorseTxRequest)
      (calls : List Call)
      → request_of library service args ≡ ok request
      → service.has_client request.channel_id ≡ true
      → create_endorse_tx_request service (some request) [] ≡ ok tx
      → invoke library service "commitTransaction" args calls ≡ (
        committed (service.answer (commit request.channel_id tx request.register_tx_event) calls),
        calls ++ commit request.channel_id tx request.register_tx_event ∷ [],
      )
  unfolding invoke commit_transaction TxnService.commit_transaction
  commit_transaction_lem args request tx calls e c t =
      ap (λ x. continue x.0 (λ _. lift (ok none)) x.1)
        (lift-ok (request_of library service args) _ calls e
          ∙ lift-ok (get_tx_service library service request.channel_id) _ calls
              (in_service request.channel_id c)
          ∙ lift-ok (create_endorse_tx_request service (some request) []) _ calls t)
      ∙ no_payload_lem
          (service.answer (commit request.channel_id tx request.register_tx_event) calls) _

  -- In the same way commitOnlyTransaction makes one call of the client, to commit the request with the
  -- endorsements that its transient map holds.
  pub commit_only_transaction_lem :
      (args : List Bytes) (request : SnapTransactionRequest) (response : Bytes)
      (tx : EndorseTxRequest) (calls : List Call)
      → request_of library service args ≡ ok request
      → service.has_client request.channel_id ≡ true
      → endorsements_of library service request ≡ ok response
      → create_endorse_tx_request service (some request) [] ≡ ok tx
      → invoke library service "commitOnlyTransaction" args calls ≡ (
        committed (
            service.answer
              (commit_only request.channel_id tx response request.register_tx_event)
              calls),
        calls ++ commit_only request.channel_id tx response request.register_tx_event ∷ [],
      )
  unfolding invoke commit_only_transaction TxnService.commit_only_transaction
  commit_only_transaction_lem args request response tx calls e c d t =
      ap (λ x. continue x.0 (λ _. lift (ok none)) x.1)
        (lift-ok (request_of library service args) _ calls e
          ∙ lift-ok (get_tx_service library service request.channel_id) _ calls
              (in_service request.channel_id c)
          ∙ lift-ok (endorsements_of library service request) _ calls d
          ∙ lift-ok (create_endorse_tx_request service (some request) []) _ calls t)
      ∙ no_payload_lem
          (service.answer (commit_only request.channel_id tx response request.register_tx_event)
            calls)
          _
