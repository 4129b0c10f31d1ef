-- ===== src/TxnSnap/Due.antt =====
-- Which calls of a client the chaincode makes.
use mathlib.Core.Path.{subst}
use fabric_snaps.Common.{
  String, ◌==◌, eq→≡, ◌≡◌, refl, sym, string_eq, ◌⊎◌, inl, inr, true, Option, some, List, [], ◌∷◌,
  ◌++◌, if_elim,
}
use fabric_snaps.Errors.{Result, ok, err, or_err, system_error}
use fabric_snaps.Exec.{Exec, ◌>>=◌, lift, continue}
use fabric_snaps.Config.Parse.{Bytes}
use fabric_snaps.TxnService
use fabric_snaps.TxnService.{
  SnapTransactionRequest, EndorseTxRequest, Call, endorse, commit, commit_only, verify, Service,
  create_endorse_tx_request, perform, PeerFilterOpts, require, filter_of,
}
use fabric_snaps.TxnSnap.{
  SnapLibrary, request_of, endorsements_of, proposal_of, get_tx_service, endorse_transaction,
  commit_transaction, commit_only_transaction, verify_txn_proposal_signature, invoke, no_payload,
  invoke_endorse_transaction,
}
use fabric_snaps.TxnSnap.Requests.{
  Requested, Endorsed, or_err-ok, requested, endorsements_of-Endorsed, proposal_of-decoded,
}

-- One call at most is made, and it is of this kind.
abbrev AtMost {ℓ} : {A : Type ℓ} → (Call → Type 0) → Exec (List Call) A → Type 0
AtMost P m =
    (calls : List Call)
    → ((m calls).1 ≡ calls) ⊎ ((c : Call) × (((m calls).1 ≡ calls ++ c ∷ []) × P c))

lift-AtMost {ℓ κ} :
    {A : Type ℓ} {B : Type κ} (P : Call → Type 0) (r : Result A) (f : A → Exec (List Call) B)
    → ((a : A) → r ≡ ok a → AtMost P (f a))
    → AtMost P (lift r >>= f)
lift-AtMost P (ok a) f h calls = h a refl calls
lift-AtMost P (err e) f h calls = inl refl

-- What follows a call and only reads its response.
read-AtMost {ℓ κ} :
    {A : Type ℓ} {B : Type κ} (P : Call → Type 0) (m : Exec (List Call) A) (f : A → Result B)
    → AtMost P m
    → AtMost P (m >>= λ a. lift (f a))
read-AtMost P m f h calls = go (m calls).0 (m calls).1 (h calls)
  where
    go :
        (r : Result _) (calls' : List Call)
        → ((calls' ≡ calls) ⊎ ((c : Call) × ((calls' ≡ calls ++ c ∷ []) × P c)))
        → ((continue r (λ a. lift (f a)) calls').1 ≡ calls)
          ⊎ ((c : Call) × (((continue r (λ a. lift (f a)) calls').1 ≡ calls ++ c ∷ []) × P c))
    go (ok a) calls' k = k
    go (err e) calls' k = k

module _ (library : SnapLibrary) (service : Service) where
  -- The call that a function of the chaincode is to make: its channel and its data are those of the
  -- request in the arguments.
  abbrev pub Due : String → List Bytes → Call → Type 0
  Due function args (endorse channel_id tx) =
      (function ≡ "endorseTransaction")
      × ((request : SnapTransactionRequest) × Requested library service args channel_id tx request)
  Due function args (commit channel_id tx register) =
      (function ≡ "commitTransaction")
      × ((request : SnapTransactionRequest) × (Requested library service args channel_id tx request
            × (register ≡ request.register_tx_event)))
  Due function args (commit_only channel_id tx response register) =
      (function ≡ "commitOnlyTransaction")
      × ((request : SnapTransactionRequest) × (Requested library service args channel_id tx request
            × ((register ≡ request.register_tx_event) × Endorsed library service request response)))
  Due function args (verify channel_id proposal_bytes) =
      (function ≡ "verifyTransactionProposalSignature")
      × ((f : Bytes) × (text : Bytes) × (rest : List Bytes) × (proposal : String) × (args
            ≡ f ∷ channel_id ∷ text ∷ rest)
          × (library.unmarshal_proposal text ≡ some proposal)
          × (library.marshal_proposal proposal ≡ some proposal_bytes))

  endorse-AtMost :
      (args : List Bytes)
      → AtMost (Due "endorseTransaction" args) (endorse_transaction library service args)
  unfolding endorse_transaction TxnService.endorse_transaction
  endorse-AtMost args = lift-AtMost _ (request_of library service args) _ (λ request e.
      lift-AtMost _ (get_tx_service library service request.channel_id) _ (λ u _.
        lift-AtMost _ (create_endorse_tx_request service (some request) []) _ (λ tx t. λ calls.
          inr (
            endorse request.channel_id tx,
            (refl, (refl, (request, requested library service args request tx e t))),
          ))))

  commit-AtMost :
      (args : List Bytes)
      → AtMost (Due "commitTransaction" args) (commit_transaction library service args)
  unfolding commit_transaction TxnService.commit_transaction
  commit-AtMost args = lift-AtMost _ (request_of library service args) _ (λ request e.
      lift-AtMost _ (get_tx_service library service request.channel_id) _ (λ u _.
        lift-AtMost _ (create_endorse_tx_request service (some request) []) _ (λ tx t. λ calls.
          inr (
            commit request.channel_id tx request.register_tx_event,
            (refl, (refl, (request, (requested library service args request tx e t, refl)))),
          ))))

  commit_only-AtMost :
      (args : List Bytes)
      → AtMost (Due "commitOnlyTransaction" args) (commit_only_transaction library service args)
  unfolding commit_only_transaction TxnService.commit_only_transaction
  commit_only-AtMost args = lift-AtMost _ (request_of library service args) _ (λ request e.
      lift-AtMost _ (get_tx_service library service request.channel_id) _ (λ u _.
        lift-AtMost _ (endorsements_of library service request) _ (λ response d.
          lift-AtMost _ (create_endorse_tx_request service (some request) []) _ (λ tx t. λ calls.
            inr (
              commit_only request.channel_id tx response request.register_tx_event,
              (
                refl,
                (
                  refl,
                  (
                    request,
                    (
                      requested library service args request tx e t,
                      (refl, endorsements_of-Endorsed library service request response d),
                    ),
                  ),
                ),
              ),
            )))))

  verify-AtMost :
      (args : List Bytes)
      → AtMost
          (Due "verifyTransactionProposalSignature" args)
          (verify_txn_proposal_signature library service args)
  unfolding verify_txn_proposal_signature TxnService.verify_txn_proposal_signature
  verify-AtMost args =
      lift-AtMost _ (proposal_of library service args) _ (λ (p : String × String) e.
        lift-AtMost _ (get_tx_service library service p.0) _ (λ u _.
          lift-AtMost _ (or_err (library.marshal_proposal p.1) system_error) _ (λ b t. λ calls.
            let (f, text, rest, a, u) = proposal_of-decoded library service args p e in
            inr (
              verify p.0 b,
              (
                refl,
                (
                  refl,
                  (
                    f,
                    text,
                    rest,
                    p.1,
                    a,
                    u,
                    or_err-ok library service (library.marshal_proposal p.1) system_error t,
                  ),
                ),
              ),
            ))))

  -- A call of the function is a call of the function by its name.
  renamed :
      (function name : String) (args : List Bytes) (m : Exec (List Call) (Option Bytes))
      → (function == name) ≡ true
      → AtMost (Due name args) m
      → AtMost (Due function args) m
  renamed function name args m e h =
      subst (λ f. AtMost (Due f args) m) (sym (eq→≡ function name e)) h

  -- For a call of the chaincode at most one call of a client is made. It is the one that the function's
  -- name stands for. A transaction is endorsed or committed only on the channel of the request that the
  -- second argument decodes to, with this request's chaincode, arguments, transient data, further
  -- chaincodes, peer filter, commit type, ignored namespaces, transaction ID and nonce, with no target
  -- peers, with its register flag and, for commitOnlyTransaction, with the endorsements of its transient
  -- map; a signature is verified only of the proposal in the arguments.
  pub invoke-Due :
      (function : String) (args : List Bytes) (calls : List Call)
      → ((invoke library service function args calls).1 ≡ calls)
        ⊎ ((c : Call) × (((invoke library service function args calls).1 ≡ calls ++ c ∷ [])
              × Due function args c))
  unfolding invoke
  invoke-Due function args =
      if_elim (AtMost (Due function args)) (function == "endorseTransaction") _ _
        (λ e.
          renamed function "endorseTransaction" args
            (invoke_endorse_transaction library service args) e
            (read-AtMost _ (endorse_transaction library service args) _ (endorse-AtMost args)))
        (λ _.
          if_elim (AtMost (Due function args)) (function == "commitTransaction") _ _
            (λ e.
              renamed function "commitTransaction" args
                (no_payload library service (commit_transaction library service args)) e
                (read-AtMost _ (commit_transaction library service args) _ (commit-AtMost args)))
            (λ _.
              if_elim (AtMost (Due function args)) (function == "commitOnlyTransaction") _ _
                (λ e.
                  renamed function "commitOnlyTransaction" args
                    (no_payload library service (commit_only_transaction library service args)) e
                    (read-AtMost _ (commit_only_transaction library service args) _
                      (commit_only-AtMost args)))
                (λ _.
                  if_elim (AtMost (Due function args))
                    (function == "verifyTransactionProposalSignature") _ _
                    (λ e.
                      renamed function "verifyTransactionProposalSignature" args
                        (no_payload library service
                          (verify_txn_proposal_signature library service args))
                        e
                        (read-AtMost _ (verify_txn_proposal_signature library service args) _
                          (verify-AtMost args)))
                    (λ _.
                      if_elim (AtMost (Due function args)) (function == "unsafeGetState") _ _
                        (λ _. λ calls. inl refl) (λ _. λ calls. inl refl)))))
