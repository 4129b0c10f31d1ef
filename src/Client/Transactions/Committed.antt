-- ===== src/Client/Transactions/Committed.antt =====
-- What the flag of a commit tells of the transactions that were sent.
use fabric_snaps.Common.{
  ◌≤◌, ◌<◌, ◌≡◌, refl, ap, Bool, true, false, Option, none, some, List, [], ◌∷◌, arith, ◌⊎◌, inl,
  inr, String,
}
use fabric_snaps.Config.Parse.{Bytes}
use fabric_snaps.Handler.{Response, RequestContext, History, valid}
use fabric_snaps.Handler.CheckForCommit.{CheckForCommitHandler, commit_on_write}
use fabric_snaps.Handler.PeerFilter.{PeerFilterHandler}
use fabric_snaps.Handler.Registration.{sends}
use fabric_snaps.Errors.{ErrorCode}
use fabric_snaps.Client.{Validity, valid_txn, bad_proposal_txid, failed, validate}
use fabric_snaps.TxnService.{EndorseTxRequest}
use fabric_snaps.Client.Channel.{Chain, ChannelRequest, RequestOptions, Runs, RunsChain, Runs-last}
use fabric_snaps.Client.Transactions.{
  Environment, Checked, execute_chain, commit_chain, committal, channel_request, filtered,
  request_options, responded, commit_transaction, commit_valid, commit_only_transaction,
  commit_only_valid,
}
use fabric_snaps.Client.Transactions.Advances.{
  Endorses, Advances, execute_chain-Advances, commit_chain-Advances,
}

pub Validity-cases :
    (v : Validity)
    → (v ≡ valid_txn)
      ⊎ ((payload : Bytes) × (v ≡ bad_proposal_txid payload))
      ⊎ ((code : ErrorCode) × (v ≡ failed code))
Validity-cases valid_txn = inl refl
Validity-cases (bad_proposal_txid payload) = inr (inl (payload, refl))
Validity-cases (failed code) = inr (inr (code, refl))

module _ (env : Environment) where
  -- What holds of the state between two runs, for the history at the beginning.
  abbrev Kept : History → Checked env → Type 0
  Kept h (c, h₁) =
      (c.commit_type ≡ commit_on_write)
      × ((c.should_commit ≡ true) × (sends h ≤ sends h₁)
          ⊎ (c.should_commit ≡ false) × (sends h₁ ≡ sends h))

  Advances-Kept :
      (register : Bool) (h : History) (c c' : CheckForCommitHandler) (r' : RequestContext)
      (h₁ h₂ : History)
      → Kept h (c, h₁)
      → Advances env register (c, h₁) (r', (c', h₂))
      → Kept h (c', h₂)
  Advances-Kept register h c c' r' h₁ h₂ k a = ground (arith)

  -- The flag is set and a transaction was sent, whose commit was seen if it was awaited, or the flag is not
  -- set and none was sent.
  abbrev pub Told : Bool → History → Response → Bool → History → Type 0
  Told register h response flag h' =
      (flag ≡ true)
        × (sends h < sends h')
        × ((register ≡ false) ⊎ (response.tx_validation_code ≡ valid))
      ⊎ (flag ≡ false) × (sends h' ≡ sends h)

  Advances-Told :
      (register : Bool) (h : History) (c c' : CheckForCommitHandler) (r' : RequestContext)
      (h₁ h₂ : History)
      → Kept h (c, h₁)
      → Advances env register (c, h₁) (r', (c', h₂))
      → r'.error ≡ none
      → Told register h r'.response c'.should_commit h₂
  Advances-Told register h c c' r' h₁ h₂ k a e = ground (arith)

  committal_inj :
      (o : Option Response) (s : Checked env) (response : Response) (flag : Bool) (h' : History)
      → committal env o s ≡ (responded response flag, h')
      → (o ≡ some response) × (s.0.should_commit ≡ flag) × (s.1 ≡ h')
  committal_inj none (c, h) response flag h' e = ground (arith)
  committal_inj (some x) (c, h) response flag h' e = ground (arith)

  -- A chain whose runs advance what they check, under `InvokeHandler`.
  Runs-Told :
      {S : Type 0} (register : Bool) (checked : S → Checked env) (chain : Chain S)
      (request : ChannelRequest) (options : RequestOptions) (out : Option Response × S) {start : S}
      (h h' : History) (response : Response) (flag : Bool)
      → ((r : RequestContext) (s : S)
          → (checked s).0.commit_type ≡ commit_on_write
          → r.error ≡ none
          → Advances env register (checked s) ((chain r s).0, checked (chain r s).1))
      → Runs chain request options out start
      → Kept h (checked start)
      → committal env out.0 (checked out.1) ≡ (responded response flag, h')
      → Told register h response flag h'
  Runs-Told register checked chain request options out h h' response flag advances runs k e =
      let (o, f, e') = committal_inj out.0 (checked out.1) response flag h' e in
      let (r, s, fresh, k', ended, same, last) =
        Runs-last chain request options (λ s. Kept h (checked s))
          (λ r s fresh k.
            Advances-Kept register h (checked s).0 (checked (chain r s).1).0 (chain r s).0
              (checked s).1 (checked (chain r s).1).1 k (advances r s k.0 fresh.no_error))
          response runs k o in
      let told =
        Advances-Told register h (checked s).0 (checked (chain r s).1).0 (chain r s).0 (checked s).1
          (checked (chain r s).1).1 k' (advances r s k'.0 fresh.no_error) ended in
      let final : checked out.1 ≡ checked (chain r s).1 = ap checked last in
      rw (← e', ← f, same, final) told

  module _ (runs : RunsChain env.channel_client) (register : Bool)
      (callback : Option (Response → Bool)) (request : EndorseTxRequest)
      (on_write : request.commit_type ≡ commit_on_write) where
    commit_valid-Told :
        Endorses env
        → (args : List String) (h h' : History) (response : Response) (flag : Bool)
        → commit_valid env request register callback args h ≡ (responded response flag, h')
        → Told register h response flag h'
    unfolding commit_valid
    commit_valid-Told endorses [] h h' response flag e = ground (arith)
    commit_valid-Told endorses (fcn ∷ args) h h' response flag e =
        Runs-Told register (λ (s : PeerFilterHandler × Checked env). s.1)
          (execute_chain env request.nonce register) (channel_request request fcn args)
          (filtered env request) _ h h' response flag
          (λ r (p, (c, h₁)). execute_chain-Advances env endorses request.nonce register r p c h₁)
          (runs _ _ _ _ _) (on_write, ground (arith)) e

    commit_only_valid-Told :
        (endorsed : Response) (args : List String) (h h' : History) (response : Response)
        (flag : Bool)
        → commit_only_valid env request endorsed register callback args h
          ≡ (responded response flag, h')
        → Told register h response flag h'
    unfolding commit_only_valid
    commit_only_valid-Told endorsed [] h h' response flag e = ground (arith)
    commit_only_valid-Told endorsed (fcn ∷ args) h h' response flag e =
        Runs-Told register (λ (s : Checked env). s) (commit_chain env endorsed register)
          (channel_request request fcn (fcn ∷ args)) (request_options env request none) _ h h'
          response flag (λ r (c, h₁). commit_chain-Advances env endorsed register r c h₁)
          (runs _ _ _ _ _) (on_write, ground (arith)) e

    -- When `commitTransaction` returns a response of the channel client for a request with commit type
    -- CommitOnWrite, either its flag is true, a transaction was sent, and its commit was seen if the caller
    -- asked to be told of it, or its flag is false and none was sent in any of the runs. `InvokeHandler`
    -- runs the chain as documented, and the SDK's handlers send no transaction.
    pub commit_transaction-Told :
        Endorses env
        → (h h' : History) (response : Response) (flag : Bool)
        → commit_transaction env request register callback h ≡ (responded response flag, h')
        → Told register h response flag h'
    unfolding commit_transaction
    commit_transaction-Told endorses h h' response flag e =
        elim (Validity-cases (validate env.context request.nonce request.transaction_id)) [
          | inl v ↦
              commit_valid-Told endorses request.args h h' response flag (ground (arith, e, v))
          | inr n ↦ ground (arith, e, n)
        ]

    -- The same of `commitOnlyTransaction`, which commits a response that is endorsed already.
    pub commit_only_transaction-Told :
        (endorsed : Response) (h h' : History) (response : Response) (flag : Bool)
        → commit_only_transaction env request endorsed register callback h
          ≡ (responded response flag, h')
        → Told register h response flag h'
    unfolding commit_only_transaction
    commit_only_transaction-Told endorsed h h' response flag e =
        elim (Validity-cases (validate env.context request.nonce request.transaction_id)) [
          | inl v ↦
              commit_only_valid-Told endorsed request.args h h' response flag (ground (arith, e, v))
          | inr n ↦ ground (arith, e, n)
        ]
