-- ===== src/Client/Transactions/Unsent.antt =====
-- When no transaction is sent at all.
use fabric_snaps.Common.{◌≡◌, ◌∙◌, refl, Bool, Option, none, some, List, [], ◌∷◌, arith, String}
use fabric_snaps.Config.Parse.{Bytes}
use fabric_snaps.Handler.{Response, RequestContext, History}
use fabric_snaps.Handler.CheckForCommit
use fabric_snaps.Handler.CheckForCommit.{CheckForCommitHandler, no_commit}
use fabric_snaps.Handler.PeerFilter.{PeerFilterHandler, handle_pre_endorsed}
use fabric_snaps.Handler.Registration.{sends}
use fabric_snaps.TxnService.{EndorseTxRequest}
use fabric_snaps.Client.Channel.{Chain, ChannelRequest, RequestOptions, Runs, RunsChain, Runs-keeps}
use fabric_snaps.Client.Transactions.{
  Passed, stopped, passed, Environment, Checked, query_chain, end_of, check_chain,
  after_endorsement, endorsed_chain, execute_chain, commit_chain, committal, endorse_transaction,
  endorse_arguments, commit_transaction, commit_valid, commit_only_transaction, commit_only_valid,
  channel_request, filtered, request_options,
}
use fabric_snaps.Client.Transactions.Advances.{Endorsed, Endorses, PeerFilter_lem}

module _ (env : Environment) where
  -- The handlers' state asks for no commit, and nothing was sent since the history.
  abbrev Idle : History → Checked env → Type 0
  Idle h (c, h') = (c.commit_type ≡ no_commit) × (sends h' ≡ sends h)

  check_chain-Idle :
      (register : Bool) (r : RequestContext) (h : History) (s : Checked env)
      → Idle h s
      → Idle h (check_chain env register r s).1
  unfolding CheckForCommit.handle
  check_chain-Idle register r h (c, h') i = ground (arith)

  after_endorsement-Idle :
      (register : Bool) (r : RequestContext) (h h' : History) (c : CheckForCommitHandler)
      (p : Passed)
      → Idle h (c, h')
      → Endorsed r h' p
      → Idle h (after_endorsement env register c p).1
  after_endorsement-Idle register r h h' c (stopped r' h₁) i e = ground (arith)
  after_endorsement-Idle register r h h' c (passed r' h₁) i e =
      check_chain-Idle register r' h (c, h₁) (ground (arith))

  execute_chain-Idle :
      Endorses env
      → (nonce : Bytes) (register : Bool) (r : RequestContext) (h : History) (p : PeerFilterHandler)
        (s : Checked env)
      → Idle h s
      → Idle h (execute_chain env nonce register r (p, s)).1.1
  execute_chain-Idle endorses nonce register r h p (c, h') i =
      PeerFilter_lem (λ (r₁, h₁). (r₁, (c, h₁)))
        (λ r₁ h₁. endorsed_chain env nonce register r₁ (c, h₁)) (λ (r₁, s₁). Idle h s₁) r h'
        (λ e h₁ q. ground (arith))
        (λ r₁ h₁ e q.
          after_endorsement-Idle register r₁ h h₁ c (env.endorsement (some nonce) r₁ h₁)
            (ground (arith)) (endorses (some nonce) r₁ h₁))
        env.selection p

  end_of-sends :
      (r : RequestContext) (h : History) (p : Passed)
      → Endorsed r h p
      → sends (end_of p).1 ≡ sends h
  end_of-sends r h (stopped r' h') e = e.1
  end_of-sends r h (passed r' h') e = e.1

  query_chain-sends :
      Endorses env
      → (r : RequestContext) (h : History) (p : PeerFilterHandler)
      → sends (query_chain env r (p, h)).1.1 ≡ sends h
  query_chain-sends endorses r h p =
      PeerFilter_lem (λ left. left) (λ r₁ h₁. end_of (env.endorsement none r₁ h₁))
        (λ (r₁, h₁). sends h₁ ≡ sends h) r h (λ e h₁ q. q)
        (λ r₁ h₁ e q. end_of-sends r₁ h₁ (env.endorsement none r₁ h₁) (endorses none r₁ h₁) ∙ q)
        env.selection p

  committal-sends :
      (o : Option Response) (h : History) (s : Checked env)
      → Idle h s
      → sends (committal env o s).1 ≡ sends h
  committal-sends none h (c, h') i = i.1
  committal-sends (some x) h (c, h') i = i.1

  Runs-Idle :
      {S : Type 0} (checked : S → Checked env) (chain : Chain S) (request : ChannelRequest)
      (options : RequestOptions) (out : Option Response × S) {start : S} (h : History)
      → ((r : RequestContext) (s : S) → Idle h (checked s) → Idle h (checked (chain r s).1))
      → Runs chain request options out start
      → Idle h (checked start)
      → sends (committal env out.0 (checked out.1)).1 ≡ sends h
  Runs-Idle checked chain request options out h keeps runs i =
      committal-sends out.0 h (checked out.1) (
        Runs-keeps chain request options (λ s. Idle h (checked s)) (λ r s fresh i. keeps r s i) runs
          i)

  module _ (runs : RunsChain env.channel_client) (endorses : Endorses env)
      (request : EndorseTxRequest) where
    endorse_arguments-sends :
        (args : List String) (h : History)
        → sends (endorse_arguments env request args h).1 ≡ sends h
    unfolding endorse_arguments
    endorse_arguments-sends [] h = refl
    endorse_arguments-sends (fcn ∷ args) h =
        Runs-keeps (query_chain env) (channel_request request fcn args) (filtered env request)
          (λ (p, h'). sends h' ≡ sends h)
          (λ r (p, h') fresh q. query_chain-sends endorses r h' p ∙ q) (runs _ _ _ _ _) refl

    -- `endorseTransaction` sends no transaction, whatever it returns and however often it is tried.
    -- `InvokeHandler` runs the chain as documented, and the SDK's handlers send no transaction.
    pub endorse_transaction-sends :
        (h : History) → sends (endorse_transaction env request h).1 ≡ sends h
    unfolding endorse_transaction
    endorse_transaction-sends h = endorse_arguments-sends request.args h

    module _ (register : Bool) (callback : Option (Response → Bool))
        (uncommitted : request.commit_type ≡ no_commit) where
      commit_valid-sends :
          (args : List String) (h : History)
          → sends (commit_valid env request register callback args h).1 ≡ sends h
      unfolding commit_valid
      commit_valid-sends [] h = refl
      commit_valid-sends (fcn ∷ args) h =
          Runs-Idle (λ (s : PeerFilterHandler × Checked env). s.1)
            (execute_chain env request.nonce register) (channel_request request fcn args)
            (filtered env request) _ h
            (λ r (p, s) i. execute_chain-Idle endorses request.nonce register r h p s i)
            (runs _ _ _ _ _) (uncommitted, refl)

      commit_only_valid-sends :
          (endorsed : Response) (args : List String) (h : History)
          → sends (commit_only_valid env request endorsed register callback args h).1 ≡ sends h
      unfolding commit_only_valid handle_pre_endorsed
      commit_only_valid-sends endorsed [] h = refl
      commit_only_valid-sends endorsed (fcn ∷ args) h =
          Runs-Idle (λ (s : Checked env). s) (commit_chain env endorsed register)
            (channel_request request fcn (fcn ∷ args)) (request_options env request none) _ h
            (λ r s i. check_chain-Idle register (record r { response = endorsed }) h s i)
            (runs _ _ _ _ _) (uncommitted, refl)

      -- With commit type NoCommit neither `commitTransaction` nor `commitOnlyTransaction` sends a
      -- transaction, whatever they return and however often they are tried. `InvokeHandler` runs the chain
      -- as documented, and the SDK's handlers send no transaction.
      pub commit_transaction-sends :
          (endorsed : Response) (h : History)
          → (sends (commit_transaction env request register callback h).1 ≡ sends h)
            × (sends (commit_only_transaction env request endorsed register callback h).1 ≡ sends h)
      unfolding commit_transaction commit_only_transaction
      commit_transaction-sends endorsed h = ground (
        arith,
        commit_valid-sends request.args h,
        commit_only_valid-sends endorsed request.args h,
      )
