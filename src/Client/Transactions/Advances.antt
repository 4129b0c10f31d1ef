-- ===== src/Client/Transactions/Advances.antt =====
-- What one run of the handlers of client.go does to the flag of a commit and the transactions sent.
use fabric_snaps.Common.{
  ℕ, zero, suc, ◌+◌, ◌≤◌, ◌≡◌, ◌≢◌, refl, Bool, true, false, Option, none, some, List, ◌∷◌, arith,
  ◌⊎◌, if_elim, is_empty, String,
}
use fabric_snaps.Config.Parse.{Bytes}
use fabric_snaps.Handler.{
  Response, RequestContext, History, valid, stop, HandlerError, sleep, get_endorsers_for_chaincode,
}
use fabric_snaps.Handler.CheckForCommit
use fabric_snaps.Handler.CheckForCommit.{
  CheckForCommitHandler, commit_on_write, commit_if_has_write_set, read_responses, refused, Verdict,
  needs_commit,
}
use fabric_snaps.Handler.CommitTx
use fabric_snaps.Handler.CommitTx.{
  Answers, CommitTxHandler, create_and_send_transaction, commit_registered,
}
use fabric_snaps.Handler.PeerFilter
use fabric_snaps.Handler.PeerFilter.{
  Selection, select, selected, handle_pre_endorsed, PeerFilterHandler,
}
use fabric_snaps.Handler.Registration.{sends, handle-success}
use fabric_snaps.Client.Transactions.{
  Passed, stopped, passed, Environment, Checked, check_chain, after_endorsement, endorsed_chain,
  execute_chain, commit_chain, new_commit_tx_handler,
}

-- The SDK's handlers send no transaction. They stop with an error, or go on and set none.
abbrev pub Endorsed : RequestContext → History → Passed → Type 0
Endorsed r h (stopped r' h') = (r'.error ≢ none) × (sends h' ≡ sends h)
Endorsed r h (passed r' h') = (r'.error ≡ r.error) × (sends h' ≡ sends h)

abbrev pub Endorses : Environment → Type 0
Endorses env =
    (nonce : Option Bytes) (r : RequestContext) (h : History)
    → Endorsed r h (env.endorsement nonce r h)

-- A transaction is sent in a run, and its commit is seen if it is awaited.
abbrev pub Sent : Bool → RequestContext → History → History → Type 0
Sent register r h h' =
    (sends h' ≡ 1 + sends h) × ((register ≡ false) ⊎ (r.response.tx_validation_code ≡ valid))

handle-sends :
    (answers : Answers) (register : Bool) (r : RequestContext) (h : History)
    → sends h ≤ sends (CommitTx.handle answers (new_commit_tx_handler register) r h).1
unfolding CommitTx.handle commit_registered create_and_send_transaction
handle-sends answers register r h = ground (arith)

select-sends :
    (selection : Selection) (n : ℕ) (ids : List _) (h : History)
    → sends (select selection n ids h).1 ≡ sends h
unfolding select
select-sends selection zero ids h = refl
select-sends selection (suc n) ids h =
    ground (arith, select-sends selection n ids (sleep ∷ get_endorsers_for_chaincode ids ∷ h))

-- The selection of endorsers sends no transaction: it stops with an error, or the next handler runs.
module _ {Left : Type 0} (leave : RequestContext × History → Left)
    (next : RequestContext → History → Left) (Q : Left → Type 0) (r : RequestContext) (h : History)
    (stops : (e : HandlerError) (h' : History) → sends h' ≡ sends h → Q (leave (stop e r h')))
    (goes_on : (r' : RequestContext) (h' : History)
      → r'.error ≡ r.error
      → sends h' ≡ sends h
      → Q (next r' h')) where
  selected_lem :
      (selection : Selection) (p : PeerFilterHandler) (endorsers : Option (List String))
      (h' : History)
      → sends h' ≡ sends h
      → Q (selected selection leave (some next) p r (endorsers, h')).1
  selected_lem selection p none h' e = stops _ h' e
  selected_lem selection p (some targets) h' e = goes_on _ h' refl e

  pub PeerFilter_lem :
      (selection : Selection) (p : PeerFilterHandler)
      → Q (PeerFilter.handle selection leave (some next) p r h).1
  unfolding PeerFilter.handle
  PeerFilter_lem selection p =
      if_elim {A = PeerFilterHandler × Left} (λ x. Q x.1) (is_empty r.targets) _ _
        (λ _. selected_lem selection _ _ _ (select-sends selection p.max_attempts _ h))
        (λ _. goes_on r h refl refl)

module _ (env : Environment) where
  -- A run either leaves the flag set, and has sent a transaction unless it has an error, or leaves it as
  -- it was, unset, and has sent none.
  abbrev pub Advances : Bool → Checked env → RequestContext × Checked env → Type 0
  Advances register (c, h) (r', (c', h')) =
      (c'.commit_type ≡ commit_on_write)
      × ((c'.should_commit ≡ true)
            × (sends h ≤ sends h')
            × (r'.error ≡ none → Sent register r' h h')
          ⊎ (c'.should_commit ≡ false) × (c.should_commit ≡ false) × (sends h' ≡ sends h))

  check_chain-Advances :
      (register : Bool) (r : RequestContext) (c : CheckForCommitHandler) (h : History)
      → c.commit_type ≡ commit_on_write
      → r.error ≡ none
      → Advances register (c, h) (check_chain env register r (c, h))
  unfolding CheckForCommit.handle commit_if_has_write_set
  check_chain-Advances register r c h w e =
      let next = CommitTx.handle env.answers (new_commit_tx_handler register) in
      let done = λ (q : (next r h).0.error ≡ none).
        handle-success env.answers (new_commit_tx_handler register) r h refl e q in
      ground (arith, handle-sends env.answers register r h, done)

  after_endorsement-Advances :
      (register : Bool) (r : RequestContext) (c : CheckForCommitHandler) (h : History) (p : Passed)
      → c.commit_type ≡ commit_on_write
      → r.error ≡ none
      → Endorsed r h p
      → Advances register (c, h) (after_endorsement env register c p)
  after_endorsement-Advances register r c h (stopped r' h') w e d = ground (arith)
  after_endorsement-Advances register r c h (passed r' h') w e d =
      let a = check_chain-Advances register r' c h' w (ground (arith)) in ground (arith)

  endorsed_chain-Advances :
      Endorses env
      → (nonce : Bytes) (register : Bool) (r : RequestContext) (c : CheckForCommitHandler)
        (h : History)
      → c.commit_type ≡ commit_on_write
      → r.error ≡ none
      → Advances register (c, h) (endorsed_chain env nonce register r (c, h))
  endorsed_chain-Advances endorses nonce register r c h w e =
      after_endorsement-Advances register r c h (env.endorsement (some nonce) r h) w e
        (endorses (some nonce) r h)

  pub execute_chain-Advances :
      Endorses env
      → (nonce : Bytes) (register : Bool) (r : RequestContext) (p : PeerFilterHandler)
        (c : CheckForCommitHandler) (h : History)
      → c.commit_type ≡ commit_on_write
      → r.error ≡ none
      → (let (r', (_, s')) = execute_chain env nonce register r (p, (c, h)) in
          Advances register (c, h) (r', s'))
  execute_chain-Advances endorses nonce register r p c h w e =
      PeerFilter_lem (λ (r₁, h₁). (r₁, (c, h₁)))
        (λ r₁ h₁. endorsed_chain env nonce register r₁ (c, h₁)) (Advances register (c, h)) r h
        (λ e' h' q. ground (arith))
        (λ r' h' e' q.
          let a = endorsed_chain-Advances endorses nonce register r' c h' w (ground (arith)) in
          ground (arith))
        env.selection p

  pub commit_chain-Advances :
      (response : Response) (register : Bool) (r : RequestContext) (c : CheckForCommitHandler)
      (h : History)
      → c.commit_type ≡ commit_on_write
      → r.error ≡ none
      → Advances register (c, h) (commit_chain env response register r (c, h))
  unfolding handle_pre_endorsed
  commit_chain-Advances response register r c h w e =
      check_chain-Advances register (record r { response = response }) c h w e
