-- ===== src/Handler/PeerFilter.antt =====
-- `PeerFilterHandler` of transactionsnap/pkg/client/handler/peerfilter.go, which selects the endorsers
-- unless the caller has named them, and `PreEndorsedHandler` of preendorsed.go.
use fabric_snaps.Common.{
  ℕ, zero, suc, String, Option, none, some, List, [], ◌∷◌, is_empty, eqb, if◌then◌else◌,
}
use fabric_snaps.Handler.{
  get_endorsers_error, Response, RequestContext, get_endorsers_for_chaincode, sleep, History, stop,
}

-- The next handler is an argument of the operations. The number of attempts is
-- `GetEndorserSelectionMaxAttempts`; one below 0 is as 0.
pub record PeerFilterHandler : Type 0 where
  pub chaincode_ids : List String
  pub max_attempts : ℕ

-- What the selection service answers to the last request of a history; `none` is an error.
abbrev pub Selection : Type 0
Selection = History → Option (List String)

-- `getEndorsers` sets the chaincodes if there are none.
abbrev pub with_chaincode : String → PeerFilterHandler → PeerFilterHandler
with_chaincode chaincode_id p =
    if is_empty p.chaincode_ids then record p { chaincode_ids = chaincode_id ∷ [] } else p

module _ (selection : Selection) where
  -- The loop over the attempts.
  unfoldable pub select : ℕ → List String → History → Option (List String) × History
  select zero ids h = (some [], h)
  select (suc remaining) ids h =
      let asked = get_endorsers_for_chaincode ids ∷ h in
      elim (selection asked) [
        | none ↦ (none, asked)
        | some [] ↦ select remaining ids (sleep ∷ asked)
        | some (e ∷ es) ↦ (some (e ∷ es), asked)
      ]

  -- `Handle`, with the handler's fields after it. A chain whose later handlers have a state of their own
  -- leaves it beside the context and the history: `leave` is what is left if no later handler runs.
  module _ {Left : Type 0} (leave : RequestContext × History → Left) where
    abbrev continue : Option (RequestContext → History → Left) → RequestContext → History → Left
    continue none r h = leave (r, h)
    continue (some next) r h = next r h

    abbrev pub selected :
        Option (RequestContext → History → Left)
        → PeerFilterHandler
        → RequestContext
        → Option (List String) × History
        → PeerFilterHandler × Left
    selected next p r (none, h) = (p, leave (stop get_endorsers_error r h))
    selected next p r (some targets, h) = (p, continue next (record r { targets = targets }) h)

    unfoldable pub handle :
        Option (RequestContext → History → Left)
        → PeerFilterHandler
        → RequestContext
        → History
        → PeerFilterHandler × Left
    handle next p r h =
        if is_empty r.targets
        then (let p' : PeerFilterHandler =
              if eqb p.max_attempts 0 then p else with_chaincode r.chaincode_id p in
            selected next p' r (select p.max_attempts p'.chaincode_ids h))
        else (p, continue next r h)

-- `PreEndorsedHandler.Handle`
unfoldable pub handle_pre_endorsed :
    {Left : Type 0} → Response → (RequestContext → History → Left) → RequestContext → History → Left
handle_pre_endorsed response next r h = next (record r { response = response }) h
