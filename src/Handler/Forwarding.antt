-- ===== src/Handler/Forwarding.antt =====
-- When a transaction goes on to be committed.
use fabric_snaps.Common.{
  String, ◌==◌, eq_iff, ◌≡◌, ◌≢◌, ◌↔◌, refl, Bool, true, false, Option, none, some, List, ◌∷◌,
  arith, ◌⊎◌, inl, inr, Bool-cases,
}
use fabric_snaps.Handler.{RequestContext, History, Handler}
use fabric_snaps.Handler.WriteSet.{Namespace, NsRwSet, has_write_set}
use fabric_snaps.Handler.Ignored.{Any, Counts, DistinctNames, has_write_set_iff}
use fabric_snaps.Handler.CheckForCommit.{
  commit_on_write, ChaincodeAction, Proto, CheckForCommitHandler, needs_commit, read_responses,
  read_action, read_rw_set, commit_if_has_write_set, handle,
}

-- The first proposal response decodes to these events and this read-write set.
pub record Decodes (proto : Proto) (r : RequestContext) (action : ChaincodeAction)
    (rw_sets : List NsRwSet) : Type 0 where
  pub payload : String
  pub extension : String
  pub others : List (Option String)
  pub responses : r.response.responses ≡ some payload ∷ others
  pub extension_of : proto.unmarshal_payload payload ≡ some extension
  pub action_of : proto.unmarshal_action extension ≡ some action
  pub rw_sets_of : proto.unmarshal_rw_set action.results ≡ some rw_sets

-- A commit is called for by an event or by a write that counts.
abbrev pub CallsForCommit : List Namespace → ChaincodeAction → List NsRwSet → Type 0
CallsForCommit namespaces action rw_sets = (action.events ≢ "") ⊎ Any (Counts namespaces) rw_sets

read_responses_lem :
    (proto : Proto) (namespaces : List Namespace) (r : RequestContext) (action : ChaincodeAction)
    (rw_sets : List NsRwSet)
    → Decodes proto r action rw_sets
    → DistinctNames namespaces
    → (needed : Bool) × (read_responses proto namespaces r.response.responses ≡ needs_commit needed)
      × ((needed ≡ true) ↔ CallsForCommit namespaces action rw_sets)
unfolding read_responses
read_responses_lem proto namespaces r action rw_sets d n = elim (Bool-cases (action.events == "")) [
  | inl p ↦ (
    has_write_set namespaces rw_sets,
    rw
        (
          d.responses, read_responses, d.extension_of, read_action, d.action_of, p, read_rw_set,
          d.rw_sets_of,
        )
        refl,
    ground (arith, eq_iff action.events "", has_write_set_iff namespaces rw_sets n),
  )
  | inr p ↦ (
    true,
    rw (d.responses, read_responses, d.extension_of, read_action, d.action_of, p) refl,
    ground (arith, eq_iff action.events ""),
  )
]

-- With no callback, commit type CommitOnWrite and a proposal response that decodes, a fresh handler whose
-- configuration names each chaincode once either has an event or a write that counts, sets its flag and
-- runs the next handler on the same context, or has none and leaves the context and the flag as they are.
pub handle_on_write :
    (proto : Proto) (next : Handler) (namespaces : List Namespace) (r : RequestContext)
    (h : History) (action : ChaincodeAction) (rw_sets : List NsRwSet)
    → Decodes proto r action rw_sets
    → DistinctNames namespaces
    → (c : CheckForCommitHandler)
    → c ≡ (record {
      rw_set_ignore_name_space = namespaces;
      callback = none;
      commit_type = commit_on_write;
      should_commit = false;
    })
    → (CallsForCommit namespaces action rw_sets
        × (handle proto next c r h ≡ (record c { should_commit = true }, next r h)))
      ⊎ (¬ (CallsForCommit namespaces action rw_sets) × (handle proto next c r h ≡ (c, (r, h))))
unfolding handle commit_if_has_write_set
handle_on_write proto next namespaces r h action rw_sets d n c e =
    let (needed, q, iff) = read_responses_lem proto namespaces r action rw_sets d n in
    ground (arith)
