-- ===== src/Handler/CheckForCommit.antt =====
-- `CheckForCommitHandler` of transactionsnap/pkg/client/handler/checkforcommit.go, which decides whether
-- an endorsed transaction goes on to be committed.
use fabric_snaps.Common.{
  String, ◌==◌, Bool, true, false, not, ◌||◌, Option, none, some, List, [], ◌∷◌, if◌then◌else◌,
}
use fabric_snaps.Handler.{
  HandlerError, endorsed_callback_error, no_proposal_response_payload, unmarshal_payload_error,
  unmarshal_action_error, unmarshal_rw_set_error, index_out_of_range, Response, RequestContext,
  History, Handler, stop,
}
use fabric_snaps.Handler.WriteSet.{Namespace, NsRwSet, has_write_set}

-- `api.CommitType`
pub data CommitType : Type 0 where
  commit_on_write commit no_commit : CommitType

-- The parts of `pb.ChaincodeAction` that the handler reads.
pub record ChaincodeAction : Type 0 where
  pub events : String
  pub results : String

-- The decoders of Fabric's messages: a payload's extension, a chaincode action, a read-write set.
pub record Proto : Type 0 where
  pub unmarshal_payload : String → Option String
  pub unmarshal_action : String → Option ChaincodeAction
  pub unmarshal_rw_set : String → Option (List NsRwSet)

-- The callback tells whether it fails. The next handler is an argument of the operations.
pub record CheckForCommitHandler : Type 0 where
  pub rw_set_ignore_name_space : List Namespace
  pub callback : Option (Response → Bool)
  pub commit_type : CommitType
  pub should_commit : Bool

-- What the first proposal response asks for: an error, or whether a commit is needed.
pub data Verdict : Type 0 where
  refused : HandlerError → Verdict
  needs_commit : Bool → Verdict

module _ (proto : Proto) where
  abbrev pub read_rw_set : List Namespace → String → Verdict
  read_rw_set namespaces results = elim (proto.unmarshal_rw_set results) [
    | none ↦ refused unmarshal_rw_set_error
    | some rw_sets ↦ needs_commit (has_write_set namespaces rw_sets)
  ]

  abbrev pub read_action : List Namespace → String → Verdict
  read_action namespaces extension = elim (proto.unmarshal_action extension) [
    | none ↦ refused unmarshal_action_error
    | some action ↦
        if not (action.events == "")
        then needs_commit true
        else read_rw_set namespaces action.results
  ]

  -- The reading part of `commitIfHasWriteSet`.
  unfoldable pub read_responses : List Namespace → List (Option String) → Verdict
  read_responses namespaces [] = refused index_out_of_range
  read_responses namespaces (none ∷ responses) = refused no_proposal_response_payload
  read_responses namespaces (some payload ∷ responses) = elim (proto.unmarshal_payload payload) [
    | none ↦ refused unmarshal_payload_error
    | some extension ↦ read_action namespaces extension
  ]

  -- The handler keeps a flag that an earlier attempt has set.
  unfoldable pub commit_if_has_write_set :
      Handler
      → CheckForCommitHandler
      → RequestContext
      → History
      → CheckForCommitHandler × (RequestContext × History)
  commit_if_has_write_set next c r h =
      elim (read_responses c.rw_set_ignore_name_space r.response.responses) [
        | refused e ↦ (c, stop e r h)
        | needs_commit needed ↦
            if c.should_commit || needed
            then (record c { should_commit = true }, next r h)
            else (c, (r, h))
      ]

  abbrev by_type :
      CommitType
      → Handler
      → CheckForCommitHandler
      → RequestContext
      → History
      → CheckForCommitHandler × (RequestContext × History)
  by_type no_commit next c r h = (c, (r, h))
  by_type commit next c r h = (c, next r h)
  by_type commit_on_write next c r h = commit_if_has_write_set next c r h

  abbrev callback_fails : Option (Response → Bool) → Response → Bool
  callback_fails none response = false
  callback_fails (some callback) response = callback response

  -- `Handle`
  unfoldable pub handle :
      Handler
      → CheckForCommitHandler
      → RequestContext
      → History
      → CheckForCommitHandler × (RequestContext × History)
  handle next c r h =
      if callback_fails c.callback r.response
      then (c, stop endorsed_callback_error r h)
      else by_type c.commit_type next c r h
