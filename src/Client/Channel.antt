-- ===== src/Client/Channel.antt =====
-- What transactionsnap/pkg/client/client.go asks of the SDK's channel client: `InvokeHandler`, which runs a
-- chain of handlers on a request and runs it again after an error that its options allow.
use fabric_snaps.Common.{String, ◌≡◌, Option, none, some, List, Dict, Bool, arith}
use fabric_snaps.Config.Parse.{Bytes}
use fabric_snaps.Handler.{Response, RequestContext}
use fabric_snaps.Client.{RetryableCodes}

-- `channel.Request`
pub record ChannelRequest : Type 0 where
  pub chaincode_id : String
  pub fcn : String
  pub args : List Bytes
  pub transient_map : Dict String (Option Bytes)

-- The options of a call: `WithTargets`, `WithTargetFilter` and the codes of `WithRetry`. What
-- `WithBeforeRetry` does is counting and logging.
pub record RequestOptions : Type 0 where
  pub targets : List String
  pub target_filter : Option (String → Bool)
  pub retryable_codes : RetryableCodes

-- A chain of handlers whose handlers keep a state from run to run.
abbrev pub Chain : Type 0 → Type 0
Chain S = RequestContext → S → RequestContext × S

-- The response, unless the call fails, and the state once all runs of the chain have ended.
pub record ChannelClient : Type 1 where
  pub invoke_handler :
      (S : Type 0) → Chain S → ChannelRequest → RequestOptions → S → Option Response × S

-- The context with which a run begins.
pub record Fresh (request : ChannelRequest) (options : RequestOptions) (r : RequestContext)
    : Type 0 where
  pub chaincode_id : r.chaincode_id ≡ request.chaincode_id
  pub targets : r.targets ≡ options.targets
  pub no_error : r.error ≡ none

-- From a state the chain is run any number of times, each time with a fresh context. The call fails, or
-- returns the response of a run that leaves no error, and runs no more.
pub data Runs {S : Type 0} (chain : Chain S) (request : ChannelRequest) (options : RequestOptions)
    (out : Option Response × S) : S → Type 0 where
  gives_up : {s : S} → out ≡ (none, s) → Runs chain request options out s
  returns :
      {s : S} (r : RequestContext)
      → Fresh request options r
      → (chain r s).0.error ≡ none
      → out ≡ (some (chain r s).0.response, (chain r s).1)
      → Runs chain request options out s
  again :
      {s : S} (r : RequestContext)
      → Fresh request options r
      → Runs chain request options out (chain r s).1
      → Runs chain request options out s

-- What is documented of `InvokeHandler`.
abbrev pub RunsChain : ChannelClient → Type 1
RunsChain client =
    (S : Type 0) (chain : Chain S) (request : ChannelRequest) (options : RequestOptions) (s : S)
    → Runs chain request options (client.invoke_handler S chain request options s) s

module _ {S : Type 0} (chain : Chain S) (request : ChannelRequest) (options : RequestOptions)
    (P : S → Type 0)
    (keeps : (r : RequestContext) (s : S) → Fresh request options r → P s → P (chain r s).1) where
  -- What every run keeps holds in the end.
  pub Runs-keeps :
      {out : Option Response × S} {s : S} → Runs chain request options out s → P s → P out.1
  Runs-keeps (gives_up e) p = rw e p
  Runs-keeps {s = s} (returns r f n e) p = rw e (keeps r s f p)
  Runs-keeps {s = s} (again r f rest) p = Runs-keeps rest (keeps r s f p)

  -- A call that returns a response ends with a run that leaves no error, from a state that runs before it
  -- have left.
  pub Runs-last :
      {out : Option Response × S} {s : S} (response : Response)
      → Runs chain request options out s
      → P s
      → out.0 ≡ some response
      → (r : RequestContext) × (s' : S) × Fresh request options r
        × P s'
        × ((chain r s').0.error ≡ none)
        × (response ≡ (chain r s').0.response)
        × (out.1 ≡ (chain r s').1)
  Runs-last response (gives_up e) p q = ground (arith)
  Runs-last {s = s} response (returns r f n e) p q = (r, s, f, p, n, ground (arith), ground (arith))
  Runs-last {s = s} response (again r f rest) p q = Runs-last response rest (keeps r s f p) q
