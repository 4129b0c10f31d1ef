-- ===== src/HttpSnap/Invocation/Answers.antt =====
-- What an invocation returns, synchronously and asynchronously.
use fabric_snaps.Common.{String, ◌≡◌, Bool, [], ◌∷◌, arith}
use fabric_snaps.HttpSnap.Config.{HttpConfig}
use fabric_snaps.HttpSnap.Outcome.{Outcome, returned, failed, panicked}
use fabric_snaps.HttpSnap.Platform.{Platform, NetState}
use fabric_snaps.HttpSnap.Service.{Invoker}
use fabric_snaps.HttpSnap.Invocation.{Channels, invoke, invoke_async, send_result}

-- A response is the one message on its channel, an error on the other.
abbrev pub channels_of : Outcome String → Outcome Channels
channels_of (returned response) = returned (record { resp_chan = response ∷ []; err_chan = [] })
channels_of (failed code) = returned (record { resp_chan = []; err_chan = code ∷ [] })
channels_of panicked = panicked

module _ {Pool Keys : Type 0} (platform : Bool → Platform Pool Keys) (config : HttpConfig) where
  -- InvokeAsync does to the state what Invoke does and sends what Invoke returns: the response as the
  -- only message on the response channel, or the error as the only one on the error channel.
  pub invoke_async-invoke :
      (inv : Invoker) (s : NetState Pool Keys)
      → invoke_async platform config inv s
        ≡ (channels_of (invoke platform config inv s).0, (invoke platform config inv s).1)
  unfolding invoke_async invoke send_result
  invoke_async-invoke inv s = ground (arith)
