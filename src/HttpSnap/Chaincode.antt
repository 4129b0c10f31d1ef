-- ===== src/HttpSnap/Chaincode.antt =====
-- The chaincode's entry point: httpsnap/cmd/httpsnap.go, with HandlePanic of util/utils.go. A response is
-- a payload or the code of an error. The decoding of the request is encoding/json's.
pub mod Responses
use fabric_snaps.Common.{
  String, ◌==◌, Bool, true, false, Option, none, some, List, [], ◌∷◌, if◌then◌else◌,
}
use fabric_snaps.Errors.{
  ErrorCode, Result, ok, err, panic_error, system_error, missing_required_parameter_error,
  unmarshal_error, or_err,
}
use fabric_snaps.Config.Parse.{Bytes}
use fabric_snaps.HttpSnap.Config.{HttpConfig}
use fabric_snaps.HttpSnap.Outcome.{
  Outcome, returned, failed, panicked, Proc, ◌>>=◌, ◌>>◌, ask, recode, outcome_of,
}
use fabric_snaps.HttpSnap.Platform.{Platform, NetState}
use fabric_snaps.HttpSnap.Service.{InvokeRequest}
use fabric_snaps.HttpSnap.Invocation.{invoke_request}
use fabric_snaps.HttpSnap.Setup.{ConfigSource, HttpState, new_http_service}

-- The arguments after the check of their number: the second one, which must not be empty.
unfoldable pub request_arg : List Bytes → Result Bytes
request_arg [] = err missing_required_parameter_error
request_arg (f ∷ []) = err missing_required_parameter_error
request_arg (f ∷ arg ∷ args) = if arg == "" then err missing_required_parameter_error else ok arg

-- `getHTTPSnapRequest`, with the request that `Invoke` makes of the decoded one.
unfoldable pub get_http_snap_request : (Bytes → Option InvokeRequest) → Bytes → Result InvokeRequest
get_http_snap_request unmarshal req_bytes = or_err (unmarshal req_bytes) unmarshal_error

module _ {Pool Keys : Type 0} (platform : Bool → Platform Pool Keys) (source : ConfigSource)
    (unmarshal : Bytes → Option InvokeRequest) where
  -- A call of the instance, which changes what it uses of the network.
  abbrev pub on_net : HttpConfig → InvokeRequest → Proc (HttpState Pool Keys) String
  on_net config request st =
      let (o, net) = invoke_request platform config request st.net in (o, record st { net = net })

  -- `Invoke` before the panic is handled
  unfoldable pub serve : String → List Bytes → Proc (HttpState Pool Keys) String
  serve channel_id args = do
    config ← recode system_error (new_http_service (platform false) source channel_id)
    arg ← ask (request_arg args)
    request ← ask (get_http_snap_request unmarshal arg)
    on_net config request

  -- `HandlePanic`
  abbrev pub handle_panic : Outcome String → Result String
  handle_panic (returned payload) = ok payload
  handle_panic (failed code) = err code
  handle_panic panicked = err panic_error

  -- `Invoke`
  unfoldable pub invoke_snap :
      String → List Bytes → HttpState Pool Keys → Result String × HttpState Pool Keys
  invoke_snap channel_id args st = let (o, st') = serve channel_id args st in (handle_panic o, st')
