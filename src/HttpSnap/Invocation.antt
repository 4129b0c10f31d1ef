-- ===== src/HttpSnap/Invocation.antt =====
-- A request to the network with its second try (getDataFromSource of
-- httpsnap/cmd/httpsnapservice/httpsnapservice.go) and both ways to invoke the service (invoker.go). The
-- libraries may answer the second try differently, so there is a platform for each of the tries. The
-- body of a response is closed without an error.
pub mod Unsent
pub mod Tries
pub mod Pinned
pub mod Valid
pub mod Answers
use fabric_snaps.Common.{
  String, Bool, true, false, Option, none, some, List, [], ◌∷◌, if◌then◌else◌,
}
use fabric_snaps.Errors.{ErrorCode, Result, ok, err, validation_error, http_client_error}
use fabric_snaps.HttpSnap.Config.{HttpConfig, is_key_cache_enabled}
use fabric_snaps.HttpSnap.Outcome.{
  Outcome, returned, failed, panicked, Proc, ◌>>=◌, ◌>>◌, give, ask, recode, outcome_of,
}
use fabric_snaps.HttpSnap.Platform.{Request, HttpResponse, Platform, NetState}
use fabric_snaps.HttpSnap.Service.{
  InvokeRequest, Invoker, content_type_of, validate, new_invoker, prepare_http_request,
  send_http_request, read_response,
}

-- The channels of `InvokeAsync` with what was sent on them.
pub record Channels : Type 0 where
  pub resp_chan : List String
  pub err_chan : List ErrorCode

module _ {Pool Keys : Type 0} (platform : Bool → Platform Pool Keys) (config : HttpConfig) where
  -- The second try of `getDataFromSource`, after the result of the first one.
  unfoldable pub try_again :
      InvokeRequest → Request → Outcome HttpResponse → Proc (NetState Pool Keys) HttpResponse
  try_again request req (returned resp) s = (returned resp, s)
  try_again request req (failed code) s =
      if is_key_cache_enabled config
      then send_http_request (platform true) config request req true s
      else (failed code, s)
  try_again request req panicked s = (panicked, s)

  -- Both tries of `getDataFromSource`
  unfoldable pub send_twice : InvokeRequest → Request → Proc (NetState Pool Keys) HttpResponse
  send_twice request req s =
      let (o, s') = send_http_request (platform false) config request req false s in
      try_again request req o s'

  -- `getDataFromSource`, and `getData` around it
  unfoldable pub get_data_from_source : InvokeRequest → Proc (NetState Pool Keys) (String × String)
  get_data_from_source request = elim (prepare_http_request (platform false) config request) [
    | none ↦ (λ s. (failed validation_error, s))
    | some req ↦ recode http_client_error (send_twice request req) >>= λ resp.
        ask (read_response (platform false).to_lower request resp)
  ]

  -- `Invoke` of the invoker
  unfoldable pub invoke : Invoker → Proc (NetState Pool Keys) String
  invoke inv = do
    data_ ← get_data_from_source inv.request
    recode validation_error (
        ask (
          validate (platform false) (content_type_of inv.headers) inv.schema_config.response
            data_.1))
    give data_.1

  -- What the goroutine of `InvokeAsync` sends for the result of `getData`.
  unfoldable pub send_result : Invoker → Outcome (String × String) → Outcome Channels
  send_result inv panicked = panicked
  send_result inv (failed code) = returned (record { resp_chan = []; err_chan = code ∷ [] })
  send_result inv (returned data_) =
      elim (validate (platform false) (content_type_of inv.headers) inv.schema_config.response
        data_.1) [
          | err code ↦ returned (record { resp_chan = []; err_chan = validation_error ∷ [] })
          | ok _ ↦ returned (record { resp_chan = data_.1 ∷ []; err_chan = [] })
        ]

  -- `InvokeAsync`, once its goroutine has ended
  unfoldable pub invoke_async : Invoker → Proc (NetState Pool Keys) Channels
  invoke_async inv s = let (o, s') = get_data_from_source inv.request s in (send_result inv o, s')

  -- `HTTPServiceImpl.Invoke`
  unfoldable pub invoke_request : InvokeRequest → Proc (NetState Pool Keys) String
  invoke_request request = do inv ← ask (new_invoker (platform false) config request); invoke inv
