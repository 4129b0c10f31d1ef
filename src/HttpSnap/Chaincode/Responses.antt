-- ===== src/HttpSnap/Chaincode/Responses.antt =====
-- What a successful response of the chaincode tells.
use fabric_snaps.Common.{
  String, ◌==◌, ◌≡◌, sym, ap, ◌∙◌, Bool, true, false, not, Option, some, List, arith, is_empty,
  Dict,
}
use fabric_snaps.Errors.{
  ok, err, >>=-eq-ok, missing_required_parameter_error, validation_error, system_error,
}
use fabric_snaps.Config.Parse.{Bytes}
use fabric_snaps.HttpSnap.Config.{HttpConfig, SchemaConfig, get_schema_config}
use fabric_snaps.HttpSnap.Outcome.{returned, proceed-returned, outcome_of, recode, recode-returned}
use fabric_snaps.HttpSnap.Platform.{Platform, NetState}
use fabric_snaps.HttpSnap.Service.{
  InvokeRequest, Invoker, new_invoker, require, validate_headers, validate_url, validate,
  content_type_of,
}
use fabric_snaps.HttpSnap.Certificates.{with_code}
use fabric_snaps.HttpSnap.Service.Accepted.{lowered, accepted, IsAcceptable, new_invoker_iff}
use fabric_snaps.HttpSnap.Invocation.{invoke, invoke_request}
use fabric_snaps.HttpSnap.Invocation.Valid.{invoke-returned}
use fabric_snaps.HttpSnap.Setup.{ConfigSource, HttpState, new_http_service}
use fabric_snaps.HttpSnap.Chaincode.{request_arg, get_http_snap_request, serve, invoke_snap}

module _ {Pool Keys : Type 0} (p : Platform Pool Keys) (config : HttpConfig) where
  lowered_headers :
      (request : InvokeRequest) (headers : Dict String String)
      → with_code (validate_headers p request) (err missing_required_parameter_error) ≡ ok headers
      → lowered p config request ≡ headers
  unfolding validate_headers
  lowered_headers request headers h = ground (arith)

  -- An invoker that is made has the request with its headers in lower case, and a schema.
  pub new_invoker-accepted :
      (request : InvokeRequest) (inv : Invoker)
      → new_invoker p config request ≡ ok inv
      → (schema_config : SchemaConfig) × (accepted p config request schema_config ≡ inv)
  unfolding new_invoker validate_headers
  new_invoker-accepted request inv h =
      let (_, _, h₁) =
        >>=-eq-ok (require (not (request.request_url == "")) missing_required_parameter_error) _
          h in
      let (_, _, h₂) =
        >>=-eq-ok
          (require (not (is_empty request.request_headers)) missing_required_parameter_error) _
          h₁ in
      let (headers, e, h₃) =
        >>=-eq-ok (with_code (validate_headers p request) (err missing_required_parameter_error)) _
          h₂ in
      let (_, _, h₄) =
        >>=-eq-ok (require (not (request.request_body == "")) missing_required_parameter_error) _
          h₃ in
      let (_, _, h₅) =
        >>=-eq-ok (validate_url p (record request { request_headers = headers })) _ h₄ in
      let (schema_config, _, h₆) =
        >>=-eq-ok
          (with_code (get_schema_config config (content_type_of headers)) (err validation_error)) _
          h₅ in
      let (_, _, h₇) =
        >>=-eq-ok
          (with_code
            (validate p (content_type_of headers) schema_config.request request.request_body)
            (err validation_error))
          _ h₆ in
      let made : record {
        request = record request { request_headers = headers };
        schema_config = schema_config;
        headers = headers;
      }
          ≡ inv =
        ground (arith, h₇) in
      (
        schema_config,
        ap
              (λ hs. record {
                request = record request { request_headers = hs };
                schema_config = schema_config;
                headers = hs;
              })
              (lowered_headers request headers e)
            ∙ made,
      )

module _ {Pool Keys : Type 0} (platform : Bool → Platform Pool Keys) (source : ConfigSource)
    (unmarshal : Bytes → Option InvokeRequest) where
  -- The second argument, which is not empty, is a request that is acceptable by the configuration, with a
  -- schema for its responses by which the payload is valid.
  abbrev pub Served : HttpConfig → List Bytes → String → Type 0
  Served config args payload =
      (arg : Bytes) × ((request_arg args ≡ ok arg)
        × ((request : InvokeRequest) × ((unmarshal arg ≡ some request)
              × ((schema_config : SchemaConfig) × (IsAcceptable (platform false) config request
                      schema_config
                    × ((platform false).json_valid schema_config.response payload ≡ some true))))))

  invoke_request-returned :
      (config : HttpConfig) (request : InvokeRequest) (s : NetState Pool Keys) (payload : String)
      → (invoke_request platform config request s).0 ≡ returned payload
      → (schema_config : SchemaConfig) × (IsAcceptable (platform false) config request schema_config
          × ((platform false).json_valid schema_config.response payload ≡ some true))
  unfolding invoke_request
  invoke_request-returned config request s payload h =
      let (inv, e, answered) =
        proceed-returned (outcome_of (new_invoker (platform false) config request))
          (invoke platform config) s h in
      let e' : new_invoker (platform false) config request ≡ ok inv = ground (arith, e) in
      let (schema_config, same) = new_invoker-accepted (platform false) config request inv e' in
      let (_, _, valid) = invoke-returned platform config inv s payload answered in
      (
        schema_config,
        (
          (new_invoker_iff (platform false) config request schema_config).0 (e' ∙ ap ok (sym same)),
          ap (λ i. (platform false).json_valid i.schema_config.response payload) same ∙ valid,
        ),
      )

  -- If the chaincode answers with a payload, the instance had or got a configuration, and the second
  -- argument decodes to a request that NewInvoker accepts by it (an https URL, a body, JSON for its
  -- content type and a body that is valid by the schema), and the payload is valid by the schema's part
  -- for responses.
  pub invoke_snap-Served :
      (channel_id : String) (args : List Bytes) (st : HttpState Pool Keys) (payload : String)
      → (invoke_snap platform source unmarshal channel_id args st).0 ≡ ok payload
      → (config : HttpConfig) × (((new_http_service (platform false) source channel_id st).0
            ≡ returned config)
          × Served config args payload)
  unfolding invoke_snap serve get_http_snap_request
  invoke_snap-Served channel_id args st payload h =
      let h' : (serve platform source unmarshal channel_id args st).0 ≡ returned payload =
        ground (arith, h) in
      let (config, e, h₁) =
        proceed-returned
          (recode system_error (new_http_service (platform false) source channel_id) st).0 _ _ h' in
      let (arg, e₁, h₂) = proceed-returned (outcome_of (request_arg args)) _ _ h₁ in
      let (request, e₂, h₃) =
        proceed-returned (outcome_of (get_http_snap_request unmarshal arg)) _ _ h₂ in
      let (schema_config, (acceptable, valid)) =
        invoke_request-returned config request _ payload h₃ in
      (
        config,
        (
          recode-returned system_error (new_http_service (platform false) source channel_id) st e,
          (
            arg,
            (
              ground (arith, e₁),
              (request, (ground (arith, e₂), (schema_config, (acceptable, valid)))),
            ),
          ),
        ),
      )
