-- ===== src/HttpSnap/Service.antt =====
-- The service: the checks of a request and what is sent for it, of
-- httpsnap/cmd/httpsnapservice/httpsnapservice.go. Metrics, locks and logging are left out.
pub mod Accepted
pub mod Headers
use text.Mathlib.Text.{find?}
use fabric_snaps.Common.{
  ℕ, String, ◌==◌, Bool, true, false, not, Option, none, some, List, [], ◌∷◌, ◌++◌, is_empty,
  if◌then◌else◌, eqb, Dict, lookup, insert, string_eq,
}
use fabric_snaps.Errors.{
  ErrorCode, Result, ok, err, ◌>>=◌ as bind, missing_required_parameter_error, validation_error,
  http_client_error, system_error,
}
use fabric_snaps.HttpSnap.Config.{
  HttpConfig, SchemaConfig, is_header_allowed, get_schema_config, is_key_cache_enabled,
  timeout_or_default, global_timeout, transport_tls_handshake, transport_response_header,
  transport_expect_continue, transport_idle_conn,
}
use fabric_snaps.HttpSnap.Outcome.{
  Outcome, returned, failed, panicked, Proc, ◌>>=◌, ◌>>◌, give, ask, recode, outcome_of,
}
use fabric_snaps.HttpSnap.Platform.{
  HttpClient, Request, HttpResponse, TlsConfig, Dialer, Platform, NetState,
}
use fabric_snaps.HttpSnap.Tls.{get_tls_config, verify_pin_dialer}
use fabric_snaps.HttpSnap.Certificates.{with_code}

-- `HTTPServiceInvokeRequest`, without the ID that is logged. The headers stand in the order in which the
-- code ranges over them.
pub record InvokeRequest : Type 0 where
  pub request_url : String
  pub request_headers : Dict String String
  pub request_body : String
  pub named_client : String
  pub pin_set : List String

-- The struct `invoker`
pub record Invoker : Type 0 where
  pub request : InvokeRequest
  pub schema_config : SchemaConfig
  pub headers : Dict String String

-- The constant `contentType`
abbrev pub content_type_header : String
content_type_header = "content-type"

-- `headers[contentType]`
abbrev pub content_type_of : Dict String String → String
content_type_of headers = elim (lookup content_type_header headers) [ none ↦ "" | some v ↦ v ]

abbrev pub require : Bool → ErrorCode → Result (Unit {0})
require true e = ok tt
require false e = err e

module _ {Pool Keys : Type 0} (p : Platform Pool Keys) where
  -- The loop of `validateHeaders`
  unfoldable pub lower_headers : Dict String String → Dict String String → Dict String String
  lower_headers [] headers = headers
  lower_headers ((name, value) ∷ rest) headers =
      lower_headers rest (insert (p.to_lower name) value headers)

  -- `validateHeaders`
  unfoldable pub validate_headers : InvokeRequest → Result (Dict String String)
  validate_headers request =
      let headers = lower_headers request.request_headers [] in
      elim (lookup content_type_header headers) [
        | none ↦ err missing_required_parameter_error
        | some val ↦ if val == "" then err missing_required_parameter_error else ok headers
      ]

  -- `validateURL`
  unfoldable pub validate_url : InvokeRequest → Result (Unit {0})
  validate_url request = elim (p.parse_request_uri request.request_url) [
    | none ↦ err validation_error
    | some scheme ↦ require (scheme == "https") validation_error
  ]

  -- `validateJSON`
  unfoldable pub validate_json : String → String → Result (Unit {0})
  validate_json json_schema json_str = elim (p.json_valid json_schema json_str) [
    | none ↦ err validation_error
    | some valid ↦ require valid validation_error
  ]

  -- `validate`
  unfoldable pub validate : String → String → String → Result (Unit {0})
  validate content_type schema body =
      if content_type == "application/json" then validate_json schema body else err validation_error

  -- `NewInvoker`
  unfoldable pub new_invoker : HttpConfig → InvokeRequest → Result Invoker
  new_invoker config request =
      bind (require (not (request.request_url == "")) missing_required_parameter_error) (λ _.
        bind (require (not (is_empty request.request_headers)) missing_required_parameter_error)
          (λ _.
            bind (with_code (validate_headers request) (err missing_required_parameter_error))
              (λ headers.
                bind (require (not (request.request_body == "")) missing_required_parameter_error)
                  (λ _. bind (validate_url (record request { request_headers = headers })) (λ _.
                    bind
                      (with_code (get_schema_config config (content_type_of headers))
                        (err validation_error))
                      (λ schema_config.
                        bind
                          (with_code
                            (validate (content_type_of headers) schema_config.request
                              request.request_body)
                            (err validation_error))
                          (λ _. ok (record {
                            request = record request { request_headers = headers };
                            schema_config = schema_config;
                            headers = headers;
                          }))))))))

  -- The loop of `prepareHTTPRequest` over the headers.
  unfoldable pub set_headers :
      HttpConfig → Dict String String → Dict String String → Dict String String
  set_headers config [] header = header
  set_headers config ((name, value) ∷ rest) header = set_headers config rest (
      if is_header_allowed p.to_lower config name
      then insert (p.canonical name) value header
      else header)

  -- `prepareHTTPRequest`
  unfoldable pub prepare_http_request : HttpConfig → InvokeRequest → Option Request
  prepare_http_request config request =
      if not (p.valid_url request.request_url)
      then none
      else some (record {
        method = "POST";
        url = request.request_url;
        body = request.request_body;
        header = set_headers config request.request_headers [];
      })

  -- The transport's dialer: only with pins.
  abbrev pub pin_dialer : TlsConfig → HttpConfig → InvokeRequest → Option Dialer
  pin_dialer tls_config config request =
      if is_empty request.pin_set
      then none
      else some (verify_pin_dialer p tls_config request.pin_set config)

  -- `getHTTPClient`
  unfoldable pub get_http_client :
      HttpConfig → InvokeRequest → Bool → Proc (NetState Pool Keys) HttpClient
  get_http_client config request force_reload = do
    tls_config ← get_tls_config p request.named_client config force_reload
    give (record {
      client_timeout = timeout_or_default config global_timeout;
      tls_handshake_timeout = timeout_or_default config transport_tls_handshake;
      response_header_timeout = timeout_or_default config transport_response_header;
      expect_continue_timeout = timeout_or_default config transport_expect_continue;
      idle_conn_timeout = timeout_or_default config transport_idle_conn;
      tls_client_config = tls_config;
      dial_tls = pin_dialer tls_config config request;
    })

  -- `client.Do(req)`
  abbrev pub do_sent : Request → HttpClient → Proc (NetState Pool Keys) HttpResponse
  do_sent req client s = (
    elim (p.do_request client req) [ none ↦ failed http_client_error | some resp ↦ returned resp ],
    record s { sent = s.sent ++ req ∷ [] },
  )

  -- `sendHTTPRequest` of `getDataFromSource`
  unfoldable pub send_http_request :
      HttpConfig → InvokeRequest → Request → Bool → Proc (NetState Pool Keys) HttpResponse
  send_http_request config request req reload =
      get_http_client config request reload >>= do_sent req

-- The part of `getDataFromSource` after the response is there: its content type and its body.
unfoldable pub read_response :
    (String → String) → InvokeRequest → HttpResponse → Result (String × String)
read_response to_lower request resp =
    let response_content_type = resp.get_header content_type_header in
    if not (eqb resp.status_code 200)
    then err http_client_error
    else elim (find? (to_lower response_content_type)
        (to_lower (content_type_of request.request_headers))) [
          | none ↦ err validation_error
          | some _ ↦ elim resp.read_all [
            | none ↦ err system_error
            | some contents ↦ ok (response_content_type, contents)
          ]
        ]
