-- ===== src/HttpSnap/Service/Accepted.antt =====
-- Which requests are accepted, and which of their headers are sent.
use fabric_snaps.Common.{
  String, eq_iff, ◌≡◌, ◌≢◌, ◌↔◌, refl, true, some, [], is_empty_iff, arith, Dict, lookup, string_eq,
  Option-cases, inl, inr, eq→≢,
}
use fabric_snaps.Errors.{ok}
use fabric_snaps.HttpSnap.Config.{HttpConfig, SchemaConfig, get_schema_config}
use fabric_snaps.HttpSnap.Platform.{Platform}
use fabric_snaps.HttpSnap.Service.{
  InvokeRequest, Invoker, content_type_header, lower_headers, validate_headers, validate_url,
  validate_json, validate, new_invoker,
}

module _ {Pool Keys : Type 0} (p : Platform Pool Keys) (config : HttpConfig) where
  abbrev pub lowered : InvokeRequest → Dict String String
  lowered request = lower_headers p request.request_headers []

  -- What a request must have: a body, an HTTPS URL, the content type JSON among its headers by their
  -- names in lower case, with a schema, and a body that is valid by this schema.
  pub record IsAcceptable (request : InvokeRequest) (schema_config : SchemaConfig) : Type 0 where
    pub url : request.request_url ≢ ""
    pub some_headers : request.request_headers ≢ []
    pub some_body : request.request_body ≢ ""
    pub content_type : lookup content_type_header (lowered request) ≡ some "application/json"
    pub scheme : p.parse_request_uri request.request_url ≡ some "https"
    pub schema : get_schema_config config "application/json" ≡ ok schema_config
    pub body : p.json_valid schema_config.request request.request_body ≡ some true

  abbrev pub accepted : InvokeRequest → SchemaConfig → Invoker
  accepted request schema_config = record {
    request = record request { request_headers = lowered request };
    schema_config = schema_config;
    headers = lowered request;
  }

  pub new_invoker_iff :
      (request : InvokeRequest) (schema_config : SchemaConfig)
      → (new_invoker p config request ≡ ok (accepted request schema_config))
        ↔ IsAcceptable request schema_config
  unfolding new_invoker validate_headers validate_url validate_json validate
  new_invoker_iff request schema_config =
      elim (Option-cases (lookup content_type_header (lowered request))) [
        | inl e ↦ ground (arith, e)
        | inr (t, e) ↦ elim (Option-cases (p.parse_request_uri request.request_url)) [
          | inl u ↦ ground (arith, u)
          | inr (scheme, u) ↦ ground (
            arith,
            e,
            u,
            eq→≢ "application/json" "" refl,
            eq_iff t "",
            eq_iff t "application/json",
            eq_iff scheme "https",
            eq_iff request.request_url "",
            eq_iff request.request_body "",
            is_empty_iff request.request_headers,
          )
        ]
      ]
