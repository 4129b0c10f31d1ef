-- ===== src/Examples/Answers.antt =====
-- The HTTP snap's chaincode at a call.
use fabric_snaps.Common.{
  ◌≡◌, refl, ap, ◌∙◌, Bool, true, false, Option, some, List, [], ◌∷◌, lookup, insert, contains,
}
use fabric_snaps.Common.Strings.{join}
use fabric_snaps.Errors.{ok, http_client_error, system_error}
use fabric_snaps.Config.Parse.{Bytes}
use fabric_snaps.Config.Key.{config_key_to_string, validate_config_key, string}
use fabric_snaps.Config.Service
use fabric_snaps.Config.Service.{
  ConfigService, get_cache, get_config_from_ledger, is_config_dirty, new_config_service,
}
use fabric_snaps.HttpSnap.Config.{
  HttpConfig, timeout_or_default, get_schema_config, preload_entities, add_headers, add_schemas,
}
use fabric_snaps.HttpSnap.Outcome.{returned, recode, ask, ◌>>=◌}
use fabric_snaps.HttpSnap.Platform.{Certificate, Platform}
use fabric_snaps.HttpSnap.Service.{
  InvokeRequest, new_invoker, validate_headers, lower_headers, validate_url, validate,
  validate_json, send_http_request, get_http_client, read_response,
}
use fabric_snaps.HttpSnap.Tls.{verify_pin_dialer, check_pin}
use fabric_snaps.HttpSnap.Invocation.{
  send_twice, try_again, get_data_from_source, invoke, invoke_request,
}
use fabric_snaps.HttpSnap.Setup.{
  HttpState, new_http_service, new_config, read_http_config, initialize_logging, renew, initialize,
}
use fabric_snaps.HttpSnap.Chaincode.{invoke_snap, serve, request_arg, get_http_snap_request, on_net}
use fabric_snaps.HttpSnap.Chaincode.Responses.{Served, invoke_snap-Served}
use fabric_snaps.Examples.Platforms.{
  platform, config, request, net, source, http_state, Keys, response,
}
use fabric_snaps.Examples.Requests.{inv, req, first_tls, prepares, tried}

abbrev after_setup : HttpState (List Certificate) Keys
after_setup = record {
  instance_config = some config;
  net = net;
  configs =
      some (record new_config_service { config_hashes = ("Org1!!httpsnap!1!!", "yaml") ∷ [] });
}

setup :
    new_http_service (platform true) source "mychannel" http_state ≡ (returned config, after_setup)
unfolding new_http_service new_config read_http_config initialize_logging renew initialize
    Service.get get_cache get_config_from_ledger is_config_dirty preload_entities add_headers
    add_schemas config_key_to_string validate_config_key string lookup insert join
setup = refl

abbrev always : Bool → Platform (List Certificate) Keys
always b = platform true

-- The request that the second argument decodes to.
abbrev unmarshal : Bytes → Option InvokeRequest
unmarshal arg = some request

makes_invoker : new_invoker (platform true) config request ≡ ok inv
unfolding new_invoker validate_headers lower_headers validate_url validate validate_json
    get_schema_config lookup insert
makes_invoker = refl

sends :
    send_http_request (platform true) config inv.request req false net
    ≡ (returned response, tried (req ∷ []))
unfolding send_http_request get_http_client verify_pin_dialer check_pin timeout_or_default contains
sends = rw (first_tls true) refl

once : send_twice always config inv.request req net ≡ (returned response, tried (req ∷ []))
unfolding send_twice try_again
once = rw sends refl

gets :
    get_data_from_source always config inv.request net
    ≡ (returned ("application/json", "{}"), tried (req ∷ []))
unfolding get_data_from_source read_response lookup
gets =
    rw (get_data_from_source, prepares true)
      (ap
        (λ x.
          (recode http_client_error (λ s. x) >>= λ resp.
          ask (read_response (platform true).to_lower inv.request resp))
            net)
        once)

invokes : invoke always config inv net ≡ (returned "{}", tried (req ∷ []))
unfolding invoke validate validate_json lookup
invokes = rw (invoke, gets) refl

invokes_request : invoke_request always config request net ≡ (returned "{}", tried (req ∷ []))
unfolding invoke_request
invokes_request = ap (λ r. (ask r >>= invoke always config) net) makes_invoker ∙ invokes

serves :
    (serve always source unmarshal "mychannel" ("invoke" ∷ "request" ∷ []) http_state).0
    ≡ returned "{}"
unfolding serve request_arg get_http_snap_request
serves =
    ap
      (λ x.
        ((recode system_error (λ st. x) >>= λ c. on_net always source unmarshal c request)
          http_state).0)
      setup
    ∙ ap (λ x. x.0) invokes_request

answers :
    (invoke_snap always source unmarshal "mychannel" ("invoke" ∷ "request" ∷ []) http_state).0
    ≡ ok "{}"
unfolding invoke_snap
answers = rw serves refl

invoke_snap-Served_example :
    (c : HttpConfig) × (((new_http_service (platform true) source "mychannel" http_state).0
        ≡ returned c)
      × Served always source unmarshal c ("invoke" ∷ "request" ∷ []) "{}")
invoke_snap-Served_example =
    invoke_snap-Served always source unmarshal "mychannel" ("invoke" ∷ "request" ∷ []) http_state
      "{}" answers
