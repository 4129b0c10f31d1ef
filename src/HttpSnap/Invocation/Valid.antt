-- ===== src/HttpSnap/Invocation/Valid.antt =====
-- What is known of a response that an invocation returns.
use fabric_snaps.Common.{String, ◌==◌, ◌≡◌, ap, ◌∙◌, Bool, true, false, some, arith}
use fabric_snaps.HttpSnap.Config.{HttpConfig}
use fabric_snaps.HttpSnap.Outcome.{returned, proceed-returned}
use fabric_snaps.HttpSnap.Platform.{Platform, NetState}
use fabric_snaps.HttpSnap.Service.{Invoker, validate, validate_json, content_type_of}
use fabric_snaps.HttpSnap.Invocation.{get_data_from_source, invoke}

module _ {Pool Keys : Type 0} (platform : Bool → Platform Pool Keys) (config : HttpConfig) where
  -- A response that the invoker returns is the body that was read for its request, for the content type
  -- application/json, and is valid by the response schema of the invoker.
  pub invoke-returned :
      (inv : Invoker) (s : NetState Pool Keys) (response : String)
      → (invoke platform config inv s).0 ≡ returned response
      → ((t : String) × ((get_data_from_source platform config inv.request s).0
            ≡ returned (t, response)))
        × ((content_type_of inv.headers == "application/json") ≡ true)
        × ((platform false).json_valid inv.schema_config.response response ≡ some true)
  unfolding invoke validate validate_json
  invoke-returned inv s response h =
      let (d, e, h') =
        proceed-returned (get_data_from_source platform config inv.request s).0 _ _ h in
      let same : d.1 ≡ response = ground (arith, h') in
      ((d.0, e ∙ ap (λ b. returned (d.0, b)) same), ground (arith, h'), ground (arith, h'))
