-- ===== src/HttpSnap/Invocation/Tries.antt =====
-- How often a request is sent.
use mathlib.Core.Path.{subst}
use mathlib.Core.List.{append_assoc}
use fabric_snaps.Common.{
  ◌≡◌, refl, sym, ap, ◌∙◌, ◌⊎◌, inl, inr, Bool, true, false, some, List, [], ◌∷◌, ◌++◌, if_elim,
  arith,
}
use fabric_snaps.Errors.{ErrorCode, Result, http_client_error}
use fabric_snaps.HttpSnap.Config.{HttpConfig, is_key_cache_enabled}
use fabric_snaps.HttpSnap.Outcome.{Outcome, returned, failed, panicked, Proc, ◌>>=◌, ask, recode}
use fabric_snaps.HttpSnap.Platform.{Request, HttpResponse, Platform, NetState}
use fabric_snaps.HttpSnap.Service.{
  InvokeRequest, prepare_http_request, send_http_request, read_response,
}
use fabric_snaps.HttpSnap.Invocation.{try_again, send_twice, get_data_from_source}
use fabric_snaps.HttpSnap.Invocation.Unsent.{Once, send_http_request-Once}

recode-ask-state {ℓ κ μ} :
    {S : Type ℓ} {A : Type κ} {B : Type μ} (code : ErrorCode) (m : Proc S A) (f : A → Result B)
    (s : S)
    → ((recode code m >>= λ a. ask (f a)) s).1 ≡ (m s).1
recode-ask-state code m f s = ground (arith)

module _ {Pool Keys : Type 0} (platform : Bool → Platform Pool Keys) (config : HttpConfig) where
  -- A second try: the key cache is enabled and the first try failed.
  abbrev pub Retried : InvokeRequest → Request → NetState Pool Keys → Type 0
  Retried request req s =
      (is_key_cache_enabled config ≡ true)
      × ((code : ErrorCode) × ((send_http_request (platform false) config request req false s).0
            ≡ failed code))

  -- How often the request is handed to the network.
  abbrev pub Sent : InvokeRequest → Request → NetState Pool Keys → List Request → Type 0
  Sent request req s sent =
      (sent ≡ s.sent)
      ⊎ ((sent ≡ s.sent ++ req ∷ []) ⊎ ((sent ≡ s.sent ++ req ∷ req ∷ []) × Retried request req s))

  once :
      (request : InvokeRequest) (req : Request) (s s' : NetState Pool Keys)
      → Once req s s'
      → Sent request req s s'.sent
  once request req s s' (inl e) = inl e
  once request req s s' (inr e) = inr (inl e)

  both :
      (request : InvokeRequest) (req : Request) (s s' s'' : NetState Pool Keys)
      → Retried request req s
      → Once req s s'
      → Once req s' s''
      → Sent request req s s''.sent
  both request req s s' s'' r (inl e) (inl e') = inl (e' ∙ e)
  both request req s s' s'' r (inl e) (inr e') = inr (inl (e' ∙ ap (λ x. x ++ req ∷ []) e))
  both request req s s' s'' r (inr e) (inl e') = inr (inl (e' ∙ e))
  both request req s s' s'' r (inr e) (inr e') =
      inr (inr (e' ∙ ap (λ x. x ++ req ∷ []) e ∙ append_assoc s.sent (req ∷ []) (req ∷ []), r))

  try_again_lem :
      (request : InvokeRequest) (req : Request) (s s' : NetState Pool Keys)
      (o : Outcome HttpResponse)
      → (send_http_request (platform false) config request req false s).0 ≡ o
      → Once req s s'
      → Sent request req s (try_again platform config request req o s').1.sent
  unfolding try_again
  try_again_lem request req s s' (returned resp) e h = once request req s s' h
  try_again_lem request req s s' panicked e h = once request req s s' h
  try_again_lem request req s s' (failed code) e h =
      if_elim (λ r. Sent request req s r.1.sent) (is_key_cache_enabled config)
        (send_http_request (platform true) config request req true s') (failed code, s')
        (λ on.
          both request req s s' (send_http_request (platform true) config request req true s').1
            (on, (code, e)) h (send_http_request-Once (platform true) config request req true s'))
        (λ off. once request req s s' h)

  send_twice_lem :
      (request : InvokeRequest) (req : Request) (s : NetState Pool Keys)
      → Sent request req s (send_twice platform config request req s).1.sent
  unfolding send_twice
  send_twice_lem request req s =
      try_again_lem request req s _ _ refl
        (send_http_request-Once (platform false) config request req false s)

  -- For one invocation the request is handed to the network at most twice, and twice only if the key
  -- cache is enabled and the first try failed.
  pub get_data_from_source-Sent :
      (request : InvokeRequest) (req : Request) (s : NetState Pool Keys)
      → prepare_http_request (platform false) config request ≡ some req
      → Sent request req s (get_data_from_source platform config request s).1.sent
  unfolding get_data_from_source
  get_data_from_source-Sent request req s e =
      rw (get_data_from_source, e)
        (subst (λ x. Sent request req s x.sent)
          (sym (
            recode-ask-state http_client_error (send_twice platform config request req)
              (read_response (platform false).to_lower request) s))
          (send_twice_lem request req s))
