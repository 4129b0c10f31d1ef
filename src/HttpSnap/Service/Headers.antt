-- ===== src/HttpSnap/Service/Headers.antt =====
-- Which headers are sent.
use mathlib.Core.Path.{subst}
use fabric_snaps.Common.{
  String, ◌≡◌, refl, ◌⊎◌, inl, inr, true, some, List, [], ◌∷◌, if_elim, arith, All, Dict, insert,
  string_eq,
}
use fabric_snaps.HttpSnap.Config.{HttpConfig, is_header_allowed}
use fabric_snaps.HttpSnap.Platform.{Request, Platform}
use fabric_snaps.HttpSnap.Service.{InvokeRequest, set_headers, prepare_http_request}

-- The element is one of the list's.
abbrev pub Occurs : {A : Type 0} → A → List A → Type 0
Occurs a [] = ⊥
Occurs a (x ∷ xs) = (x ≡ a) ⊎ Occurs a xs

insert-All :
    {V : Type 0} (P : String × V → Type 0) (k : String) (v : V) (m : Dict String V)
    → P (k, v)
    → All P m
    → All P (insert k v m)
unfolding insert
insert-All P k v [] h hs = (h, tt)
insert-All P k v ((j, w) ∷ m) h hs =
    if_elim (All P) (string_eq.beq j k) ((k, v) ∷ m) ((j, w) ∷ insert k v m) (λ _. (h, hs.1))
      (λ _. (hs.0, insert-All P k v m h hs.1))

module _ {Pool Keys : Type 0} (p : Platform Pool Keys) (config : HttpConfig) where
  -- A header that is sent: one of the request's, with its value, whose name is allowed.
  abbrev pub IsAllowed : Dict String String → String × String → Type 0
  IsAllowed headers (k, v) =
      (name : String) × ((p.canonical name ≡ k)
        × (Occurs (name, v) headers × (is_header_allowed p.to_lower config name ≡ true)))

  set_headers-All :
      (headers rest header : Dict String String)
      → ((e : String × String) → Occurs e rest → Occurs e headers)
      → All (IsAllowed headers) header
      → All (IsAllowed headers) (set_headers p config rest header)
  unfolding set_headers
  set_headers-All headers [] header sub h = h
  set_headers-All headers ((name, value) ∷ rest) header sub h =
      set_headers-All headers rest _ (λ e occurs. sub e (inr occurs))
        (if_elim (All (IsAllowed headers)) (is_header_allowed p.to_lower config name)
          (insert (p.canonical name) value header) header
          (λ allowed.
            insert-All (IsAllowed headers) (p.canonical name) value header
              (name, (refl, (sub (name, value) (inl refl), allowed))) h)
          (λ _. h))

  abbrev post : InvokeRequest → Request
  post request = record {
    method = "POST";
    url = request.request_url;
    body = request.request_body;
    header = set_headers p config request.request_headers [];
  }

  prepared :
      (request : InvokeRequest) (req : Request)
      → prepare_http_request p config request ≡ some req
      → post request ≡ req
  unfolding prepare_http_request
  prepared request req h = ground (arith)

  -- Every header of the request that is sent is one of the invocation's, with its value, and its name is
  -- allowed by the configuration; the request is a POST of the invocation's body to its URL.
  pub prepare_http_request-IsAllowed :
      (request : InvokeRequest) (req : Request)
      → prepare_http_request p config request ≡ some req
      → (req.method ≡ "POST")
        × (req.url ≡ request.request_url)
        × (req.body ≡ request.request_body)
        × All (IsAllowed request.request_headers) req.header
  unfolding prepare_http_request
  prepare_http_request-IsAllowed request req h =
      let sent =
        set_headers-All request.request_headers request.request_headers [] (λ e occurs. occurs)
          tt in
      subst
        (λ r.
          (r.method ≡ "POST")
          × (r.url ≡ request.request_url)
          × (r.body ≡ request.request_body)
          × All (IsAllowed request.request_headers) r.header)
        (prepared request req h) (refl, refl, refl, sent)
