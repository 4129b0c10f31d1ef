-- ===== src/Config/Service/Refreshed.antt =====
-- What the cache holds after a refresh.
use fabric_snaps.Common.{
  String, ◌==◌, ◌≡◌, ◌≢◌, ≢→eq, refl, sym, ap, ◌∙◌, none, some, List, [], ◌∷◌, ◌++◌, Bool-cases,
  inl, inr, lookup, lookup-insert, Dict, Distinct, lookup_absent, string_eq, eq→≡,
}
use mathlib.Core.Path.{subst}
use fabric_snaps.Errors.{ok, system_error, or_err, for_each, >>=-eq-ok, for_each-append}
use fabric_snaps.Config.Key.{config_key_to_string}
use fabric_snaps.Config.Message.{ComponentConfig}
use fabric_snaps.Config.Parse.{Json}
use fabric_snaps.Config.Manager.{ConfigKv}
use fabric_snaps.Config.Service.{
  Cache, Building, unmarshal_value, add_version, add_config, add_component, build_cache,
}
use fabric_snaps.Config.Service.Expected.{
  last_cached, versions_of, kept, ok_inj, or_err-ok, or_else-none, merged, refreshed,
}
use fabric_snaps.Config.Service.Growth.{add_version-ok, placed, configs-Grows}

components_merged :
    (json : Json) (m : Dict String (List ComponentConfig)) (cache cache' : Cache)
    → Distinct m
    → for_each (add_component json) m cache ≡ ok cache'
    → (j : String) → lookup j cache' ≡ merged json (lookup j m) (lookup j cache)
unfolding for_each lookup add_component
components_merged json [] cache cache' d h j = ap (lookup j) (sym (ok_inj h))
components_merged json ((k, cs) ∷ m) cache cache' d h j =
    let (c₁, e₁, h₁) = >>=-eq-ok (add_component json (k, cs) cache) _ h in
    let (bytes, e₂, h₂) = >>=-eq-ok (or_err (json.marshal_components cs) system_error) _ e₁ in
    let ih = components_merged json m c₁ cache' d.1 h₁ j in
    let got = ap (lookup j) (sym (ok_inj h₂)) ∙ lookup-insert k j (some bytes) cache in
    elim (Bool-cases (k == j)) [
      | inl p ↦ rw p (
          ih
          ∙ ap (λ o. merged json o (lookup j c₁))
              (subst (λ u. lookup u m ≡ none) (eq→≡ k j p) (lookup_absent k m d.0))
          ∙ (rw p at got)
          ∙ ap some (sym (or_err-ok _ _ e₂)))
      | inr p ↦ rw p (ih ∙ ap (merged json (lookup j m)) (rw p at got))
    ]

-- A successful build of the cache from the configurations of an organisation holds under each text the
-- marshalled list of the versions of the component with that text, in the order of the configurations,
-- and under any other text the value of the last configuration with it.
pub build_cache-lookup :
    (json : Json) (vs : List ConfigKv) (cache : Cache)
    → build_cache json vs ≡ ok cache
    → (j : String) → lookup j cache ≡ refreshed json j vs
unfolding build_cache lookup
build_cache-lookup json vs cache h j =
    let (b, e₁, h₁) =
      >>=-eq-ok (for_each (add_config json) vs (record { cache = []; comp_cache = [] })) _ h in
    let g = configs-Grows json vs (record { cache = []; comp_cache = [] }) b (λ i. refl) tt e₁ in
    components_merged json b.comp_cache b.cache cache g.distinct h₁ j
    ∙ ap (λ o. merged json o (lookup j b.cache)) (g.collected j)
    ∙ ap (merged json (kept (versions_of json j vs))) (g.cached j ∙ or_else-none (last_cached j vs))

no_value_stops :
    (json : Json) (v : ConfigKv) (b : Building)
    → v.key.component_name ≢ ""
    → v.value ≡ none
    → (b' : Building) → add_config json v b ≢ ok b'
unfolding add_config add_version
no_value_stops json v b n e b' h =
    let (t, e₁, h₁) = >>=-eq-ok (config_key_to_string v.key) _ h in
    let (c, e₂, q) =
      add_version-ok json v (placed t v b) b' (rw (≢→eq v.key.component_name "" n) at h₁) in
    let absent = ap (unmarshal_value json) e in cc

-- A component whose value is nil makes the build of the cache fail.
pub build_cache-no_value :
    (json : Json) (us : List ConfigKv) (v : ConfigKv) (vs : List ConfigKv)
    → v.key.component_name ≢ ""
    → v.value ≡ none
    → (cache : Cache) → build_cache json (us ++ v ∷ vs) ≢ ok cache
unfolding build_cache for_each
build_cache-no_value json us v vs n e cache h =
    let (b, e₁, h₁) =
      >>=-eq-ok (for_each (add_config json) (us ++ v ∷ vs) (record { cache = []; comp_cache = [] }))
        _ h in
    let (b₁, e₂, h₂) =
      >>=-eq-ok (for_each (add_config json) us (record { cache = []; comp_cache = [] })) _ (
        sym (for_each-append (add_config json) us (v ∷ vs) (record { cache = []; comp_cache = [] }))
        ∙ e₁) in
    let (b₂, e₃, h₃) = >>=-eq-ok (add_config json v b₁) _ h₂ in no_value_stops json v b₁ n e b₂ e₃
