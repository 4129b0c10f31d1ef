-- ===== src/Config/Service/Growth.antt =====
-- How the maps of a refresh grow over the configurations.
use fabric_snaps.Common.{
  String, ◌==◌, ◌≡◌, refl, sym, ap, ◌∙◌, true, false, Option, some, List, [], ◌∷◌, ◌++◌,
  if◌then◌else◌, arith, Bool-cases, inl, inr, lookup, insert, lookup-insert, Dict, Distinct,
  insert-Distinct, string_eq, eq→≡,
}
use mathlib.Core.Path.{subst}
use mathlib.Core.List.{append-nil, append_assoc}
use fabric_snaps.Errors.{ok, unmarshal_error, or_err, for_each, >>=-eq-ok}
use fabric_snaps.Config.Key.{string, config_key_to_string}
use fabric_snaps.Config.Key.Validity.{config_key_to_string-ok}
use fabric_snaps.Config.Message.{ComponentConfig}
use fabric_snaps.Config.Parse.{Bytes, Json}
use fabric_snaps.Config.Manager.{ConfigKv}
use fabric_snaps.Config.Service.{
  Cache, Building, versions, unmarshal_value, add_version, add_config,
}
use fabric_snaps.Config.Service.Expected.{
  or_else, last_cached, unversioned, version_of, versions_of, kept, kept_snoc, versions_of_kept,
  ok_inj, or_err-ok, or_else_assoc,
}

-- From one building to the next, over these configurations.
pub record Grows (json : Json) (vs : List ConfigKv) (b b' : Building) : Type 0 where
  pub cached : (j : String) → lookup j b'.cache ≡ or_else (last_cached j vs) (lookup j b.cache)
  pub collected :
      (j : String)
      → lookup j b'.comp_cache ≡ kept (versions j b.comp_cache ++ versions_of json j vs)
  pub distinct : Distinct b'.comp_cache

abbrev pub Kept : Building → Type 0
Kept b = (j : String) → lookup j b.comp_cache ≡ kept (versions j b.comp_cache)

insert_version :
    (t j : String) (m : Dict String (List ComponentConfig)) (c : ComponentConfig)
    → lookup j m ≡ kept (versions j m)
    → lookup j (insert t (versions t m ++ c ∷ []) m)
      ≡ kept (versions j m ++ (if t == j then c ∷ [] else []))
insert_version t j m c h = elim (Bool-cases (t == j)) [
  | inl e ↦ rw (lookup-insert, e, eq→≡ t j e) (sym (kept_snoc (versions j m) c))
  | inr e ↦ rw (lookup-insert, e, append-nil) h
]

cached_one :
    (v : ConfigKv) (j : String) (m : Cache)
    → lookup j (insert (string v.key) v.value m) ≡ or_else (last_cached j (v ∷ [])) (lookup j m)
cached_one v j m = ground (arith, lookup-insert (string v.key) j v.value m)

-- The building after a version of the component with this text is added.
abbrev with_component : String → ComponentConfig → Building → Building
with_component t c b = record b {
  comp_cache = insert t (versions t b.comp_cache ++ c ∷ []) b.comp_cache;
}

pub add_version-ok :
    (json : Json) (v : ConfigKv) (b b' : Building)
    → add_version json v b ≡ ok b'
    → (c : ComponentConfig) × (unmarshal_value json v.value ≡ some c)
      × (with_component (string (unversioned v.key)) c b ≡ b')
unfolding add_version
add_version-ok json v b b' h =
    let (t, e₁, h₁) = >>=-eq-ok (config_key_to_string (unversioned v.key)) _ h in
    let (c, e₂, h₂) = >>=-eq-ok (or_err (unmarshal_value json v.value) unmarshal_error) _ h₁ in
    let text = (config_key_to_string-ok (unversioned v.key) t e₁).1 in
    (c, or_err-ok _ _ e₂, ap (λ u. with_component u c b) (sym text) ∙ ok_inj h₂)

kept-versions :
    (b : Building) (j : String) (cs : List ComponentConfig)
    → lookup j b.comp_cache ≡ kept cs
    → lookup j b.comp_cache ≡ kept (versions j b.comp_cache)
kept-versions b j cs h = h ∙ ap kept (sym (versions_of_kept j b.comp_cache cs h))

plain_version_of :
    (json : Json) (j : String) (v : ConfigKv)
    → (v.key.component_name == "") ≡ true
    → version_of json j v ≡ []
plain_version_of json j v h = rw h refl

component_version_of :
    (json : Json) (j : String) (v : ConfigKv) (c : ComponentConfig)
    → (v.key.component_name == "") ≡ false
    → unmarshal_value json v.value ≡ some c
    → version_of json j v ≡ (if string (unversioned v.key) == j then c ∷ [] else [])
component_version_of json j v c h e = rw (h, e) refl

after_plain :
    (json : Json) (v : ConfigKv) (b : Building)
    → Kept b
    → Distinct b.comp_cache
    → (v.key.component_name == "") ≡ true
    → Grows json (v ∷ []) b (record b { cache = insert (string v.key) v.value b.cache })
after_plain json v b k d h = record {
  cached = λ j. cached_one v j b.cache;
  collected = λ j. rw (plain_version_of json j v h, append-nil) (k j);
  distinct = d;
}

after_component :
    (json : Json) (v : ConfigKv) (b : Building) (c : ComponentConfig)
    → Kept b
    → Distinct b.comp_cache
    → (v.key.component_name == "") ≡ false
    → unmarshal_value json v.value ≡ some c
    → Grows json (v ∷ []) b (
        with_component
          (string (unversioned v.key))
          c
          (record b { cache = insert (string v.key) v.value b.cache }))
after_component json v b c k d h e = record {
  cached = λ j. cached_one v j b.cache;
  collected = λ j.
      rw (component_version_of json j v c h e, append-nil)
        (insert_version (string (unversioned v.key)) j b.comp_cache c (k j));
  distinct =
      insert-Distinct (string (unversioned v.key))
        (versions (string (unversioned v.key)) b.comp_cache ++ c ∷ []) b.comp_cache d;
}

-- The building after a value is put in the cache.
abbrev pub placed : String → ConfigKv → Building → Building
placed t v b = record b { cache = insert t v.value b.cache }

after_config :
    (json : Json) (v : ConfigKv) (b b' : Building)
    → Kept b
    → Distinct b.comp_cache
    → (if v.key.component_name == ""
        then ok (placed (string v.key) v b)
        else add_version json v (placed (string v.key) v b))
      ≡ ok b'
    → Grows json (v ∷ []) b b'
after_config json v b b' k d h = elim (Bool-cases (v.key.component_name == "")) [
  | inl p ↦ subst (Grows json (v ∷ []) b) (ok_inj (rw p at h)) (after_plain json v b k d p)
  | inr p ↦
      let (c, e, q) = add_version-ok json v (placed (string v.key) v b) b' (rw p at h) in
      subst (Grows json (v ∷ []) b) q (after_component json v b c k d p e)
]

add_config-Grows :
    (json : Json) (v : ConfigKv) (b b' : Building)
    → Kept b
    → Distinct b.comp_cache
    → add_config json v b ≡ ok b'
    → Grows json (v ∷ []) b b'
unfolding add_config
add_config-Grows json v b b' k d h =
    let (t, e₁, h₁) = >>=-eq-ok (config_key_to_string v.key) _ h in
    after_config json v b b' k d (
      subst
        (λ u.
          (if v.key.component_name == ""
            then ok (placed u v b)
            else add_version json v (placed u v b))
          ≡ ok b')
        (config_key_to_string-ok v.key t e₁).1 h₁)

last_cached_cons :
    (j : String) (v : ConfigKv) (vs : List ConfigKv) (o : Option (Option Bytes))
    → or_else (last_cached j vs) (or_else (last_cached j (v ∷ [])) o)
      ≡ or_else (last_cached j (v ∷ vs)) o
last_cached_cons j v vs o = or_else_assoc (last_cached j vs) _ o

Grows-cons :
    (json : Json) (v : ConfigKv) (vs : List ConfigKv) (b b' b'' : Building)
    → Grows json (v ∷ []) b b'
    → Grows json vs b' b''
    → Grows json (v ∷ vs) b b''
Grows-cons json v vs b b' b'' g g' = record {
  cached = λ j.
      g'.cached j
      ∙ ap (or_else (last_cached j vs)) (g.cached j)
      ∙ last_cached_cons j v vs (lookup j b.cache);
  collected = λ j.
      g'.collected j
      ∙ ap (λ cs. kept (cs ++ versions_of json j vs))
          (versions_of_kept j b'.comp_cache _ (g.collected j))
      ∙ rw (append-nil, append_assoc) refl;
  distinct = g'.distinct;
}

pub configs-Grows :
    (json : Json) (vs : List ConfigKv) (b b' : Building)
    → Kept b
    → Distinct b.comp_cache
    → for_each (add_config json) vs b ≡ ok b'
    → Grows json vs b b'
unfolding for_each
configs-Grows json [] b b' k d h =
    subst (Grows json [] b) (ok_inj h)
      (record { cached = λ j. refl; collected = λ j. rw append-nil (k j); distinct = d })
configs-Grows json (v ∷ vs) b b' k d h =
    let (b₁, e₁, h₁) = >>=-eq-ok (add_config json v b) _ h in
    let g = add_config-Grows json v b b₁ k d e₁ in
    Grows-cons json v vs b b₁ b' g
      (configs-Grows json vs b₁ b' (λ j. kept-versions b₁ j _ (g.collected j)) g.distinct h₁)
