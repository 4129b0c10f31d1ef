-- ===== src/Config/Service/Expected.antt =====
-- What a refresh should leave in the cache, described from the configurations.
use fabric_snaps.Common.{
  String, ◌==◌, ◌≡◌, refl, ap, Option, none, some, List, [], ◌∷◌, ◌++◌, if◌then◌else◌, lookup, Dict,
  string_eq,
}
use fabric_snaps.Errors.{Result, ok, err, ErrorCode, or_err}
use fabric_snaps.Config.Key.{ConfigKey, string}
use fabric_snaps.Config.Message.{ComponentConfig}
use fabric_snaps.Config.Parse.{Bytes, Json}
use fabric_snaps.Config.Manager.{ConfigKv}
use fabric_snaps.Config.Service.{versions, unmarshal_value}

abbrev pub or_else : {A : Type 0} → Option A → Option A → Option A
or_else (some b) o = some b
or_else none o = o

-- The value of the last configuration whose key has this text.
abbrev pub last_cached : String → List ConfigKv → Option (Option Bytes)
last_cached j [] = none
last_cached j (v ∷ vs) =
    or_else (last_cached j vs) (if string v.key == j then some v.value else none)

abbrev pub unversioned : ConfigKey → ConfigKey
unversioned k = record k { component_version = "" }

abbrev one_version : Option ComponentConfig → List ComponentConfig
one_version none = []
one_version (some c) = c ∷ []

-- The version that a configuration adds to the component that has this text for its key without a
-- version, if it is one of it.
abbrev pub version_of : Json → String → ConfigKv → List ComponentConfig
version_of json j v =
    if v.key.component_name == ""
    then []
    else if string (unversioned v.key) == j
    then one_version (unmarshal_value json v.value)
    else []

-- All the versions of that component, in their order.
abbrev pub versions_of : Json → String → List ConfigKv → List ComponentConfig
versions_of json j [] = []
versions_of json j (v ∷ vs) = version_of json j v ++ versions_of json j vs

-- A component is kept in the second map once it has a version.
abbrev pub kept : List ComponentConfig → Option (List ComponentConfig)
kept [] = none
kept (c ∷ cs) = some (c ∷ cs)

pub kept_snoc :
    (cs : List ComponentConfig) (c : ComponentConfig) → kept (cs ++ c ∷ []) ≡ some (cs ++ c ∷ [])
kept_snoc [] c = refl
kept_snoc (d ∷ cs) c = refl

pub versions_of_kept :
    (j : String) (m : Dict String (List ComponentConfig)) (cs : List ComponentConfig)
    → lookup j m ≡ kept cs
    → versions j m ≡ cs
versions_of_kept j m [] h = rw (versions, h) refl
versions_of_kept j m (c ∷ cs) h = rw (versions, h) refl

value_or : {A : Type 0} → A → Result A → A
value_or a (ok b) = b
value_or a (err e) = a

pub ok_inj : {A : Type 0} {a b : A} → ok a ≡ ok b → a ≡ b
unfolding value_or
ok_inj {a} h = ap (value_or a) h

pub or_err-ok : {A : Type 0} (o : Option A) (e : ErrorCode) {a : A} → or_err o e ≡ ok a → o ≡ some a
or_err-ok (some a) e h = ap some (ok_inj h)
or_err-ok none e h = cc

pub or_else_assoc :
    {A : Type 0} (a b c : Option A) → or_else a (or_else b c) ≡ or_else (or_else a b) c
or_else_assoc (some x) b c = refl
or_else_assoc none b c = refl

pub or_else-none : {A : Type 0} (a : Option A) → or_else a none ≡ a
or_else-none (some x) = refl
or_else-none none = refl

-- A component's versions replace what the cache has under its key.
abbrev pub merged :
    Json → Option (List ComponentConfig) → Option (Option Bytes) → Option (Option Bytes)
merged json none o = o
merged json (some cs) o = some (json.marshal_components cs)

-- What a refresh leaves in a cache for a key's text: the versions of the component that has this text
-- for its key without a version, and else the value of the last configuration with this text.
abbrev pub refreshed : Json → String → List ConfigKv → Option (Option Bytes)
refreshed json j vs = merged json (kept (versions_of json j vs)) (last_cached j vs)
