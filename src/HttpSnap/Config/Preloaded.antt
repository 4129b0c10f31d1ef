-- ===== src/HttpSnap/Config/Preloaded.antt =====
-- Which headers are allowed and which schema belongs to a content type, once the settings are loaded.
use fabric_snaps.Common.{
  String, ◌==◌, ◌≡◌, refl, ap, ◌∙◌, Bool, true, false, ◌||◌, Option, none, some, List, [], ◌∷◌, map,
  contains, if◌then◌else◌, arith, Dict, lookup, insert, lookup-insert, string_eq,
}
use fabric_snaps.Errors.{ok, or_err, missing_config_data_error}
use fabric_snaps.HttpSnap.Config.{
  SchemaConfig, HttpConfig, add_headers, add_schemas, is_header_allowed, preload_entities,
  get_schema_config,
}

-- The last schema with the content type.
unfoldable pub last_schema : String → List SchemaConfig → Option SchemaConfig → Option SchemaConfig
last_schema t [] found = found
last_schema t (sc ∷ scs) found = last_schema t scs (if sc.content_type == t then some sc else found)

add_schemas-lookup :
    (t : String) (scs : List SchemaConfig) (m : Dict String SchemaConfig)
    → lookup t (add_schemas scs m) ≡ last_schema t scs (lookup t m)
unfolding add_schemas last_schema
add_schemas-lookup t [] m = refl
add_schemas-lookup t (sc ∷ scs) m =
    add_schemas-lookup t scs (insert sc.content_type sc m)
    ∙ ap (last_schema t scs) (lookup-insert sc.content_type t sc m)

abbrev allowed_by : Option Bool → Bool
allowed_by none = false
allowed_by (some v) = v

add_headers-lookup :
    (to_lower : String → String) (name : String) (hs : List String) (m : Dict String Bool)
    → allowed_by (lookup name (add_headers to_lower hs m))
      ≡ contains (map to_lower hs) name || allowed_by (lookup name m)
unfolding add_headers contains
add_headers-lookup to_lower name [] m = refl
add_headers-lookup to_lower name (h ∷ hs) m = ground (
  arith,
  add_headers-lookup to_lower name hs (insert (to_lower h) true m),
  lookup-insert (to_lower h) name true m,
)

loaded :
    (to_lower : String → String) (c c' : HttpConfig) (hs : List String) (scs : List SchemaConfig)
    → c.http_snap_config.unmarshal_strings "headers" ≡ some hs
    → c.http_snap_config.unmarshal_schemas "schemas" ≡ some scs
    → preload_entities to_lower c ≡ ok c'
    → (c'.headers ≡ add_headers to_lower hs []) × (c'.schema_configs ≡ add_schemas scs [])
unfolding preload_entities
loaded to_lower c c' hs scs eh es h = ground (arith)

-- Once the settings are loaded, a header is allowed if and only if it is one of the configured headers
-- up to case, and the schema of a content type is the last configured one with that type, with an error
-- if there is none.
pub preload_entities_lem :
    (to_lower : String → String) (c c' : HttpConfig) (hs : List String) (scs : List SchemaConfig)
    (name content_type : String)
    → c.http_snap_config.unmarshal_strings "headers" ≡ some hs
    → c.http_snap_config.unmarshal_schemas "schemas" ≡ some scs
    → preload_entities to_lower c ≡ ok c'
    → (is_header_allowed to_lower c' name ≡ contains (map to_lower hs) (to_lower name))
      × (get_schema_config c' content_type
          ≡ or_err (last_schema content_type scs none) missing_config_data_error)
unfolding is_header_allowed get_schema_config lookup
preload_entities_lem to_lower c c' hs scs name content_type eh es h =
    let (eheaders, eschemas) = loaded to_lower c c' hs scs eh es h in
    (
      ground (arith, eheaders, add_headers-lookup to_lower (to_lower name) hs []),
      rw (eschemas, add_schemas-lookup) refl,
    )
