-- ===== src/Config/Service/Served.antt =====
-- What the service serves from its caches, and when it reports a value as new.
use fabric_snaps.Common.{
  String, eq_iff, ◌≡◌, ◌≢◌, refl, sym, ap, ◌∙◌, false, Option, none, some, List, if◌then◌else◌,
  arith, lookup, insert, lookup-insert, string_eq, eq_self, ≢→eq,
}
use fabric_snaps.Errors.{Result, ok, err, ErrorCode, system_error}
use fabric_snaps.Config.Key.{ConfigKey, string}
use fabric_snaps.Config.Key.Validity.{IsValid, config_key_to_string_of_IsValid}
use fabric_snaps.Config.Parse.{Bytes, Json}
use fabric_snaps.Config.Manager.{ConfigKv}
use fabric_snaps.Config.Service.{
  Cache, ConfigService, Peer, cache_key, cached, no_bytes, with_version, get_cache, build_cache,
  refresh_cache, get_from_cache, is_config_dirty,
}
use fabric_snaps.Config.Service.Expected.{refreshed}
use fabric_snaps.Config.Service.Refreshed.{build_cache-lookup}

-- What `GetFromCache` returns for what the cache holds.
abbrev pub served : Option (Option Bytes) → Result (Option Bytes)
served none = err system_error
served (some v) = if no_bytes v then err system_error else ok v

served_eq :
    (o : Option (Option Bytes))
    → (if no_bytes (elim o [ none ↦ none | some v ↦ v ])
        then err system_error
        else ok (elim o [ none ↦ none | some v ↦ v ]))
      ≡ served o
served_eq none = refl
served_eq (some v) = refl

refresh_cache-ok :
    (json : Json) (channel_id : String) (vs : List ConfigKv) (msp_id : String)
    (csi csi' : ConfigService)
    → refresh_cache json channel_id vs msp_id csi ≡ (ok tt, csi')
    → (cache : Cache) × (build_cache json vs ≡ ok cache)
      × (get_cache channel_id msp_id csi' ≡ some cache)
unfolding refresh_cache get_cache
refresh_cache-ok json channel_id vs msp_id csi csi' h = go (build_cache json vs) refl h
  where
    go :
        (r : Result Cache)
        → build_cache json vs ≡ r
        → ◌≡◌ {A = Result (Unit {0}) × ConfigService}
            (elim r [
              | err e ↦ (err e, csi)
              | ok cache ↦ (
                ok tt,
                record csi { cache_map = insert (cache_key channel_id msp_id) cache csi.cache_map },
              )
            ])
            (ok tt, csi')
        → (cache : Cache) × (build_cache json vs ≡ ok cache)
          × (lookup (cache_key channel_id msp_id) csi'.cache_map ≡ some cache)
    go (err e) q h = cc
    go (ok cache) q h = (
      cache,
      q,
      ap (λ x. lookup (cache_key channel_id msp_id) x.1.cache_map) (sym h)
          ∙ lookup-insert (cache_key channel_id msp_id) (cache_key channel_id msp_id) cache
              csi.cache_map
          ∙ rw (eq_self (cache_key channel_id msp_id)) refl,
    )

-- After a successful refresh of a channel and an organisation, `GetFromCache` returns, for a key of that
-- organisation that is valid once its version is filled in, what the refresh leaves under the key's
-- text, and an error if that is missing, nil or empty.
pub refresh_cache-get_from_cache :
    (json : Json) (channel_id : String) (vs : List ConfigKv) (key : ConfigKey)
    (csi csi' : ConfigService)
    → refresh_cache json channel_id vs (with_version key).msp_id csi ≡ (ok tt, csi')
    → IsValid (with_version key)
    → get_from_cache channel_id key csi' ≡ served (refreshed json (string (with_version key)) vs)
unfolding get_from_cache
refresh_cache-get_from_cache json channel_id vs key csi csi' h v =
    let (cache, e, g) = refresh_cache-ok json channel_id vs (with_version key).msp_id csi csi' h in
    let e' = config_key_to_string_of_IsValid (with_version key) v in
    let l = build_cache-lookup json vs cache e (string (with_version key)) in
    rw (get_from_cache, g, e', cached, l)
      (served_eq (refreshed json (string (with_version key)) vs))

-- A failed refresh leaves the service as it was.
pub refresh_cache-failed :
    (json : Json) (channel_id : String) (vs : List ConfigKv) (msp_id : String) (csi : ConfigService)
    (e : ErrorCode)
    → (refresh_cache json channel_id vs msp_id csi).0 ≡ err e
    → (refresh_cache json channel_id vs msp_id csi).1 ≡ csi
unfolding refresh_cache
refresh_cache-failed json channel_id vs msp_id csi e h = ground (arith)

-- A refresh of one organisation leaves what is served for the keys of the others on the channel.
pub refresh_cache-others :
    (json : Json) (channel_id : String) (vs : List ConfigKv) (msp_id : String) (csi : ConfigService)
    (channel key : String)
    → cache_key channel_id msp_id ≢ cache_key channel key
    → get_cache channel key (refresh_cache json channel_id vs msp_id csi).1
      ≡ get_cache channel key csi
unfolding refresh_cache get_cache
refresh_cache-others json channel_id vs msp_id csi channel key n = go (build_cache json vs)
  where
    go :
        (r : Result Cache)
        → lookup
            (cache_key channel key)
            (elim r as (λ r. Result (Unit {0}) × ConfigService) [
              | err e ↦ (err e, csi)
              | ok cache ↦ (
                ok tt,
                record csi { cache_map = insert (cache_key channel_id msp_id) cache csi.cache_map },
              )
            ]).1.cache_map
          ≡ lookup (cache_key channel key) csi.cache_map
    go (err e) = refl
    go (ok cache) =
        lookup-insert (cache_key channel_id msp_id) (cache_key channel key) cache csi.cache_map
        ∙ rw (≢→eq (cache_key channel_id msp_id) (cache_key channel key) n) refl

module _ (peer : Peer) where
  -- A value that is read twice in a row under one key is not reported as new the second time.
  pub is_config_dirty_twice :
      (key_str : String) (v : Option Bytes) (csi : ConfigService)
      → (is_config_dirty peer key_str v (is_config_dirty peer key_str v csi).1).0 ≡ false
  unfolding is_config_dirty
  is_config_dirty_twice key_str none csi = refl
  is_config_dirty_twice key_str (some b) csi = ground (
    arith,
    eq_iff (peer.generate_hash b) (peer.generate_hash b),
    lookup-insert key_str key_str (peer.generate_hash b) csi.config_hashes,
    eq_self key_str,
    eq_self (peer.generate_hash b),
  )
