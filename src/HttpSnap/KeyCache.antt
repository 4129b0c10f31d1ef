-- ===== src/HttpSnap/KeyCache.antt =====
-- The cache of private keys: httpsnap/cmd/httpsnapservice/cache.go.
pub mod Fresh
use Prim.Native.String.{◌++◌ as concat}
use fabric_snaps.Common.{String, Bool, true, false, not, Option, none, some, if◌then◌else◌}
use fabric_snaps.Errors.{Result, ok, err, ◌>>=◌, or_err, crypto_config_error, get_key_error}
use fabric_snaps.HttpSnap.Config.{HttpConfig, is_key_cache_enabled, key_cache_refresh_interval}
use fabric_snaps.HttpSnap.Outcome.{Proc, outcome_of}
use fabric_snaps.HttpSnap.Platform.{Key, Platform, NetState}

module _ {Pool Keys : Type 0} (p : Platform Pool Keys) where
  -- `cacheKey.String`
  abbrev pub cache_key_text : String → String → String
  cache_key_text ski crypto_provider = concat (p.hex ski) (concat "_" crypto_provider)

  -- `getKeyBySKI`
  unfoldable pub get_key_by_ski : String → String → Result Key
  get_key_by_ski ski provider = do
    suite ← or_err (p.get_bccsp provider) crypto_config_error
    or_err (suite.get_key ski) get_key_error

  -- The part of `getKey` after the cache is there.
  unfoldable pub get_cached : String → String → Bool → Keys → Proc (NetState Pool Keys) Key
  get_cached ski provider reload keys s =
      let key = cache_key_text ski provider in
      let kept = if reload then p.cache_delete key keys else keys in
      let (r, keys') = p.cache_get key (get_key_by_ski ski provider) kept in
      (outcome_of r, record s { key_cache = some keys' })

  -- `getKey`
  unfoldable pub get_key : String → HttpConfig → String → Bool → Proc (NetState Pool Keys) Key
  get_key ski config provider reload s =
      if not (is_key_cache_enabled config)
      then (outcome_of (get_key_by_ski ski provider), s)
      else elim s.key_cache [
        | none ↦ get_cached ski provider false (p.new_cache (key_cache_refresh_interval config)) s
        | some keys ↦ get_cached ski provider reload keys s
      ]
