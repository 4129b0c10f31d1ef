-- ===== src/HttpSnap/KeyCache/Fresh.antt =====
-- When the key that is returned is the one that BCCSP has now.
use fabric_snaps.Common.{
  ℤ, String, ◌≡◌, refl, ap, ◌⊎◌, inl, inr, Bool, true, false, none, Bool-cases, Option-cases,
}
use fabric_snaps.Errors.{Result}
use fabric_snaps.HttpSnap.Config.{HttpConfig, is_key_cache_enabled, key_cache_refresh_interval}
use fabric_snaps.HttpSnap.Outcome.{outcome_of}
use fabric_snaps.HttpSnap.Platform.{Key, Platform, NetState}
use fabric_snaps.HttpSnap.KeyCache.{get_key_by_ski, get_cached, get_key}

-- The lazy cache asks its initializer for a key that it does not hold: it holds none when it is new, and
-- not one that was just deleted.
pub record IsLazyCache {Pool Keys : Type 0} (p : Platform Pool Keys) : Type 0 where
  pub get-new :
      (key : String) (loaded : Result Key) (refresh : ℤ)
      → (p.cache_get key loaded (p.new_cache refresh)).0 ≡ loaded
  pub get-delete :
      (key : String) (loaded : Result Key) (keys : Keys)
      → (p.cache_get key loaded (p.cache_delete key keys)).0 ≡ loaded

-- A reload is asked for, the cache is switched off, or there is no cache yet.
abbrev pub Fresh : {Pool Keys : Type 0} → HttpConfig → Bool → NetState Pool Keys → Type 0
Fresh config reload s =
    (reload ≡ true) ⊎ ((is_key_cache_enabled config ≡ false) ⊎ (s.key_cache ≡ none))

module _ {Pool Keys : Type 0} (p : Platform Pool Keys) (law : IsLazyCache p) where
  new_lem :
      (ski provider : String) (config : HttpConfig) (s : NetState Pool Keys)
      → (get_cached p ski provider false (p.new_cache (key_cache_refresh_interval config)) s).0
        ≡ outcome_of (get_key_by_ski p ski provider)
  unfolding get_cached
  new_lem ski provider config s = ap outcome_of (law.get-new _ _ _)

  reload_lem :
      (ski provider : String) (keys : Keys) (s : NetState Pool Keys)
      → (get_cached p ski provider true keys s).0 ≡ outcome_of (get_key_by_ski p ski provider)
  unfolding get_cached
  reload_lem ski provider keys s = ap outcome_of (law.get-delete _ _ _)

  -- If a reload is asked for, the cache is switched off or there is no cache yet, the result of getKey,
  -- key or error, is that of a lookup in BCCSP at this moment, whatever the cache held.
  pub get_key-Fresh :
      (ski : String) (config : HttpConfig) (provider : String) (reload : Bool)
      (s : NetState Pool Keys)
      → Fresh config reload s
      → (get_key p ski config provider reload s).0 ≡ outcome_of (get_key_by_ski p ski provider)
  unfolding get_key
  get_key-Fresh ski config provider reload s f = elim (Bool-cases (is_key_cache_enabled config)) [
    | inr off ↦ rw off refl
    | inl on ↦ elim (Option-cases s.key_cache) [
      | inl none_yet ↦ rw (on, none_yet) (new_lem ski provider config s)
      | inr (keys, held) ↦ elim f [
        | inl asked ↦ rw (on, held, asked) (reload_lem ski provider keys s)
        | inr (inl off) ↦ cc
        | inr (inr none_yet) ↦ cc
      ]
    ]
  ]
