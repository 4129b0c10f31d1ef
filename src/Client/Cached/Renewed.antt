-- ===== src/Client/Cached/Renewed.antt =====
-- What a renewal leaves.
use mathlib.Core.Path.{subst}
use mathlib.Core.List.{append-nil}
use fabric_snaps.Common.{
  String, eq→≡, ◌≡◌, ◌≢◌, refl, sym, ◌⊎◌, inl, inr, Option, none, some, List, [], ◌∷◌, ◌++◌, arith,
  Bool-cases, eq→≢, ◌∙◌,
}
use fabric_snaps.Errors.{ErrorCode, Result, ok, err, ok_injective, Result-cases}
use fabric_snaps.Config.Parse.{Bytes}
use fabric_snaps.Client.Cached.{
  TxnConfig, CachedClient, Sdk, CacheState, build_client, close_snapshot, with_snapshot, client_org,
  new_client, close_old, after_new, unchanged, renew, check_client,
}
use fabric_snaps.Client.Cached.Made.{
  IsNew, HasOrg, taken, client_org-HasOrg, HasOrg-client_org, take_event_snapshot-taken,
  build_client-IsNew, IsNew-build_client,
}

abbrev pub to_list {ℓ} : {A : Type ℓ} → Option A → List A
to_list none = []
to_list (some a) = a ∷ []

module _ (sdk : Sdk) where
  -- What making a new client leaves: the client, and the current one, if any, is asked to close; or an error,
  -- where no new client can be made, no client is asked to close, and the snapshot of the current one is
  -- closed, if the organization is known, so that one was taken.
  abbrev pub Renewed :
      String
      → TxnConfig
      → Bytes
      → Option CachedClient
      → CacheState
      → Result CachedClient × CacheState
      → Type 0
  Renewed channel_id cfg bytes current s (ok c, s') =
      IsNew sdk channel_id cfg bytes current c
      × (s'.closed_snapshots ≡ s.closed_snapshots)
      × (s'.closing ≡ s.closing ++ to_list current)
  Renewed channel_id cfg bytes current s (err e, s') =
      ((c : CachedClient) → ¬ IsNew sdk channel_id cfg bytes current c)
      × (s'.closing ≡ s.closing)
      × ((((name : String) → ¬ HasOrg sdk cfg name) × (s'.closed_snapshots ≡ s.closed_snapshots))
          ⊎ (((name : String) × HasOrg sdk cfg name)
              × (s'.closed_snapshots ≡ s.closed_snapshots ++ to_list (taken sdk current))))

  -- The current client, if there is one, has another hash than the configuration's bytes.
  abbrev pub IsStale : Bytes → Option CachedClient → Type 0
  IsStale bytes none = Unit
  IsStale bytes (some client) = client.config_hash ≢ sdk.generate_hash bytes

  close_snapshot-closed :
      (snapshot : Option String) (s : CacheState)
      → ((close_snapshot sdk snapshot s).closing ≡ s.closing)
        × ((close_snapshot sdk snapshot s).closed_snapshots
            ≡ s.closed_snapshots ++ to_list snapshot)
  close_snapshot-closed none s = (refl, sym (append-nil s.closed_snapshots))
  close_snapshot-closed (some snapshot) s = (refl, refl)

  close_old-closing :
      (current : Option CachedClient) (s : CacheState)
      → ((close_old sdk current s).closing ≡ s.closing ++ to_list current)
        × ((close_old sdk current s).closed_snapshots ≡ s.closed_snapshots)
  close_old-closing none s = (sym (append-nil s.closing), refl)
  close_old-closing (some old) s = (refl, refl)

  module _ (channel_id : String) (cfg : TxnConfig) (bytes : Bytes)
      (current : Option CachedClient) where
    -- The end of a renewal, once the organization is known
    built-Renewed :
        (name : String) (s : CacheState)
        → client_org sdk cfg ≡ ok name
        → (r : Result CachedClient)
        → build_client sdk channel_id cfg bytes name (taken sdk current) ≡ r
        → Renewed channel_id cfg bytes current s
            (after_new sdk current (with_snapshot sdk (taken sdk current) r s))
    built-Renewed name s o (err e) b =
        let (a, closed) = close_snapshot-closed (taken sdk current) s in
        let org = client_org-HasOrg sdk cfg name o in
        (
          λ c new.
              let (name', o', c', b') = IsNew-build_client sdk channel_id cfg bytes current c new in
              let same : name ≡ name' = ok_injective (sym o ∙ o') in cc,
          a,
          inr ((name, org), closed),
        )
    built-Renewed name s o (ok c) b =
        let (closing, snapshots) = close_old-closing current s in
        (
          build_client-IsNew sdk channel_id cfg bytes current name c
              (client_org-HasOrg sdk cfg name o) b,
          snapshots,
          closing,
        )

    new_client_known :
        (name : String) (s : CacheState)
        → client_org sdk cfg ≡ ok name
        → new_client sdk channel_id cfg bytes current s
          ≡ with_snapshot sdk
              (taken sdk current)
              (build_client sdk channel_id cfg bytes name (taken sdk current))
              s
    unfolding new_client
    new_client_known name s o = rw (new_client, o, take_event_snapshot-taken sdk current) refl

    new_client_unknown :
        (e : ErrorCode) (s : CacheState)
        → client_org sdk cfg ≡ err e
        → new_client sdk channel_id cfg bytes current s ≡ (err e, s)
    unfolding new_client
    new_client_unknown e s o = rw (new_client, o) refl

    new_client-Renewed :
        (s : CacheState)
        → Renewed channel_id cfg bytes current s
            (after_new sdk current (new_client sdk channel_id cfg bytes current s))
    unfolding new_client
    new_client-Renewed s = elim (Result-cases (client_org sdk cfg)) [
      | inr (e, o) ↦
          subst (λ r. Renewed channel_id cfg bytes current s (after_new sdk current r))
            (sym (new_client_unknown e s o)) (unmade e o)
      | inl (name, o) ↦
          subst (λ r. Renewed channel_id cfg bytes current s (after_new sdk current r))
            (sym (new_client_known name s o))
            (built-Renewed name s o (build_client sdk channel_id cfg bytes name (taken sdk current))
              refl)
    ]
      where
        unmade :
            (e : ErrorCode)
            → client_org sdk cfg ≡ err e
            → Renewed channel_id cfg bytes current s (err e, s)
        unmade e o = (
          λ c new.
              let (name, o', c', b) = IsNew-build_client sdk channel_id cfg bytes current c new in
              cc,
          refl,
          inl ((λ name org. let o' = HasOrg-client_org sdk cfg name org in cc), refl),
        )

  check_client-renew :
      (channel_id : String) (cfg : TxnConfig) (bytes : Bytes) (current : Option CachedClient)
      (s : CacheState)
      → sdk.config_provider channel_id ≡ some (some cfg)
      → cfg.config_bytes ≡ some bytes
      → check_client sdk channel_id current s ≡ renew sdk channel_id cfg bytes current s
  unfolding check_client
  check_client-renew channel_id cfg bytes current s e b = ground (arith, e, b)

  -- When the configuration of a channel is there, the check of its client either keeps the current client,
  -- which has the hash of the configuration, and changes nothing; or there is none with this hash, and then
  -- it makes a new client, with the SDK that the configuration and the event snapshot of the old client give
  -- and for the local peer's organization, and asks the old one to close. If no new client can be made it
  -- gives an error, no client is asked to close, and the snapshot is closed; none is taken sdk before the
  -- organization is known.
  pub check_client-Outcome :
      (channel_id : String) (cfg : TxnConfig) (bytes : Bytes) (current : Option CachedClient)
      (s : CacheState)
      → sdk.config_provider channel_id ≡ some (some cfg)
      → cfg.config_bytes ≡ some bytes
      → ((client : CachedClient) × (current ≡ some client)
          × (client.config_hash ≡ sdk.generate_hash bytes)
          × (check_client sdk channel_id current s ≡ (ok client, s)))
        ⊎ (IsStale bytes current
            × Renewed channel_id cfg bytes current s (check_client sdk channel_id current s))
  unfolding check_client renew
  check_client-Outcome channel_id cfg bytes none s e b = inr (
    tt,
    subst (Renewed channel_id cfg bytes none s)
        (sym (check_client-renew channel_id cfg bytes none s e b))
        (new_client-Renewed channel_id cfg bytes none s),
  )
  check_client-Outcome channel_id cfg bytes (some client) s e b =
      let renews = check_client-renew channel_id cfg bytes (some client) s e b in
      elim (Bool-cases (unchanged sdk (sdk.generate_hash bytes) client)) [
        | inl same ↦ inl (
          client,
          refl,
          sym (eq→≡ (sdk.generate_hash bytes) client.config_hash same),
          renews ∙ rw same refl,
        )
        | inr changed ↦ inr (
          (λ q. eq→≢ (sdk.generate_hash bytes) client.config_hash changed (sym q)),
          subst (Renewed channel_id cfg bytes (some client) s) (sym (renews ∙ rw changed refl))
              (new_client-Renewed channel_id cfg bytes (some client) s),
        )
      ]
