-- ===== src/Client/Cached/Made.antt =====
-- Which clients can be made from a configuration.
use mathlib.Core.Path.{subst}
use fabric_snaps.Common.{
  String, ◌≡◌, ◌≢◌, ◌↔◌, true, eq_iff, refl, ◌⊎◌, Option, none, some, List, [], ◌∷◌, arith,
  if◌then◌else◌,
}
use fabric_snaps.Errors.{ErrorCode, ok, err, or_err, general_error, >>=-eq-ok, ok_injective}
use fabric_snaps.Config.Parse.{Bytes}
use fabric_snaps.Client.Cached.{
  TxnConfig, CachedClient, Sdk, take_event_snapshot, new_sdk, build_client, find_org, get_org_name,
  client_org,
}

or_err-ok : {A : Type 0} (o : Option A) (e : ErrorCode) {a : A} → or_err o e ≡ ok a → o ≡ some a
or_err-ok none e h = cc
or_err-ok (some a) e h = cc

module _ (sdk : Sdk) where
  -- The first organization with the MSP ID has this name.
  abbrev pub FirstOrg : List (String × String) → String → String → Type 0
  FirstOrg [] msp_id name = ⊥
  FirstOrg ((n, m) ∷ orgs) msp_id name =
      ((m ≡ msp_id) × (n ≡ name)) ⊎ ((m ≢ msp_id) × FirstOrg orgs msp_id name)

  -- The organization of the local peer has this name, which is not empty.
  abbrev pub HasOrg : TxnConfig → String → Type 0
  HasOrg cfg name =
      (orgs : List (String × String)) × (msp_id : String) × (cfg.organizations ≡ some orgs)
      × (cfg.get_local_peer ≡ ok msp_id)
      × FirstOrg orgs msp_id name
      × (name ≢ "")

  -- The snapshot that is taken of the current client
  abbrev pub taken : Option CachedClient → Option String
  taken none = none
  taken (some old) = sdk.transfer old

  -- The client is a new one for the channel, with the hash of the configuration's bytes and the snapshot of
  -- the current client: the SDK was made with the cryptographic provider and the snapshot, and gave a context
  -- of the channel, for the local peer's organization, and a channel client.
  abbrev pub IsNew : String → TxnConfig → Bytes → Option CachedClient → CachedClient → Type 0
  IsNew channel_id cfg bytes current c =
      (c.channel_id ≡ channel_id)
      × (c.config_hash ≡ sdk.generate_hash bytes)
      × (c.snapshot ≡ taken current)
      × (name : String) × (provider : String) × HasOrg cfg name
      × (cfg.crypto_provider ≡ some provider)
      × (sdk.new_sdk channel_id cfg provider (taken current) ≡ some c.sdk)
      × (sdk.channel_context c.sdk channel_id name ≡ true)
      × (sdk.new_channel_client c.sdk channel_id ≡ true)

  find_org-FirstOrg :
      (orgs : List (String × String)) (msp_id name : String)
      → name ≢ ""
      → (find_org orgs msp_id ≡ name) ↔ FirstOrg orgs msp_id name
  unfolding find_org
  find_org-FirstOrg [] msp_id name n = ground (arith)
  find_org-FirstOrg ((m, i) ∷ orgs) msp_id name n =
      ground (arith, eq_iff i msp_id, find_org-FirstOrg orgs msp_id name n)

  pub client_org-HasOrg :
      (cfg : TxnConfig) (name : String) → client_org sdk cfg ≡ ok name → HasOrg cfg name
  unfolding client_org get_org_name
  client_org-HasOrg cfg name h =
      let (orgs, o, h₁) = >>=-eq-ok (or_err cfg.organizations general_error) _ h in
      let (msp_id, m, h₂) = >>=-eq-ok cfg.get_local_peer _ h₁ in
      let found : find_org orgs msp_id ≡ name = ground (arith, h₂) in
      let n : name ≢ "" = ground (arith, h₂, eq_iff (find_org orgs msp_id) "", found) in
      (
        orgs,
        msp_id,
        or_err-ok cfg.organizations general_error o,
        m,
        (find_org-FirstOrg orgs msp_id name n).0 found,
        n,
      )

  pub HasOrg-client_org :
      (cfg : TxnConfig) (name : String) → HasOrg cfg name → client_org sdk cfg ≡ ok name
  unfolding client_org get_org_name
  HasOrg-client_org cfg name (orgs, msp_id, o, m, first, n) =
      let found = (find_org-FirstOrg orgs msp_id name n).1 first in
      ground (arith, o, m, found, eq_iff name "", n)

  pub take_event_snapshot-taken :
      (current : Option CachedClient) → take_event_snapshot sdk current ≡ taken current
  unfolding take_event_snapshot
  take_event_snapshot-taken none = refl
  take_event_snapshot-taken (some old) = refl

  module _ (channel_id : String) (cfg : TxnConfig) (bytes : Bytes)
      (current : Option CachedClient) where
    pub build_client-IsNew :
        (name : String) (c : CachedClient)
        → HasOrg cfg name
        → build_client sdk channel_id cfg bytes name (taken current) ≡ ok c
        → IsNew channel_id cfg bytes current c
    unfolding build_client new_sdk
    build_client-IsNew name c org h =
        let (id, e, h₁) = >>=-eq-ok (new_sdk sdk channel_id cfg (taken current)) _ h in
        let (u, x, h₂) =
          >>=-eq-ok (if sdk.channel_context id channel_id name then ok tt else err general_error) _
            h₁ in
        let (v, y, h₃) =
          >>=-eq-ok (if sdk.new_channel_client id channel_id then ok tt else err general_error) _
            h₂ in
        let (provider, p, n) = >>=-eq-ok (or_err cfg.crypto_provider general_error) _ e in
        subst (IsNew channel_id cfg bytes current) (ok_injective h₃) (
          refl,
          refl,
          refl,
          name,
          provider,
          org,
          or_err-ok cfg.crypto_provider general_error p,
          or_err-ok _ general_error n,
          ground (arith, x),
          ground (arith, y),
        )

    pub IsNew-build_client :
        (c : CachedClient)
        → IsNew channel_id cfg bytes current c
        → (name : String) × (client_org sdk cfg ≡ ok name)
          × (c' : CachedClient) × (build_client sdk channel_id cfg bytes name (taken current)
              ≡ ok c')
    unfolding build_client new_sdk
    IsNew-build_client c (i, hash, snap, name, provider, org, p, made, context, client) = (
      name,
      HasOrg-client_org cfg name org,
      record {
        channel_id = channel_id;
        sdk = c.sdk;
        config_hash = sdk.generate_hash bytes;
        snapshot = taken current;
      },
      ground (arith, p, made, context, client),
    )
