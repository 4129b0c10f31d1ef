-- ===== src/Cli/Action/Selected.antt =====
-- Which peers an action targets, and that each of them has an organisation.
use mathlib.Core.Path.{subst}
use fabric_snaps.Common.{
  String, ◌==◌, ◌≡◌, ◌≢◌, refl, sym, ◌∙◌, ap, true, false, some, List, [], ◌∷◌, ◌++◌, arith, Bool,
  ◌⊎◌, inl, inr, eq_iff, is_empty, is_empty_iff, contains, lookup, insert, lookup-insert, All,
  All-map, All-append, Option-cases, Bool-cases, string_eq, eq_self,
}
use fabric_snaps.Errors.{ok, for_each-keeps, ok_injective}
use fabric_snaps.HttpSnap.Outcome.{returned}
use fabric_snaps.Cli.{Options, Network, Sdk, peers as peer_urls}
use fabric_snaps.Cli.Action.{
  Action, include_peer, add_peer, init_target_peers_for_org, selected_org, init_target_peers,
  initialize, org_id,
}

module _ {Peer S : Type 0} (sdk : Sdk Peer S) (opts : Options) where
  -- The options select the peer with this URL, of the organisation with this MSP ID.
  abbrev pub Chosen : Network → String → String → String → Type 0
  Chosen network org msp url =
      (network.has_peer_config url ≡ true)
      × (((peer_urls opts ≢ []) × (contains (peer_urls opts) url ≡ true))
          ⊎ ((peer_urls opts ≡ []) × ((selected_org sdk opts network ≡ org) ⊎ (opts.msp_id ≡ msp))))

  -- The peer was made for a chosen URL of an organisation of the network.
  abbrev pub IsTarget : Network → Peer → Type 0
  IsTarget network p =
      (org : String) × (msp : String) × (url : String) × (lookup org network.organizations
        ≡ some msp)
      × (sdk.new_peer url msp ≡ some p)
      × Chosen network org msp url

  abbrev pub HasOrg : Action Peer → Peer → Type 0
  HasOrg a p = (org : String) × (lookup (sdk.url p) a.org_id_by_peer ≡ some org)

  pub record IsTargeted (network : Network) (a : Action Peer) : Type 0 where
    pub network_kept : a.network ≡ network
    pub targets : All (IsTarget network) a.peers
    pub orgs : All (HasOrg a) a.peers

  include_peer-Chosen :
      (network : Network) (org msp url : String)
      → include_peer sdk opts network msp url org (selected_org sdk opts network) ≡ true
      → Chosen network org msp url
  unfolding include_peer
  include_peer-Chosen network org msp url h = ground (
    arith,
    is_empty_iff (peer_urls opts),
    eq_iff (selected_org sdk opts network) org,
    eq_iff opts.msp_id msp,
  )

  insert-HasOrg :
      (a : Action Peer) (org : String) (q p : Peer)
      → HasOrg a p
      → (o : String) × (lookup (sdk.url p) (insert (sdk.url q) org a.org_id_by_peer) ≡ some o)
  insert-HasOrg a org q p (o, h) = elim (Bool-cases (sdk.url q == sdk.url p)) [
    | inl e ↦ (org, rw (lookup-insert (sdk.url q) (sdk.url p) org a.org_id_by_peer, e) refl)
    | inr e ↦ (o, rw (lookup-insert (sdk.url q) (sdk.url p) org a.org_id_by_peer, e) h)
  ]

  abbrev with_target : Action Peer → String → Peer → Action Peer
  with_target a org q = record a {
    peers = a.peers ++ q ∷ [];
    org_id_by_peer = insert (sdk.url q) org a.org_id_by_peer;
  }

  with_target-IsTargeted :
      (network : Network) (a : Action Peer) (org : String) (q : Peer)
      → IsTarget network q
      → IsTargeted network a
      → IsTargeted network (with_target a org q)
  with_target-IsTargeted network a org q target t = record {
    network_kept = t.network_kept;
    targets = All-append (IsTarget network) a.peers (q ∷ []) t.targets (target, tt);
    orgs =
        All-append (HasOrg (with_target a org q)) a.peers (q ∷ [])
          (All-map (insert-HasOrg a org q) a.peers t.orgs)
          (
            (
              org,
              rw (lookup-insert (sdk.url q) (sdk.url q) org a.org_id_by_peer, eq_self (sdk.url q))
                  refl,
            ),
            tt,
          );
  }

  add_peer-IsTargeted :
      (network : Network) (org msp url : String) (a a' : Action Peer)
      → lookup org network.organizations ≡ some msp
      → IsTargeted network a
      → add_peer sdk opts org msp (selected_org sdk opts network) url a ≡ ok a'
      → IsTargeted network a'
  unfolding add_peer
  add_peer-IsTargeted network org msp url a a' known t h = elim (Bool-cases (included a.network)) [
    | inl e ↦ elim (Option-cases (sdk.new_peer url msp)) [
      | inl n ↦ ground (arith, e, n)
      | inr (q, n) ↦ subst (IsTargeted network) (ok_injective (sym (rw (e, n) refl) ∙ h)) (
          with_target-IsTargeted network a org q
            (
              org,
              msp,
              url,
              known,
              n,
              include_peer-Chosen network org msp url
                  (subst (λ n. included n ≡ true) t.network_kept e),
            )
            t)
    ]
    | inr e ↦ subst (IsTargeted network) (ok_injective (sym (rw e refl) ∙ h)) t
  ]
    where
      included : Network → Bool
      included n = include_peer sdk opts n msp url org (selected_org sdk opts network)

  init_target_peers_for_org-IsTargeted :
      (network : Network) (org : String) (a a' : Action Peer)
      → IsTargeted network a
      → init_target_peers_for_org sdk opts (selected_org sdk opts network) org a ≡ ok a'
      → IsTargeted network a'
  unfolding init_target_peers_for_org
  init_target_peers_for_org-IsTargeted network org a a' t h =
      elim (Option-cases (a.network.peers_config org)) [
        | inl n ↦ ground (arith, n)
        | inr (urls, u) ↦ elim (Option-cases (lookup org a.network.organizations)) [
          | inl n ↦ ground (arith, u, n)
          | inr (msp, m) ↦
              for_each-keeps (IsTargeted network)
                (add_peer sdk opts org msp (selected_org sdk opts network))
                (λ url s s' i e.
                  add_peer-IsTargeted network org msp url s s'
                    (subst (λ n. lookup org n.organizations ≡ some msp) t.network_kept m) i e)
                urls a a' t (ground (arith, u, m))
        ]
      ]

  init_target_peers-IsTargeted :
      (network : Network) (a : Action Peer)
      → init_target_peers sdk opts (record { network = network; peers = []; org_id_by_peer = [] })
        ≡ ok a
      → IsTargeted network a
  unfolding init_target_peers
  init_target_peers-IsTargeted network a h =
      for_each-keeps (IsTargeted network)
        (λ e. init_target_peers_for_org sdk opts (selected_org sdk opts network) e.0)
        (λ e. init_target_peers_for_org-IsTargeted network e.0) network.organizations _ a
        (record { network_kept = refl; targets = tt; orgs = tt }) h

  pub initialize-IsTargeted :
      (a : Action Peer)
      → initialize sdk opts ≡ ok a
      → (sdk.load opts.client_config_file ≡ some a.network)
        × (opts.user ≢ "")
        × (opts.channel_id ≢ "")
        × IsTargeted a.network a
  unfolding initialize
  initialize-IsTargeted a h = elim (Option-cases (sdk.load opts.client_config_file)) [
    | inl n ↦ ground (arith, n)
    | inr (network, l) ↦
        let t = init_target_peers-IsTargeted network a (ground (arith, l)) in
        (
          l ∙ ap some (sym t.network_kept),
          ground (arith, l, eq_iff opts.user ""),
          ground (arith, l, eq_iff opts.channel_id ""),
          subst (λ n. IsTargeted n a) (sym t.network_kept) t,
        )
  ]

  -- An action that is initialised and has a target knows its organisation.
  pub org_id-returned :
      (network : Network) (a : Action Peer)
      → IsTargeted network a
      → is_empty a.peers ≡ false
      → (org : String) × (org_id sdk opts a ≡ returned org)
  unfolding org_id
  org_id-returned network a t h = go a.peers refl
    where
      go : (ps : List Peer) → a.peers ≡ ps → (org : String) × (org_id sdk opts a ≡ returned org)
      go [] e = ground (arith, e)
      go (p ∷ ps) e =
          let known : HasOrg a p = (subst (All (HasOrg a)) e t.orgs).0 in
          let k = known.1 in (known.0, ground (arith, e, k))

  -- The first target of the action has this organisation.
  abbrev pub FirstOrg : Action Peer → String → Type 0
  FirstOrg a org =
      (peer : Peer) × (rest : List Peer) × (a.peers ≡ peer ∷ rest)
      × (lookup (sdk.url peer) a.org_id_by_peer ≡ some org)

  pub org_id-FirstOrg :
      (a : Action Peer) (org : String) → org_id sdk opts a ≡ returned org → FirstOrg a org
  unfolding org_id
  org_id-FirstOrg a org h = go a.peers refl
    where
      go : (ps : List Peer) → a.peers ≡ ps → FirstOrg a org
      go [] e = ground (arith, e)
      go (p ∷ ps) e = elim (Option-cases (lookup (sdk.url p) a.org_id_by_peer)) [
        | inl n ↦ ground (arith, e, n)
        | inr (o, n) ↦ (p, ps, e, ground (arith, e, n, h))
      ]
