-- ===== src/Client/Endorsers.antt =====
-- Which peers of a channel endorse: `endorserFilter` of transactionsnap/pkg/client/client.go.
use fabric_snaps.Common.{
  String, ◌==◌, eq_iff, ◌≡◌, ◌≢◌, ◌↔◌, ◌⊎◌, Bool, true, false, not, Option, none, some, List, [],
  ◌∷◌, is_empty_iff, contains, if◌then◌else◌, arith,
}
use fabric_snaps.Membership.{PeerEndpoint, has_role, endorser_role}

-- `hasEndorserRole`; `none` is the error that the peer is not found.
unfoldable pub has_endorser_role : List PeerEndpoint → String → Option Bool
has_endorser_role [] url = none
has_endorser_role (p ∷ peers) url =
    if p.endpoint == url then some (has_role p.roles endorser_role) else has_endorser_role peers url

-- `isEndorser`
abbrev pub is_endorser : List PeerEndpoint → String → Bool
is_endorser peers url = elim (has_endorser_role peers url) [
  | none ↦ true
  | some endorser ↦ endorser
]

-- `Accept`, with the target filter if there is one.
unfoldable pub accept : List PeerEndpoint → Option (String → Bool) → String → Bool
accept peers target_filter url =
    if not (is_endorser peers url)
    then false
    else elim target_filter [ none ↦ true | some f ↦ f url ]

-- The first endpoint with the URL has roles, and none of them is that of an endorser.
abbrev pub Excluded : List PeerEndpoint → String → Type 0
Excluded [] url = ⊥
Excluded (p ∷ peers) url =
    ((p.endpoint ≡ url) × (p.roles ≢ []) × (contains p.roles endorser_role ≡ false))
    ⊎ ((p.endpoint ≢ url) × Excluded peers url)

abbrev pub Allows : Option (String → Bool) → String → Type 0
Allows none url = Unit
Allows (some f) url = f url ≡ true

not_endorser_iff :
    (peers : List PeerEndpoint) (url : String)
    → (is_endorser peers url ≡ false) ↔ Excluded peers url
unfolding has_endorser_role
not_endorser_iff [] url = ground (arith)
not_endorser_iff (p ∷ peers) url =
    ground (arith, eq_iff p.endpoint url, is_empty_iff p.roles, not_endorser_iff peers url)

-- The filter accepts a peer if and only if the first endpoint of the channel with its URL, if there is
-- one, has no roles or the role of an endorser, and the target filter, if there is one, accepts it.
pub accept_iff :
    (peers : List PeerEndpoint) (target_filter : Option (String → Bool)) (url : String)
    → (accept peers target_filter url ≡ true) ↔ (¬ (Excluded peers url) × Allows target_filter url)
unfolding accept
accept_iff peers none url = ground (arith, not_endorser_iff peers url)
accept_iff peers (some f) url = ground (arith, not_endorser_iff peers url)
