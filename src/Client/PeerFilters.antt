-- ===== src/Client/PeerFilters.antt =====
-- The peer filters of transactionsnap/pkg/client/peerfilter: peerfilter.go and
-- minblockheight/minblockheight.go, over the membership service's peers of a channel. strconv.ParseUint
-- is a parameter.
use text.Mathlib.Text.{find?}
use fabric_snaps.Common.{
  ℕ, String, ◌==◌, ◌≡◌, ◌≢◌, ◌≤◌, ◌↔◌, ◌⊎◌, Bool, true, Option, none, some, List, [], ◌∷◌,
  if◌then◌else◌, leb, arith, Option-cases, inl, inr,
}
use fabric_snaps.Errors.{Result, ok, err, ◌>>=◌, ◌>>◌, or_err, system_error}
use fabric_snaps.Membership.{PeerEndpoint}
use fabric_snaps.TxnService.{PeerFilterOpts}

-- The membership service, if it can be had, with the peers of a channel, and the parsing of a height.
pub record HeightSource : Type 0 where
  pub get_service : Bool
  pub get_peers_of_channel : String → Option (List PeerEndpoint)
  pub parse_uint : String → Option ℕ

-- The struct `peerFilter`
pub record HeightFilter : Type 0 where
  pub channel_id : String
  pub height : ℕ

-- The loop of `getBlockHeight`: the first endpoint that the URL contains.
unfoldable pub find_height : List PeerEndpoint → String → ℕ
find_height [] url = 0
find_height (e ∷ endpoints) url = elim (find? url e.endpoint) [
  | none ↦ find_height endpoints url
  | some _ ↦ e.ledger_height
]

module _ (source : HeightSource) where
  -- `getBlockHeight`
  unfoldable pub get_block_height : HeightFilter → String → ℕ
  get_block_height f url = elim (source.get_peers_of_channel f.channel_id) [
    | none ↦ 0
    | some endpoints ↦ find_height endpoints url
  ]

  -- `Accept`
  unfoldable pub accept : HeightFilter → String → Bool
  accept f url = leb f.height (get_block_height f url)

  -- `New` of minblockheight
  unfoldable pub new_height_filter : List String → Result HeightFilter
  new_height_filter (channel_id ∷ min_height ∷ args) = do
    height ← or_err (source.parse_uint min_height) system_error
    if source.get_service then ok tt else err system_error
    ok (record { channel_id = channel_id; height = height })
  new_height_filter args = err system_error

  -- `New` of peerfilter, for options that are not nil; the constant is `MinBlockHeightPeerFilterType`.
  unfoldable pub new_peer_filter : PeerFilterOpts → Result HeightFilter
  new_peer_filter opts =
      if opts.filter_type == "MinBlockHeight" then new_height_filter opts.args else err system_error

  -- The first endpoint that the URL contains has at least this height.
  abbrev pub HighEnough : ℕ → List PeerEndpoint → String → Type 0
  HighEnough height [] url = height ≡ 0
  HighEnough height (e ∷ endpoints) url =
      ((find? url e.endpoint ≢ none) × (height ≤ e.ledger_height))
      ⊎ ((find? url e.endpoint ≡ none) × HighEnough height endpoints url)

  find_height_iff :
      (height : ℕ) (endpoints : List PeerEndpoint) (url : String)
      → (leb height (find_height endpoints url) ≡ true) ↔ HighEnough height endpoints url
  unfolding find_height
  find_height_iff height [] url = ground (arith)
  find_height_iff height (e ∷ endpoints) url = elim (Option-cases (find? url e.endpoint)) [
    | inl p ↦ rw p (ground (arith, find_height_iff height endpoints url))
    | inr (n, p) ↦ rw p (ground (arith))
  ]

  -- A filter that is made of options accepts a peer if and only if, among the peers of the channel that the
  -- options' first argument names, the first endpoint that the peer's URL contains has at least the height
  -- that their second argument is parsed to, or that height is 0 and no endpoint is in the URL.
  pub accept-HighEnough :
      (opts : PeerFilterOpts) (f : HeightFilter) (channel_id min_height : String)
      (args : List String) (height : ℕ) (endpoints : List PeerEndpoint) (url : String)
      → new_peer_filter opts ≡ ok f
      → opts.args ≡ channel_id ∷ min_height ∷ args
      → source.parse_uint min_height ≡ some height
      → source.get_peers_of_channel channel_id ≡ some endpoints
      → (accept f url ≡ true) ↔ HighEnough height endpoints url
  unfolding accept get_block_height new_peer_filter new_height_filter
  accept-HighEnough opts f channel_id min_height args height endpoints url h a p e =
      let made : f ≡ record { channel_id = channel_id; height = height } =
        ground (arith, a, p, h) in
      rw (made, accept, get_block_height, e) (find_height_iff height endpoints url)
