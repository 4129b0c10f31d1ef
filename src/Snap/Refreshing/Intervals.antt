-- ===== src/Snap/Refreshing/Intervals.antt =====
-- How often the cache is refreshed, and what a refresh asks for.
use mathlib.Core.List.{append-nil, append_assoc}
use fabric_snaps.Common.{
  String, ◌==◌, ◌≡◌, ◌≢◌, refl, sym, ◌∙◌, true, false, Option, none, some, List, [], ◌∷◌, ◌++◌,
  arith, ◌⊎◌, inl, inr, ℤ, ltz, map, Bool-cases, if_elim, eq→≡, eq→≢, ≢→eq,
}
use fabric_snaps.Errors.{Result, ok, err}
use fabric_snaps.Config.Parse.{Bytes}
use fabric_snaps.Snap.Settings.{CsccConfig, minimum_refresh_interval}
use fabric_snaps.Snap.Refreshing.{
  Action, sleep, send_refresh_request, next_interval, periodic_refresh, RefreshSource, ClientCalls,
  Query, asked, endorse_refresh, with_msps, with_peer, get_local_peer, channel_config,
  send_endorse_request, send_refresh,
}
use fabric_snaps.Handler.CheckForCommit.{commit_on_write}
use fabric_snaps.TxnService as Txn
use fabric_snaps.TxnService.{
  Call, endorse, endorse_transaction, create_endorse_tx_request, EndorseTxRequest,
}

-- Every refresh comes after a sleep of five seconds or more, which is all that the actions are.
abbrev pub Paced : List Action → Type 0
Paced [] = Unit
Paced (sleep interval ∷ []) = ltz interval minimum_refresh_interval ≡ false
Paced (sleep interval ∷ send_refresh_request ∷ actions) =
    (ltz interval minimum_refresh_interval ≡ false) × Paced actions
Paced actions = ⊥

next_interval-minimum :
    (c : Result CsccConfig) → ltz (next_interval c) minimum_refresh_interval ≡ false
unfolding next_interval
next_interval-minimum (err e) = refl
next_interval-minimum (ok c) = ground (arith)

-- The periodic refresh sends a request only after a sleep of at least five seconds, whatever interval the
-- configuration sets, if its first interval has that length, and it goes on for as long as it finds
-- configurations or errors.
pub periodic_refresh-Paced :
    (interval : ℤ) (configs : List (Result CsccConfig))
    → ltz interval minimum_refresh_interval ≡ false
    → Paced (periodic_refresh interval configs)
unfolding periodic_refresh
periodic_refresh-Paced interval [] h = h
periodic_refresh-Paced interval (c ∷ configs) h =
    (h, periodic_refresh-Paced (next_interval c) configs (next_interval-minimum c))

-- The request that is endorsed: a refresh by this peer, of the organisations with these names. It has the
-- commit type of a request that sets none, which an endorsement does not read.
abbrev pub refresh_request : Bytes → String → EndorseTxRequest
refresh_request names peer = record {
  chaincode_id = "configurationsnap";
  args = "refresh" ∷ names ∷ [];
  transient_data = [];
  targets = peer ∷ [];
  chaincode_ids = [];
  peer_filter = none;
  commit_type = commit_on_write;
  rw_set_ignore_name_space = [];
  transaction_id = "";
  nonce = "";
}

module _ (service : Txn.Service) (source : RefreshSource) (channel_id : String) where
  -- The client of the channel gives a local peer and the configuration of the channel, whose organisations have
  -- these names in JSON.
  abbrev pub IsReady : String → Bytes → Type 0
  IsReady peer names =
      (service.has_client channel_id ≡ true)
      × (channel_id ≢ "")
      × (source.local_peer ≡ some peer)
      × (configs : List Bytes) × (source.msps ≡ some configs)
      × (source.marshal_names (map source.msp_name configs) ≡ some names)

  -- No query, or for the local peer, and if this is known for the configuration of the channel
  abbrev pub Queried : List Query → Type 0
  Queried [] = service.has_client channel_id ≡ false
  Queried (get_local_peer ∷ []) =
      (service.has_client channel_id ≡ true) × (source.local_peer ≡ none)
  Queried (get_local_peer ∷ channel_config ∷ []) =
      (service.has_client channel_id ≡ true) × (source.local_peer ≢ none)
  Queried queries = ⊥

  endorse_refresh-queries :
      (peer : String) (names : Option Bytes) (s : ClientCalls)
      → (endorse_refresh service source channel_id peer names s).queries ≡ s.queries
  endorse_refresh-queries peer none s = refl
  endorse_refresh-queries peer (some names) s = refl

  with_msps-queries :
      (peer : String) (msps : Option (List Bytes)) (s : ClientCalls)
      → (with_msps service source channel_id peer msps s).queries ≡ s.queries
  with_msps-queries peer none s = refl
  with_msps-queries peer (some configs) s =
      endorse_refresh-queries peer (source.marshal_names (map source.msp_name configs)) s

  endorse_refresh_made :
      (peer : String) (names : Bytes) (s : ClientCalls)
      → channel_id ≢ ""
      → (endorse_refresh service source channel_id peer (some names) s).calls
        ≡ s.calls ++ endorse channel_id (refresh_request names peer) ∷ []
  unfolding endorse_transaction create_endorse_tx_request
  endorse_refresh_made peer names s n =
      let q = ≢→eq channel_id "" n in rw (endorse_transaction, create_endorse_tx_request, q) refl

  endorse_refresh_unmade :
      (peer : String) (names : Bytes) (s : ClientCalls)
      → (channel_id == "") ≡ true
      → (endorse_refresh service source channel_id peer (some names) s).calls ≡ s.calls
  unfolding endorse_transaction create_endorse_tx_request
  endorse_refresh_unmade peer names s q =
      rw (endorse_transaction, create_endorse_tx_request, q) refl

  -- What is to be shown of the calls, from a state on
  abbrev HasQueried : ClientCalls → ClientCalls → Type 0
  HasQueried s s' = (queries : List Query) × Queried queries × (s'.queries ≡ s.queries ++ queries)

  abbrev HasEndorsed : ClientCalls → ClientCalls → Type 0
  HasEndorsed s s' =
      (((peer : String) (names : Bytes) → ¬ IsReady peer names) × (s'.calls ≡ s.calls))
      ⊎ ((peer : String) × (names : Bytes) × IsReady peer names
          × (s'.calls ≡ s.calls ++ endorse channel_id (refresh_request names peer) ∷ []))

  with_peer-queried :
      (s : ClientCalls) (o : Option String)
      → service.has_client channel_id ≡ true
      → source.local_peer ≡ o
      → HasQueried s (with_peer service source channel_id o (asked get_local_peer s))
  with_peer-queried s none t p = (get_local_peer ∷ [], (t, p), refl)
  with_peer-queried s (some peer) t p = (
    get_local_peer ∷ channel_config ∷ [],
    (t, (λ q. cc)),
    with_msps-queries peer source.msps (asked channel_config (asked get_local_peer s))
        ∙ append_assoc s.queries (get_local_peer ∷ []) (channel_config ∷ []),
  )

  send_refresh-queried : (s : ClientCalls) → HasQueried s (send_refresh service source channel_id s)
  unfolding send_refresh send_endorse_request
  send_refresh-queried s =
      if_elim (HasQueried s) (service.has_client channel_id) _ _
        (λ t. with_peer-queried s source.local_peer t refl)
        (λ f. ([], f, sym (append-nil s.queries)))

  endorse_refresh-endorsed :
      (s : ClientCalls) (peer : String) (configs : List Bytes) (o : Option Bytes)
      → service.has_client channel_id ≡ true
      → source.local_peer ≡ some peer
      → source.msps ≡ some configs
      → source.marshal_names (map source.msp_name configs) ≡ o
      → HasEndorsed s (endorse_refresh service source channel_id peer o s)
  endorse_refresh-endorsed s peer configs none t p m j =
      inl ((λ peer' names (u, n, q, configs', r, k). unnamed configs' r k), refl)
    where
      unnamed :
          (configs' : List Bytes) {names : Bytes}
          → source.msps ≡ some configs'
          → ¬ (source.marshal_names (map source.msp_name configs') ≡ some names)
      unnamed configs' r k = cc
  endorse_refresh-endorsed s peer configs (some names) t p m j =
      elim (Bool-cases (channel_id == "")) [
        | inl e ↦ inl (
          (λ peer' names' (u, n, q, configs', r, k). n (eq→≡ channel_id "" e)),
          endorse_refresh_unmade peer names s e,
        )
        | inr e ↦
            let n = eq→≢ channel_id "" e in
            inr (peer, names, (t, n, p, configs, m, j), endorse_refresh_made peer names s n)
      ]

  with_msps-endorsed :
      (s : ClientCalls) (peer : String) (o : Option (List Bytes))
      → service.has_client channel_id ≡ true
      → source.local_peer ≡ some peer
      → source.msps ≡ o
      → HasEndorsed s (with_msps service source channel_id peer o s)
  with_msps-endorsed s peer none t p m = inl ((λ peer' names (u, n, q, configs, r, j). cc), refl)
  with_msps-endorsed s peer (some configs) t p m =
      endorse_refresh-endorsed s peer configs _ t p m refl

  with_peer-endorsed :
      (s : ClientCalls) (o : Option String)
      → service.has_client channel_id ≡ true
      → source.local_peer ≡ o
      → HasEndorsed s (with_peer service source channel_id o (asked get_local_peer s))
  with_peer-endorsed s none t p = inl ((λ peer names (u, n, q, configs, r, j). cc), refl)
  with_peer-endorsed s (some peer) t p =
      with_msps-endorsed (asked channel_config (asked get_local_peer s)) peer source.msps t p refl

  send_refresh-endorsed :
      (s : ClientCalls) → HasEndorsed s (send_refresh service source channel_id s)
  unfolding send_refresh send_endorse_request
  send_refresh-endorsed s =
      if_elim (HasEndorsed s) (service.has_client channel_id) _ _
        (λ t. with_peer-endorsed s source.local_peer t refl)
        (λ f. inl ((λ peer names (u, n, q, configs, r, j). cc), refl))

  -- A refresh request asks the client of the channel, if there is one, for the local peer and, if it is given
  -- one, for the configuration of the channel. If it is given both, the names of the channel's organisations
  -- have a JSON text, and the channel has a name, then it has one transaction endorsed: a refresh of the
  -- configuration snap, by the local peer, for these names. Otherwise it makes no call of the transaction
  -- service, and it never commits.
  pub send_refresh-AsksRefresh :
      (s : ClientCalls)
      → ((queries : List Query) × Queried queries
          × ((send_refresh service source channel_id s).queries ≡ s.queries ++ queries))
        × ((((peer : String) (names : Bytes) → ¬ IsReady peer names)
              × ((send_refresh service source channel_id s).calls ≡ s.calls))
            ⊎ ((peer : String) × (names : Bytes) × IsReady peer names
                × ((send_refresh service source channel_id s).calls
                    ≡ s.calls ++ endorse channel_id (refresh_request names peer) ∷ [])))
  send_refresh-AsksRefresh s = (send_refresh-queried s, send_refresh-endorsed s)
