-- ===== src/Membership/Chaincode/Answered.antt =====
-- What a successful response of the membership snap's chaincode tells.
use fabric_snaps.Common.{
  String, ◌==◌, ◌≡◌, true, Option, none, some, List, [], ◌∷◌, arith, refl, inl, inr, ◌⊎◌, ◌≢◌,
  eq_iff, Bool-cases,
}
use fabric_snaps.Errors.{Result-cases, ok}
use fabric_snaps.Config.Parse.{Bytes}
use fabric_snaps.Membership.{PeerEndpoint}
use fabric_snaps.Membership.Chaincode.{
  Service, Stub, MembershipSnap, answer_all_peers, answer_peers_of_channel, dispatch, invoke,
}

-- The function asks for these peers.
abbrev pub Asks : Service → String → List Bytes → List PeerEndpoint → Type 0
Asks service function args peers =
    ((function ≡ "getAllPeers") × (service.all_peers ≡ peers))
    ⊎ ((function ≡ "getPeersOfChannel")
        × (channel_id : Bytes) × (rest : List Bytes) × (args ≡ channel_id ∷ rest)
        × (channel_id ≢ "")
        × (service.peers_of_channel channel_id ≡ ok peers))

module _ (marshal : List PeerEndpoint → Option Bytes) where
  -- The payload is the encoding of these peers.
  abbrev pub Encodes : List PeerEndpoint → Bytes → Type 0
  Encodes peers payload = marshal peers ≡ some payload

  answer_all_peers-ok :
      (service : Service) (payload : Bytes)
      → answer_all_peers marshal service ≡ ok payload
      → Encodes service.all_peers payload
  unfolding answer_all_peers
  answer_all_peers-ok service payload h = ground (arith)

  answer_peers_of_channel-ok :
      (service : Service) (channel_id : Bytes) (args : List Bytes) (payload : Bytes)
      → answer_peers_of_channel marshal service (channel_id ∷ args) ≡ ok payload
      → (channel_id ≢ "")
        × (peers : List PeerEndpoint) × (service.peers_of_channel channel_id ≡ ok peers)
        × Encodes peers payload
  unfolding answer_peers_of_channel
  answer_peers_of_channel-ok service channel_id args payload h =
      elim (Result-cases (service.peers_of_channel channel_id)) [
        | inl (peers, e) ↦ (
          ground (arith, e, eq_iff channel_id ""),
          peers,
          e,
          ground (arith, e, eq_iff channel_id ""),
        )
        | inr (c, e) ↦ ground (arith, e)
      ]

  named_channel :
      (service : Service) (function : String) (args : List Bytes) (payload : Bytes)
      → (function ≡ "getPeersOfChannel")
      → answer_peers_of_channel marshal service args ≡ ok payload
      → (peers : List PeerEndpoint) × Asks service function args peers × Encodes peers payload
  unfolding answer_peers_of_channel
  named_channel service function [] payload f h = ground (arith)
  named_channel service function (channel_id ∷ args) payload f h =
      let (n, peers, e, encoded) = answer_peers_of_channel-ok service channel_id args payload h in
      (peers, inr (f, channel_id, args, refl, n, e), encoded)

  dispatch-ok :
      (stub : Stub) (service : Service) (function : String) (args : List Bytes) (payload : Bytes)
      → dispatch marshal stub (some service) function args ≡ ok payload
      → (stub.is_member ≡ true)
        × (peers : List PeerEndpoint) × Asks service function args peers
        × Encodes peers payload
  unfolding dispatch answer_peers_of_channel
  dispatch-ok stub service function args payload h =
      let m : stub.is_member ≡ true = ground (arith) in
      elim (Bool-cases (function == "getAllPeers")) [
        | inl p ↦ (
          m,
          service.all_peers,
          inl ((eq_iff function "getAllPeers").0 p, refl),
          answer_all_peers-ok service payload (ground (arith, p)),
        )
        | inr p ↦
            let (peers, asked, encoded) =
              named_channel service function args payload
                (ground (arith, p, eq_iff function "getPeersOfChannel")) (ground (arith, p)) in
            (m, peers, asked, encoded)
      ]

  -- If the chaincode answers with a payload, then it is initialized, the caller's signed proposal was
  -- found and is a member's, and the payload encodes all peers or the peers of the channel that the
  -- arguments name, as the function asks.
  pub invoke-ok :
      (stub : Stub) (snap : MembershipSnap) (args : List Bytes) (payload : Bytes)
      → invoke marshal stub snap args ≡ ok payload
      → (stub.has_signed_proposal ≡ true)
        × (stub.is_member ≡ true)
        × (service : Service) × (snap ≡ some service)
        × (function : String) × (rest : List Bytes) × (args ≡ function ∷ rest)
        × (peers : List PeerEndpoint) × Asks service function rest peers
        × Encodes peers payload
  unfolding invoke dispatch
  invoke-ok stub snap [] payload h = ground (arith)
  invoke-ok stub none (function ∷ args) payload h = ground (arith)
  invoke-ok stub (some service) (function ∷ args) payload h =
      let (m, peers, asked, encoded) =
        dispatch-ok stub service function args payload (ground (arith)) in
      (ground (arith), m, service, refl, function, args, refl, peers, asked, encoded)
