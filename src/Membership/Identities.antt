-- ===== src/Membership/Identities.antt =====
-- The MSP IDs that the received messages give.
use mathlib.Core.Path.{fun_ext}
use fabric_snaps.Common.{
  String, ◌==◌, eq_iff, ◌≡◌, refl, sym, ap, ◌∙◌, Option, none, some, List, [], ◌∷◌, ◌++◌,
  if◌then◌else◌, arith, lookup, lookup-insert, string_eq, Option-cases, inl, inr, All,
}
use fabric_snaps.Membership.{
  MspIds, Decoder, get_msp_id, map_identity, map_certificate, and_then, handle_update,
  handle_updates, receive,
}

module _ {Envelope : Type 0} (decoder : Decoder Envelope) where
  -- The envelope holds the identity of a peer.
  abbrev pub IsIdentity : Envelope → Type 0
  IsIdentity envelope =
      (identity : String × String) × (decoder.peer_identity envelope ≡ some identity)

  -- What is known of a PKI ID after an envelope
  abbrev pub known_after : String → Option (String × String) → String → String
  known_after pki_id none known = known
  known_after pki_id (some (p, cert)) known = if p == pki_id then decoder.msp_id cert else known

  -- The MSP ID in the last envelope for a PKI ID, or what was known before
  abbrev pub last_identity : String → List Envelope → String → String
  last_identity pki_id [] known = known
  last_identity pki_id (e ∷ es) known =
      last_identity pki_id es (known_after pki_id (decoder.peer_identity e) known)

  -- The envelopes of the messages, in order
  abbrev pub envelopes_of : List (Option (List Envelope)) → List Envelope
  envelopes_of [] = []
  envelopes_of (none ∷ messages) = envelopes_of messages
  envelopes_of (some es ∷ messages) = es ++ envelopes_of messages

  map_identity-get_msp_id :
      (p m : String) (ids : MspIds) (pki_id : String)
      → get_msp_id (map_identity p m ids) pki_id
        ≡ (if p == pki_id then m else get_msp_id ids pki_id)
  unfolding get_msp_id
  map_identity-get_msp_id p m ids pki_id = elim (Option-cases (lookup p ids)) [
    | inl e ↦ ground (arith, e, lookup-insert p pki_id m ids, eq_iff p pki_id)
    | inr (old, e) ↦ ground (arith, e, lookup-insert p pki_id m ids, eq_iff p pki_id, eq_iff old m)
  ]

  map_certificate-get_msp_id :
      (o : Option (String × String)) (ids : MspIds) {identity : String × String}
      → o ≡ some identity
      → (ids' : MspIds) × (map_certificate decoder.msp_id o ids ≡ some ids')
        × ((pki_id : String)
            → get_msp_id ids' pki_id ≡ known_after pki_id o (get_msp_id ids pki_id))
  map_certificate-get_msp_id none ids h = cc
  map_certificate-get_msp_id (some (p, cert)) ids h = (
    map_identity p (decoder.msp_id cert) ids,
    refl,
    map_identity-get_msp_id p (decoder.msp_id cert) ids,
  )

  handle_updates-get_msp_id :
      (es : List Envelope) (ids : MspIds)
      → All IsIdentity es
      → (ids' : MspIds) × (handle_updates decoder es ids ≡ some ids')
        × ((pki_id : String)
            → get_msp_id ids' pki_id ≡ last_identity pki_id es (get_msp_id ids pki_id))
  unfolding handle_updates handle_update
  handle_updates-get_msp_id [] ids h = (ids, refl, λ pki_id. refl)
  handle_updates-get_msp_id (e ∷ es) ids h =
      let (ids₁, u, k) = map_certificate-get_msp_id (decoder.peer_identity e) ids h.0.1 in
      let (ids₂, v, l) = handle_updates-get_msp_id es ids₁ h.1 in
      (
        ids₂,
        ap (λ o. and_then o (handle_updates decoder es)) u ∙ v,
        λ pki_id. l pki_id ∙ ap (last_identity pki_id es) (k pki_id),
      )

  and_then_assoc :
      (o : Option MspIds) (f g : MspIds → Option MspIds)
      → and_then (and_then o f) g ≡ and_then o (λ ids. and_then (f ids) g)
  and_then_assoc none f g = refl
  and_then_assoc (some ids) f g = refl

  handle_updates-append :
      (es fs : List Envelope) (ids : MspIds)
      → handle_updates decoder (es ++ fs) ids
        ≡ and_then (handle_updates decoder es ids) (handle_updates decoder fs)
  unfolding handle_updates
  handle_updates-append [] fs ids = refl
  handle_updates-append (e ∷ es) fs ids =
      ap (and_then (handle_update decoder e ids)) (fun_ext (handle_updates-append es fs))
      ∙ sym (
          and_then_assoc (handle_update decoder e ids) (handle_updates decoder es)
            (handle_updates decoder fs))

  -- The messages are handled as the one list of their envelopes.
  receive-handle_updates :
      (messages : List (Option (List Envelope))) (ids : MspIds)
      → receive decoder messages ids ≡ handle_updates decoder (envelopes_of messages) ids
  unfolding receive handle_updates
  receive-handle_updates [] ids = refl
  receive-handle_updates (none ∷ messages) ids = receive-handle_updates messages ids
  receive-handle_updates (some es ∷ messages) ids =
      ap (and_then (handle_updates decoder es ids)) (fun_ext (receive-handle_updates messages))
      ∙ sym (handle_updates-append es (envelopes_of messages) ids)

  -- If every envelope that is received holds an identity, then the messages are handled without a panic, and
  -- after them a PKI ID has the MSP ID that was decoded from the last certificate for it, the empty one if
  -- nothing could be decoded, and without a certificate the MSP ID that it had.
  pub receive-get_msp_id :
      (messages : List (Option (List Envelope))) (ids : MspIds)
      → All IsIdentity (envelopes_of messages)
      → (ids' : MspIds) × (receive decoder messages ids ≡ some ids')
        × ((pki_id : String)
            → get_msp_id ids' pki_id
              ≡ last_identity pki_id (envelopes_of messages) (get_msp_id ids pki_id))
  receive-get_msp_id messages ids h =
      let (ids', e, l) = handle_updates-get_msp_id (envelopes_of messages) ids h in
      (ids', receive-handle_updates messages ids ∙ e, l)
