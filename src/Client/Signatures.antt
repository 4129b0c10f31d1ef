-- ===== src/Client/Signatures.antt =====
-- The check of a proposal's signature: verifyTxnProposalSignature of transactionsnap/pkg/client/client.go,
-- with GetCreatorFromSignedProposal of util/utils.go. protobuf and the channel's membership are
-- parameters, and bytes that are nil are none.
use mathlib.Core.Path.{subst}
use fabric_snaps.Common.{◌≡◌, ◌↔◌, refl, ap, ◌∙◌, Bool, true, false, Option, none, some, arith}
use fabric_snaps.Errors.{
  ErrorCode, Result, ok, err, ◌>>=◌, ◌>>◌, >>=-eq-ok, or_err, unmarshal_error, system_error,
  general_error, invalid_creator_error, invalid_signature_error,
}
use fabric_snaps.Config.Parse.{Bytes}

-- `pb.SignedProposal`
pub record SignedProposal : Type 0 where
  pub proposal_bytes : Option Bytes
  pub signature : Bytes

-- Decoding by protobuf: `none` is an error, and a part that is nil is none.
pub record Protobuf : Type 0 where
  pub unmarshal_signed_proposal : Bytes → Option SignedProposal
  pub get_proposal_header : Bytes → Option (Option Bytes)
  pub get_signature_header : Bytes → Option (Option Bytes)
  pub get_creator : Bytes → Option Bytes

-- `fab.ChannelMembership`
pub record ChannelMembership : Type 0 where
  pub validate : Bytes → Bool
  pub verify : Bytes → Bytes → Bytes → Bool

module _ (protobuf : Protobuf) where
  -- `GetCreatorFromSignedProposal`
  unfoldable pub get_creator_from_signed_proposal : SignedProposal → Result Bytes
  get_creator_from_signed_proposal signed = do
    proposal_bytes ← or_err signed.proposal_bytes general_error
    header ← or_err (protobuf.get_proposal_header proposal_bytes) general_error
    header_bytes ← or_err header general_error
    signature_header ← or_err (protobuf.get_signature_header header_bytes) general_error
    signature_header_bytes ← or_err signature_header general_error
    or_err (protobuf.get_creator signature_header_bytes) general_error

  abbrev pub check_that {ℓ} : Bool → Result (Unit {ℓ}) → Result (Unit {ℓ})
  check_that true e = ok tt
  check_that false e = e

  -- `proposalBytes` of a proposal that has a creator
  abbrev pub bytes_or_empty : Option Bytes → Bytes
  bytes_or_empty none = ""
  bytes_or_empty (some b) = b

  abbrev pub creator_or_error : Result Bytes → Result Bytes
  creator_or_error (ok c) = ok c
  creator_or_error (err e) = err system_error

  -- `verifyTxnProposalSignature`
  unfoldable pub verify_txn_proposal_signature :
      Option ChannelMembership → Bytes → Result (Unit {0})
  verify_txn_proposal_signature channel_membership proposal_bytes = do
    signed ← or_err (protobuf.unmarshal_signed_proposal proposal_bytes) unmarshal_error
    creator ← creator_or_error (get_creator_from_signed_proposal signed)
    membership ← or_err channel_membership system_error
    check_that (membership.validate creator) (err invalid_creator_error)
    check_that (membership.verify creator (bytes_or_empty signed.proposal_bytes) signed.signature)
        (err invalid_signature_error)

  -- The header of the proposal's bytes has a signature header that names the creator.
  abbrev pub NamesCreator : Bytes → Bytes → Type 0
  NamesCreator proposal_bytes creator =
      (header : Bytes) × (signature_header : Bytes) × (protobuf.get_proposal_header proposal_bytes
        ≡ some (some header))
      × (protobuf.get_signature_header header ≡ some (some signature_header))
      × (protobuf.get_creator signature_header ≡ some creator)

  -- The text is that of a proposal, with bytes, which its creator has signed, and the channel's membership,
  -- which is there, takes the creator and the signature over these bytes for valid.
  abbrev pub IsSigned : Option ChannelMembership → Bytes → Type 0
  IsSigned channel_membership text =
      (signed : SignedProposal) × (bytes : Bytes) × (creator : Bytes)
      × (membership : ChannelMembership) × (protobuf.unmarshal_signed_proposal text ≡ some signed)
      × (signed.proposal_bytes ≡ some bytes)
      × NamesCreator bytes creator
      × (channel_membership ≡ some membership)
      × (membership.validate creator ≡ true)
      × (membership.verify creator bytes signed.signature ≡ true)

  or_err-some : {A : Type 0} (o : Option A) (e : ErrorCode) {a : A} → or_err o e ≡ ok a → o ≡ some a
  or_err-some (some b) e h = cc
  or_err-some none e h = cc

  get_creator_from_signed_proposal-NamesCreator :
      (signed : SignedProposal) (creator : Bytes)
      → get_creator_from_signed_proposal signed ≡ ok creator
      → (bytes : Bytes) × (signed.proposal_bytes ≡ some bytes) × NamesCreator bytes creator
  unfolding get_creator_from_signed_proposal
  get_creator_from_signed_proposal-NamesCreator signed creator h =
      let (bytes, b, h₁) = >>=-eq-ok (or_err signed.proposal_bytes general_error) _ h in
      let (o, e, h₂) = >>=-eq-ok (or_err (protobuf.get_proposal_header bytes) general_error) _ h₁ in
      let (header, e₁, h₃) = >>=-eq-ok (or_err o general_error) _ h₂ in
      let (o', e₂, h₄) =
        >>=-eq-ok (or_err (protobuf.get_signature_header header) general_error) _ h₃ in
      let (signature_header, e₃, h₅) = >>=-eq-ok (or_err o' general_error) _ h₄ in
      (
        bytes,
        or_err-some _ general_error b,
        (
          header,
          signature_header,
          or_err-some _ general_error e ∙ ap some (or_err-some o general_error e₁),
          or_err-some _ general_error e₂ ∙ ap some (or_err-some o' general_error e₃),
          or_err-some _ general_error h₅,
        ),
      )

  -- Two checks that both succeed
  check_that-ok :
      (valid verified : Bool)
      → (check_that valid (err invalid_creator_error)
          >> check_that verified (err invalid_signature_error))
        ≡ ok (tt {0})
      → (valid ≡ true) × (verified ≡ true)
  check_that-ok true true h = (refl, refl)
  check_that-ok true false h = cc
  check_that-ok false verified h = cc

  creator_or_error-ok : (r : Result Bytes) {c : Bytes} → creator_or_error r ≡ ok c → r ≡ ok c
  creator_or_error-ok (ok c) h = h
  creator_or_error-ok (err e) h = cc

  -- The signature of a proposal is accepted if and only if the text decodes to a signed proposal with
  -- bytes, the header of these bytes has a signature header, this names a creator, the membership of the
  -- channel can be had, the creator is valid in it, and the signature is the creator's over these bytes.
  pub verify_txn_proposal_signature_iff :
      (channel_membership : Option ChannelMembership) (text : Bytes)
      → (verify_txn_proposal_signature channel_membership text ≡ ok tt)
        ↔ IsSigned channel_membership text
  unfolding verify_txn_proposal_signature get_creator_from_signed_proposal
  verify_txn_proposal_signature_iff channel_membership text = (
    λ h.
        let (signed, e, h₁) =
          >>=-eq-ok (or_err (protobuf.unmarshal_signed_proposal text) unmarshal_error) _ h in
        let (creator, c, h₂) =
          >>=-eq-ok (creator_or_error (get_creator_from_signed_proposal signed)) _ h₁ in
        let (membership, m, h₃) = >>=-eq-ok (or_err channel_membership system_error) _ h₂ in
        let (bytes, b, named) =
          get_creator_from_signed_proposal-NamesCreator signed creator
            (creator_or_error-ok (get_creator_from_signed_proposal signed) c) in
        let (valid, verified) =
          check_that-ok (membership.validate creator)
            (membership.verify creator (bytes_or_empty signed.proposal_bytes) signed.signature)
            h₃ in
        (
          signed,
          bytes,
          creator,
          membership,
          or_err-some _ unmarshal_error e,
          b,
          named,
          or_err-some _ system_error m,
          valid,
          subst (λ o. membership.verify creator (bytes_or_empty o) signed.signature ≡ true) b
              verified,
        ),
    λ (signed, bytes, creator, membership, e, b, (header, signature_header, p, q, r), m, v, s).
        ground (arith, e, b, p, q, r, m, v, s),
  )
