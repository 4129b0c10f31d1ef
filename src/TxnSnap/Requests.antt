-- ===== src/TxnSnap/Requests.antt =====
-- What the arguments of a call ask for: the request that they decode to, and what a client is given for it.
use mathlib.Core.Path.{subst}
use fabric_snaps.Common.{
  String, ◌==◌, Bool, ◌≡◌, ◌≢◌, refl, sym, ap, ◌∙◌, arith, eq_iff, lookup, string_eq, Option-cases,
  inl, inr, Option, none, some, List, [], ◌∷◌,
}
use fabric_snaps.Errors.{
  ErrorCode, ok, or_err, system_error, unmarshal_error, >>=-eq-ok, ok_injective,
}
use fabric_snaps.Config.Parse.{Bytes}
use fabric_snaps.TxnService.{
  SnapTransactionRequest, EndorseTxRequest, Service, create_endorse_tx_request, PeerFilterOpts,
  require, filter_of,
}
use fabric_snaps.TxnSnap.{
  SnapLibrary, request_of, get_snap_transaction_request, endorsements_of, proposal_of,
}

module _ (library : SnapLibrary) (service : Service) where
  -- The request that a transaction's arguments decode to; it names its channel.
  abbrev pub Decodes : List Bytes → SnapTransactionRequest → Type 0
  Decodes args request =
      (function : Bytes) × (text : Bytes) × (rest : List Bytes) × (args ≡ function ∷ text ∷ rest)
      × (library.unmarshal_request text ≡ some request)
      × (request.channel_id ≢ "")

  -- The peer filter that the options of a request make, if it has options.
  abbrev pub Filters : Option PeerFilterOpts → Option (String → Bool) → Type 0
  Filters none filter = filter ≡ none
  Filters (some opts) filter =
      (f : String → Bool) × (service.new_peer_filter opts ≡ some f) × (filter ≡ some f)

  -- What the client is given is what the request says, and no target peers.
  pub record Asks (request : SnapTransactionRequest) (tx : EndorseTxRequest) : Type 0 where
    pub chaincode_named : request.chaincode_id ≢ ""
    pub chaincode_id : tx.chaincode_id ≡ request.chaincode_id
    pub args : tx.args ≡ request.endorser_args
    pub transient_data : tx.transient_data ≡ request.transient_map
    pub targets : tx.targets ≡ []
    pub chaincode_ids : tx.chaincode_ids ≡ request.cc_ids_for_endorsement
    pub peer_filter : Filters request.peer_filter tx.peer_filter
    pub commit_type : tx.commit_type ≡ request.commit_type
    pub ignored : tx.rw_set_ignore_name_space ≡ request.rw_set_ignore_name_space
    pub transaction_id : tx.transaction_id ≡ request.transaction_id
    pub nonce : tx.nonce ≡ request.nonce

  abbrev pub Requested : List Bytes → String → EndorseTxRequest → SnapTransactionRequest → Type 0
  Requested args channel_id tx request =
      Decodes args request × (channel_id ≡ request.channel_id) × Asks request tx

  -- The endorsements of the request's transient map, decoded
  abbrev pub Endorsed : SnapTransactionRequest → Bytes → Type 0
  Endorsed request response =
      (b : Bytes) × (lookup "endorsements" request.transient_map ≡ some (some b))
      × (library.unmarshal_endorsements b ≡ some response)

  pub or_err-ok :
      {A : Type 0} (o : Option A) (e : ErrorCode) {a : A} → or_err o e ≡ ok a → o ≡ some a
  or_err-ok none e h = cc
  or_err-ok (some a) e h = cc

  require-ok : (s : String) {u : Unit {0}} → require (s == "") ≡ ok u → s ≢ ""
  require-ok s h = ground (arith, eq_iff s "")

  request_of-Decodes :
      (args : List Bytes) (request : SnapTransactionRequest)
      → request_of library service args ≡ ok request
      → Decodes args request
  unfolding request_of get_snap_transaction_request
  request_of-Decodes [] request h = cc
  request_of-Decodes (f ∷ []) request h = cc
  request_of-Decodes (f ∷ arg ∷ args) request h =
      let (r, e, h₁) = >>=-eq-ok (or_err (library.unmarshal_request arg) unmarshal_error) _ h in
      let (u, n, h₂) = >>=-eq-ok (require (r.channel_id == "")) _ h₁ in
      let q : r ≡ request = ok_injective h₂ in
      (
        f,
        arg,
        args,
        refl,
        or_err-ok _ unmarshal_error e ∙ ap some q,
        subst (λ r. r.channel_id ≢ "") q (require-ok r.channel_id n),
      )

  filter_of-Filters :
      (opts : Option PeerFilterOpts) (filter : Option (String → Bool))
      → filter_of service opts ≡ ok filter
      → Filters opts filter
  filter_of-Filters none filter h = sym (ok_injective h)
  filter_of-Filters (some opts) filter h =
      let (f, e, h₁) = >>=-eq-ok (or_err (service.new_peer_filter opts) system_error) _ h in
      (f, or_err-ok _ system_error e, sym (ok_injective h₁))

  create_endorse_tx_request-Asks :
      (request : SnapTransactionRequest) (tx : EndorseTxRequest)
      → create_endorse_tx_request service (some request) [] ≡ ok tx
      → Asks request tx
  unfolding create_endorse_tx_request
  create_endorse_tx_request-Asks request tx h =
      let (u, n, h₁) = >>=-eq-ok (require (request.chaincode_id == "")) _ h in
      let (v, c, h₂) = >>=-eq-ok (require (request.channel_id == "")) _ h₁ in
      let (filter, f, h₃) = >>=-eq-ok (filter_of service request.peer_filter) _ h₂ in
      subst (Asks request) (ok_injective h₃) (record {
        chaincode_named = require-ok request.chaincode_id n;
        chaincode_id = refl;
        args = refl;
        transient_data = refl;
        targets = refl;
        chaincode_ids = refl;
        peer_filter = filter_of-Filters request.peer_filter filter f;
        commit_type = refl;
        ignored = refl;
        transaction_id = refl;
        nonce = refl;
      })

  pub requested :
      (args : List Bytes) (request : SnapTransactionRequest) (tx : EndorseTxRequest)
      → request_of library service args ≡ ok request
      → create_endorse_tx_request service (some request) [] ≡ ok tx
      → Requested args request.channel_id tx request
  requested args request tx e t =
      (request_of-Decodes args request e, refl, create_endorse_tx_request-Asks request tx t)

  pub endorsements_of-Endorsed :
      (request : SnapTransactionRequest) (response : Bytes)
      → endorsements_of library service request ≡ ok response
      → Endorsed request response
  unfolding endorsements_of
  endorsements_of-Endorsed request response h =
      elim (Option-cases (lookup "endorsements" request.transient_map)) [
        | inl n ↦ ground (arith, n)
        | inr (o, e) ↦ elim (Option-cases o) [
          | inl n ↦ ground (arith, e, n)
          | inr (b, n) ↦ (
            b,
            e ∙ ap some n,
            or_err-ok (library.unmarshal_endorsements b) unmarshal_error (ground (arith, e, n, h)),
          )
        ]
      ]

  pub proposal_of-decoded :
      (args : List Bytes) (p : String × String)
      → proposal_of library service args ≡ ok p
      → (f : Bytes) × (text : Bytes) × (rest : List Bytes) × (args ≡ f ∷ p.0 ∷ text ∷ rest)
        × (library.unmarshal_proposal text ≡ some p.1)
  unfolding proposal_of
  proposal_of-decoded [] p h = cc
  proposal_of-decoded (f ∷ []) p h = cc
  proposal_of-decoded (f ∷ c ∷ []) p h = cc
  proposal_of-decoded (f ∷ c ∷ text ∷ rest) p h =
      let (q, e, h₁) = >>=-eq-ok (or_err (library.unmarshal_proposal text) unmarshal_error) _ h in
      let same : (c, q) ≡ p = ok_injective h₁ in
      (
        f,
        text,
        rest,
        ap (λ (x : String × String). f ∷ x.0 ∷ text ∷ rest) same,
        or_err-ok _ unmarshal_error e ∙ ap (λ (x : String × String). some x.1) same,
      )
