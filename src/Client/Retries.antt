-- ===== src/Client/Retries.antt =====
-- The codes on which a request is tried again.
use mathlib.Core.List.{append_assoc, append-nil}
use fabric_snaps.Common.{
  String, ◌==◌, ◌≡◌, refl, ap, ◌∙◌, some, List, [], ◌∷◌, ◌++◌, if◌then◌else◌, lookup-insert,
  string_eq, eq→≡, Bool-cases, inl, inr,
}
use fabric_snaps.Client.{
  RetryableCodes, codes_of, add_retry_code, add_chaincode_codes, retry_codes, chaincode_status,
  client_status, no_peers_found,
}

add_retry_code-codes_of :
    (codes : RetryableCodes) (group code g : String)
    → codes_of g (add_retry_code codes group code)
      ≡ (codes_of g codes ++ (if group == g then code ∷ [] else []))
unfolding add_retry_code
add_retry_code-codes_of codes group code g = elim (Bool-cases (group == g)) [
  | inl p ↦ rw (add_retry_code, codes_of, lookup-insert, p, eq→≡ group g p) refl
  | inr p ↦ rw (add_retry_code, codes_of, lookup-insert, p, append-nil) refl
]

-- The configured codes of a group: those of the chaincode group.
abbrev pub configured : String → List String → List String
configured g cc_codes = if chaincode_status == g then cc_codes else []

configured_cons :
    (g c : String) (cs : List String)
    → ((if chaincode_status == g then c ∷ [] else []) ++ configured g cs) ≡ configured g (c ∷ cs)
configured_cons g c cs = elim (Bool-cases (chaincode_status == g)) [
  | inl p ↦ rw p refl
  | inr p ↦ rw p refl
]

add_chaincode_codes-codes_of :
    (cc_codes : List String) (codes : RetryableCodes) (g : String)
    → codes_of g (add_chaincode_codes cc_codes codes) ≡ (codes_of g codes ++ configured g cc_codes)
unfolding add_chaincode_codes
add_chaincode_codes-codes_of [] codes g = elim (Bool-cases (chaincode_status == g)) [
  | inl p ↦ rw (p, append-nil) refl
  | inr p ↦ rw (p, append-nil) refl
]
add_chaincode_codes-codes_of (c ∷ cs) codes g =
    add_chaincode_codes-codes_of cs (add_retry_code codes chaincode_status c) g
    ∙ ap (λ xs. xs ++ configured g cs) (add_retry_code-codes_of codes chaincode_status c g)
    ∙ append_assoc (codes_of g codes) (if chaincode_status == g then c ∷ [] else [])
        (configured g cs)
    ∙ ap (λ xs. codes_of g codes ++ xs) (configured_cons g c cs)

-- The codes of each group are the SDK's, then the configured ones in the group of chaincode errors, and
-- NoPeersFound in the group of client errors.
pub retry_codes-codes_of :
    (sdk_codes : RetryableCodes) (cc_codes : List String) (g : String)
    → codes_of g (retry_codes sdk_codes (some cc_codes))
      ≡ (codes_of g sdk_codes ++ configured g cc_codes)
        ++ (if client_status == g then no_peers_found ∷ [] else [])
unfolding retry_codes
retry_codes-codes_of sdk_codes cc_codes g =
    add_retry_code-codes_of (add_chaincode_codes cc_codes sdk_codes) client_status no_peers_found g
    ∙ ap (λ cs. cs ++ (if client_status == g then no_peers_found ∷ [] else []))
        (add_chaincode_codes-codes_of cc_codes sdk_codes g)
