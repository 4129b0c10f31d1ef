-- ===== src/Client/Validation.antt =====
-- Which transaction IDs are accepted.
use Prim.Native.String.{◌++◌ as concat}
use fabric_snaps.Common.{
  String, eq_iff, ◌≡◌, ◌≢◌, ◌↔◌, ◌⊎◌, inl, inr, ap, ◌∙◌, refl, true, Option, none, some, arith,
}
use fabric_snaps.Client.{Context, valid_txn, compute_txn_id, check_txn_id, validate}

-- A request is accepted without a check, or with the ID that its nonce and the creator give.
abbrev pub Accepted : Context → String → String → Type 0
Accepted context nonce transaction_id =
    ((nonce ≡ "") × (transaction_id ≡ ""))
    ⊎ ((nonce ≢ "")
        × (transaction_id ≢ "")
        × (context.get_hash ≡ true)
        × ((creator : String) × (context.serialize ≡ some creator)
            × (context.digest (concat nonce creator) ≡ some transaction_id)))

-- What the check of an ID has found, once the creator and the digest are known.
abbrev Found : Context → String → String → String → Type 0
Found context nonce transaction_id txn_id =
    ((nonce ≡ "") × (transaction_id ≡ ""))
    ⊎ ((nonce ≢ "") × (transaction_id ≢ "") × (context.get_hash ≡ true) × (txn_id ≡ transaction_id))

found :
    (context : Context) (nonce transaction_id creator txn_id : String)
    → context.serialize ≡ some creator
    → context.digest (concat nonce creator) ≡ some txn_id
    → validate context nonce transaction_id ≡ valid_txn
    → Found context nonce transaction_id txn_id
unfolding validate check_txn_id compute_txn_id
found context nonce transaction_id creator txn_id e d h =
    ground (arith, eq_iff nonce "", eq_iff transaction_id "", eq_iff txn_id transaction_id)

digest-Accepted :
    (context : Context) (nonce transaction_id creator : String) (o : Option String)
    → context.serialize ≡ some creator
    → context.digest (concat nonce creator) ≡ o
    → validate context nonce transaction_id ≡ valid_txn
    → Accepted context nonce transaction_id
unfolding validate check_txn_id compute_txn_id
digest-Accepted context nonce transaction_id creator none e d h =
    inl (ground (arith, eq_iff nonce "", eq_iff transaction_id ""))
digest-Accepted context nonce transaction_id creator (some txn_id) e d h =
    elim (found context nonce transaction_id creator txn_id e d h) [
      | inl b ↦ inl b
      | inr (n, t, g, q) ↦ inr (n, t, g, (creator, e, d ∙ ap some q))
    ]

serialize-Accepted :
    (context : Context) (nonce transaction_id : String) (o : Option String)
    → context.serialize ≡ o
    → validate context nonce transaction_id ≡ valid_txn
    → Accepted context nonce transaction_id
unfolding validate check_txn_id compute_txn_id
serialize-Accepted context nonce transaction_id none e h =
    inl (ground (arith, eq_iff nonce "", eq_iff transaction_id ""))
serialize-Accepted context nonce transaction_id (some creator) e h =
    digest-Accepted context nonce transaction_id creator (context.digest (concat nonce creator)) e
      refl h

-- A transaction goes on if and only if it has neither a nonce nor an ID, or it has both, the identity and
-- the hash are there, and the ID is the digest of the nonce followed by the creator.
pub validate_iff :
    (context : Context) (nonce transaction_id : String)
    → (validate context nonce transaction_id ≡ valid_txn) ↔ Accepted context nonce transaction_id
unfolding validate check_txn_id compute_txn_id
validate_iff context nonce transaction_id = (
  serialize-Accepted context nonce transaction_id context.serialize refl,
  λ h. elim h [
    | inl e ↦ ground (arith, e, eq_iff nonce "", eq_iff transaction_id "")
    | inr (n, t, g, (creator, e, d)) ↦ ground (
      arith,
      n,
      t,
      g,
      e,
      d,
      eq_iff nonce "",
      eq_iff transaction_id "",
      eq_iff transaction_id transaction_id,
    )
  ],
)
