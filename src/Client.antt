-- ===== src/Client.antt =====
-- Parts of the client of transactionsnap/pkg/client/client.go: the check of a transaction ID that the
-- caller gives, the arguments of a request, and the codes on which a request is tried again. The
-- identity, the hash and encoding/json are parameters.
pub mod Validation
pub mod Retries
pub mod Endorsers
pub mod Wrapper
pub mod Methods
pub mod Cached
pub mod Signatures
pub mod PeerFilters
pub mod Channel
pub mod Transactions
pub mod Provider
pub mod Peers
use Prim.Native.String.{◌++◌ as concat}
use fabric_snaps.Common.{
  String, ◌==◌, Bool, true, false, not, ◌&&◌, Option, none, some, List, [], ◌∷◌, ◌++◌,
  if◌then◌else◌, Dict, lookup, insert, string_eq,
}
use fabric_snaps.Errors.{ErrorCode, Result, ok, err, ◌>>=◌, ◌>>◌, or_err, system_error}

-- What the client uses of its context: the serialized identity, SHA-256, its write and the digest in
-- hexadecimal, and the JSON of the creator.
pub record Context : Type 0 where
  pub serialize : Option String
  pub get_hash : Bool
  pub digest : String → Option String
  pub marshal_creator : String → Option String

-- What `validate` decides: the request goes on, is answered with a bad proposal ID and the creator, or
-- fails.
pub data Validity : Type 0 where
  valid_txn : Validity
  bad_proposal_txid : String → Validity
  failed : ErrorCode → Validity

module _ (context : Context) where
  -- `computeTxnID`
  unfoldable pub compute_txn_id : String → String → Option String
  compute_txn_id nonce creator = context.digest (concat nonce creator)

  abbrev pub compare_txn_id : String → String → String → Result Bool
  compare_txn_id nonce transaction_id creator =
      if not context.get_hash then err system_error else elim (compute_txn_id nonce creator) [
        | none ↦ err system_error
        | some txn_id ↦ ok (txn_id == transaction_id)
      ]

  -- `checkTxnID`: whether the ID is valid, and the creator.
  unfoldable pub check_txn_id : String → String → Result (Bool × String)
  check_txn_id nonce transaction_id = do
    creator ← or_err context.serialize system_error
    valid ←
        if not (nonce == "") && not (transaction_id == "")
        then compare_txn_id nonce transaction_id creator
        else ok false
    ok (valid, creator)

  abbrev pub answer : Result (Bool × String) → Validity
  answer (err e) = failed e
  answer (ok (valid, creator)) =
      if valid then valid_txn else elim (context.marshal_creator creator) [
        | none ↦ failed system_error
        | some payload ↦ bad_proposal_txid payload
      ]

  -- `validate`
  unfoldable pub validate : String → String → Validity
  validate nonce transaction_id =
      if nonce == "" && transaction_id == ""
      then valid_txn
      else answer (check_txn_id nonce transaction_id)

-- `map[status.Group][]status.Code`, each by its name
abbrev pub RetryableCodes : Type 0
RetryableCodes = Dict String (List String)

abbrev pub codes_of : String → RetryableCodes → List String
codes_of group codes = elim (lookup group codes) [ none ↦ [] | some cs ↦ cs ]

-- `addRetryCode`
unfoldable pub add_retry_code : RetryableCodes → String → String → RetryableCodes
add_retry_code codes group code = insert group (codes_of group codes ++ code ∷ []) codes

abbrev pub chaincode_status : String
chaincode_status = "ChaincodeStatus"

abbrev pub client_status : String
client_status = "ClientStatus"

abbrev pub no_peers_found : String
no_peers_found = "NoPeersFound"

-- The loop of `retryOpts` over the configured codes.
unfoldable pub add_chaincode_codes : List String → RetryableCodes → RetryableCodes
add_chaincode_codes [] codes = codes
add_chaincode_codes (code ∷ cc_codes) codes =
    add_chaincode_codes cc_codes (add_retry_code codes chaincode_status code)

-- `retryOpts` on the SDK's codes, of which it takes a copy, and the configured chaincode codes, which may
-- fail to parse.
unfoldable pub retry_codes : RetryableCodes → Option (List String) → RetryableCodes
retry_codes sdk_codes cc_codes =
    let configured : List String = elim cc_codes [ none ↦ [] | some cs ↦ cs ] in
    add_retry_code (add_chaincode_codes configured sdk_codes) client_status no_peers_found
