-- ===== src/HttpSnap/Certificates.antt =====
-- The certificates of a request: the loops over PEM blocks, the choice of the client's certificate, its
-- public key and its pair with a private key, of httpsnap/cmd/httpsnapservice/httpsnapservice.go and
-- tls.go. A loop over the blocks of a text has the text's length as its fuel.
pub mod Blocks
use Prim.Native.String.{len}
use fabric_snaps.Common.{
  ℕ, zero, suc, String, ◌==◌, Bool, true, false, not, ◌||◌, Option, none, some, List, [], ◌∷◌, ◌++◌,
  if◌then◌else◌, eqb, Dict, lookup, string_eq,
}
use fabric_snaps.Errors.{
  Result, ok, err, ◌>>=◌, ◌>>◌, or_err, missing_config_data_error, parse_cert_error,
  import_key_error, crypto_error,
}
use fabric_snaps.HttpSnap.Config.{HttpConfig, ClientTls, get_client_cert, get_ca_certs}
use fabric_snaps.HttpSnap.Outcome.{Outcome, returned, failed, panicked}
use fabric_snaps.HttpSnap.Platform.{
  Key, PublicKeyType, rsa_public_key, ecdsa_public_key, other_public_key, Certificate, PemBlock,
  TlsCertificate, signer, Suite, Platform,
}

-- `blockTypeCert`
abbrev pub block_type_cert : String
block_type_cert = "CERTIFICATE"

-- An error that replaces the one of a call.
abbrev pub with_code {ℓ} : {A : Type ℓ} → Result A → Result A → Result A
with_code (ok a) other = ok a
with_code (err e) other = other

module _ {Pool Keys : Type 0} (p : Platform Pool Keys) where
  -- The loop of `x509KeyPair`
  unfoldable pub certificate_blocks : ℕ → String → List String
  certificate_blocks zero s = []
  certificate_blocks (suc fuel) s = elim (p.pem_decode s) [
    | none ↦ []
    | some (block, rest) ↦
        let others = certificate_blocks fuel rest in
        if block.block_type == block_type_cert then block.bytes ∷ others else others
  ]

  -- What an iteration of the inner loop of `decodeCerts` appends.
  abbrev pub certificate_of : PemBlock → List Certificate
  certificate_of block =
      if not (block.block_type == block_type_cert) || block.has_headers
      then []
      else elim (p.parse_certificate block.bytes) [ none ↦ [] | some cert ↦ cert ∷ [] ]

  -- The inner loop of `decodeCerts`
  unfoldable pub decode_blocks : ℕ → String → List Certificate
  decode_blocks zero s = []
  decode_blocks (suc fuel) s = if eqb (len s) 0 then [] else elim (p.pem_decode s) [
    | none ↦ []
    | some (block, rest) ↦ certificate_of block ++ decode_blocks fuel rest
  ]

  -- `decodeCerts`
  unfoldable pub decode_certs : List String → List Certificate
  decode_certs [] = []
  decode_certs (s ∷ pem_certs_list) = decode_blocks (suc (len s)) s ++ decode_certs pem_certs_list

  -- `clientOverrideCrtMap[client]`, nil if it is missing
  abbrev pub override : HttpConfig → String → Option ClientTls
  override config client = elim (lookup client config.client_tls) [ none ↦ none | some v ↦ v ]

  -- `validateClientConfig`
  unfoldable pub validate_client_config : String → HttpConfig → Result (String × List String)
  validate_client_config client config =
      if not (client == "")
      then elim (override config client) [
        | none ↦ err missing_config_data_error
        | some crt ↦ ok (crt.crt, crt.ca ∷ [])
      ]
      else (do
        client_cert ← with_code (get_client_cert p.files config) (err missing_config_data_error)
        ca_certs ← with_code (get_ca_certs p.files config) (err missing_config_data_error)
        ok (client_cert, ca_certs))

  -- `getPublicKeyFromPem`
  unfoldable pub get_public_key_from_pem : Suite → String → Result Key
  get_public_key_from_pem suite id_bytes = do
    if id_bytes == "" then err missing_config_data_error else ok tt
    decoded ← or_err (p.pem_decode id_bytes) parse_cert_error
    cert ← or_err (p.parse_certificate decoded.0.bytes) parse_cert_error
    or_err (suite.import_public_key cert) import_key_error

  -- The certificate with a key of BCCSP for the algorithm of its public key.
  abbrev pub with_signer : List String → Key → PublicKeyType → Outcome TlsCertificate
  with_signer certs key rsa_public_key =
      returned (record { certificates = certs; private_key = signer key rsa_public_key })
  with_signer certs key ecdsa_public_key =
      returned (record { certificates = certs; private_key = signer key ecdsa_public_key })
  with_signer certs key other_public_key = failed crypto_error

  -- The part of `x509KeyPair` after the loop; without a certificate `cert.Certificate[0]` panics.
  unfoldable pub pair_blocks : List String → Key → Outcome TlsCertificate
  pair_blocks [] key = panicked
  pair_blocks (der ∷ ders) key = elim (p.parse_certificate der) [
    | none ↦ failed parse_cert_error
    | some cert ↦ with_signer (der ∷ ders) key cert.public_key
  ]

  -- `x509KeyPair`
  unfoldable pub x509_key_pair : String → Key → Outcome TlsCertificate
  x509_key_pair cert_pem key = pair_blocks (certificate_blocks (suc (len cert_pem)) cert_pem) key
