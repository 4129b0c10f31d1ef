-- ===== src/Snap/Csr.antt =====
-- The generation of keys and of certificate requests: generateKeyPair and generateCSR of
-- configurationsnap/cmd/configurationscc/configurationscc.go. BCCSP, crypto/x509 and encoding/asn1 are
-- parameters. A response without a code, as `shim.Error` makes it, has the code of a general error.
pub mod Requested
use fabric_snaps.Common.{
  String, ◌==◌, Bool, true, false, Option, none, some, List, [], ◌∷◌, if◌then◌else◌, contains,
}
use fabric_snaps.Errors.{Result, ok, err, ◌>>◌ as check, or_err, general_error}
use fabric_snaps.Exec.{Exec, ◌>>=◌, ◌>>◌, lift}
use fabric_snaps.Config.Parse.{Bytes}
use fabric_snaps.Config.Service.{ConfigService}
use fabric_snaps.Snap.Keys.{PublicKeyAlgorithm, get_public_key_alg, KeyGenOpts, get_key_opts}
use fabric_snaps.Snap.Settings.{Library, CsrConfig, get_csr_config_options, get_bccsp_provider}

-- `pkix.Name` as `getCSRSubject` fills it
pub record Subject : Type 0 where
  pub common_name : String
  pub country : String
  pub province : String
  pub locality : String
  pub organization : String
  pub organizational_unit : String

-- `x509.CertificateRequest`
pub record CertificateRequest (Key : Type 0) : Type 0 where
  pub raw_subject : Bytes
  pub signature_algorithm : String
  pub public_key_algorithm : PublicKeyAlgorithm
  pub public_key : Key
  pub dns_names : List String
  pub email_addresses : List String
  pub ip_addresses : List Bytes

-- What the functions use of libraries: a suite of BCCSP by its provider's name, its keys, ASN.1, the
-- signer of a suite and a key, and the request that it signs.
pub record Crypto (Suite Key Signer : Type 0) : Type 0 where
  pub parse_bool : String → Option Bool
  pub get_bccsp : String → Option Suite
  pub key_gen : Suite → KeyGenOpts → Option Key
  pub private : Key → Bool
  pub public_key : Key → Option Key
  pub key_bytes : Key → Option Bytes
  pub marshal_subject : Subject → Option Bytes
  pub new_signer : Suite → Key → Option Signer
  pub create_certificate_request : CertificateRequest Key → Signer → Option Bytes

-- The names of `signatureRegistry`
abbrev pub signature_registry : List String
signature_registry =
    "ECDSAWithSHA1" ∷ "ECDSAWithSHA256" ∷ "ECDSAWithSHA384" ∷ "ECDSAWithSHA512" ∷ "SHA256WithRSAPSS"
    ∷ "SHA384WithRSAPSS" ∷ "SHA512WithRSAPSS" ∷ "DSAWithSHA256" ∷ "DSAWithSHA1" ∷ "SHA512WithRSA"
    ∷ "SHA384WithRSA" ∷ "SHA256WithRSA" ∷ "SHA1WithRSA" ∷ "MD5WithRSA" ∷ "MD2WithRSA" ∷ []

-- `getSignatureAlg`; an algorithm is its name.
unfoldable pub get_signature_alg : String → Result String
get_signature_alg algorithm =
    if contains signature_registry algorithm then ok algorithm else err general_error

abbrev pub required : String → Result (Unit {0})
required name = if name == "" then err general_error else ok tt

-- The names that a subject needs, in the order in which `getCSRConfig` looks for them
abbrev pub check_names : CsrConfig → Result (Unit {0})
check_names c = check (required c.common_name) (
    check (required c.country) (
      check (required c.state_province)
        (check (required c.locality) (check (required c.org) (required c.org_unit)))))

module _ {Suite Key Signer : Type 0} (library : Library) (crypto : Crypto Suite Key Signer)
    (peer_config_path : String) where
  -- The flag of `strconv.ParseBool`
  abbrev pub get_ephemeral : Bytes → Result Bool
  get_ephemeral flag = or_err (crypto.parse_bool flag) general_error

  -- `getCSRConfig`
  unfoldable pub get_csr_config : String → Exec ConfigService CsrConfig
  get_csr_config channel_id = do
    lift (required channel_id)
    c ← get_csr_config_options library channel_id peer_config_path
    lift (check_names c)
    lift (ok c)

  -- `getCSRSubject`
  unfoldable pub get_csr_subject : String → String → Exec ConfigService Bytes
  get_csr_subject channel_id csr_common_name = do
    lift (required channel_id)
    c ← get_csr_config channel_id
    lift (
        or_err
          (crypto.marshal_subject (record {
            common_name = csr_common_name;
            country = c.country;
            province = c.state_province;
            locality = c.locality;
            organization = c.org;
            organizational_unit = c.org_unit;
          }))
          general_error)

  -- `getBCCSPAndKeyPair`, for options that are not nil
  unfoldable pub get_bccsp_and_key_pair : String → KeyGenOpts → Result (Suite × Key)
  get_bccsp_and_key_pair channel_id opts =
      if channel_id == ""
      then err general_error
      else elim (get_bccsp_provider library peer_config_path) [
        | err code ↦ err code
        | ok provider ↦ elim (crypto.get_bccsp provider) [
          | none ↦ err general_error
          | some suite ↦ elim (crypto.key_gen suite opts) [
            | none ↦ err general_error
            | some key ↦ ok (suite, key)
          ]
        ]
      ]

  -- `getCSRTemplate`
  unfoldable pub get_csr_template :
      String → Key → String → String → String → Exec ConfigService (CertificateRequest Key)
  get_csr_template channel_id keys key_type sig_alg_type csr_common_name = do
    sig_alg ← lift (get_signature_alg sig_alg_type)
    asn1_subj ← get_csr_subject channel_id csr_common_name
    c ← get_csr_config_options library channel_id peer_config_path
    pub_key ← lift (or_err (crypto.public_key keys) general_error)
    pub_key_alg ← lift (get_public_key_alg key_type)
    lift (
        ok (record {
          raw_subject = asn1_subj;
          signature_algorithm = sig_alg;
          public_key_algorithm = pub_key_alg;
          public_key = pub_key;
          dns_names = c.dns_names;
          email_addresses = c.email_addresses;
          ip_addresses = c.ip_addresses;
        }))

  -- `generateCSR` on its four arguments
  unfoldable pub request_csr : String → String → Bytes → String → String → Exec ConfigService Bytes
  request_csr channel_id key_type flag sig_alg_type csr_common_name = do
    ephemeral ← lift (get_ephemeral flag)
    options ← lift (get_key_opts key_type ephemeral)
    pair ← lift (get_bccsp_and_key_pair channel_id options)
    template ← get_csr_template channel_id pair.1 key_type sig_alg_type csr_common_name
    signer ← lift (or_err (crypto.new_signer pair.0 pair.1) general_error)
    lift (or_err (crypto.create_certificate_request template signer) general_error)

  -- `generateCSR`
  unfoldable pub generate_csr : String → List Bytes → Exec ConfigService Bytes
  generate_csr channel_id (key_type ∷ flag ∷ sig_alg_type ∷ csr_common_name ∷ args) =
      request_csr channel_id key_type flag sig_alg_type csr_common_name
  generate_csr channel_id args = lift (err general_error)

  -- `parseKey`
  unfoldable pub parse_key : Key → Result Bytes
  parse_key k =
      let pub_key : Option Key = if crypto.private k then crypto.public_key k else some k in
      elim pub_key [
        | none ↦ err general_error
        | some key ↦ or_err (crypto.key_bytes key) general_error
      ]

  -- `generateKeyWithOpts`
  unfoldable pub generate_key_with_opts : String → KeyGenOpts → Result Bytes
  generate_key_with_opts channel_id opts = elim (get_bccsp_and_key_pair channel_id opts) [
    | err code ↦ err code
    | ok (suite, key) ↦ parse_key key
  ]

  -- `generateKeyPair`
  unfoldable pub generate_key_pair : String → List Bytes → Result Bytes
  generate_key_pair channel_id (key_type ∷ flag ∷ args) = elim (get_ephemeral flag) [
    | err code ↦ err code
    | ok ephemeral ↦ elim (get_key_opts key_type ephemeral) [
      | err code ↦ err code
      | ok options ↦ generate_key_with_opts channel_id options
    ]
  ]
  generate_key_pair channel_id args = err general_error
