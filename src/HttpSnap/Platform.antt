-- ===== src/HttpSnap/Platform.antt =====
-- What the HTTP snap uses of Go's libraries, of BCCSP, of the SDK's certificate pool and of its lazy
-- cache, and the state that its code changes.
use fabric_snaps.Common.{ℤ, ℕ, String, Bool, Option, List}
use fabric_snaps.Errors.{Result}
use fabric_snaps.HttpSnap.Config.{Files}
use fabric_snaps.HttpSnap.Outcome.{Outcome}

-- A `bccsp.Key`; one that BCCSP returns without an error is not nil.
pub record Key : Type 0 where
  pub ski : String
  pub private : Bool

pub data PublicKeyType : Type 0 where
  rsa_public_key ecdsa_public_key other_public_key : PublicKeyType

-- An `x509.Certificate`
pub record Certificate : Type 0 where
  pub public_key : PublicKeyType
  pub raw_subject_public_key_info : String

-- A `pem.Block`
pub record PemBlock : Type 0 where
  pub block_type : String
  pub has_headers : Bool
  pub bytes : String

-- The private key of a TLS certificate: a key of BCCSP that signs, or one that was read as text.
pub data TlsKey : Type 0 where
  signer : Key → PublicKeyType → TlsKey
  parsed : String → TlsKey

-- A `tls.Certificate`
pub record TlsCertificate : Type 0 where
  pub certificates : List String
  pub private_key : TlsKey

-- A `tls.Config`; `root_cas` names the pool of certificates, and `verify_peer_certificate` takes the raw
-- certificates.
pub record TlsConfig : Type 0 where
  pub tls_certificate : TlsCertificate
  pub root_cas : String
  pub verify_peer_certificate : List String → Bool

-- A connection, with the chains that its handshake has verified.
pub record Conn : Type 0 where
  pub remote : String
  pub verified_chains : List (List Certificate)

-- `Dialer`, from a network and an address
abbrev pub Dialer : Type 0
Dialer = String → String → Outcome Conn

-- An `http.Client` with its transport.
pub record HttpClient : Type 0 where
  pub client_timeout : ℤ
  pub tls_handshake_timeout : ℤ
  pub response_header_timeout : ℤ
  pub expect_continue_timeout : ℤ
  pub idle_conn_timeout : ℤ
  pub tls_client_config : TlsConfig
  pub dial_tls : Option Dialer

-- An `http.Request`
pub record Request : Type 0 where
  pub method : String
  pub url : String
  pub body : String
  pub header : List (String × String)

-- An `http.Response`; reading its body may fail.
pub record HttpResponse : Type 0 where
  pub status_code : ℕ
  pub get_header : String → String
  pub read_all : Option String

-- A provider's `bccsp.BCCSP`; `import_public_key` takes a certificate.
pub record Suite : Type 0 where
  pub import_public_key : Certificate → Option Key
  pub get_key : String → Option Key

-- The libraries, over the types of a pool of certificates and of a cache of keys.
pub record Platform (Pool Keys : Type 0) : Type 0 where
  pub files : Files
  pub to_lower : String → String
  pub hex : String → String
  pub sha256_base64 : String → String
  pub get_bccsp : String → Option Suite
  -- `lazycache.New`, `Get` of a key for which the initializer would give this result, and `Delete`.
  pub new_cache : ℤ → Keys
  pub cache_get : String → Result Key → Keys → Result Key × Keys
  pub cache_delete : String → Keys → Keys
  -- The first block of a text and what follows it.
  pub pem_decode : String → Option (PemBlock × String)
  pub parse_certificate : String → Option Certificate
  pub x509_key_pair : String → String → Option TlsCertificate
  pub add_certs : List Certificate → Pool → Pool
  pub get_pool : Pool → Option String × Pool
  pub new_cert_pool : Bool → Option Pool
  pub verify_certificate : List String → Bool
  -- `url.ParseRequestURI`, of which the scheme is used.
  pub parse_request_uri : String → Option String
  -- Whether `http.NewRequest` takes the URL, and the name under which a header is set.
  pub valid_url : String → Bool
  pub canonical : String → String
  -- `gojsonschema.Validate` of a schema and a text.
  pub json_valid : String → String → Option Bool
  pub dial_with_dialer : ℤ → ℤ → String → String → TlsConfig → Option Conn
  pub do_request : HttpClient → Request → Option HttpResponse

-- The package's key cache, once it is there, the service's pool, nil if it could not be made, and the
-- requests handed to the network.
pub record NetState (Pool Keys : Type 0) : Type 0 where
  pub key_cache : Option Keys
  pub cert_pool : Option Pool
  pub sent : List Request
