-- ===== src/Examples/Platforms.antt =====
-- Libraries for the HTTP snap: a cache of keys that is a function, a dialer that connects on the second
-- try only, and a transport that dials first.
use Prim.Native.String.{◌++◌ as concat}
use fabric_snaps.Common.{
  pos, String, ◌==◌, ◌≡◌, refl, Bool, true, false, Option, none, some, List, [], ◌∷◌, ◌++◌,
  if◌then◌else◌, arith, eq_self, string_eq,
}
use fabric_snaps.Errors.{Result, ok, err}
use fabric_snaps.Config.Service.{new_config_service}
use fabric_snaps.HttpSnap.Config.{Files, Viper, HttpConfig, SchemaConfig}
use fabric_snaps.HttpSnap.Outcome.{Outcome, returned, failed, panicked}
use fabric_snaps.HttpSnap.Platform.{
  Key, Certificate, rsa_public_key, Conn, HttpClient, Request, HttpResponse, Suite, Platform,
  NetState,
}
use fabric_snaps.HttpSnap.KeyCache.Fresh.{IsLazyCache}
use fabric_snaps.HttpSnap.Invocation.Pinned.{DialsFirst}
use fabric_snaps.HttpSnap.Service.{InvokeRequest}
use fabric_snaps.HttpSnap.Setup.{ConfigSource, HttpState}

abbrev pub certificate : Certificate
certificate = record { public_key = rsa_public_key; raw_subject_public_key_info = "info" }

abbrev pub key : Key
key = record { ski = "ski"; private = true }

abbrev pub Keys : Type 0
Keys = String → Option Key

abbrev pub response : HttpResponse
response = record {
  status_code = 200;
  get_header = λ name. "application/json";
  read_all = some "{}";
}

-- There is a response if there is a connection.
abbrev pub answer_of : Outcome Conn → Option HttpResponse
answer_of (returned conn) = some response
answer_of (failed code) = none
answer_of panicked = none

abbrev pub do_request : HttpClient → Request → Option HttpResponse
do_request client req = elim client.dial_tls [
  | none ↦ some response
  | some dial ↦ answer_of (dial "tcp" req.url)
]

connected :
    (o : Outcome Conn) (resp : HttpResponse)
    → answer_of o ≡ some resp
    → (conn : Conn) × (o ≡ returned conn)
connected (returned conn) resp h = (conn, refl)
connected (failed code) resp h = cc
connected panicked resp h = cc

abbrev pub files : Files
files = record {
  read_file = λ path. some "pem";
  is_abs = λ path. true;
  join_path = λ a b. concat a b;
}

abbrev pub suite : Suite
suite = record { import_public_key = λ c. some key; get_key = λ ski. some key }

-- The answer of the cache: the key that it holds, or what the initializer gives.
abbrev pub held_or : Option Key → Result Key → Result Key
held_or none loaded = loaded
held_or (some k) loaded = ok k

abbrev pub hold : String → Result Key → Keys → Keys
hold k (ok v) keys = λ j. if j == k then some v else keys j
hold k (err e) keys = keys

abbrev pub platform : Bool → Platform (List Certificate) Keys
platform connects = record {
  files = files;
  to_lower = λ s. if s == "Content-Type" then "content-type" else s;
  hex = λ s. s;
  sha256_base64 = λ s. concat "pin of " s;
  get_bccsp = λ provider. some suite;
  new_cache = λ refresh j. none;
  cache_get = λ k loaded keys. (held_or (keys k) loaded, hold k (held_or (keys k) loaded) keys);
  cache_delete = λ k keys j. if j == k then none else keys j;
  pem_decode = λ s.
      if s == "cert"
      then some (record { block_type = "CERTIFICATE"; has_headers = false; bytes = "der" }, "")
      else none;
  parse_certificate = λ der. some certificate;
  x509_key_pair = λ cert k. none;
  add_certs = λ certs pool. certs ++ pool;
  get_pool = λ pool. (some "pool", pool);
  new_cert_pool = λ system. some [];
  verify_certificate = λ raw. true;
  parse_request_uri = λ url. some "https";
  valid_url = λ url. true;
  canonical = λ name. name;
  json_valid = λ schema text. some true;
  dial_with_dialer = λ timeout keep_alive network addr tls.
      if connects
      then some (record { remote = addr; verified_chains = (certificate ∷ []) ∷ [] })
      else none;
  do_request = do_request;
}

pub lazy_cache : (connects : Bool) → IsLazyCache (platform connects)
lazy_cache connects = record {
  get-new = λ k loaded refresh. refl;
  get-delete = λ k loaded keys. rw (eq_self k) refl;
}

pub dials_first : (connects : Bool) → DialsFirst (platform connects)
dials_first connects client req resp dial h e =
    let (conn, d) = connected (dial "tcp" req.url) resp (ground (arith, h, e)) in
    ("tcp", (req.url, (conn, d)))

abbrev pub schema : SchemaConfig
schema = record { content_type = "application/json"; request = "in"; response = "out" }

abbrev pub viper : Viper
viper = record {
  get_string = λ k.
      if k == "peer.BCCSP.Default"
      then "SW"
      else if k == "tls.clientCert"
      then "cert"
      else if k == "peer.localMspId"
      then "Org1"
      else "";
  get_bool = λ k. k == "cache.keycache.enabled";
  get_duration = λ k. pos 0;
  get_string_slice = λ k. [];
  unmarshal_client_tls = λ k. some [];
  unmarshal_strings = λ k. some ("Content-Type" ∷ []);
  unmarshal_schemas = λ k. some (schema ∷ []);
}

abbrev pub config : HttpConfig
config = record {
  peer_config = viper;
  http_snap_config = viper;
  peer_config_path = "";
  client_tls = [];
  headers = ("content-type", true) ∷ [];
  schema_configs = ("application/json", schema) ∷ [];
}

abbrev pub request : InvokeRequest
request = record {
  request_url = "https://example.com";
  request_headers = ("Content-Type", "application/json") ∷ ("Other", "x") ∷ [];
  request_body = "{}";
  named_client = "";
  pin_set = "pin of info" ∷ [];
}

abbrev pub net : NetState (List Certificate) Keys
net = record { key_cache = none; cert_pool = some []; sent = [] }

abbrev pub source : ConfigSource
source = record {
  peer = record {
    get_ledger = λ channel. true;
    new_tx_simulator = λ channel. true;
    get_state = λ channel k. some (some "yaml");
    generate_hash = λ b. b;
  };
  peer_config_path = "";
  get_peer_config = λ path. ok viper;
  read_config = λ b. some viper;
  log_level = λ level. true;
}

abbrev pub http_state : HttpState (List Certificate) Keys
http_state = record { instance_config = none; net = net; configs = some new_config_service }
