-- ===== src/Cli/Commands.antt =====
-- The other commands: configcli/deletecmd/deletecmd.go, querycmd/querycmd.go with printer.go, and
-- generatecsr/generateCSR.go. A query gives the payload that it prints.
pub mod Deletes
pub mod Queries
use fabric_snaps.Common.{
  String, ◌==◌, Bool, not, Option, none, some, List, [], ◌∷◌, is_empty, if◌then◌else◌, contains,
}
use fabric_snaps.Errors.{Result, ok, err, or_err, general_error}
use fabric_snaps.Config.Parse.{Bytes}
use fabric_snaps.Config.Key.{ConfigKey}
use fabric_snaps.HttpSnap.Outcome.{Outcome, returned, failed, panicked, Proc, outcome_of}
use fabric_snaps.Cli.{Options, Sdk, Codec}
use fabric_snaps.Cli.Action.{Action, after, initialize, config_key, execute_tx, query}
use fabric_snaps.Cli.Update.{confirmed, ◌>>=◌}

-- The text of the key that a command sends, as `delete` and `query` make it
abbrev pub checked_key : Codec → Option ConfigKey → Outcome Bytes
checked_key json none = panicked
checked_key json (some key) =
    if key.msp_id == ""
    then failed general_error
    else outcome_of (or_err (json.marshal_key key) general_error)

pub data OutputFormat : Type 0 where
  raw_output formatted_output : OutputFormat

-- `AsOutputFormat`, with `strings.ToLower`
unfoldable pub as_output_format : (String → String) → String → OutputFormat
as_output_format to_lower f = if to_lower f == "raw" then raw_output else formatted_output

abbrev pub key_opts : List String
key_opts =
    "ECDSA" ∷ "ECDSAP256" ∷ "ECDSAP384" ∷ "RSA" ∷ "RSA1024" ∷ "RSA2048" ∷ "RSA3072" ∷ "RSA4096" ∷ []

abbrev pub sig_alg_opts : List String
sig_alg_opts =
    "MD2WithRSA" ∷ "MD5WithRSA" ∷ "SHA1WithRSA" ∷ "SHA256WithRSA" ∷ "SHA384WithRSA"
    ∷ "SHA512WithRSA" ∷ "DSAWithSHA1" ∷ "DSAWithSHA256" ∷ "ECDSAWithSHA1" ∷ "ECDSAWithSHA256"
    ∷ "ECDSAWithSHA384" ∷ "ECDSAWithSHA512" ∷ "SHA256WithRSAPSS" ∷ "SHA384WithRSAPSS"
    ∷ "SHA512WithRSAPSS" ∷ []

-- The arguments of `generateCSR`, once the options are checked; `strconv.ParseBool` is a parameter.
unfoldable pub csr_arguments : (String → Option Bool) → Options → Result (List Bytes)
csr_arguments parse_bool opts = elim (parse_bool opts.ephemeral_flag) [
  | none ↦ err general_error
  | some flag ↦
      if opts.key_type == ""
      then err general_error
      else if not (contains key_opts opts.key_type)
      then err general_error
      else if opts.sig_alg == ""
      then err general_error
      else if not (contains sig_alg_opts opts.sig_alg)
      then err general_error
      else if opts.csr_common_name == ""
      then err general_error
      else ok (opts.key_type ∷ opts.ephemeral_flag ∷ opts.sig_alg ∷ opts.csr_common_name ∷ [])
]

-- A call whose error is printed only
abbrev pub told {ℓ} : {S : Type ℓ} → Outcome (Unit {0}) × S → Outcome (Unit {0}) × S
told (panicked, s) = (panicked, s)
told (failed code, s) = (returned tt, s)
told (returned u, s) = (returned u, s)

module _ {Peer S : Type 0} (sdk : Sdk Peer S) (opts : Options) where
  -- `RunE` of the delete and query commands around their work
  abbrev pub with_targets {ℓ} : {A : Type ℓ} → (Action Peer → Proc S A) → Proc S A
  with_targets work =
      after (initialize sdk opts)
        λ a s. let done = work a s in if is_empty a.peers then (failed general_error, s) else done

  abbrev pub with_key {ℓ} : {A : Type ℓ} → Outcome Bytes → (Bytes → Proc S A) → Proc S A
  with_key panicked rest s = (panicked, s)
  with_key (failed code) rest s = (failed code, s)
  with_key (returned bytes) rest s = rest bytes s

  abbrev pub key_bytes : Codec → Action Peer → Outcome Bytes
  key_bytes json a = config_key sdk opts json a >>= checked_key json

  -- `delete`
  unfoldable pub delete : String → Codec → Action Peer → Proc S (Unit {0})
  delete line json a =
      with_key (key_bytes json a)
        λ bytes. confirmed sdk opts line λ s. told (execute_tx sdk opts a "delete" (bytes ∷ []) s)

  unfoldable pub run_delete : String → Codec → Proc S (Unit {0})
  run_delete line json = with_targets (delete line json)

  -- `query`
  unfoldable pub query_config : Codec → Action Peer → Proc S Bytes
  query_config json a = with_key (key_bytes json a) λ bytes. query sdk opts a "get" (bytes ∷ [])

  unfoldable pub run_query : Codec → Proc S Bytes
  run_query json = with_targets (query_config json)

  -- `generateCSR`
  unfoldable pub generate_csr : (String → Option Bool) → Action Peer → Proc S Bytes
  generate_csr parse_bool a s = elim (csr_arguments parse_bool opts) [
    | err code ↦ (failed code, s)
    | ok args ↦ query sdk opts a "generateCSR" args s
  ]

  -- The generateCSR command, which does not look whether there are peers
  unfoldable pub run_generate_csr : (String → Option Bool) → Proc S Bytes
  run_generate_csr parse_bool = after (initialize sdk opts) (generate_csr parse_bool)
