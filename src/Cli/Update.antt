-- ===== src/Cli/Update.antt =====
-- The update command: configcli/updatecmd/updatecmd.go. A slice of a text panics past its end.
pub mod Resolved
pub mod Saves
use fabric_snaps.Common.{
  String, ◌==◌, not, ◌||◌, ◌&&◌, Option, none, some, List, [], ◌∷◌, is_empty, if◌then◌else◌, ℕ,
  zero, suc,
}
use fabric_snaps.Errors.{Result, ok, err, or_err, general_error}
use fabric_snaps.Config.Parse.{Bytes}
use fabric_snaps.Config.Message.{
  ConfigMessage, PeerConfig, AppConfig, ComponentConfig, validate_message,
}
use fabric_snaps.HttpSnap.Outcome.{Outcome, returned, failed, panicked, Proc, outcome_of, give}
use fabric_snaps.Cli.{Options, Sdk, Codec, Files}
use fabric_snaps.Cli.Action.{Action, after, initialize, execute_tx, yes_no_prompt}

infixl 5 ◌>>=◌
abbrev pub ◌>>=◌ {ℓ κ} : {A : Type ℓ} {B : Type κ} → Outcome A → (A → Outcome B) → Outcome B
panicked >>= rest = panicked
(failed code) >>= rest = failed code
(returned value) >>= rest = rest value

-- A loop that appends what its body makes of each element.
unfoldable pub collect : {A B : Type 0} → (A → Outcome B) → List A → Outcome (List B)
collect body [] = returned []
collect body (x ∷ xs) = do y ← body x; ys ← collect body xs; returned (y ∷ ys)

-- `s[0:n]` and `s[n:]`
unfoldable pub slices : ℕ → String → Option (String × String)
slices zero s = some ("", s)
slices (suc n) String.[] = none
slices (suc n) (String.◌∷◌ c s) = elim (slices n s) [
  | none ↦ none
  | some (front, back) ↦ some (String.◌∷◌ c front, back)
]

abbrev pub referred : String × String → Option String
referred (front, back) = if front == "file://" then some back else none

-- The path in a text that starts with `file://`
unfoldable pub file_ref : String → Option String
file_ref text = elim (slices 7 text) [ none ↦ none | some parts ↦ referred parts ]

-- `unmarshal`
unfoldable pub unmarshal : Codec → Bytes → Result (Option ConfigMessage)
unmarshal json bytes =
    if bytes == "" then err general_error else or_err (json.unmarshal_message bytes) general_error

module _ (files : Files) (base : String) where
  -- `readFileRef`
  unfoldable pub read_file_ref : String → Option String
  read_file_ref path =
      if files.is_abs path
      then files.read_file path
      else files.read_file (files.join (files.dir base) path)

  abbrev pub contents : String → Option String → Outcome String
  contents text none = returned text
  contents text (some path) = outcome_of (or_err (read_file_ref path) general_error)

  -- The text of a peer's app, whose first seven bytes are taken without a test
  unfoldable pub peer_app_text : String → Outcome String
  peer_app_text text = elim (slices 7 text) [
    | none ↦ panicked
    | some parts ↦ contents text (referred parts)
  ]

  -- The text of another app or of a component
  unfoldable pub app_text : String → Outcome String
  app_text text = contents text (file_ref text)

  unfoldable pub resolve_peer_app : AppConfig → Outcome AppConfig
  resolve_peer_app app = do text ← peer_app_text app.config; returned (record app { config = text })

  unfoldable pub resolve_peer : PeerConfig → Outcome PeerConfig
  resolve_peer peer = do
    apps ← collect resolve_peer_app peer.app
    returned (record { peer_id = peer.peer_id; app = apps })

  unfoldable pub resolve_component : ComponentConfig → Outcome ComponentConfig
  resolve_component component = do
    text ← app_text component.config
    returned (record component { config = text })

  unfoldable pub resolve_app : AppConfig → Outcome AppConfig
  resolve_app app = do
    text ← app_text app.config
    components ← collect resolve_component app.components
    returned (record {
      app_name = app.app_name;
      version = app.version;
      config = text;
      components = components;
    })

  -- `updateAppConfigInfo`
  unfoldable pub update_app_config_info : ConfigMessage → ConfigMessage → Outcome ConfigMessage
  update_app_config_info message new = do
    apps ← collect resolve_app message.apps
    returned (record new { apps = apps })

  unfoldable pub resolve_message : ConfigMessage → Outcome ConfigMessage
  resolve_message message = do
    peers ← collect resolve_peer message.peers
    update_app_config_info message (record { msp_id = message.msp_id; peers = peers; apps = [] })

  -- `configFromString`; a message that is a nil pointer panics.
  unfoldable pub config_from_string : Codec → String → Outcome ConfigMessage
  config_from_string json text = elim (unmarshal json text) [
    | err code ↦ failed general_error
    | ok none ↦ panicked
    | ok (some message) ↦ resolve_message message
  ]

-- What `update` reads: the configuration's text and the path that its references are relative to
unfoldable pub config_source : Files → Options → Result (String × String)
config_source files opts =
    if not (opts.config == "")
    then ok (opts.config, "")
    else if opts.config_file == ""
    then err general_error
    else elim (files.read_file opts.config_file) [
      | none ↦ err general_error
      | some text ↦ ok (text, opts.config_file)
    ]

-- The message that `update` sends, after its checks, with its bytes
unfoldable pub update_message : Files → Codec → Options → Outcome (ConfigMessage × Bytes)
update_message files json opts = do
  source ← outcome_of (config_source files opts)
  message ← config_from_string files source.1 json source.0
  valid ← outcome_of (validate_message message)
  bytes ← outcome_of (or_err (json.marshal_message message) general_error)
  returned (message, bytes)

module _ {Peer S : Type 0} (sdk : Sdk Peer S) (opts : Options) (line : String) where
  -- The rest of a command, unless the user refuses it
  unfoldable pub confirmed : Proc S (Unit {0}) → Proc S (Unit {0})
  confirmed rest s =
      let done = rest s in
      if not opts.no_prompt && not (yes_no_prompt line) then (returned tt, s) else done

  abbrev pub sent_as : Action Peer → Outcome (ConfigMessage × Bytes) → Proc S (Unit {0})
  sent_as a panicked s = (panicked, s)
  sent_as a (failed code) s = (failed code, s)
  sent_as a (returned (message, bytes)) s = confirmed (execute_tx sdk opts a "save" (bytes ∷ [])) s

  -- `update`
  unfoldable pub update : Files → Codec → Action Peer → Proc S (Unit {0})
  update files json a = sent_as a (update_message files json opts)

  -- The update command, whose guard looks at the client's configuration file
  unfoldable pub run_update : Files → Codec → Proc S (Unit {0})
  run_update files json = after (initialize sdk opts) λ a s.
      let done = update files json a s in
      if opts.config == "" && opts.client_config_file == ""
      then (failed general_error, s)
      else if is_empty a.peers
      then (failed general_error, s)
      else done
