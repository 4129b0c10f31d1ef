-- ===== src/Cli.antt =====
-- The command line client of the configuration snap, configurationsnap/cmd/configcli: its options
-- (cliconfig/cliconfig.go), the network that its configuration file describes, and what it uses of the
-- SDK, of encoding/json and of the file system.
pub mod Action
pub mod Update
pub mod Commands
pub mod Sent
use fabric_snaps.Common.{String, ◌==◌, Bool, Option, List, [], if◌then◌else◌, Dict}
use fabric_snaps.Common.Strings.{split}
use fabric_snaps.Config.Parse.{Bytes}
use fabric_snaps.Config.Key.{ConfigKey}
use fabric_snaps.Config.Message.{ConfigMessage}

-- `options`, without the timeout, which only the SDK reads
pub record Options : Type 0 where
  pub user : String
  pub password : String
  pub logging_level : String
  pub org_id : String
  pub channel_id : String
  pub peer_url : String
  pub client_config_file : String
  pub config_file : String
  pub config_key : String
  pub config : String
  pub output_format : String
  pub msp_id : String
  pub peer_id : String
  pub app_name : String
  pub app_ver : String
  pub component_name : String
  pub component_ver : String
  pub no_prompt : Bool
  pub key_type : String
  pub ephemeral_flag : String
  pub sig_alg : String
  pub csr_common_name : String

-- `CLIConfig.Peers`
unfoldable pub peers : Options → List String
peers opts = if opts.peer_url == "" then [] else split opts.peer_url 44

abbrev pub config_snap_id : String
config_snap_id = "configurationsnap"

-- The configuration of the network: the client's organisation, the MSP ID of each organisation in the
-- order in which Go ranges over them, the URLs of an organisation's peers, and whether there is a
-- configuration for a URL.
pub record Network : Type 0 where
  pub client_organization : String
  pub organizations : Dict String String
  pub peers_config : String → Option (List String)
  pub has_peer_config : String → Bool

-- A channel client: its channel, user and organisation
pub record Session : Type 0 where
  pub channel_id : String
  pub user_name : String
  pub org_id : String

-- `channel.Request`
pub record Request : Type 0 where
  pub chaincode_id : String
  pub fcn : String
  pub args : List Bytes

-- What the client uses of the SDK, where `S` is the state of the network: the configuration in a file, a
-- peer by its URL and MSP ID, a channel client, and its calls on target peers.
pub record Sdk (Peer S : Type 0) : Type 0 where
  pub load : String → Option Network
  pub starts : Bool
  pub new_peer : String → String → Option Peer
  pub url : Peer → String
  pub new_channel : Session → Bool
  pub query : Session → Request → List Peer → S → Option Bytes × S
  pub execute : Session → Request → List Peer → S → Bool × S

-- encoding/json on keys and messages. The decoded pointer is nil for the text `null`.
pub record Codec : Type 0 where
  pub unmarshal_key : Bytes → Option (Option ConfigKey)
  pub marshal_key : ConfigKey → Option Bytes
  pub unmarshal_message : Bytes → Option (Option ConfigMessage)
  pub marshal_message : ConfigMessage → Option Bytes

-- The file system, with path/filepath: `read_file` opens the cleaned path and reads all of the file, as
-- `readFile` of updatecmd.go does.
pub record Files : Type 0 where
  pub read_file : String → Option String
  pub is_abs : String → Bool
  pub dir : String → String
  pub join : String → String → String
