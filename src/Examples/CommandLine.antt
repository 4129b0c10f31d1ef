-- ===== src/Examples/CommandLine.antt =====
-- The command line client against a network of one organisation, whose state is the list of requests.
use Prim.Native.String.{◌++◌ as concat}
use fabric_snaps.Common.{
  String, ◌==◌, ◌≡◌, refl, Bool, true, false, none, some, List, [], ◌∷◌, ◌++◌, inl, inr,
  if◌then◌else◌, lookup, insert,
}
use fabric_snaps.Errors.{ok, for_each}
use fabric_snaps.Config.Parse.{Bytes}
use fabric_snaps.Config.Message.{ConfigMessage, AppConfig}
use fabric_snaps.HttpSnap.Outcome.{Outcome, returned}
use fabric_snaps.Cli.{peers, Options, Network, Session, Request, Sdk, Codec, Files}
use fabric_snaps.Cli.Action.{
  Action, initialize, init_target_peers, init_target_peers_for_org, selected_org, add_peer,
  include_peer, execute_tx, channel_client, org_id, yes_no_prompt, config_key, key_msp_id,
}
use fabric_snaps.Cli.Update.{
  config_from_string, slices, file_ref, read_file_ref, unmarshal, confirmed,
}
use fabric_snaps.Cli.Update.Resolved.{replace_message, config_from_string-replaced}
use fabric_snaps.Cli.Sent.{Sends}
use fabric_snaps.Cli.Commands.{run_delete, delete}
use fabric_snaps.Cli.Commands.Deletes.{ignored, IsKey, IsNull, run_delete-Sends}

abbrev network : Network
network = record {
  client_organization = "org1";
  organizations = ("org1", "Org1MSP") ∷ ("org2", "Org2MSP") ∷ [];
  peers_config = λ org. if org == "org1" then some ("p1:7051" ∷ []) else some ("p2:7051" ∷ []);
  has_peer_config = λ url. true;
}

abbrev log : Session → Request → List String → List Request → Bool × List Request
log session request peers requests = (true, requests ++ request ∷ [])

abbrev client_sdk : Sdk String (List Request)
client_sdk = record {
  load = λ path. some network;
  starts = true;
  new_peer = λ url msp. some url;
  url = λ p. p;
  new_channel = λ session. true;
  query = λ session request peers requests. (some "[]", requests ++ request ∷ []);
  execute = log;
}

abbrev options : Options
options = record {
  user = "admin";
  password = "";
  logging_level = "ERROR";
  org_id = "";
  channel_id = "mychannel";
  peer_url = "";
  client_config_file = "client.yaml";
  config_file = "conf/org1.json";
  config_key = "";
  config = "";
  output_format = "";
  msp_id = "";
  peer_id = "";
  app_name = "";
  app_ver = "";
  component_name = "";
  component_ver = "";
  no_prompt = false;
  key_type = "ECDSA";
  ephemeral_flag = "true";
  sig_alg = "ECDSAWithSHA256";
  csr_common_name = "name";
}

abbrev yaml : AppConfig
yaml = record { app_name = "a"; version = "1"; config = "file://a.yaml"; components = [] }

abbrev message : ConfigMessage
message = record {
  msp_id = "Org1MSP";
  peers = record { peer_id = "p1"; app = yaml ∷ [] } ∷ [];
  apps = record { app_name = "b"; version = "1"; config = "short"; components = [] } ∷ [];
}

abbrev text_codec : Codec
text_codec = record {
  unmarshal_key = λ text. none;
  marshal_key = λ key. some (concat key.msp_id "!");
  unmarshal_message = λ text. if text == "null" then some none else some (some message);
  marshal_message = λ m. some m.msp_id;
}

abbrev disk : Files
disk = record {
  read_file = λ path.
      if path == "conf/a.yaml"
      then some "a: 1"
      else if path == "conf/org1.json"
      then some "{}"
      else none;
  is_abs = λ path. false;
  dir = λ path. "conf";
  join = λ dir path. concat dir (concat "/" path);
}

abbrev on_disk : String → String
on_disk text = if text == "file://a.yaml" then "a: 1" else text

a_parts : slices 7 "file://a.yaml" ≡ some ("file://", "a.yaml")
unfolding slices
a_parts = refl

a_ref : file_ref "file://a.yaml" ≡ some "a.yaml"
unfolding file_ref slices
a_ref = refl

a_read : read_file_ref disk "conf/org1.json" "a.yaml" ≡ some "a: 1"
unfolding read_file_ref
a_read = refl

no_ref : file_ref "short" ≡ none
unfolding file_ref slices
no_ref = refl

decoded : unmarshal text_codec "{}" ≡ ok (some message)
unfolding unmarshal
decoded = refl

config_from_string-replaced_example :
    config_from_string disk "conf/org1.json" text_codec "{}"
    ≡ returned (replace_message on_disk message)
config_from_string-replaced_example =
    config_from_string-replaced on_disk disk "conf/org1.json" text_codec "{}" message decoded
      ((((("file://", "a.yaml"), a_parts), inr ("a.yaml", a_ref, a_read)), tt), tt)
      ((inl (no_ref, refl), tt), tt)

-- The outcome of a command that sends this text to a function of the snap
abbrev one_request : String → Bytes → Outcome (Unit {0}) × List Request
one_request fcn text =
    (returned tt, record { chaincode_id = "configurationsnap"; fcn = fcn; args = text ∷ [] } ∷ [])

-- The peer of the client's organisation
abbrev targeted : Action String
targeted = record {
  network = network;
  peers = "p1:7051" ∷ [];
  org_id_by_peer = ("p1:7051", "org1") ∷ [];
}

run_delete-Sends_example :
    Sends client_sdk options "y" "delete"
      (IsKey client_sdk options "y" text_codec)
      (IsNull client_sdk options "y" text_codec)
      ignored
      []
      (one_request "delete" "Org1MSP!")
unfolding run_delete initialize init_target_peers for_each init_target_peers_for_org lookup add_peer
    include_peer peers selected_org insert confirmed execute_tx channel_client org_id yes_no_prompt
    delete config_key key_msp_id
run_delete-Sends_example = run_delete-Sends client_sdk options "y" text_codec []
