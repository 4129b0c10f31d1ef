-- ===== src/Cli/Update/Saves.antt =====
-- What the update command sends.
use fabric_snaps.Common.{Bool, true, String, ◌≡◌, false, some}
use fabric_snaps.Errors.{ok, general_error}
use fabric_snaps.Config.Parse.{Bytes}
use fabric_snaps.Config.Message.{ConfigMessage, validate_message}
use fabric_snaps.HttpSnap.Outcome.{Outcome, returned, failed, panicked}
use fabric_snaps.Cli.{Options, Codec, Files}
use fabric_snaps.Cli.Action.{Action}
use fabric_snaps.Cli.Update.{config_source, config_from_string}

-- The text and base path of the options' configuration
module _ (files : Files) (json : Codec) (opts : Options) where
  -- The bytes of a valid message that the configuration of the options makes
  abbrev pub IsUpdate : Bytes → Type 0
  IsUpdate bytes =
      (source : String × String) × (message : ConfigMessage) × (config_source files opts
        ≡ ok source)
      × (config_from_string files source.1 json source.0 ≡ returned message)
      × (validate_message message ≡ ok tt)
      × (json.marshal_message message ≡ some bytes)

  -- The message cannot be made without a panic.
  abbrev pub BreaksUpdate : Type 0
  BreaksUpdate =
      (source : String × String) × (config_source files opts ≡ ok source)
      × (config_from_string files source.1 json source.0 ≡ panicked)

-- A command that gives back whether its request succeeded
abbrev pub reported {ℓ} : {S : Type ℓ} → Bool × S → Outcome (Unit {0}) × S
reported (true, s) = (returned tt, s)
reported (false, s) = (failed general_error, s)
