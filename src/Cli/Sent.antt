-- ===== src/Cli/Sent.antt =====
-- How a command of the client ends, and what it sends.
use Prim.Native.Char.{code}
use mathlib.Core.Path.{subst}
use fabric_snaps.Common.{
  String, ◌≡◌, ◌↔◌, refl, sym, Bool, true, false, Option, none, some, [], ◌∷◌, arith, ◌⊎◌, inl, inr,
  is_empty, Bool-cases, if◌then◌else◌,
}
use fabric_snaps.Errors.{ErrorCode, Result, ok, err, or_err, general_error}
use fabric_snaps.Config.Parse.{Bytes}
use fabric_snaps.HttpSnap.Outcome.{Outcome, returned, failed, panicked, Proc, outcome_of}
use fabric_snaps.Cli.{Options, Session, Sdk}
use fabric_snaps.Cli.Action.{
  Action, after, initialize, org_id, session, executed, execute_tx, channel_client, yes_no_prompt,
}
use fabric_snaps.Cli.Action.Selected.{
  initialize-IsTargeted, org_id-returned, FirstOrg, org_id-FirstOrg,
}
use fabric_snaps.Cli.Update.{confirmed, ◌>>=◌}

-- The line starts with a y or a Y.
abbrev pub Agrees : String → Type 0
Agrees String.[] = ⊥
Agrees (String.◌∷◌ c line) = (code c ≡ 121) ⊎ (code c ≡ 89)

yes_no_prompt-Agrees : (line : String) → (yes_no_prompt line ≡ true) ↔ Agrees line
unfolding yes_no_prompt
yes_no_prompt-Agrees String.[] = ground (arith)
yes_no_prompt-Agrees (String.◌∷◌ c line) = ground (arith)

module _ {Peer S : Type 0} (sdk : Sdk Peer S) (opts : Options) (line : String) where
  -- The channel client that the options ask for, for an organisation
  abbrev pub session_of : String → Session
  session_of org = record { channel_id = opts.channel_id; user_name = opts.user; org_id = org }

  -- How a command ends from the state `s`: it stops with an error or panics, or the user refuses it, or
  -- there is no channel client, all without a request, or it executes one request, to the targets of its
  -- action and for the organisation of the first of them, and there was no prompt or the user agreed.
  -- `ends` is how the command is to end after a request that succeeds or fails.
  pub data Sends (fcn : String) (Allowed : Bytes → Type 0) (Broken : Type 0)
      (ends : Bool × S → Outcome (Unit {0}) × S) (s : S) : Outcome (Unit {0}) × S → Type 0 where
    stopped : (code : ErrorCode) → Sends fcn Allowed Broken ends s (failed code, s)
    broken : Broken → Sends fcn Allowed Broken ends s (panicked, s)
    refused :
        opts.no_prompt ≡ false → ¬ Agrees line → Sends fcn Allowed Broken ends s (returned tt, s)
    no_client :
        (org : String)
        → sdk.new_channel (session_of org) ≡ false
        → Sends fcn Allowed Broken ends s (ends (false, s))
    sent :
        (a : Action Peer) (org : String) (bytes : Bytes)
        → initialize sdk opts ≡ ok a
        → FirstOrg sdk opts a org
        → Allowed bytes
        → (opts.no_prompt ≡ true) ⊎ Agrees line
        → Sends fcn Allowed Broken ends s (
            ends (
              sdk.execute
                (session_of org)
                (record { chaincode_id = "configurationsnap"; fcn = fcn; args = bytes ∷ [] })
                a.peers
                s))

  channel_client_made :
      (a : Action Peer) (org : String) (made : Bool) (s : S)
      → org_id sdk opts a ≡ returned org
      → sdk.new_channel (session sdk opts org) ≡ made
      → channel_client sdk opts a s
        ≡ (if made then returned (session sdk opts org) else failed general_error, s)
  unfolding channel_client
  channel_client_made a org made s o c = ground (arith, o, c)

  module _ (fcn : String) (Allowed : Bytes → Type 0) (Broken : Type 0)
      (done : Outcome (Unit {0}) × S → Outcome (Unit {0}) × S)
      (ends : Bool × S → Outcome (Unit {0}) × S)
      (as_due : (r : Bool × S) → done (executed sdk opts r) ≡ ends r) (s : S) where
    abbrev Ends : Outcome (Unit {0}) × S → Type 0
    Ends = Sends fcn Allowed Broken ends s

    execute_tx-Sends :
        (a : Action Peer) (org : String) (bytes : Bytes)
        → initialize sdk opts ≡ ok a
        → org_id sdk opts a ≡ returned org
        → Allowed bytes
        → (opts.no_prompt ≡ true) ⊎ Agrees line
        → Ends (done (execute_tx sdk opts a fcn (bytes ∷ []) s))
    unfolding execute_tx
    execute_tx-Sends a org bytes i o allowed agreed =
        elim (Bool-cases (sdk.new_channel (session sdk opts org))) [
          | inl c ↦
              subst Ends (sym (rw (channel_client_made a org true s o c) (as_due _)))
                (sent a org bytes i (org_id-FirstOrg sdk opts a org o) allowed agreed)
          | inr c ↦
              subst Ends (sym (rw (channel_client_made a org false s o c) (as_due (false, s))))
                (no_client org c)
        ]

    -- The end of a command, from an action that has a target
    pub confirmed-Sends :
        (a : Action Peer) (bytes : Bytes)
        → initialize sdk opts ≡ ok a
        → is_empty a.peers ≡ false
        → Allowed bytes
        → Ends (confirmed sdk opts line (λ s. done (execute_tx sdk opts a fcn (bytes ∷ []) s)) s)
    unfolding confirmed
    confirmed-Sends a bytes i n allowed =
        let (l, u, c, t) = initialize-IsTargeted sdk opts a i in
        let (org, o) = org_id-returned sdk opts a.network a t n in
        let answer = execute_tx-Sends a org bytes i o allowed in
        elim (Bool-cases opts.no_prompt) [
          | inl p ↦ subst Ends (sym (rw p refl)) (answer (inl p))
          | inr p ↦ elim (Bool-cases (yes_no_prompt line)) [
            | inl y ↦
                subst Ends (sym (rw (p, y) refl)) (answer (inr ((yes_no_prompt-Agrees line).0 y)))
            | inr y ↦
                subst Ends (sym (rw (p, y) refl))
                  (refused p (λ h. let yes = (yes_no_prompt-Agrees line).1 h in cc))
          ]
        ]

-- What holds after an error and after the work holds of the command.
pub after_elim :
    {S A Peer : Type 0} (P : Outcome A × S → Type 0) (r : Result (Action Peer))
    (work : Action Peer → Proc S A) (s : S)
    → ((code : ErrorCode) → P (failed code, s))
    → ((a : Action Peer) → r ≡ ok a → P (work a s))
    → P (after r work s)
after_elim P (err code) work s f w = f code
after_elim P (ok a) work s f w = w a refl

pub Outcome-cases :
    {A : Type 0} (o : Outcome A)
    → (o ≡ panicked) ⊎ (((code : ErrorCode) × (o ≡ failed code)) ⊎ ((a : A) × (o ≡ returned a)))
Outcome-cases panicked = inl refl
Outcome-cases (failed code) = inr (inl (code, refl))
Outcome-cases (returned a) = inr (inr (a, refl))

-- A chain that returns, and one that panics
pub >>=-returned :
    {A B : Type 0} (o : Outcome A) (rest : A → Outcome B) {b : B}
    → (o >>= rest) ≡ returned b
    → (a : A) × (o ≡ returned a) × (rest a ≡ returned b)
>>=-returned panicked rest h = cc
>>=-returned (failed code) rest h = cc
>>=-returned (returned a) rest h = (a, refl, h)

pub >>=-panicked :
    {A B : Type 0} (o : Outcome A) (rest : A → Outcome B)
    → (o >>= rest) ≡ panicked
    → (o ≡ panicked) ⊎ ((a : A) × (o ≡ returned a) × (rest a ≡ panicked))
>>=-panicked panicked rest h = inl refl
>>=-panicked (failed code) rest h = cc
>>=-panicked (returned a) rest h = inr (a, refl, h)

-- A result does not panic.
pub outcome_of-returned : {A : Type 0} (r : Result A) {a : A} → outcome_of r ≡ returned a → r ≡ ok a
outcome_of-returned (ok b) h = cc
outcome_of-returned (err e) h = cc

pub outcome_of-panicked :
    {A B : Type 0} (r : Result A) (rest : A → Outcome B)
    → (outcome_of r >>= rest) ≡ panicked
    → (a : A) × (r ≡ ok a) × (rest a ≡ panicked)
outcome_of-panicked (ok a) rest h = (a, refl, h)
outcome_of-panicked (err e) rest h = cc

pub or_err-some :
    {A : Type 0} (o : Option A) (e : ErrorCode) {a : A} → or_err o e ≡ ok a → o ≡ some a
or_err-some (some b) e h = cc
or_err-some none e h = cc
