-- ===== src/Cli/Commands/Deletes.antt =====
-- What the delete command sends.
use mathlib.Core.Path.{subst}
use fabric_snaps.Common.{
  String, ◌==◌, Bool, true, sym, ◌⊎◌, Bool-cases, eq→≡, eq→≢, lookup, string_eq, ◌≡◌, ◌≢◌, refl, ap,
  false, Option, none, some, [], ◌∷◌, arith, inl, inr, eq_iff, is_empty, if_elim, ◌∙◌,
}
use fabric_snaps.Errors.{ok, general_error}
use fabric_snaps.Config.Parse.{Bytes}
use fabric_snaps.Config.Key.{ConfigKey}
use fabric_snaps.HttpSnap.Outcome.{Outcome, returned, failed, panicked}
use fabric_snaps.Cli.{Options, Sdk, Codec}
use fabric_snaps.Cli.Action.{
  Action, initialize, executed, org_id, execute_tx, config_key, key_msp_id, unmarshal_key,
}
use fabric_snaps.Cli.Action.Selected.{
  initialize-IsTargeted, org_id-returned, FirstOrg, org_id-FirstOrg,
}
use fabric_snaps.Cli.Update.{confirmed}
use fabric_snaps.Cli.Commands.{checked_key, told, with_key, key_bytes, delete, run_delete}
use fabric_snaps.Cli.Sent.{
  Sends, Outcome-cases, stopped, broken, confirmed-Sends, after_elim, >>=-returned, >>=-panicked,
}

-- A command that returns without an error after every request
abbrev pub ignored {ℓ} : {S : Type ℓ} → Bool × S → Outcome (Unit {0}) × S
ignored (success, s) = (returned tt, s)

module _ {Peer S : Type 0} (sdk : Sdk Peer S) (opts : Options) (line : String) (json : Codec) where
  -- The MSP ID of the option, or without it that of the organisation of the first target
  abbrev pub IsMspId : Action Peer → String → Type 0
  IsMspId a msp_id =
      ((opts.msp_id ≢ "") × (msp_id ≡ opts.msp_id))
      ⊎ ((opts.msp_id ≡ "")
          × (org : String) × FirstOrg sdk opts a org
          × (lookup org a.network.organizations ≡ some msp_id))

  -- The key that the option for a key decodes to, or without it the key of the other options
  abbrev pub IsKeyOf : Action Peer → ConfigKey → Type 0
  IsKeyOf a key =
      ((opts.config_key ≢ "") × (json.unmarshal_key opts.config_key ≡ some (some key)))
      ⊎ ((opts.config_key ≡ "")
          × IsMspId a key.msp_id
          × (key.peer_id ≡ opts.peer_id)
          × (key.app_name ≡ opts.app_name)
          × (key.app_version ≡ opts.app_ver)
          × (key.component_name ≡ opts.component_name)
          × (key.component_version ≡ opts.component_ver))

  -- The text of a key of the options, which has an MSP ID
  abbrev pub IsKey : Bytes → Type 0
  IsKey bytes =
      (a : Action Peer) × (key : ConfigKey) × (initialize sdk opts ≡ ok a)
      × IsKeyOf a key
      × (key.msp_id ≢ "")
      × (json.marshal_key key ≡ some bytes)

  -- The key is the JSON text of nil.
  abbrev pub IsNull : Type 0
  IsNull = json.unmarshal_key opts.config_key ≡ some none

  key_msp_id-panicked :
      (a : Action Peer)
      → initialize sdk opts ≡ ok a
      → is_empty a.peers ≡ false
      → key_msp_id sdk opts a ≢ panicked
  unfolding key_msp_id
  key_msp_id-panicked a i n h =
      let (l, u, c, t) = initialize-IsTargeted sdk opts a i in
      let (org, o) = org_id-returned sdk opts a.network a t n in ground (arith, h, o)

  config_key-panicked :
      (a : Action Peer)
      → initialize sdk opts ≡ ok a
      → is_empty a.peers ≡ false
      → config_key sdk opts json a ≢ panicked
  unfolding config_key
  config_key-panicked a i n h = let p = key_msp_id-panicked a i n in ground (arith, h, p)

  config_key-nil : (a : Action Peer) → config_key sdk opts json a ≡ returned none → IsNull
  unfolding config_key unmarshal_key
  config_key-nil a h = ground (arith, h)

  key_msp_id-IsMspId :
      (a : Action Peer) (msp_id : String)
      → key_msp_id sdk opts a ≡ returned msp_id
      → msp_id ≢ ""
      → IsMspId a msp_id
  unfolding key_msp_id
  key_msp_id-IsMspId a msp_id h n = elim (Bool-cases (opts.msp_id == "")) [
    | inr e ↦ inl (eq→≢ opts.msp_id "" e, ground (arith, e, h))
    | inl e ↦ elim (Outcome-cases (org_id sdk opts a)) [
      | inl o ↦ ground (arith, e, h, o)
      | inr (inl (code, o)) ↦ ground (arith, e, h, o)
      | inr (inr (org, o)) ↦
          inr (
            eq→≡ opts.msp_id "" e,
            org,
            org_id-FirstOrg sdk opts a org o,
            ground (arith, e, h, o, n),
          )
    ]
  ]

  abbrev key_of : String → ConfigKey
  key_of msp = record {
    msp_id = msp;
    peer_id = opts.peer_id;
    app_name = opts.app_name;
    app_version = opts.app_ver;
    component_name = opts.component_name;
    component_version = opts.component_ver;
  }

  config_key-IsKeyOf :
      (a : Action Peer) (key : ConfigKey)
      → config_key sdk opts json a ≡ returned (some key)
      → key.msp_id ≢ ""
      → IsKeyOf a key
  unfolding config_key unmarshal_key
  config_key-IsKeyOf a key h n = elim (Bool-cases (opts.config_key == "")) [
    | inr e ↦ inl (eq→≢ opts.config_key "" e, ground (arith, e, h))
    | inl e ↦ elim (Outcome-cases (key_msp_id sdk opts a)) [
      | inl o ↦ ground (arith, e, h, o)
      | inr (inl (code, o)) ↦ ground (arith, e, h, o)
      | inr (inr (msp, o)) ↦
          let k : key_of msp ≡ key = ground (arith, e, h, o) in
          let m = subst (λ (x : ConfigKey). x.msp_id ≢ "") (sym k) n in
          subst (IsKeyOf a) k (
            inr (
              eq→≡ opts.config_key "" e,
              key_msp_id-IsMspId a msp o m,
              refl,
              refl,
              refl,
              refl,
              refl,
            ))
    ]
  ]

  checked_key-panicked : (k : Option ConfigKey) → checked_key json k ≡ panicked → k ≡ none
  checked_key-panicked none h = refl
  checked_key-panicked (some key) h = ground (arith, h)

  checked_key-returned :
      (k : Option ConfigKey) (bytes : Bytes)
      → checked_key json k ≡ returned bytes
      → (key : ConfigKey) × (k ≡ some key) × (key.msp_id ≢ "") × (json.marshal_key key ≡ some bytes)
  checked_key-returned none bytes h = cc
  checked_key-returned (some key) bytes h =
      (key, refl, ground (arith, h, eq_iff key.msp_id ""), ground (arith, h))

  due : (r : Bool × S) → told (executed sdk opts r) ≡ ignored r
  due (true, s) = refl
  due (false, s) = refl

  with_key-Sends :
      (a : Action Peer) (s : S)
      → initialize sdk opts ≡ ok a
      → is_empty a.peers ≡ false
      → (o : Outcome Bytes) → key_bytes sdk opts json a ≡ o
      → Sends sdk opts line "delete" IsKey IsNull ignored s (
          with_key sdk opts o
            (λ bytes.
              confirmed sdk opts line (λ s. told (execute_tx sdk opts a "delete" (bytes ∷ []) s)))
            s)
  with_key-Sends a s i n panicked e =
      elim (>>=-panicked (config_key sdk opts json a) (checked_key json) e) [
        | inl p ↦ absurd (config_key-panicked a i n p)
        | inr (k, p, q) ↦ broken (config_key-nil a (p ∙ ap returned (checked_key-panicked k q)))
      ]
  with_key-Sends a s i n (failed code) e = stopped code
  with_key-Sends a s i n (returned bytes) e =
      let (k, p, q) = >>=-returned (config_key sdk opts json a) (checked_key json) e in
      let (key, r, m, t) = checked_key-returned k bytes q in
      confirmed-Sends sdk opts line "delete" _ _ told ignored due s a bytes i n
        (a, key, i, config_key-IsKeyOf a key (p ∙ ap returned r) m, m, t)

  -- The delete command stops with an error, panics because the key is the JSON text of nil, is refused,
  -- or finds no channel client, all without a request; or there is no prompt or the user agreed, and it
  -- executes one `delete` of the configuration snap. The argument is the text of a key with an MSP ID: the
  -- key in the options, or without it the key of the options for its parts, where the organisation of the
  -- first target gives an MSP ID that is not set. After the request, and without a channel client, it
  -- returns without an error, whether the request failed or not.
  pub run_delete-Sends :
      (s : S)
      → Sends sdk opts line "delete" IsKey IsNull ignored s (run_delete sdk opts line json s)
  unfolding run_delete delete
  run_delete-Sends s = after_elim Ends (initialize sdk opts) _ s stopped λ a i.
      if_elim Ends (is_empty a.peers) _ _ (λ n. stopped general_error)
        λ n. with_key-Sends a s i n (key_bytes sdk opts json a) refl
    where
      Ends : Outcome (Unit {0}) × S → Type 0
      Ends = Sends sdk opts line "delete" IsKey IsNull ignored s
