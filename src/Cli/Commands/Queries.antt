-- ===== src/Cli/Commands/Queries.antt =====
-- The generateCSR command: what it asks the snap for, and the panic without a target.
use fabric_snaps.Common.{
  String, ◌==◌, ◌≡◌, ◌≢◌, refl, Bool, true, Option, some, List, [], ◌∷◌, arith, eq_iff, is_empty,
  ◌↔◌, contains, All, eq→≡, Bool-cases, Option-cases, inl, inr,
}
use mathlib.Core.Path.{subst}
use fabric_snaps.Errors.{ok}
use fabric_snaps.Config.Parse.{Bytes}
use fabric_snaps.HttpSnap.Outcome.{panicked}
use fabric_snaps.Snap.Keys.{KeyGenOpts, get_key_opts}
use fabric_snaps.Snap.Csr.{get_signature_alg}
use fabric_snaps.Cli.{Options, Sdk}
use fabric_snaps.Cli.Action.{Action, initialize, org_id, channel_client, query}
use fabric_snaps.Cli.Action.Selected.{initialize-IsTargeted, org_id-returned}
use fabric_snaps.Cli.Commands.{
  key_opts, sig_alg_opts, csr_arguments, generate_csr, run_generate_csr,
}

-- What holds of every name of a list holds of a name that the list contains.
contains-All :
    (P : String → Type 0) (names : List String) (name : String)
    → All P names
    → contains names name ≡ true
    → P name
unfolding contains
contains-All P [] name h c = cc
contains-All P (n ∷ ns) name h c = elim (Bool-cases (n == name)) [
  | inl e ↦ subst P (eq→≡ n name e) h.0
  | inr e ↦ contains-All P ns name h.1 (ground (arith, e))
]

key_opts_known :
    (b : Bool) (name : String)
    → contains key_opts name ≡ true
    → (o : KeyGenOpts) × (get_key_opts name b ≡ ok o)
unfolding get_key_opts
key_opts_known b name =
    contains-All (λ n. (o : KeyGenOpts) × (get_key_opts n b ≡ ok o)) key_opts name
      (
        (_, refl),
        (
          (_, refl),
          ((_, refl), ((_, refl), ((_, refl), ((_, refl), ((_, refl), ((_, refl), tt)))))),
        ),
      )

sig_alg_opts_known :
    (name : String) → contains sig_alg_opts name ≡ true → get_signature_alg name ≡ ok name
unfolding get_signature_alg contains
sig_alg_opts_known name =
    contains-All (λ n. get_signature_alg n ≡ ok n) sig_alg_opts name
      (
        refl,
        (
          refl,
          (
            refl,
            (
              refl,
              (
                refl,
                (refl, (refl, (refl, (refl, (refl, (refl, (refl, (refl, (refl, (refl, tt)))))))))),
              ),
            ),
          ),
        ),
      )

-- If the command's options pass its checks, then the arguments are the key type, the flag, the signature
-- algorithm and the common name; the snap has options to generate a key of this type, and knows the
-- algorithm; and the flag is a Boolean and the name is not empty.
pub csr_arguments-accepted :
    (parse_bool : String → Option Bool) (opts : Options) (args : List Bytes)
    → csr_arguments parse_bool opts ≡ ok args
    → (args ≡ opts.key_type ∷ opts.ephemeral_flag ∷ opts.sig_alg ∷ opts.csr_common_name ∷ [])
      × ((b : Bool) × (parse_bool opts.ephemeral_flag ≡ some b)
          × (o : KeyGenOpts) × (get_key_opts opts.key_type b ≡ ok o))
      × (get_signature_alg opts.sig_alg ≡ ok opts.sig_alg)
      × (opts.csr_common_name ≢ "")
unfolding csr_arguments
csr_arguments-accepted parse_bool opts args h =
    elim (Option-cases (parse_bool opts.ephemeral_flag)) [
      | inl n ↦ ground (arith, n)
      | inr (b, p) ↦
          let known : contains key_opts opts.key_type ≡ true = ground (arith, p) in
          let registered : contains sig_alg_opts opts.sig_alg ≡ true = ground (arith, p) in
          let (o, k) = key_opts_known b opts.key_type known in
          (
            ground (arith, p),
            (b, p, o, k),
            sig_alg_opts_known opts.sig_alg registered,
            ground (arith, p, eq_iff opts.csr_common_name ""),
          )
    ]

module _ {Peer S : Type 0} (sdk : Sdk Peer S) (opts : Options) where
  org_id-panicked : (a : Action Peer) → is_empty a.peers ≡ true → org_id sdk opts a ≡ panicked
  unfolding org_id
  org_id-panicked a n = ground (arith, n)

  -- With options that pass its checks, an initialised generateCSR command panics if and only if it has no
  -- target.
  pub run_generate_csr-panicked :
      (parse_bool : String → Option Bool) (a : Action Peer) (args : List Bytes) (s : S)
      → initialize sdk opts ≡ ok a
      → csr_arguments parse_bool opts ≡ ok args
      → ((run_generate_csr sdk opts parse_bool s).0 ≡ panicked) ↔ (is_empty a.peers ≡ true)
  unfolding run_generate_csr generate_csr query channel_client
  run_generate_csr-panicked parse_bool a args s i e = (
    λ h. elim (Bool-cases (is_empty a.peers)) [
      | inl n ↦ n
      | inr n ↦
          let (l, u, c, t) = initialize-IsTargeted sdk opts a i in
          let (org, o) = org_id-returned sdk opts a.network a t n in ground (arith, i, e, o, h)
    ],
    λ n. let o = org_id-panicked a n in ground (arith, i, e, o),
  )
