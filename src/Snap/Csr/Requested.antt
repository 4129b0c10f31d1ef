-- ===== src/Snap/Csr/Requested.antt =====
-- What a certificate request that is made tells of its arguments and the configuration.
use mathlib.Core.Path.{subst}
use fabric_snaps.Common.{
  String, ◌==◌, ◌≡◌, ◌≢◌, ap, ◌∙◌, Bool, true, List, ◌∷◌, arith, ◌⊎◌, inl, inr, eq_iff, eq→≡,
  Bool-cases, contains,
}
use fabric_snaps.Errors.{ok, or_err, general_error}
use fabric_snaps.Exec.{>>=-ok, lift}
use fabric_snaps.Config.Service.Expected.{ok_inj}
use fabric_snaps.Config.Parse.{Bytes}
use fabric_snaps.Config.Service.{ConfigService}
use fabric_snaps.Snap.Keys.{PublicKeyAlgorithm, KeyGenOpts, get_public_key_alg, get_key_opts}
use fabric_snaps.Snap.Settings.{Library, CsrConfig, get_csr_config_options}
use fabric_snaps.Snap.Csr.{
  Crypto, CertificateRequest, signature_registry, get_signature_alg, required, check_names,
  get_csr_config, get_csr_subject, get_bccsp_and_key_pair, get_csr_template, request_csr,
  generate_csr, get_ephemeral,
}

-- Every name that a subject needs is there.
pub record IsComplete (c : CsrConfig) : Type 0 where
  pub common_name : c.common_name ≢ ""
  pub country : c.country ≢ ""
  pub state_province : c.state_province ≢ ""
  pub locality : c.locality ≢ ""
  pub org : c.org ≢ ""
  pub org_unit : c.org_unit ≢ ""

required-ok : (name : String) {u : Unit {0}} → required name ≡ ok u → name ≢ ""
required-ok name h = ground (arith, eq_iff name "")

check_names-IsComplete : (c : CsrConfig) {u : Unit {0}} → check_names c ≡ ok u → IsComplete c
check_names-IsComplete c h = ground (
  arith,
  eq_iff c.common_name "",
  eq_iff c.country "",
  eq_iff c.state_province "",
  eq_iff c.locality "",
  eq_iff c.org "",
  eq_iff c.org_unit "",
)

-- A key type for which there are both options and a public key algorithm is one of two.
key_type_cases :
    (key_type : String) (ephemeral : Bool) {opts : KeyGenOpts} {alg : PublicKeyAlgorithm}
    → get_key_opts key_type ephemeral ≡ ok opts
    → get_public_key_alg key_type ≡ ok alg
    → (key_type ≡ "RSA") ⊎ (key_type ≡ "ECDSA")
unfolding get_key_opts get_public_key_alg
key_type_cases key_type ephemeral h k = elim (Bool-cases (key_type == "DSA")) [
  | inl p ↦ let dsa = ap (λ (t : String). get_key_opts t ephemeral) (eq→≡ key_type "DSA" p) in cc
  | inr p ↦ ground (arith, p, eq_iff key_type "RSA", eq_iff key_type "ECDSA")
]

module _ {Suite Key Signer : Type 0} (library : Library) (crypto : Crypto Suite Key Signer)
    (path : String) (channel_id : String) where
  get_csr_config-IsComplete :
      (s : ConfigService) (c : CsrConfig)
      → (get_csr_config library crypto path channel_id s).0 ≡ ok c
      → (channel_id ≢ "")
        × IsComplete c
        × ((get_csr_config_options library channel_id path s).0 ≡ ok c)
  unfolding get_csr_config
  get_csr_config-IsComplete s c h =
      let (u, e, h₁, _) = >>=-ok (lift (required channel_id)) _ s h in
      let (c', e₁, h₂, _) = >>=-ok (get_csr_config_options library channel_id path) _ s h₁ in
      let (u', e₂, h₃, _) =
        >>=-ok (lift (check_names c')) _ (get_csr_config_options library channel_id path s).1 h₂ in
      let q : c' ≡ c = ok_inj h₃ in
      (required-ok channel_id e, subst IsComplete q (check_names-IsComplete c' e₂), e₁ ∙ h₃)

  get_csr_subject-IsComplete :
      (name : String) (s : ConfigService) (subject : Bytes)
      → (get_csr_subject library crypto path channel_id name s).0 ≡ ok subject
      → (channel_id ≢ "")
        × (c : CsrConfig) × IsComplete c
        × ((get_csr_config_options library channel_id path s).0 ≡ ok c)
  unfolding get_csr_subject
  get_csr_subject-IsComplete name s subject h =
      let (u, e, h₁, _) = >>=-ok (lift (required channel_id)) _ s h in
      let (c, e₁, h₂, _) = >>=-ok (get_csr_config library crypto path channel_id) _ s h₁ in
      let (n, complete, options) = get_csr_config-IsComplete s c e₁ in (n, c, complete, options)

  -- What a template that is made tells.
  get_csr_template-Requested :
      (keys : Key) (key_type sig_alg name : String) (s : ConfigService)
      (template : CertificateRequest Key)
      → (get_csr_template library crypto path channel_id keys key_type sig_alg name s).0
        ≡ ok template
      → (contains signature_registry sig_alg ≡ true)
        × (channel_id ≢ "")
        × ((c : CsrConfig) × IsComplete c
            × ((get_csr_config_options library channel_id path s).0 ≡ ok c))
        × ((alg : PublicKeyAlgorithm) × (get_public_key_alg key_type ≡ ok alg))
  unfolding get_csr_template get_signature_alg
  get_csr_template-Requested keys key_type sig_alg name s template h =
      let (a, e, h₁, _) = >>=-ok (lift (get_signature_alg sig_alg)) _ s h in
      let (subject, e₁, h₂, _) =
        >>=-ok (get_csr_subject library crypto path channel_id name) _ s h₁ in
      let (c, e₂, h₃, _) =
        >>=-ok (get_csr_config_options library channel_id path) _
          (get_csr_subject library crypto path channel_id name s).1 h₂ in
      let (key, e₃, h₄, _) = >>=-ok (lift (or_err (crypto.public_key keys) general_error)) _ _ h₃ in
      let (alg, e₄, h₅, _) = >>=-ok (lift (get_public_key_alg key_type)) _ _ h₄ in
      let (n, c', complete, options) = get_csr_subject-IsComplete name s subject e₁ in
      (ground (arith, e), n, (c', complete, options), (alg, e₄))

  -- If a certificate request is made, then it names a channel, its key type is RSA or ECDSA, although keys
  -- of other types can be generated, its signature algorithm is one of the registry, and the channel's
  -- configuration at the time has every name of the subject.
  pub generate_csr-Requested :
      (key_type flag sig_alg name : String) (args : List Bytes) (s : ConfigService) (csr : Bytes)
      → (generate_csr library crypto path channel_id (key_type ∷ flag ∷ sig_alg ∷ name ∷ args) s).0
        ≡ ok csr
      → (channel_id ≢ "")
        × ((key_type ≡ "RSA") ⊎ (key_type ≡ "ECDSA"))
        × (contains signature_registry sig_alg ≡ true)
        × ((c : CsrConfig) × IsComplete c
            × ((get_csr_config_options library channel_id path s).0 ≡ ok c))
  unfolding generate_csr request_csr
  generate_csr-Requested key_type flag sig_alg name args s csr h =
      let (ephemeral, e, h₁, _) = >>=-ok (lift (get_ephemeral library crypto path flag)) _ s h in
      let (options, e₁, h₂, _) = >>=-ok (lift (get_key_opts key_type ephemeral)) _ s h₁ in
      let (pair, e₂, h₃, _) =
        >>=-ok (lift (get_bccsp_and_key_pair library crypto path channel_id options)) _ s h₂ in
      let (template, e₃, h₄, _) =
        >>=-ok (get_csr_template library crypto path channel_id pair.1 key_type sig_alg name) _ s
          h₃ in
      let (registered, n, config, (alg, e₄)) =
        get_csr_template-Requested pair.1 key_type sig_alg name s template e₃ in
      (n, key_type_cases key_type ephemeral e₁ e₄, registered, config)
