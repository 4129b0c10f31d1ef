-- ===== src/Errors.antt =====
-- The error codes of util/errors/codes.go. An error is its code, without message and ID, and a call
-- that may fail returns a `Result`.
pub mod Texts
pub mod Causes
use mathlib.Core.Path.{fun_ext, subst}
use mathlib.Core.List.{flat_map}
use fabric_snaps.Common.{
  List, [], ◌∷◌, ◌++◌, Option, none, some, ◌≡◌, refl, ap, sym, ◌∙◌, map, ◌⊎◌, inl, inr,
}

-- The constants of codes.go.
pub data ErrorCode : Type 0 where
  panic_error system_error general_error missing_required_parameter_error : ErrorCode
  validation_error initialize_config_error initialize_logging_error : ErrorCode
  missing_config_data_error invalid_config_data_error crypto_config_error : ErrorCode
  crypto_error parse_cert_error import_key_error get_key_error unmarshal_error : ErrorCode
  invalid_function_error initialize_snap_error peer_config_error acl_check_error : ErrorCode
  membership_error invalid_config_message invalid_peer_config invalid_app_config : ErrorCode
  invalid_component_config invalid_config_key get_config_error http_client_error : ErrorCode
  invalid_cert_pin_error endorse_tx_error commit_tx_error invalid_creator_error : ErrorCode
  invalid_signature_error get_tx_service_error tx_client_init_error : ErrorCode
  data_not_found_error access_denied_error : ErrorCode

-- `(value, errors.Error)`
pub data Result {ℓ} (A : Type ℓ) : Type ℓ where
  ok : A → Result A
  err : ErrorCode → Result A

infixl 5 ◌>>=◌ ◌>>◌
abbrev pub ◌>>=◌ {ℓ κ} : {A : Type ℓ} {B : Type κ} → Result A → (A → Result B) → Result B
err code >>= then = err code
ok value >>= then = then value

abbrev pub ◌>>◌ {ℓ} : {B : Type ℓ} → Result (Unit {0}) → Result B → Result B
check >> rest = check >>= λ _. rest

-- `for _, x := range xs { ...; if err != nil { return err } }` over a state that the body updates
unfoldable pub for_each {ℓ κ} :
    {A : Type ℓ} {S : Type κ} → (A → S → Result S) → List A → S → Result S
for_each body [] s = ok s
for_each body (x ∷ xs) s = body x s >>= λ s'. for_each body xs s'

-- `if err != nil { return errors.New(code, ...) }` after a call that is not modelled further
abbrev pub or_err {ℓ} : {A : Type ℓ} → Option A → ErrorCode → Result A
or_err none e = err e
or_err (some a) e = ok a

pub Result-cases :
    {A : Type 0} (r : Result A) → ((a : A) × (r ≡ ok a)) ⊎ ((e : ErrorCode) × (r ≡ err e))
Result-cases (ok a) = inl (a, refl)
Result-cases (err e) = inr (e, refl)

-- A chain that succeeds has a first step that succeeds.
pub >>=-eq-ok {ℓ κ} :
    {A : Type ℓ} {B : Type κ} (r : Result A) (f : A → Result B) {b : B}
    → (r >>= f) ≡ ok b
    → (a : A) × (r ≡ ok a) × (f a ≡ ok b)
>>=-eq-ok (ok a) f h = (a, refl, h)
>>=-eq-ok (err e) f h = cc

abbrev value_from {ℓ} : {A : Type ℓ} → A → Result A → A
value_from default (ok a) = a
value_from default (err e) = default

pub ok_injective {ℓ} : {A : Type ℓ} {a b : A} → ok a ≡ ok b → a ≡ b
ok_injective {a} h = ap (value_from a) h

-- What each run of the body keeps, the loop keeps.
pub for_each-keeps {ℓ κ μ} :
    {A : Type ℓ} {S : Type κ} (P : S → Type μ) (body : A → S → Result S)
    → ((x : A) (s s' : S) → P s → body x s ≡ ok s' → P s')
    → (xs : List A) (s s' : S) → P s
    → for_each body xs s ≡ ok s'
    → P s'
unfolding for_each
for_each-keeps P body keeps [] s s' h e = subst P (ok_injective e) h
for_each-keeps P body keeps (x ∷ xs) s s' h e =
    let (s₁, e₁, e₂) = >>=-eq-ok (body x s) (for_each body xs) e in
    for_each-keeps P body keeps xs s₁ s' (keeps x s s₁ h e₁) e₂

pub >>=-assoc {ℓ κ μ} :
    {A : Type ℓ} {B : Type κ} {C : Type μ} (first : Result A) (second : A → Result B)
    (third : B → Result C)
    → (first >>= second >>= third) ≡ (first >>= λ x. second x >>= third)
>>=-assoc (err code) second third = refl
>>=-assoc (ok x) second third = refl

module _ {ℓ κ} {A : Type ℓ} {S : Type κ} (body : A → S → Result S) where
  pub for_each-append :
      (xs ys : List A) (s : S)
      → for_each body (xs ++ ys) s ≡ (for_each body xs s >>= λ s'. for_each body ys s')
  unfolding for_each
  for_each-append [] ys s = refl
  for_each-append (x ∷ xs) ys s =
      ap (λ k. body x s >>= k) (fun_ext (for_each-append xs ys))
      ∙ sym (>>=-assoc (body x s) (for_each body xs) (for_each body ys))

  -- A loop whose body is itself a loop is one loop over all the elements.
  pub for_each-flat_map {μ} :
      {B : Type μ} (f : B → List A) (outer : B → S → Result S)
      → ((b : B) (s : S) → outer b s ≡ for_each body (f b) s)
      → (bs : List B) (s : S) → for_each outer bs s ≡ for_each body (flat_map f bs) s
  unfolding for_each flat_map
  for_each-flat_map f outer h [] s = refl
  for_each-flat_map f outer h (b ∷ bs) s =
      ap (λ r. r >>= for_each outer bs) (h b s)
      ∙ ap (λ k. for_each body (f b) s >>= k) (fun_ext (for_each-flat_map f outer h bs))
      ∙ sym (for_each-append (f b) (flat_map f bs) s)

  pub for_each-map {μ} :
      {B : Type μ} (f : B → A) (outer : B → S → Result S)
      → ((b : B) (s : S) → outer b s ≡ body (f b) s)
      → (bs : List B) (s : S) → for_each outer bs s ≡ for_each body (map f bs) s
  unfolding for_each
  for_each-map f outer h [] s = refl
  for_each-map f outer h (b ∷ bs) s =
      ap (λ r. r >>= for_each outer bs) (h b s)
      ∙ ap (λ k. body (f b) s >>= k) (fun_ext (for_each-map f outer h bs))
