-- ===== src/HttpSnap/Outcome.antt =====
-- Code that returns a value, fails with an error or panics, and that changes a state: what was changed
-- before an error or a panic stays.
use fabric_snaps.Common.{◌≡◌, refl, arith}
use fabric_snaps.Errors.{ErrorCode, Result, ok, err}

pub data Outcome {ℓ} (A : Type ℓ) : Type ℓ where
  returned : A → Outcome A
  failed : ErrorCode → Outcome A
  panicked : Outcome A

abbrev pub Proc {ℓ κ} : Type ℓ → Type κ → Type (ℓ ⊔ κ)
Proc S A = S → Outcome A × S

module _ {ℓ κ μ} {S : Type ℓ} {A : Type κ} {B : Type μ} where
  abbrev pub proceed : Outcome A → (A → Proc S B) → S → Outcome B × S
  proceed panicked rest s = (panicked, s)
  proceed (failed code) rest s = (failed code, s)
  proceed (returned value) rest s = rest value s

  infixl 5 ◌>>=◌
  abbrev pub ◌>>=◌ : Proc S A → (A → Proc S B) → Proc S B
  first >>= rest = λ s. proceed (first s).0 rest (first s).1

infixl 5 ◌>>◌
abbrev pub ◌>>◌ {ℓ κ} : {S : Type ℓ} {B : Type κ} → Proc S (Unit {0}) → Proc S B → Proc S B
first >> rest = first >>= λ _. rest

abbrev pub outcome_of {ℓ} : {A : Type ℓ} → Result A → Outcome A
outcome_of (ok a) = returned a
outcome_of (err code) = failed code

module _ {ℓ κ} {S : Type ℓ} {A : Type κ} where
  abbrev pub give : A → Proc S A
  give a s = (returned a, s)

  -- A computation that leaves the state alone.
  abbrev pub ask : Result A → Proc S A
  ask r s = (outcome_of r, s)

  -- `if err != nil { return nil, errors.Wrap(code, err, ...) }`
  abbrev pub recode : ErrorCode → Proc S A → Proc S A
  recode code first s = elim (first s).0 [
    | returned a ↦ (returned a, (first s).1)
    | failed inner ↦ (failed code, (first s).1)
    | panicked ↦ (panicked, (first s).1)
  ]

pub proceed-returned {ℓ κ μ} :
    {S : Type ℓ} {A : Type κ} {B : Type μ} (o : Outcome A) (rest : A → Proc S B) (s : S) {b : B}
    → (proceed o rest s).0 ≡ returned b
    → (a : A) × (o ≡ returned a) × ((rest a s).0 ≡ returned b)
proceed-returned (returned a) rest s h = (a, refl, h)
proceed-returned (failed code) rest s h = cc
proceed-returned panicked rest s h = cc

pub recode-returned {ℓ κ} :
    {S : Type ℓ} {A : Type κ} (code : ErrorCode) (m : Proc S A) (s : S) {a : A}
    → (recode code m s).0 ≡ returned a
    → (m s).0 ≡ returned a
recode-returned code m s h = ground (arith)
