-- ===== src/Exec.antt =====
-- Code that changes a state and may fail: what was written before an error stays written, so the state
-- comes back beside the error too.
use fabric_snaps.Common.{List, [], ◌∷◌, Bool, true, false, Option, none, some, ◌≡◌, refl, arith}
use fabric_snaps.Errors.{ErrorCode, Result, ok, err}

abbrev pub Exec {ℓ κ} : Type ℓ → Type κ → Type (ℓ ⊔ κ)
Exec S A = S → Result A × S

module _ {ℓ κ μ} {S : Type ℓ} {A : Type κ} {B : Type μ} where
  abbrev pub continue : Result A → (A → Exec S B) → S → Result B × S
  continue (ok a) f s = f a s
  continue (err e) f s = (err e, s)

  infixl 5 ◌>>=◌
  abbrev pub ◌>>=◌ : Exec S A → (A → Exec S B) → Exec S B
  ◌>>=◌ m f s = let (r, s') = m s in continue r f s'

infixl 5 ◌>>◌
abbrev pub ◌>>◌ {ℓ κ} : {S : Type ℓ} {B : Type κ} → Exec S (Unit {0}) → Exec S B → Exec S B
m >> n = m >>= λ _. n

module _ {ℓ κ} {S : Type ℓ} {A : Type κ} where
  abbrev pub pure : A → Exec S A
  pure a s = (ok a, s)

  abbrev pub fail : ErrorCode → Exec S A
  fail e s = (err e, s)

  -- A computation that leaves the state alone.
  abbrev pub lift : Result A → Exec S A
  lift r s = (r, s)

  -- A read of the state that may fail; its error gets the code.
  abbrev pub read_or : ErrorCode → Option A → Exec S A
  read_or e none s = (err e, s)
  read_or e (some a) s = (ok a, s)

-- The loop `for _, x := range xs { if err := body(x); err != nil { return err } }`
module _ {ℓ κ} {S : Type ℓ} {A : Type κ} where
  unfoldable pub each : (A → Exec S (Unit {0})) → List A → Exec S (Unit {0})
  each body [] = pure tt
  each body (x ∷ xs) = body x >> each body xs

abbrev pub outcome {ℓ} : {S : Type ℓ} → ErrorCode → Bool → Exec S (Unit {0})
outcome e true s = (ok tt, s)
outcome e false s = (err e, s)

-- A call that may fail; its error gets the code.
abbrev pub call_or {ℓ} : {S : Type ℓ} → ErrorCode → (S → Bool × S) → Exec S (Unit {0})
call_or e op s = let (done, s') = op s in outcome e done s'

pub continue-ok {ℓ κ μ} :
    {S : Type ℓ} {A : Type κ} {B : Type μ} (r : Result A) (f : A → Exec S B) (s : S) {b : B}
    → (continue r f s).0 ≡ ok b
    → (a : A) × (r ≡ ok a) × ((f a s).0 ≡ ok b) × ((continue r f s).1 ≡ (f a s).1)
continue-ok (ok a) f s p = (a, refl, p, refl)
continue-ok (err e) f s p = cc

-- A chain that succeeds: its first part does, and the rest runs from the state that this leaves.
pub >>=-ok {ℓ κ μ} :
    {S : Type ℓ} {A : Type κ} {B : Type μ} (m : Exec S A) (f : A → Exec S B) (s : S) {b : B}
    → ((m >>= f) s).0 ≡ ok b
    → (a : A) × ((m s).0 ≡ ok a) × ((f a (m s).1).0 ≡ ok b) × (((m >>= f) s).1 ≡ (f a (m s).1).1)
>>=-ok m f s h = continue-ok (m s).0 f (m s).1 h

-- A call that succeeds leaves the state of the operation.
pub call_or-ok {ℓ} :
    {S : Type ℓ} (e : ErrorCode) (op : S → Bool × S) (s : S) {u : Unit {0}}
    → (call_or e op s).0 ≡ ok u
    → ((op s).0 ≡ true) × ((call_or e op s).1 ≡ (op s).1)
call_or-ok e op s h = ground arith

-- The computation leaves the state alone.
abbrev pub Reads {ℓ κ} : {S : Type ℓ} {A : Type κ} → Exec S A → Type ℓ
Reads m = (s : _) → (m s).1 ≡ s

pub continue-reads {ℓ κ μ} :
    {S : Type ℓ} {A : Type κ} {B : Type μ} (r : Result A) (f : A → Exec S B) (s : S)
    → ((a : A) → (f a s).1 ≡ s)
    → (continue r f s).1 ≡ s
continue-reads (ok a) f s h = h a
continue-reads (err e) f s h = refl

pub >>=-reads {ℓ κ μ} :
    {S : Type ℓ} {A : Type κ} {B : Type μ} (m : Exec S A) (f : A → Exec S B) (s : S)
    → (m s).1 ≡ s
    → ((a : A) → (f a s).1 ≡ s)
    → ((m >>= f) s).1 ≡ s
>>=-reads m f s hm hf = go (m s).1 hm
  where
    go : (s' : _) → s' ≡ s → (continue (m s).0 f s').1 ≡ s
    go s' e = rw e (continue-reads (m s).0 f s hf)

pub read_or-reads {ℓ κ} :
    {S : Type ℓ} {A : Type κ} (e : ErrorCode) (o : Option A) (s : S) → (read_or e o s).1 ≡ s
read_or-reads e none s = refl
read_or-reads e (some a) s = refl
