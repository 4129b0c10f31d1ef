-- ===== src/Common/Maps.antt =====
-- A Go map, as an association list that holds a key at most once.
use mathlib.Core.Path.{◌≡◌, refl, sym, subst}
use mathlib.Core.Logic.{◌≢◌, inl, inr}
use mathlib.Core.Option.{Option, none, some}
use mathlib.Core.List.{List, [], ◌∷◌}
use native.Mathlib.Omega.{arith}
use fabric_snaps.Common.Tests.{if◌then◌else◌, Bool-cases}
use fabric_snaps.Common.Lists.{All}
use fabric_snaps.Common.Equality.{Eq, ≢→beq, beq_ne}

abbrev pub Dict {ℓ κ} : Type ℓ → Type κ → Type (ℓ ⊔ κ)
Dict K V = List (K × V)

module _ {ℓ κ} {K : Type ℓ} {V : Type κ} ⦃e : Eq K⦄ where
  -- `v, ok := m[k]`
  unfoldable pub lookup : K → Dict K V → Option V
  lookup k [] = none
  lookup k ((j, v) ∷ m) = if e.beq j k then some v else lookup k m

  -- `m[k] = v`
  unfoldable pub insert : K → V → Dict K V → Dict K V
  insert k v [] = (k, v) ∷ []
  insert k v ((j, w) ∷ m) = if e.beq j k then (k, v) ∷ m else (j, w) ∷ insert k v m

  pub lookup-insert :
      (k j : K) (v : V) (m : Dict K V)
      → lookup j (insert k v m) ≡ (if e.beq k j then some v else lookup j m)
  unfolding lookup insert
  lookup-insert k j v [] = refl
  lookup-insert k j v ((i, w) ∷ m) =
      ground (arith, e.beq_iff k j, e.beq_iff i k, e.beq_iff i j, lookup-insert k j v m)

module _ {ℓ κ} {K : Type ℓ} {V : Type κ} where
  -- No two entries have one key.
  abbrev pub Distinct : Dict K V → Type ℓ
  Distinct [] = Unit
  Distinct ((k, v) ∷ m) = All (λ e. e.0 ≢ k) m × Distinct m

module _ {ℓ κ} {K : Type ℓ} {V : Type κ} ⦃e : Eq K⦄ where
  insert_keys_ne :
      (i k : K) (v : V) (m : Dict K V)
      → k ≢ i
      → All (λ x. x.0 ≢ i) m
      → All (λ x. x.0 ≢ i) (insert k v m)
  unfolding insert
  insert_keys_ne i k v [] h hs = (h, tt)
  insert_keys_ne i k v ((j, w) ∷ m) h hs = elim (Bool-cases (e.beq j k)) [
    | inl p ↦ rw p (h, hs.1)
    | inr p ↦ rw p (hs.0, insert_keys_ne i k v m h hs.1)
  ]

  pub insert-Distinct : (k : K) (v : V) (m : Dict K V) → Distinct m → Distinct (insert k v m)
  unfolding insert
  insert-Distinct k v [] d = (tt, tt)
  insert-Distinct k v ((j, w) ∷ m) d = elim (Bool-cases (e.beq j k)) [
    | inl p ↦ rw p (subst (λ i. All (λ x. x.0 ≢ i) m) ((e.beq_iff j k).0 p) d.0, d.1)
    | inr p ↦
        rw p (insert_keys_ne j k v m (λ q. beq_ne j k p (sym q)) d.0, insert-Distinct k v m d.1)
  ]

  -- A key that no entry has is missing.
  pub lookup_absent : (k : K) (m : Dict K V) → All (λ x. x.0 ≢ k) m → lookup k m ≡ none
  unfolding lookup
  lookup_absent k [] h = refl
  lookup_absent k ((j, v) ∷ m) h = rw (≢→beq j k h.0) (lookup_absent k m h.1)
