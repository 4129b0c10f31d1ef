-- ===== src/RefCount/Balance.antt =====
-- The accounts that every atomic operation of the reference counter keeps in balance.
use fabric_snaps.Common.{ℕ, ◌+◌, ◌<◌, Bool, true, false, if◌then◌else◌, eqb, ◌≡◌, arith}
use fabric_snaps.RefCount.{
  ReferenceCounter, Pc, Caller, releasing, closing, acquire_check, acquire_load, acquire_cas,
  acquired, release_load, release_cas, released, close_cas, close_done, check_closed, close_set,
  run_closer, minus_one, int32_min, step,
}

abbrev one : Bool → ℕ
one true = 1
one false = 0

-- How many references a call took.
abbrev pub taken : Pc → ℕ
taken (acquired r) = one r
taken pc = 0

abbrev by_release : Caller → ℕ
by_release releasing = 1
by_release closing = 0

-- How many references a call gave back.
abbrev pub given : Pc → ℕ
given (released r) = one r
given (check_closed by) = by_release by
given (close_set by) = by_release by
given (run_closer by) = by_release by
given pc = 0

-- Whether a call is about to call the closer.
abbrev pub at_closer : Pc → ℕ
at_closer (run_closer by) = 1
at_closer pc = 0

-- Whether a call is about to check if the resource can be closed.
abbrev pub checking : Pc → ℕ
checking (check_closed by) = 1
checking (close_set by) = 1
checking pc = 0

-- The references that are held.
abbrev pub held : ReferenceCounter → ℕ
held c = if eqb c.ref_count minus_one then 0 else c.ref_count

-- What a call that has read the counter relies on.
abbrev pub Valid : ReferenceCounter → Pc → Type 0
Valid c (acquire_cas n) = n < int32_min
Valid c (release_cas n) = (0 < n) × (n < int32_min)
Valid c (close_set by) = c.closed ≡ true
Valid c (run_closer by) = c.closed ≡ true
Valid c pc = Unit

-- The references taken are those held and those given back; the closer was called, or is about to be,
-- once when the count is -1 and never otherwise; a closed counter at 0 is still to be checked by a
-- call; only a closed counter is at -1.
pub record Balanced (c : ReferenceCounter) (taken given at_closer checking : ℕ) : Type 0 where
  pub references : taken ≡ held c + given
  pub once : c.closes + at_closer ≡ (if eqb c.ref_count minus_one then 1 else 0)
  pub pending : c.closed ≡ true → c.ref_count ≡ 0 → 0 < checking
  pub shut : c.ref_count ≡ minus_one → c.closed ≡ true

-- The accounts with one call singled out: the others take, give back, are at the closer and check so much.
abbrev pub With : ReferenceCounter → Pc → ℕ → ℕ → ℕ → ℕ → Type 0
With c pc t g r k = Balanced c (taken pc + t) (given pc + g) (at_closer pc + r) (checking pc + k)

-- An operation keeps the accounts in balance and leaves the call with what it relies on.
module _ (c : ReferenceCounter) (t g r k : ℕ) where
  abbrev After : Pc → Type 0
  After pc = With (step pc c).1 (step pc c).0 t g r k × Valid (step pc c).1 (step pc c).0

  pub step-Balanced : (pc : Pc) → Valid c pc → With c pc t g r k → After pc
  unfolding step
  step-Balanced acquire_check v b = ground (arith)
  step-Balanced acquire_load v b = ground (arith)
  step-Balanced (acquire_cas n) v b = ground (arith)
  step-Balanced (acquired q) v b = (b, tt)
  step-Balanced release_load v b = ground (arith)
  step-Balanced (release_cas n) v b = ground (arith)
  step-Balanced (released q) v b = (b, tt)
  step-Balanced close_cas v b = ground (arith)
  step-Balanced (close_done q) v b = (b, tt)
  step-Balanced (check_closed by) v b = ground (arith)
  step-Balanced (close_set by) v b = ground (arith)
  step-Balanced (run_closer by) v b = ground (arith)

-- A counter that is closed stays closed.
step-closed : (pc : Pc) (c : ReferenceCounter) → c.closed ≡ true → (step pc c).1.closed ≡ true
unfolding step
step-closed acquire_check c h = h
step-closed acquire_load c h = h
step-closed (acquire_cas n) c h = ground (arith)
step-closed (acquired q) c h = h
step-closed release_load c h = h
step-closed (release_cas n) c h = ground (arith)
step-closed (released q) c h = h
step-closed close_cas c h = ground (arith)
step-closed (close_done q) c h = h
step-closed (check_closed by) c h = h
step-closed (close_set by) c h = ground (arith)
step-closed (run_closer by) c h = h

-- What the other calls rely on stays.
pub step-Valid : (pc other : Pc) (c : ReferenceCounter) → Valid c other → Valid (step pc c).1 other
step-Valid pc (acquire_cas n) c v = v
step-Valid pc (release_cas n) c v = v
step-Valid pc (close_set by) c v = step-closed pc c v
step-Valid pc (run_closer by) c v = step-closed pc c v
step-Valid pc acquire_check c v = tt
step-Valid pc acquire_load c v = tt
step-Valid pc (acquired q) c v = tt
step-Valid pc release_load c v = tt
step-Valid pc (released q) c v = tt
step-Valid pc close_cas c v = tt
step-Valid pc (close_done q) c v = tt
step-Valid pc (check_closed by) c v = tt
