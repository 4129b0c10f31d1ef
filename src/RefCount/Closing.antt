-- ===== src/RefCount/Closing.antt =====
-- When the resource of a reference counter is closed, whatever the interleaving of the calls.
use fabric_snaps.Common.{
  ◌⊎◌, inl, inr, ℕ, ◌+◌, ◌<◌, ◌≢◌, Bool-cases, eqb, if◌then◌else◌, true, false, List, [], ◌∷◌, ◌++◌,
  ◌≡◌, refl, arith, All, All-append, All-map,
}
use fabric_snaps.RefCount.{
  ReferenceCounter, Pc, step, acquired, released, close_done, acquire_check, acquire_load,
  acquire_cas, release_load, release_cas, close_cas, check_closed, close_set, run_closer, minus_one,
}
use fabric_snaps.RefCount.Step.{
  IsCall, acquire_call, release_call, close_call, System, Reachable, start, call, run, run_alone,
}
use fabric_snaps.RefCount.Balance.{
  held, Valid, Balanced, taken, given, at_closer, checking, step-Balanced, step-Valid,
}

-- The sum of an account over the calls.
abbrev pub total : (Pc → ℕ) → List Pc → ℕ
total f [] = 0
total f (pc ∷ pcs) = f pc + total f pcs

total-append :
    (f : Pc → ℕ) (pre : List Pc) (pc : Pc) (post : List Pc)
    → total f (pre ++ pc ∷ post) ≡ f pc + (total f pre + total f post)
total-append f [] pc post = omega arith
total-append f (p ∷ pre) pc post = omega (arith, total-append f pre pc post)

-- The accounts of all the calls are in balance.
abbrev pub Invariant : System → Type 0
Invariant s =
    Balanced s.counter (total taken s.calls) (total given s.calls) (total at_closer s.calls)
      (total checking s.calls)
    × All (Valid s.counter) s.calls

All-split :
    (P : Pc → Type 0) (pre : List Pc) (pc : Pc) (post : List Pc)
    → All P (pre ++ pc ∷ post)
    → All P pre × (P pc × All P post)
All-split P [] pc post h = (tt, h)
All-split P (p ∷ pre) pc post h = let (a, b) = All-split P pre pc post h.1 in ((h.0, a), b)

new_call :
    (c : ReferenceCounter) (t g r k : ℕ)
    → Balanced c t g r k
    → Balanced c (0 + t) (0 + g) (0 + r) (0 + k)
new_call c t g r k b = ground (arith)

call-Invariant :
    {pc : Pc} (s : System) → IsCall pc → Invariant s → Invariant (record s { calls = pc ∷ s.calls })
call-Invariant s acquire_call h = (new_call _ _ _ _ _ h.0, (tt, h.1))
call-Invariant s release_call h = (new_call _ _ _ _ _ h.0, (tt, h.1))
call-Invariant s close_call h = (new_call _ _ _ _ _ h.0, (tt, h.1))

run-Invariant :
    (pre : List Pc) (pc : Pc) (post : List Pc) (c : ReferenceCounter)
    → Invariant (record { calls = pre ++ pc ∷ post; counter = c })
    → Invariant (record { calls = pre ++ (step pc c).0 ∷ post; counter = (step pc c).1 })
run-Invariant pre pc post c (b, v) =
    let (vs, (w, ws)) = All-split (Valid c) pre pc post v in
    let (b', w') = step-Balanced c _ _ _ _ pc w (
      rw
        (
          ← total-append taken pre pc post,
          ← total-append given pre pc post,
          ← total-append at_closer pre pc post,
          ← total-append checking pre pc post,
        )
        b) in
    (
      rw
          (
            total-append taken pre (step pc c).0 post,
            total-append given pre (step pc c).0 post,
            total-append at_closer pre (step pc c).0 post,
            total-append checking pre (step pc c).0 post,
          )
          b',
      All-append (Valid (step pc c).1) pre _ (All-map (λ p. step-Valid pc p c) pre vs)
          (w', All-map (λ p. step-Valid pc p c) post ws),
    )

-- In every system that interleaved calls reach, the references taken are the references held and those
-- given back, the closer was called or is about to be called once when the count is -1 and not at all
-- otherwise, and a closed counter with no reference is still to be checked by one of the calls.
pub Reachable-Invariant : (s : System) → Reachable s → Invariant s
Reachable-Invariant _ start = (
  record {
    references = refl;
    once = refl;
    pending = λ p q. ground (arith);
    shut = λ p. ground (arith);
  },
  tt,
)
Reachable-Invariant _ (call {s = s} i h) = call-Invariant s i (Reachable-Invariant _ h)
Reachable-Invariant _ (run pre pc post c h) = run-Invariant pre pc post c (Reachable-Invariant _ h)

-- In every system that interleaved calls reach, the references taken are those held and those given
-- back; the closer was called, or is about to be, once if the count is -1 and not at all otherwise; a
-- counter at -1 is closed, and one that is closed at 0 is still to be checked by a call.
pub accounts_balance :
    (s : System)
    → Reachable s
    → (total taken s.calls ≡ held s.counter + total given s.calls)
      × (s.counter.closes + total at_closer s.calls
          ≡ (if eqb s.counter.ref_count minus_one then 1 else 0))
      × ((s.counter.ref_count ≢ minus_one) ⊎ (s.counter.closed ≡ true))
      × ((s.counter.closed ≡ false) ⊎ ((s.counter.ref_count ≢ 0) ⊎ (0 < total checking s.calls)))
accounts_balance s h =
    let (b, v) = Reachable-Invariant s h in
    (
      b.references,
      b.once,
      ground (arith, b),
      elim (Bool-cases s.counter.closed) [
        | inr not_closed ↦ inl not_closed
        | inl shut ↦ ground (arith, b, shut)
      ],
    )

-- In every system that interleaved calls reach, either the closer has not been called, or it has been
-- called once, the counter is closed and all the references that were taken have been given back.
pub closer_lem :
    (s : System)
    → Reachable s
    → (s.counter.closes ≡ 0)
      ⊎ ((s.counter.closes ≡ 1)
          × (s.counter.closed ≡ true)
          × (total taken s.calls ≡ total given s.calls))
closer_lem s h = let (b, v) = Reachable-Invariant s h in ground (arith)

-- A call that has returned.
abbrev pub IsDone : Pc → Type 0
IsDone (acquired r) = Unit
IsDone (released r) = Unit
IsDone (close_done r) = Unit
IsDone pc = ⊥

done_counts : (pc : Pc) → IsDone pc → (checking pc ≡ 0) × (at_closer pc ≡ 0)
done_counts acquire_check h = absurd h
done_counts acquire_load h = absurd h
done_counts (acquire_cas n) h = absurd h
done_counts (acquired r) h = (refl, refl)
done_counts release_load h = absurd h
done_counts (release_cas n) h = absurd h
done_counts (released r) h = (refl, refl)
done_counts close_cas h = absurd h
done_counts (close_done r) h = (refl, refl)
done_counts (check_closed by) h = absurd h
done_counts (close_set by) h = absurd h
done_counts (run_closer by) h = absurd h

total_done : (pcs : List Pc) → All IsDone pcs → (total checking pcs ≡ 0) × (total at_closer pcs ≡ 0)
total_done [] h = (refl, refl)
total_done (pc ∷ pcs) h = ground (arith, total_done pcs h.1, done_counts pc h.0)

-- Once all calls have returned, a closed counter whose references were all given back has called the
-- closer exactly once.
pub closed_in_the_end :
    (s : System)
    → Reachable s
    → All IsDone s.calls
    → s.counter.closed ≡ true
    → total taken s.calls ≡ total given s.calls
    → s.counter.closes ≡ 1
closed_in_the_end s h d c e =
    let (b, v) = Reachable-Invariant s h in let (k, r) = total_done s.calls d in ground (arith)

-- A call that no other call disturbs returns after at most six operations.
pub run_alone-IsDone : (pc : Pc) (c : ReferenceCounter) → IsDone (run_alone 6 pc c).0
unfolding run_alone step
run_alone-IsDone acquire_check c = ground (arith)
run_alone-IsDone acquire_load c = ground (arith)
run_alone-IsDone (acquire_cas n) c = ground (arith)
run_alone-IsDone (acquired r) c = ground (arith)
run_alone-IsDone release_load c = ground (arith)
run_alone-IsDone (release_cas n) c = ground (arith)
run_alone-IsDone (released r) c = ground (arith)
run_alone-IsDone close_cas c = ground (arith)
run_alone-IsDone (close_done r) c = ground (arith)
run_alone-IsDone (check_closed by) c = ground (arith)
run_alone-IsDone (close_set by) c = ground (arith)
run_alone-IsDone (run_closer by) c = ground (arith)
