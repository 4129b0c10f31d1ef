-- ===== src/Examples/Counting.antt =====
-- A reference that is taken, a close while it is held, and its release, which closes the resource.
use fabric_snaps.Common.{
  ◌⊎◌, ◌+◌, ◌<◌, ◌≢◌, if◌then◌else◌, eqb, ℕ, Bool, true, false, List, [], ◌∷◌, ◌≡◌, refl,
}
use fabric_snaps.RefCount.{
  ReferenceCounter, Pc, step, acquire_check, acquire_load, acquire_cas, acquired, release_load,
  release_cas, released, close_cas, close_done, check_closed, close_set, run_closer, releasing,
  closing, minus_one,
}
use fabric_snaps.RefCount.Step.{
  System, Reachable, start, call, run, acquire_call, release_call, close_call, run_alone,
}
use fabric_snaps.RefCount.Closing.{
  accounts_balance, total, IsDone, closer_lem, closed_in_the_end, run_alone-IsDone,
}
use fabric_snaps.RefCount.Balance.{taken, given, held, at_closer, checking}

abbrev counter : ℕ → Bool → ℕ → ReferenceCounter
counter n c k = record { ref_count = n; closed = c; closes = k }

taken_once : Reachable (record { calls = acquired true ∷ []; counter = counter 1 false 0 })
unfolding step
taken_once = run [] (acquire_cas 0) [] (counter 0 false 0) (
    run [] acquire_load [] (counter 0 false 0)
      (run [] acquire_check [] (counter 0 false 0) (call acquire_call start)))

closed_while_held :
    Reachable (record { calls = close_done true ∷ acquired true ∷ []; counter = counter 1 true 0 })
unfolding step
closed_while_held = run [] (close_set closing) (acquired true ∷ []) (counter 1 true 0) (
    run [] (check_closed closing) (acquired true ∷ []) (counter 1 true 0)
      (run [] close_cas (acquired true ∷ []) (counter 1 false 0) (call close_call taken_once)))

abbrev all_done : System
all_done = record {
  calls = released true ∷ close_done true ∷ acquired true ∷ [];
  counter = counter 4294967295 true 1;
}

released_last : Reachable all_done
unfolding step
released_last =
    let others : List Pc = close_done true ∷ acquired true ∷ [] in
    run [] (run_closer releasing) others (counter 4294967295 true 0) (
      run [] (close_set releasing) others (counter 0 true 0) (
        run [] (check_closed releasing) others (counter 0 true 0) (
          run [] (release_cas 1) others (counter 1 true 0)
            (run [] release_load others (counter 1 true 0) (call release_call closed_while_held)))))

accounts_balance_example :
    (total taken all_done.calls ≡ held all_done.counter + total given all_done.calls)
    × (all_done.counter.closes + total at_closer all_done.calls
        ≡ (if eqb all_done.counter.ref_count minus_one then 1 else 0))
    × ((all_done.counter.ref_count ≢ minus_one) ⊎ (all_done.counter.closed ≡ true))
    × ((all_done.counter.closed ≡ false)
        ⊎ ((all_done.counter.ref_count ≢ 0) ⊎ (0 < total checking all_done.calls)))
accounts_balance_example = accounts_balance all_done released_last

closer_lem_example :
    (all_done.counter.closes ≡ 0)
    ⊎ ((all_done.counter.closes ≡ 1)
        × (all_done.counter.closed ≡ true)
        × (total taken all_done.calls ≡ total given all_done.calls))
closer_lem_example = closer_lem all_done released_last

closed_in_the_end_example : all_done.counter.closes ≡ 1
closed_in_the_end_example = closed_in_the_end all_done released_last (tt, (tt, (tt, tt))) refl refl

run_alone-IsDone_example : IsDone (run_alone 6 (release_cas 1) (counter 1 true 0)).0
run_alone-IsDone_example = run_alone-IsDone (release_cas 1) (counter 1 true 0)
