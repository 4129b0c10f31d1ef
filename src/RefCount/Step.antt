-- ===== src/RefCount/Step.antt =====
-- Several goroutines that call the methods of one counter.
use fabric_snaps.Common.{ℕ, zero, suc, List, [], ◌∷◌, ◌++◌}
use fabric_snaps.RefCount.{ReferenceCounter, Pc, new_counter, step, acquire, release, close}

-- A method's call is one of these.
pub data IsCall : Pc → Type 0 where
  acquire_call : IsCall acquire
  release_call : IsCall release
  close_call : IsCall close

-- The calls so far, each where it stands, and the counter.
pub record System : Type 0 where
  pub calls : List Pc
  pub counter : ReferenceCounter

abbrev pub initial : System
initial = record { calls = []; counter = new_counter }

-- The systems that interleavings of calls reach.
pub data Reachable : System → Type 0 where
  start : Reachable initial
  call :
      {pc : Pc} {s : System}
      → IsCall pc
      → Reachable s
      → Reachable (record s { calls = pc ∷ s.calls })
  run :
      (pre : List Pc) (pc : Pc) (post : List Pc) (c : ReferenceCounter)
      → Reachable (record { calls = pre ++ pc ∷ post; counter = c })
      → Reachable (record { calls = pre ++ (step pc c).0 ∷ post; counter = (step pc c).1 })

-- A call that is alone runs that many operations.
unfoldable pub run_alone : ℕ → Pc → ReferenceCounter → Pc × ReferenceCounter
run_alone zero pc c = (pc, c)
run_alone (suc n) pc c = let (pc', c') = step pc c in run_alone n pc' c'
