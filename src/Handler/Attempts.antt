-- ===== src/Handler/Attempts.antt =====
-- How often the endorsers are asked for.
use fabric_snaps.Common.{◌⊎◌, ℕ, zero, suc, ◌+◌, ◌≤◌, String, ◌≡◌, ◌≢◌, some, List, [], ◌∷◌, arith}
use fabric_snaps.Handler.{get_endorsers_for_chaincode, sleep, History}
use fabric_snaps.Handler.PeerFilter.{Selection, select}

abbrev pub attempts : History → ℕ
attempts [] = 0
attempts (get_endorsers_for_chaincode ids ∷ h) = 1 + attempts h
attempts (q ∷ h) = attempts h

abbrev pub sleeps : History → ℕ
sleeps [] = 0
sleeps (sleep ∷ h) = 1 + sleeps h
sleeps (q ∷ h) = sleeps h

-- The loop asks at most so often. Either it ends with no endorsers and has asked and slept as often as it
-- may, or it ends with endorsers or an error and has asked once more than it has slept.
pub select-attempts :
    (selection : Selection) (n : ℕ) (ids : List String) (h : History)
    → (attempts (select selection n ids h).1 ≤ attempts h + n)
      × (((select selection n ids h).0 ≡ some [])
            × (attempts (select selection n ids h).1 ≡ attempts h + n)
            × (sleeps (select selection n ids h).1 ≡ sleeps h + n)
          ⊎ ((select selection n ids h).0 ≢ some [])
            × (attempts (select selection n ids h).1 + sleeps h
                ≡ 1 + attempts h + sleeps (select selection n ids h).1))
unfolding select
select-attempts selection zero ids h = ground (arith)
select-attempts selection (suc n) ids h =
    ground (arith, select-attempts selection n ids (sleep ∷ get_endorsers_for_chaincode ids ∷ h))
