-- ===== src/Types/Vesting.antt =====
-- x/fundraising/types/vesting.go: the checks of vesting schedules, and when a queue is released.
use fundraising.Prelude.{
  Bool, List, [], arith, inl, inr, ltb, max, not, refl, ◌&&◌, ◌+◌, ◌<◌, ◌==◌, ◌↔◌, ◌∷◌, ◌≡◌, ◌≤◌,
  ◌⊎◌,
}
use fundraising.Sdk.{Time}
use fundraising.Sdk.Decimals.{Decimal, one}
use fundraising.Sdk.Outcome.{Result, fail_if, invalid_vesting_schedules, ok, ◌>>◌}
use fundraising.Types.{VestingQueue, VestingSchedule}

-- One round of the loop.
unfoldable pub check_schedule : Time → Time → VestingSchedule → Result (Unit {0})
check_schedule end_time prev s = do
  fail_if (s.weight == 0) invalid_vesting_schedules
  fail_if (not (ltb end_time s.release_time)) invalid_vesting_schedules
  fail_if (not (ltb prev s.release_time)) invalid_vesting_schedules
  fail_if (ltb one s.weight) invalid_vesting_schedules

-- The loop, with `prevReleaseTime` and `totalWeight`, and the test after it.
unfoldable pub check_schedules : Time → Time → Decimal → List VestingSchedule → Result (Unit {0})
unfolding check_schedule
check_schedules end_time prev total [] = fail_if (not (total == one)) invalid_vesting_schedules
check_schedules end_time prev total (s ∷ ss) =
    check_schedule end_time prev s >> check_schedules end_time s.release_time (total + s.weight) ss

-- `ValidateVestingSchedules`; year 1 is time 0.
unfoldable pub validate_vesting_schedules : List VestingSchedule → Time → Result (Unit {0})
unfolding check_schedules
validate_vesting_schedules [] end_time = ok tt
validate_vesting_schedules (s ∷ ss) end_time = check_schedules end_time 0 0 (s ∷ ss)

unfoldable pub should_release : VestingQueue → Time → Bool
should_release q t = not (ltb t q.release_time) && not q.released

abbrev pub total_weight : List VestingSchedule → Decimal
total_weight [] = 0
total_weight (s ∷ ss) = s.weight + total_weight ss

-- The weights are positive, and the release times rise from a bound.
abbrev pub RisesFrom : Time → List VestingSchedule → Type 0
RisesFrom t [] = Unit {0}
RisesFrom t (s ∷ ss) = (t < s.release_time) × (0 < s.weight) × RisesFrom s.release_time ss

check_schedules_sound :
    (end_time prev t : Time) (total : Decimal) (ss : List VestingSchedule)
    → t ≡ max end_time prev
    → check_schedules end_time prev total ss ≡ ok tt
    → RisesFrom t ss × (total + total_weight ss ≡ one)
unfolding check_schedules
check_schedules_sound end_time prev t total [] e h = ground arith
check_schedules_sound end_time prev t total (s ∷ ss) e h =
    ground
      (arith, check_schedules_sound end_time s.release_time s.release_time (total + s.weight) ss)

check_schedules_complete :
    (end_time prev t : Time) (total : Decimal) (ss : List VestingSchedule)
    → end_time ≤ t
    → prev ≤ t
    → RisesFrom t ss
    → total + total_weight ss ≡ one
    → check_schedules end_time prev total ss ≡ ok tt
unfolding check_schedules
check_schedules_complete end_time prev t total [] le lp r e = ground arith
check_schedules_complete end_time prev t total (s ∷ ss) le lp r e =
    ground
      (arith, check_schedules_complete end_time s.release_time s.release_time (total + s.weight) ss)

-- Schedules pass the check exactly when there are none, or the release times rise strictly from the
-- end time, every weight is positive and the weights add up to one.
pub validate_vesting_schedules_iff :
    (ss : List VestingSchedule) (end_time : Time)
    → (validate_vesting_schedules ss end_time ≡ ok tt)
      ↔ ((ss ≡ []) ⊎ (RisesFrom end_time ss × (total_weight ss ≡ one)))
unfolding validate_vesting_schedules
validate_vesting_schedules_iff [] end_time = (λ h. inl refl, λ h. refl)
validate_vesting_schedules_iff (s ∷ ss) end_time = (sound, complete)
  where
    sound :
        check_schedules end_time 0 0 (s ∷ ss) ≡ ok tt
        → (◌≡◌ {A = List VestingSchedule} (s ∷ ss) [])
          ⊎ (RisesFrom end_time (s ∷ ss) × (total_weight (s ∷ ss) ≡ one))
    sound h =
        let r = check_schedules_sound end_time 0 end_time 0 (s ∷ ss) (omega arith) h in
        inr (r.0, omega arith)

    complete :
        (◌≡◌ {A = List VestingSchedule} (s ∷ ss) [])
          ⊎ (RisesFrom end_time (s ∷ ss) × (total_weight (s ∷ ss) ≡ one))
        → check_schedules end_time 0 0 (s ∷ ss) ≡ ok tt
    complete (inl e) = cc
    complete (inr r) =
        check_schedules_complete end_time 0 end_time 0 (s ∷ ss) (omega arith) (omega arith) r.0
          (omega arith)
