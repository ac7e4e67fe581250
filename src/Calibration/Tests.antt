-- ===== src/Calibration/Tests.antt =====
-- A one-shot calibration, from the idle state to its second phase.
use open_vr_pair_driver.Base.{ℕ, ◌-◌, ◌≡◌, ◌≤◌, ◌⊎◌, true, false, refl, List, [], ◌∷◌}
use open_vr_pair_driver.Calibration.{none, begin, rotation, translation, is_legal_transition}
use open_vr_pair_driver.Calibration.Liveness.{
  TrackerLivenessInputs, is_offline, pose_changed, pose_frozen, tick_tracker_liveness,
}
use open_vr_pair_driver.Calibration.Liveness.Frozen.{state_after, IsStill, offline_after}
use open_vr_pair_driver.Calibration.Phases.{Run, here, step}

one_shot : Run none translation
unfolding is_legal_transition
one_shot = step {s = rotation} (step {s = begin} (step {s = none} here refl) refl) refl

abbrev moving : TrackerLivenessInputs
moving = record { pos_hash = 5; device_is_connected = true; hmd_speed = 50; now = 1000 }

-- A tracker whose pose has been the same for nine seconds, in which the headset has moved.
abbrev past : List TrackerLivenessInputs
past = record moving { now = 3000 } ∷ moving ∷ []

abbrev still : TrackerLivenessInputs
still = record { pos_hash = 5; device_is_connected = true; hmd_speed = 0; now = 10000 }

frozen_reported : (tick_tracker_liveness (state_after past) still).1 ≡ true
unfolding tick_tracker_liveness is_offline pose_frozen pose_changed
frozen_reported = refl

offline_after_example :
    (true ≡ false) ⊎ ((since : ℕ) × (8000 ≤ 10000 - since) × IsStill 5 since true (still ∷ past))
offline_after_example = offline_after past still frozen_reported
