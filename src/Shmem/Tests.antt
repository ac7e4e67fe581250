-- ===== src/Shmem/Tests.antt =====
-- Runs of the segments.
use open_vr_pair_driver.Base.{
  true, ◌≡◌, refl, List, [], ◌∷◌, some, length, replicate, inl, inr, arith, ℕ,
}
use open_vr_pair_driver.Shmem.PoseRing.{DriverPose, running_ok, zero_pose}
use open_vr_pair_driver.Shmem.PoseRing.Keep.{latest}
use open_vr_pair_driver.Shmem.PoseRing.Late.{
  Op, sets, overlay_get, after, fresh, accepted, delayed, get_pose-latest,
}
use open_vr_pair_driver.Shmem.FaceFrames.{created, try_read_wire_by_index}
use open_vr_pair_driver.Shmem.FaceFrames.History.{publish_all, try_read_wire_by_index-publish_all}
use open_vr_pair_driver.Shmem.Seqlock.{
  System, resting, attempt, returned, run, turn, read_step, write_step, Actor, driver, overlay,
}
use open_vr_pair_driver.Shmem.Seqlock.Safety.{IsReady, IsOneOf, run-IsOneOf}
use open_vr_pair_driver.Shmem.Seqlock.Progress.{Ended, run-Ended}

abbrev rested : System
rested = record {
  slot = record { generation = 4; body = 1 ∷ 2 ∷ [] };
  writer = resting;
  todo = (5 ∷ 6 ∷ []) ∷ [];
  reader = attempt 2;
}

rested-IsReady : IsReady rested 2
rested-IsReady = record { rests = refl; even = refl; fits = omega arith; reads = refl }

-- The driver writes while the overlay copies the first word, so the first attempt fails.
abbrev torn : List Actor
torn =
    overlay ∷ driver ∷ driver ∷ overlay ∷ driver ∷ driver ∷ overlay ∷ overlay ∷ overlay ∷ overlay
    ∷ overlay ∷ overlay ∷ []

torn-run : (run rested torn).reader ≡ returned (some (5 ∷ 6 ∷ []))
unfolding run turn read_step write_step
torn-run = refl

run-IsOneOf_example : IsOneOf (rested.slot.body ∷ rested.todo) (5 ∷ 6 ∷ [])
run-IsOneOf_example = run-IsOneOf rested 2 torn (5 ∷ 6 ∷ []) rested-IsReady long torn-run
  where
    long : (b : List ℕ) → IsOneOf (rested.slot.body ∷ rested.todo) b → length b ≡ 2
    long b (inl e) = rw e refl
    long b (inr (inl e)) = rw e refl
    long b (inr (inr no_more)) = elim no_more [ ]

run-Ended_example : Ended (run rested (replicate 9 overlay)).reader
run-Ended_example = run-Ended rested 2 (replicate 9 overlay) refl (omega arith)

abbrev tracked : ℕ → DriverPose
tracked x = record { pose_is_valid = true; result = running_ok; content = x ∷ [] }

abbrev writes : List Op
writes = sets 1 (tracked 7) 10 ∷ sets 2 (tracked 8) 11 ∷ sets 1 (tracked 9) 12 ∷ []

get_pose-latest_example :
    (overlay_get (after fresh writes) 1).1 ≡ some (latest 1 zero_pose (delayed (accepted writes)))
get_pose-latest_example = get_pose-latest writes 1 tt (omega arith) (omega arith) (omega arith)

-- The pose written at 12 is not seen.
late_run :
    latest 1 zero_pose (delayed (accepted writes))
    ≡ record { sample_time = 10; device_id = 1; pose = tracked 7 }
late_run = refl

abbrev frames : List (List ℕ)
frames = (1 ∷ []) ∷ (2 ∷ []) ∷ []

try_read_wire_by_index-publish_all_example :
    try_read_wire_by_index (publish_all (some (created (0 ∷ []))) frames) 1 8 ≡ some (1 ∷ [])
try_read_wire_by_index-publish_all_example =
    try_read_wire_by_index-publish_all (0 ∷ []) frames 1 7 (omega arith)
