-- ===== src/Shmem/PoseRing.antt =====
-- DriverPoseShmem: the ring of poses that the driver writes and the overlay reads, with the
-- telemetry beside it. A segment that is not mapped is `none`.
pub mod Ring
pub mod Keep
pub mod Late
use open_vr_pair_driver.Base.{
  ℕ, zero, suc, ◌+◌, ◌-◌, ◌%◌, ◌^◌, ◌/◌, Bool, true, false, Option, none, some, List, [], ◌∷◌,
  get_or, set, replicate, ltb, leb, ◌==◌, ◌&&◌, ◌||◌, if◌then◌else◌,
}

-- `vr::DriverPose_t`: the members that the ring reads, and the others as words.
pub record DriverPose : Type 0 where
  pub pose_is_valid : Bool
  pub result : ℕ
  pub content : List ℕ

pub record AugmentedPose : Type 0 where
  pub sample_time : ℕ
  pub device_id : ℕ
  pub pose : DriverPose

pub record Telemetry : Type 0 where
  pub fallback_apply_count : ℕ
  pub per_id_apply_count : ℕ
  pub quash_apply_count : ℕ

pub data TelemetryField : Type 0 where
  telemetry_fallback_apply : TelemetryField
  telemetry_per_id_apply : TelemetryField
  telemetry_quash_apply : TelemetryField

abbrev pub buffered_samples : ℕ
buffered_samples = 65536

abbrev pub max_tracked_devices : ℕ
max_tracked_devices = 64

abbrev pub running_ok : ℕ
running_ok = 200

-- `poses` is indexed by the numbers below `buffered_samples`.
pub record PoseData : Type 0 where
  pub telemetry : Telemetry
  pub index : ℕ
  pub poses : ℕ → AugmentedPose

abbrev pub zero_pose : AugmentedPose
zero_pose = record {
  sample_time = 0;
  device_id = 0;
  pose = record { pose_is_valid = false; result = 0; content = [] };
}

-- What `Create` leaves in a new mapping, which is zero.
abbrev pub created : PoseData
created = record {
  telemetry = record { fallback_apply_count = 0; per_id_apply_count = 0; quash_apply_count = 0 };
  index = 0;
  poses = λ i. zero_pose;
}

-- `SetPose`, for a device number that is not negative, at the time `now`.
unfoldable pub set_pose : Option PoseData → ℕ → DriverPose → ℕ → Option PoseData
set_pose none device pose now = none
set_pose (some d) device pose now =
    if leb max_tracked_devices device
    then some d
    else let cur_index = (d.index + 1) % 2 ^ 64 in
      let slot = cur_index % buffered_samples in
      some (record d {
        index = cur_index;
        poses = λ i.
            if i == slot
            then record { sample_time = now; device_id = device; pose = pose }
            else d.poses i;
      })

-- The members of the overlay's object.
pub record PoseReader : Type 0 where
  pub cursor : ℕ
  pub last_pose : List AugmentedPose

abbrev pub new_reader : PoseReader
new_reader = record { cursor = 0; last_pose = replicate max_tracked_devices zero_pose }

-- Where `ReadNewPoses` begins to read.
unfoldable pub catch_up : ℕ → ℕ → ℕ
catch_up cursor cur_index =
    if ltb cur_index cursor || ltb (buffered_samples / 2) (cur_index - cursor)
    then (if ltb cur_index (buffered_samples / 2)
        then cur_index
        else cur_index - buffered_samples / 2)
    else cursor

-- The poses that `n` rounds of the loop hand to the callback.
unfoldable pub read_from : (ℕ → AugmentedPose) → ℕ → ℕ → List AugmentedPose
read_from poses cursor zero = []
read_from poses cursor (suc n) = poses (cursor % buffered_samples) ∷ read_from poses (cursor + 1) n

-- The new cursor and the poses handed to the callback.
unfoldable pub read_new_poses : PoseData → ℕ → ℕ × List AugmentedPose
read_new_poses d cursor =
    let start = catch_up cursor d.index in
    (start + (d.index - start), read_from d.poses start (d.index - start))

-- The callback of `GetPose`.
unfoldable pub keep_last : List AugmentedPose → AugmentedPose → List AugmentedPose
keep_last last p =
    if p.pose.pose_is_valid && p.pose.result == running_ok then set last p.device_id p else last

unfoldable pub keep_all : List AugmentedPose → List AugmentedPose → List AugmentedPose
keep_all last [] = last
keep_all last (p ∷ ps) = keep_all (keep_last last p) ps

-- `GetPose`, for a device number that is not negative, on a segment that is open: the pose and its
-- time, if it returns true.
unfoldable pub get_pose : PoseData → PoseReader → ℕ → PoseReader × Option AugmentedPose
get_pose d r device =
    let (cursor, new) = read_new_poses d r.cursor in
    let last = keep_all r.last_pose new in
    (
      record { cursor = cursor; last_pose = last },
      if ltb device max_tracked_devices then some (get_or last device zero_pose) else none,
    )

unfoldable pub increment_telemetry : Option PoseData → TelemetryField → Option PoseData
increment_telemetry none field = none
increment_telemetry (some d) field =
    let t = d.telemetry in
    some (record d {
      telemetry = elim field [
        | telemetry_fallback_apply ↦ record t {
          fallback_apply_count = (t.fallback_apply_count + 1) % 2 ^ 64;
        }
        | telemetry_per_id_apply ↦ record t {
          per_id_apply_count = (t.per_id_apply_count + 1) % 2 ^ 64;
        }
        | telemetry_quash_apply ↦ record t {
          quash_apply_count = (t.quash_apply_count + 1) % 2 ^ 64;
        }
      ];
    })

unfoldable pub get_telemetry : Option PoseData → Option (ℕ × (ℕ × ℕ))
get_telemetry none = none
get_telemetry (some d) = some (
  d.telemetry.fallback_apply_count,
  (d.telemetry.per_id_apply_count, d.telemetry.quash_apply_count),
)
