-- ===== src/Calibration/Liveness.antt =====
-- modules/calibration/src/overlay/TrackerLiveness.h: whether a tracker has silently gone offline.
-- Times are milliseconds and speeds millimetres a second, where the source has doubles of seconds and
-- metres; a negative time, which stands for "not set", is `none`.
pub mod Frozen
use open_vr_pair_driver.Base.{
  ℕ, ◌-◌, ◌≤◌, ◌≡◌, ◌⊎◌, inl, inr, refl, Bool, true, false, not, Option, none, some, leb, ◌==◌,
  ◌&&◌, if◌then◌else◌, arith, Bool-cases,
}

pub record TrackerLivenessState : Type 0 where
  pub pose_hash_since : Option ℕ
  pub last_pose_hash : ℕ
  pub offline_since : Option ℕ
  pub reconnect_since : Option ℕ
  pub hmd_moved_during_freeze : Bool

pub record TrackerLivenessInputs : Type 0 where
  pub pos_hash : ℕ
  pub device_is_connected : Bool
  pub hmd_speed : ℕ
  pub now : ℕ

abbrev pub frozen_pose_threshold : ℕ
frozen_pose_threshold = 8000

abbrev pub hmd_moved_threshold : ℕ
hmd_moved_threshold = 20

abbrev pub reconnect_debounce : ℕ
reconnect_debounce = 2000

abbrev pub is_set : Option ℕ → Bool
is_set none = false
is_set (some _) = true

unfoldable pub is_offline : TrackerLivenessState → Bool
is_offline s = is_set s.offline_since

abbrev pub fresh_state : TrackerLivenessState
fresh_state = record {
  pose_hash_since = none;
  last_pose_hash = 0;
  offline_since = none;
  reconnect_since = none;
  hmd_moved_during_freeze = false;
}

abbrev set_offline : TrackerLivenessState → ℕ → TrackerLivenessState
set_offline s now = record s { offline_since = some now; reconnect_since = none }

-- The pose has changed.
unfoldable pub pose_changed : TrackerLivenessState → TrackerLivenessInputs → TrackerLivenessState
pose_changed s i =
    let s' : TrackerLivenessState = record s {
      last_pose_hash = i.pos_hash;
      pose_hash_since = some i.now;
      hmd_moved_during_freeze = false;
    } in
    if is_offline s
    then elim s.reconnect_since [
      | none ↦ record s' { reconnect_since = some i.now }
      | some since ↦ if leb reconnect_debounce (i.now - since) then fresh_state else s'
    ]
    else s'

-- The pose is the same as before, and the device is online.
unfoldable pub pose_frozen :
    TrackerLivenessState → TrackerLivenessInputs → TrackerLivenessState × Bool
pose_frozen s i = elim s.pose_hash_since [
  | none ↦ (record s { pose_hash_since = some i.now }, false)
  | some since ↦
      if leb frozen_pose_threshold (i.now - since) && s.hmd_moved_during_freeze
      then (set_offline s i.now, true)
      else (s, false)
]

-- The pose is the same as before: any reconnection is abandoned, and the headset may have moved.
abbrev after_still : TrackerLivenessState → TrackerLivenessInputs → TrackerLivenessState
after_still s i = record s {
  reconnect_since = none;
  hmd_moved_during_freeze =
      if leb hmd_moved_threshold i.hmd_speed then true else s.hmd_moved_during_freeze;
}

unfoldable pub tick_tracker_liveness :
    TrackerLivenessState → TrackerLivenessInputs → TrackerLivenessState × Bool
tick_tracker_liveness s i =
    if not i.device_is_connected
    then if is_offline s then (s, false) else (set_offline s i.now, true)
    else if not (i.pos_hash == s.last_pose_hash)
    then (pose_changed s i, false)
    else if is_offline s
    then (after_still s i, false)
    else pose_frozen (after_still s i) i

pose_changed-online :
    (s : TrackerLivenessState) (i : TrackerLivenessInputs)
    → is_offline s ≡ false
    → is_offline (pose_changed s i) ≡ false
unfolding pose_changed is_offline
pose_changed-online s i h = ground (arith, h)

pose_frozen-edge :
    (s : TrackerLivenessState) (i : TrackerLivenessInputs)
    → is_offline s ≡ false
    → (pose_frozen s i).1 ≡ is_offline (pose_frozen s i).0
unfolding pose_frozen is_offline
pose_frozen-edge s i h = ground (arith, h)

-- A tick reports an edge exactly when the device was online before it and is offline after it.
pub tick_tracker_liveness_edge :
    (s : TrackerLivenessState) (i : TrackerLivenessInputs)
    → (tick_tracker_liveness s i).1
      ≡ (not (is_offline s) && is_offline (tick_tracker_liveness s i).0)
unfolding tick_tracker_liveness is_offline
tick_tracker_liveness_edge s i = elim (Bool-cases (is_set s.offline_since)) [
  | inl off ↦ ground (arith, off)
  | inr on ↦ ground (arith, on, pose_changed-online s i on, pose_frozen-edge (after_still s i) i on)
]

-- A device is declared offline only if it is disconnected, or its pose is the last one, which the
-- state has known for at least eight seconds, and the state or the tick says that the headset moved.
pub tick_tracker_liveness_offline :
    (s : TrackerLivenessState) (i : TrackerLivenessInputs)
    → (tick_tracker_liveness s i).1 ≡ true
    → (i.device_is_connected ≡ false)
      ⊎ ((i.pos_hash ≡ s.last_pose_hash)
          × ((since : ℕ) × (s.pose_hash_since ≡ some since)
              × (frozen_pose_threshold ≤ i.now - since))
          × ((s.hmd_moved_during_freeze ≡ true) ⊎ (hmd_moved_threshold ≤ i.hmd_speed)))
unfolding tick_tracker_liveness pose_frozen
tick_tracker_liveness_offline s i h = from s.pose_hash_since refl
  where
    from :
        (o : Option ℕ)
        → s.pose_hash_since ≡ o
        → (i.device_is_connected ≡ false)
          ⊎ ((i.pos_hash ≡ s.last_pose_hash)
              × ((since : ℕ) × (s.pose_hash_since ≡ some since)
                  × (frozen_pose_threshold ≤ i.now - since))
              × ((s.hmd_moved_during_freeze ≡ true) ⊎ (hmd_moved_threshold ≤ i.hmd_speed)))
    from none e = ground (arith, h, e)
    from (some since) e = ground (arith, h, e)
