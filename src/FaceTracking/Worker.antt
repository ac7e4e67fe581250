-- ===== src/FaceTracking/Worker.antt =====
-- FaceFrameReader and the head of WorkerLoop of FacetrackingDriverModule.cpp, up to the frame that it
-- reads: the detector that restarts a host without a heartbeat. Times of the steady clock are in
-- nanoseconds, `freq` is the frequency of the performance counter, and `qpc` its value.
pub mod Restarts
use open_vr_pair_driver.Base.{
  ℕ, ◌+◌, ◌-◌, ◌*◌, ◌/◌, ◌%◌, ◌^◌, Bool, true, false, not, Option, none, some, List, ltb, leb, ◌==◌,
  ◌&&◌, ◌||◌, if◌then◌else◌,
}
use open_vr_pair_driver.Shmem.FaceFrames.{
  FrameData, host_state_legacy, host_state_publishing, host_state_idle, publish_index,
  host_heartbeat_qpc, host_state_field, reset_host_liveness, try_read_latest_wire,
}

abbrev pub uint64_max : ℕ
uint64_max = 2 ^ 64 - 1

unfoldable pub heartbeat_age_ms : Option FrameData → ℕ → ℕ → ℕ
heartbeat_age_ms none freq qpc = uint64_max
heartbeat_age_ms (some d) freq qpc =
    let hb = host_heartbeat_qpc (some d) in
    if hb == 0
    then uint64_max
    else if leb qpc hb
    then 0
    else if freq == 0
    then uint64_max
    else (((qpc - hb) * 1000) % 2 ^ 64) / freq

-- The variables of WorkerLoop.
pub record Worker : Type 0 where
  pub last_idx : ℕ
  pub wedge_restart_pending : Bool
  pub last_wedge_restart_time : ℕ

abbrev pub new_worker : Worker
new_worker = record { last_idx = 0; wedge_restart_pending = false; last_wedge_restart_time = 0 }

unfoldable pub wedge_threshold_ms : ℕ → ℕ
wedge_threshold_ms host_state =
    if host_state == host_state_publishing
    then 2000
    else if host_state == host_state_idle
    then 5000
    else uint64_max

unfoldable pub is_wedged : ℕ → ℕ → Bool
is_wedged host_state age =
    not (host_state == host_state_legacy)
    && (not (age == uint64_max) && ltb (wedge_threshold_ms host_state) age)

unfoldable pub restart_allowed : Worker → ℕ → Bool
restart_allowed w now =
    not w.wedge_restart_pending || leb 10 ((now - w.last_wedge_restart_time) / 10 ^ 9)

-- What a turn of the loop does: it restarts the host, only waits since the last restart is recent,
-- finds no new frame, fails to read it, or goes on with a frame.
pub data Outcome : Type 0 where
  restarted : Outcome
  waits : Outcome
  no_frame : Outcome
  unread : Outcome
  frame : List ℕ → Outcome

-- The rest of a turn, for a host that is not wedged.
unfoldable pub read_turn : Worker → Option FrameData → Worker × Outcome
read_turn w m =
    let idx = publish_index m in
    if idx == w.last_idx then (w, no_frame) else (
      record w { last_idx = idx },
      elim (try_read_latest_wire m 8) [ none ↦ unread | some body ↦ frame body ],
    )

-- One turn: the worker, the segment and what was done.
unfoldable pub worker_turn :
    Worker → Option FrameData → ℕ → ℕ → ℕ → Worker × (Option FrameData × Outcome)
worker_turn w m freq qpc now =
    let host_state = host_state_field m in
    let age = heartbeat_age_ms m freq qpc in
    if is_wedged host_state age
    then if restart_allowed w now
      then (
        record w { wedge_restart_pending = true; last_wedge_restart_time = now },
        (reset_host_liveness m, restarted),
      )
      else (w, (m, waits))
    else let cleared =
        if w.wedge_restart_pending && not (age == uint64_max)
        then record w { wedge_restart_pending = false }
        else w in
      let (next, outcome) = read_turn cleared m in (next, (m, outcome))
