-- ===== src/Shmem/FaceFrames.antt =====
-- FaceTrackingFrameShmem: the ring of frames that the host publishes and the driver reads. A slot is
-- read here while no one writes it; interleavings are those of the seqlock. A segment that is not
-- mapped is `none`.
pub mod History
use open_vr_pair_driver.Base.{
  ℕ, zero, suc, ◌+◌, ◌-◌, ◌%◌, ◌^◌, Bool, Option, none, some, List, [], get_or, set, replicate, ltb,
  leb, ◌==◌, ◌||◌, if◌then◌else◌,
}
use open_vr_pair_driver.Shmem.Seqlock.{Slot}

abbrev pub ring_size : ℕ
ring_size = 32

-- HostState.
abbrev pub host_state_legacy : ℕ
host_state_legacy = 0

abbrev pub host_state_publishing : ℕ
host_state_publishing = 1

abbrev pub host_state_idle : ℕ
host_state_idle = 2

abbrev pub host_state_draining : ℕ
host_state_draining = 3

pub record FrameData : Type 0 where
  pub host_state : ℕ
  pub host_heartbeat_qpc : ℕ
  pub publish_index : ℕ
  pub slots : List Slot

abbrev pub no_slot : Slot
no_slot = record { generation = 0; body = [] }

-- What `Create` leaves in a new mapping, which is zero: `empty` is a body of zeros.
abbrev pub created : List ℕ → FrameData
created empty = record {
  host_state = host_state_legacy;
  host_heartbeat_qpc = 0;
  publish_index = 0;
  slots = replicate ring_size (record { generation = 0; body = empty });
}

unfoldable pub publish_index : Option FrameData → ℕ
publish_index none = 0
publish_index (some d) = d.publish_index

unfoldable pub host_heartbeat_qpc : Option FrameData → ℕ
host_heartbeat_qpc none = 0
host_heartbeat_qpc (some d) = d.host_heartbeat_qpc

unfoldable pub host_state_field : Option FrameData → ℕ
host_state_field none = host_state_legacy
host_state_field (some d) = d.host_state

unfoldable pub reset_host_liveness : Option FrameData → Option FrameData
reset_host_liveness none = none
reset_host_liveness (some d) =
    some (record d { host_state = host_state_legacy; host_heartbeat_qpc = 0 })

-- The loop of a read with `n` attempts left.
unfoldable pub read_slot : Slot → ℕ → Option (List ℕ)
read_slot slot zero = none
read_slot slot (suc n) =
    let rest = read_slot slot n in if slot.generation % 2 == 1 then rest else some slot.body

unfoldable pub try_read_latest_wire : Option FrameData → ℕ → Option (List ℕ)
try_read_latest_wire none max_retries = none
try_read_latest_wire (some d) max_retries =
    if d.publish_index == 0
    then none
    else read_slot (get_or d.slots ((d.publish_index - 1) % ring_size) no_slot) max_retries

unfoldable pub try_read_wire_by_index : Option FrameData → ℕ → ℕ → Option (List ℕ)
try_read_wire_by_index none target max_retries = none
try_read_wire_by_index (some d) target max_retries =
    if target == 0
    then none
    else if ltb d.publish_index target
    then none
    else if leb ring_size (d.publish_index - target)
    then none
    else read_slot (get_or d.slots ((target - 1) % ring_size) no_slot) max_retries

unfoldable pub publish : Option FrameData → List ℕ → Option FrameData
publish none body = none
publish (some d) body =
    let next = (d.publish_index + 1) % 2 ^ 64 in
    let at = (next - 1) % ring_size in
    let prev_gen = (get_or d.slots at no_slot).generation in
    some (record d {
      publish_index = next;
      slots = set d.slots at (record { generation = (prev_gen + 2) % 2 ^ 64; body = body });
    })
