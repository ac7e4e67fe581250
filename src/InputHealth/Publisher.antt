-- ===== src/InputHealth/Publisher.antt =====
-- The publisher of the statistics (modules/inputhealth/src/driver/InputHealthSnapshotPublisher.cpp)
-- and the overlay's reader of them (modules/inputhealth/src/overlay/SnapshotReader.cpp). A tick of
-- the publisher is one step here; its stores and the reader's loads one by one are in Shmem.Seqlock.
pub mod Table
pub mod Shown
use open_vr_pair_driver.Base.{
  ℕ, ◌+◌, ◌-◌, ◌*◌, ◌%◌, ◌^◌, Bool, true, false, not, Option, none, some, List, [], ◌∷◌, ◌++◌, map,
  set, replicate, leb, ltb, ◌==◌, ◌&&◌, ◌||◌, if◌then◌else◌, find, put,
}
use open_vr_pair_driver.InputHealth.Stats.{SnapshotBody, StatsMap, stage_snapshots}

-- INPUTHEALTH_SLOT_COUNT.
abbrev pub slot_count : ℕ
slot_count = 256

-- The mapped segment, without its header and the generations of its slots.
pub record Segment : Type 0 where
  pub slots : List SnapshotBody
  pub publish_tick : ℕ

-- The variables of the publisher; `shmem` is none where nothing is mapped.
pub record Publisher : Type 0 where
  pub shmem : Option Segment
  pub running : Bool
  pub handle_to_slot : List (ℕ × ℕ)
  pub next_free_slot : ℕ
  pub logged_full_table : Bool

-- `WriteSlot`; a write out of range does nothing.
unfoldable pub write_slot : Option Segment → ℕ → SnapshotBody → Option Segment
write_slot shmem index body = elim shmem [
  | none ↦ none
  | some g ↦ some (record g { slots = set g.slots index body })
]

unfoldable pub bump_publish_tick : Option Segment → Option Segment
bump_publish_tick shmem = elim shmem [
  | none ↦ none
  | some g ↦ some (record g { publish_tick = (g.publish_tick + 1) % 2 ^ 64 })
]

-- One round of the loop of `PublishOneTick`.
unfoldable pub publish_record : Publisher → ℕ → SnapshotBody → Publisher
publish_record p handle body = elim (find ◌==◌ handle p.handle_to_slot) [
  | some slot ↦ record p { shmem = write_slot p.shmem slot body }
  | none ↦
      if leb slot_count p.next_free_slot then record p { logged_full_table = true } else record p {
        next_free_slot = p.next_free_slot + 1;
        handle_to_slot = put ◌==◌ handle p.next_free_slot p.handle_to_slot;
        shmem = write_slot p.shmem p.next_free_slot body;
      }
]

unfoldable pub publish_records : Publisher → List (ℕ × SnapshotBody) → Publisher
publish_records p [] = p
publish_records p ((handle, body) ∷ staged) = publish_records (publish_record p handle body) staged

unfoldable pub publish_one_tick : Publisher → StatsMap → Publisher
publish_one_tick p stats =
    let p' = publish_records p (stage_snapshots stats) in
    record p' { shmem = bump_publish_tick p'.shmem }

-- `Create` maps the segment as it is left there by others, or a new one; none where it fails.
unfoldable pub snapshot_publisher_init : Publisher → Option Segment → Publisher
snapshot_publisher_init p created = if p.running then p else elim created [
  | none ↦ record p { shmem = none }
  | some g ↦ record {
    shmem = some g;
    running = true;
    handle_to_slot = [];
    next_free_slot = 0;
    logged_full_table = false;
  }
]

unfoldable pub snapshot_publisher_shutdown : Publisher → Publisher
snapshot_publisher_shutdown p =
    if p.running
    then record {
      shmem = none;
      running = false;
      handle_to_slot = [];
      next_free_slot = 0;
      logged_full_table = false;
    }
    else p

-- An entry of the reader: the body, and the publish tick at which it was last seen.
abbrev pub Entry : Type 0
Entry = SnapshotBody × ℕ

-- Times are in nanoseconds of the steady clock; `last_publish_tick_change` is 0 if it is not set.
pub record SnapshotReader : Type 0 where
  pub is_open : Bool
  pub entries_by_handle : List (ℕ × Entry)
  pub last_publish_tick : ℕ
  pub last_publish_tick_change : ℕ

-- Whether `Open` succeeds is `opens`.
unfoldable pub try_open : SnapshotReader → Bool → Segment → ℕ → SnapshotReader
try_open r opens g now =
    if opens
    then record {
      is_open = true;
      entries_by_handle = [];
      last_publish_tick = g.publish_tick;
      last_publish_tick_change = now;
    }
    else record r { is_open = false }

unfoldable pub close : SnapshotReader → SnapshotReader
close r = record {
  is_open = false;
  entries_by_handle = [];
  last_publish_tick = 0;
  last_publish_tick_change = 0;
}

-- The loop over the slots. `reads` are the answers of TryReadSlot, none where it gives up.
unfoldable pub read_slots : ℕ → List (Option SnapshotBody) → List (ℕ × Entry) → List (ℕ × Entry)
read_slots tick [] entries = entries
read_slots tick (none ∷ reads) entries = read_slots tick reads entries
read_slots tick (some body ∷ reads) entries =
    read_slots tick reads
      (if body.handle == 0 then entries else put ◌==◌ body.handle (body, tick) entries)

-- Two seconds.
abbrev pub stale_after : ℕ
stale_after = 2 * 10 ^ 9

unfoldable pub refresh_open :
    SnapshotReader → Segment → List (Option SnapshotBody) → ℕ → SnapshotReader
refresh_open r g reads now =
    let fresh = not (g.publish_tick == r.last_publish_tick) in
    let r' : SnapshotReader =
      if fresh
      then record r { last_publish_tick = g.publish_tick; last_publish_tick_change = now }
      else r in
    if not fresh
      && (not (r.last_publish_tick_change == 0)
          && ltb stale_after (now - r.last_publish_tick_change))
    then close r
    else record r' {
      entries_by_handle = read_slots r'.last_publish_tick reads r'.entries_by_handle;
    }

unfoldable pub refresh :
    SnapshotReader → Bool → Segment → List (Option SnapshotBody) → ℕ → SnapshotReader
refresh r opens g reads now =
    let r' : SnapshotReader = if r.is_open then r else try_open r opens g now in
    if r'.is_open then refresh_open r' g reads now else r'
