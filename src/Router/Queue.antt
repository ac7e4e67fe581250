-- ===== src/Router/Queue.antt =====
-- The bounded send queue of OscRouter (modules/oscrouter/src/driver/OscRouter.h and OscRouter.cpp):
-- `EnqueueLocked`, and the part of `SendWorkerMain` that takes an entry out.
pub mod Fifo
use open_vr_pair_driver.Base.{
  ℕ, zero, suc, ◌+◌, ◌-◌, ◌%◌, Bool, true, false, Option, none, some, List, [], ◌∷◌, length, take,
  get_or, set, ltb, leb, ◌==◌, if◌then◌else◌,
}
use open_vr_pair_driver.Osc.Packet.{blit}

-- kSendQueueEntryMaxSize and kSendQueueCapacity.
abbrev pub entry_max_size : ℕ
entry_max_size = 512

abbrev pub queue_capacity : ℕ
queue_capacity = 1024

-- `contents` is the array `data`.
pub record SendEntry : Type 0 where
  pub contents : List ℕ
  pub size : ℕ

-- `queue_`, `qHead_`, `qTail_` and `qCount_`.
pub record SendQueue : Type 0 where
  pub slots : List SendEntry
  pub head : ℕ
  pub tail : ℕ
  pub count : ℕ

-- Stands for a slot out of range, which is never read.
abbrev pub blank : SendEntry
blank = record { contents = []; size = 0 }

-- `memcpy` into the slot's array, and its new size.
unfoldable pub fill : SendEntry → List ℕ → SendEntry
fill e bytes = record { contents = blit e.contents 0 bytes; size = length bytes }

unfoldable pub enqueue : SendQueue → List ℕ → SendQueue × Bool
enqueue q bytes =
    if leb queue_capacity q.count
    then (q, false)
    else if ltb entry_max_size (length bytes)
    then (q, false)
    else (
      record q {
        slots = set q.slots q.tail (fill (get_or q.slots q.tail blank) bytes);
        tail = (q.tail + 1) % queue_capacity;
        count = q.count + 1;
      },
      true,
    )

unfoldable pub dequeue : SendQueue → Option SendEntry × SendQueue
dequeue q = if q.count == 0 then (none, q) else (
  some (get_or q.slots q.head blank),
  record q { head = (q.head + 1) % queue_capacity; count = q.count - 1 },
)
