-- ===== src/Router/Driver/Publish.antt =====
-- Publishing an OSC message through the router, from the request to the socket.
use open_vr_pair_driver.Base.{
  ℕ, ◌+◌, ◌%◌, ◌^◌, ◌≤◌, ◌<◌, ◌≡◌, refl, sym, ap, ap₂, ◌∙◌, inl, inr, Bool, true, false, none, some,
  List, [], ◌∷◌, ◌++◌, map, length, leb, if◌then◌else◌, arith, Bool-cases, lt→ltb, le→ltb, subst,
}
use open_vr_pair_driver.Osc.Packet.Capacity.{encode, Fits, message_written, begin_written}
use open_vr_pair_driver.Router.Table.{RouteTable, bump_drop_count}
use open_vr_pair_driver.Router.Table.Counters.{with_drop, bump_drop_count-map}
use open_vr_pair_driver.Router.Stats.{StatsShmem, add_dropped}
use open_vr_pair_driver.Router.Queue.{SendQueue, enqueue, entry_max_size, queue_capacity}
use open_vr_pair_driver.Router.Queue.Fifo.{IsValid, packets, enqueue_refines}
use open_vr_pair_driver.Router.Driver.{Router, build_packet, build_and_enqueue, count_drop}

build_packet_lem :
    (local address typetag args : List ℕ)
    → length local ≡ entry_max_size
    → length address + 1 < 2 ^ 63
    → length typetag + 1 < 2 ^ 63
    → length args < 2 ^ 63
    → Fits entry_max_size (encode address typetag args) (build_packet local address typetag args)
unfolding build_packet
build_packet_lem local address typetag [] size a t r =
    begin_written entry_max_size (record { buf = local; pos = 0; ok = true }) address typetag
      (omega arith) size a t
build_packet_lem local address typetag (x ∷ args) size a t r =
    rw (lt→ltb 0 (length (x ∷ args)) (omega arith)) (
      message_written entry_max_size (record { buf = local; pos = 0; ok = true }) address typetag
        (x ∷ args) (omega arith) size a t r)

-- The statistics with one packet more that was dropped, if they are mapped.
abbrev pub with_dropped : StatsShmem → StatsShmem
with_dropped none = none
with_dropped (some d) = some (record d { packets_dropped = (d.packets_dropped + 1) % 2 ^ 64 })

-- What a call of `BuildAndEnqueue` did to the router, by its answer.
pub data Published (r : Router) (address bytes : List ℕ) (r' : Router) : Bool → Type 0 where
  queued :
      length bytes ≤ entry_max_size
      → length (packets r.queue) < queue_capacity
      → packets r'.queue ≡ packets r.queue ++ bytes ∷ []
      → r' ≡ record r { queue = r'.queue }
      → Published r address bytes r' true
  dropped :
      length bytes ≤ entry_max_size
      → queue_capacity ≤ length (packets r.queue)
      → packets r'.queue ≡ packets r.queue
      → r' ≡ record r {
        queue = r'.queue;
        table = map (with_drop address) r.table;
        dropped_count = (r.dropped_count + 1) % 2 ^ 64;
        shmem = if r.shmem_ready then with_dropped r.shmem else r.shmem;
      }
      → Published r address bytes r' false
  too_large : entry_max_size < length bytes → r' ≡ r → Published r address bytes r' false

-- `EnqueueLocked`, by its answer, for a packet that is not too long.
pub data Enqueued (q : SendQueue) (bytes : List ℕ) (q' : SendQueue) : Bool → Type 0 where
  taken :
      length (packets q) < queue_capacity
      → packets q' ≡ packets q ++ bytes ∷ []
      → Enqueued q bytes q' true
  refused : queue_capacity ≤ length (packets q) → packets q' ≡ packets q → Enqueued q bytes q' false

pub enqueue-Enqueued :
    (q : SendQueue) (bytes : List ℕ)
    → IsValid q
    → length bytes ≤ entry_max_size
    → Enqueued q bytes (enqueue q bytes).0 (enqueue q bytes).1
enqueue-Enqueued q bytes v fits = elim (Bool-cases (leb queue_capacity (length (packets q)))) [
  | inl full ↦
      let same : ((packets (enqueue q bytes).0, (enqueue q bytes).1) ≡ (packets q, false)) =
        (enqueue_refines q bytes v).1 ∙ rw full refl in
      subst (Enqueued q bytes (enqueue q bytes).0) (sym (ap (λ r. r.1) same))
        (refused (ground arith) (ap (λ r. r.0) same))
  | inr room ↦
      let same : ((packets (enqueue q bytes).0, (enqueue q bytes).1)
          ≡ (packets q ++ bytes ∷ [], true)) =
        (enqueue_refines q bytes v).1 ∙ rw (room, le→ltb entry_max_size (length bytes) fits) refl in
      subst (Enqueued q bytes (enqueue q bytes).0) (sym (ap (λ r. r.1) same))
        (taken (ground arith) (ap (λ r. r.0) same))
]

-- The answer and the state for what the queue said.
abbrev answer : Router → List ℕ → SendQueue → Bool → Router × Bool
answer r address q kept =
    if kept
    then (record r { queue = q }, true)
    else (count_drop (record r { queue = q; table = bump_drop_count r.table address }), false)

add_dropped-with_dropped : (m : StatsShmem) → add_dropped m ≡ with_dropped m
unfolding add_dropped
add_dropped-with_dropped none = refl
add_dropped-with_dropped (some d) = refl

count_drop_lem :
    (r : Router) (q : SendQueue) (address : List ℕ)
    → count_drop (record r { queue = q; table = bump_drop_count r.table address }) ≡ record r {
      queue = q;
      table = map (with_drop address) r.table;
      dropped_count = (r.dropped_count + 1) % 2 ^ 64;
      shmem = if r.shmem_ready then with_dropped r.shmem else r.shmem;
    }
unfolding count_drop
count_drop_lem r q address =
    ap₂
      (λ (t : RouteTable) (m : StatsShmem). record r {
        queue = q;
        table = t;
        dropped_count = (r.dropped_count + 1) % 2 ^ 64;
        shmem = if r.shmem_ready then m else r.shmem;
      })
      (bump_drop_count-map r.table address) (add_dropped-with_dropped r.shmem)

answer-Published :
    (r : Router) (address bytes : List ℕ) (q : SendQueue) (b : Bool)
    → length bytes ≤ entry_max_size
    → Enqueued r.queue bytes q b
    → Published r address bytes (answer r address q b).0 (answer r address q b).1
unfolding count_drop
answer-Published r address bytes q true fits (taken room grown) = queued fits room grown refl
answer-Published r address bytes q false fits (refused full same) =
    dropped fits full same (count_drop_lem r q address)

module _ (r : Router) (local address typetag args : List ℕ) (v : IsValid r.queue)
    (size : length local ≡ entry_max_size) (a : length address + 1 < 2 ^ 63)
    (t : length typetag + 1 < 2 ^ 63) (s : length args < 2 ^ 63) where
  -- `BuildAndEnqueue` with a valid queue, whatever its packet buffer holds: a message of more than
  -- 512 bytes is refused and changes nothing; one that fits is appended to the queue as its OSC
  -- encoding, and nothing else changes; if the queue is full it is dropped, and one drop is counted
  -- for the router, for every active route whose pattern matches the address, and in the statistics
  -- if they are ready; no other route, counter or statistic changes.
  pub build_and_enqueue-Published :
      let (r', done) = build_and_enqueue r local address typetag args in
      Published r address (encode address typetag args) r' done
  unfolding build_and_enqueue
  build_and_enqueue-Published = by_size (build_packet_lem local address typetag args size a t s)
    where
      by_size :
          Fits entry_max_size
            (encode address typetag args)
            (build_packet local address typetag args)
          → Published r address
              (encode address typetag args)
              (build_and_enqueue r local address typetag args).0
              (build_and_enqueue r local address typetag args).1
      by_size (inr (long, failed)) = rw (failed, build_and_enqueue) (too_large long refl)
      by_size (inl (fits, good, em)) =
          rw (em, build_and_enqueue)
            (rw (good, build_and_enqueue)
              (answer-Published r address (encode address typetag args)
                (enqueue r.queue (encode address typetag args)).0
                (enqueue r.queue (encode address typetag args)).1 fits
                (enqueue-Enqueued r.queue (encode address typetag args) v fits)))
