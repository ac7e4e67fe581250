-- ===== src/Router/Tests.antt =====
-- A router with one route, on every address, and one packet in its queue.
use open_vr_pair_driver.Base.{
  ℕ, ◌≤◌, ◌<◌, ◌≡◌, ◌≢◌, ◌⊎◌, refl, true, false, none, some, List, [], ◌∷◌, ◌++◌, length, replicate,
  arith, codes, if◌then◌else◌, ◌==◌,
}
use open_vr_pair_driver.Osc.Packet.{osc_pad4}
use open_vr_pair_driver.Osc.Packet.Capacity.{encode, osc_int32}
use open_vr_pair_driver.Osc.Reader.Encoded.{NoNul}
use open_vr_pair_driver.Router.Table.{
  RouteTable, empty_table, max_routes, subscribe, new_entry, active_count,
}
use open_vr_pair_driver.Router.Table.Lookup.{lookup, IsUnique, subscribe_lem}
use open_vr_pair_driver.Router.Table.Invariant.{
  TableCall, subscribes, dispatches, table_run, table_history,
}
use open_vr_pair_driver.Router.Queue.{SendQueue, blank}
use open_vr_pair_driver.Router.Queue.Fifo as Fifo
use open_vr_pair_driver.Router.Queue.Fifo.{
  fifo_push, fifo_pop, packets, popped, enqueue_refines, dequeue_refines,
}
use open_vr_pair_driver.Router.Stats.{StatsData, RouteFields, RouteSlot}
use open_vr_pair_driver.Router.Driver.History
use open_vr_pair_driver.Router.Driver.{Router, Round, build_and_enqueue, send_worker_round}
use open_vr_pair_driver.Router.Driver.Publish.{Published, build_and_enqueue-Published}
use open_vr_pair_driver.Router.Driver.Flow.{Counted, send_worker_round-Counted}

abbrev address : List ℕ
address = codes "/eye"

abbrev typetag : List ℕ
typetag = codes ",i"

abbrev args : List ℕ
args = osc_int32 258

abbrev one_route : RouteTable
one_route = new_entry 5 (codes "/*") (codes "sub-5") ∷ []

abbrev script : List TableCall
script = subscribes 5 (codes "/*") (codes "sub-5") ∷ dispatches address 9 ∷ []

subscribe_lem_example :
    let r = subscribe one_route 6 (codes "/lip") (codes "sub-6") in
    ((r.1 ≡ true)
      × ((lookup 6 one_route ≢ none) ⊎ (active_count one_route < length one_route))
      × ((j : ℕ)
          → lookup j r.0 ≡ (
              if 6 == j
              then some (new_entry 6 (codes "/lip") (codes "sub-6"))
              else lookup j one_route)))
    ⊎ ((r.1 ≡ false)
        × (lookup 6 one_route ≡ none)
        × (active_count one_route ≡ length one_route)
        × (r.0 ≡ one_route))
subscribe_lem_example = subscribe_lem one_route 6 (codes "/lip") (codes "sub-6")

table_history_example :
    let t = table_run empty_table script in
    IsUnique t × (length t ≡ max_routes) × (active_count t ≤ max_routes)
table_history_example = table_history script

-- A queue that holds one message, next to the end of its slots.
abbrev queue : SendQueue
queue = record {
  slots = replicate 1023 blank ++ record { contents = encode address typetag args; size = 16 } ∷ [];
  head = 1023;
  tail = 0;
  count = 1;
}

abbrev one_packet : List (List ℕ)
one_packet = encode address typetag args ∷ []

queue-IsValid : Fifo.IsValid queue
queue-IsValid = record {
  size = refl;
  head_in = omega arith;
  count_in = omega arith;
  tail_at = refl;
}

packets-queue : packets queue ≡ one_packet
unfolding osc_pad4
packets-queue = refl

abbrev unset : RouteFields
unset = record {
  pattern_text = [];
  label = [];
  match_count = 1;
  drop_count = 2;
  last_match_tick = 3;
  active = false;
}

abbrev slot : RouteSlot
slot = record {
  generation = 0;
  address_pattern = [];
  subscriber_id = [];
  match_count = 0;
  drop_count = 0;
  last_match_tick = 0;
  active = 0;
}

abbrev segment : StatsData
segment = record {
  packets_sent = 4;
  bytes_sent = 64;
  packets_dropped = 1;
  routes = replicate 32 slot;
}

abbrev full_table : RouteTable
full_table = new_entry 5 (codes "/*") (codes "sub-5") ∷ replicate 31 (new_entry 5 [] [])

abbrev router : Router
router = record {
  table = one_route;
  queue = queue;
  dropped_count = 0;
  packets_sent = 0;
  bytes_sent = 0;
  stop = false;
  shmem_ready = true;
  shmem = some segment;
}

abbrev round : Round
round = record { is_open = true; sent = 16; qpc_now = 77; stats_due = false; unset = unset }

build_and_enqueue-Published_example :
    let (r', done) = build_and_enqueue router (replicate 512 7) address typetag args in
    Published router address (encode address typetag args) r' done
build_and_enqueue-Published_example =
    build_and_enqueue-Published router (replicate 512 7) address typetag args queue-IsValid refl
      (omega arith) (omega arith) (omega arith)

NoNul-text : NoNul address × NoNul typetag
NoNul-text = ground arith

send_worker_round-Counted_example :
    let (r', out) = send_worker_round router round in
    Counted router round address [] r' × (out ≡ some (encode address typetag args))
unfolding osc_pad4
send_worker_round-Counted_example =
    send_worker_round-Counted router round address typetag args []
      (NoNul-text.0, NoNul-text.1, omega arith, omega arith, omega arith) refl (omega arith) refl
      queue-IsValid packets-queue

abbrev events : List History.Event
events =
    History.publishes (replicate 512 7) address typetag args
    ∷ History.frames (4 ∷ 0 ∷ 0 ∷ 0 ∷ []) (1 ∷ 2 ∷ 3 ∷ 4 ∷ [])
    ∷ []

after_in_order_example :
    History.all_taken router events ++ packets (History.after router events).queue
    ≡ packets queue ++ History.all_accepted router events
after_in_order_example = History.after_in_order router events queue-IsValid
