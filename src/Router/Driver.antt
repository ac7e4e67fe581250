-- ===== src/Router/Driver.antt =====
-- OscRouter of modules/oscrouter/src/driver/OscRouter.cpp: what its handlers and its two workers do
-- to the router's state. Calls that hold `queueMutex_` are single steps.
pub mod Publish
pub mod Flow
pub mod History
use open_vr_pair_driver.Base.{
  ℕ, zero, suc, ◌+◌, ◌*◌, ◌%◌, ◌^◌, Bool, true, false, not, Option, none, some, List, [], ◌∷◌, ◌++◌,
  length, take, get_or, ltb, leb, ◌==◌, ◌&&◌, ◌||◌, if◌then◌else◌,
}
use open_vr_pair_driver.Osc.Packet.{OscPacket, begin, write_raw_args, emitted}
use open_vr_pair_driver.Osc.Reader.{OscMessage, parse_message}
use open_vr_pair_driver.Router.Table.{
  RouteTable, increment, subscribe, unsubscribe, dispatch, bump_drop_count, active_count,
  route_addr_len,
}
use open_vr_pair_driver.Router.Queue.{SendQueue, SendEntry, enqueue, dequeue, entry_max_size}
use open_vr_pair_driver.Router.Stats.{
  StatsShmem, RouteFields, add_sent, add_dropped, publish_to_shmem, RouterStats, read_global_stats,
}

pub record Router : Type 0 where
  pub table : RouteTable
  pub queue : SendQueue
  pub dropped_count : ℕ
  pub packets_sent : ℕ
  pub bytes_sent : ℕ
  pub stop : Bool
  pub shmem_ready : Bool
  pub shmem : StatsShmem

-- What the router counts when the queue refuses a packet.
unfoldable pub count_drop : Router → Router
count_drop r = record r {
  dropped_count = increment r.dropped_count;
  shmem = if r.shmem_ready then add_dropped r.shmem else r.shmem;
}

-- `local` is the packet's buffer as it is before `Begin`: its bytes are not initialised.
unfoldable pub build_packet : List ℕ → List ℕ → List ℕ → List ℕ → OscPacket
build_packet local address typetag args =
    let start : OscPacket = record { buf = local; pos = 0; ok = true } in
    let p = begin entry_max_size start address typetag in
    if ltb 0 (length args) then write_raw_args entry_max_size p args else p

unfoldable pub build_and_enqueue : Router → List ℕ → List ℕ → List ℕ → List ℕ → Router × Bool
build_and_enqueue r local address typetag args =
    let p = build_packet local address typetag args in
    let (queue, queued) = enqueue r.queue (emitted p) in
    if p.ok
    then if queued
      then (record r { queue = queue }, true)
      else (count_drop (record r { queue = queue; table = bump_drop_count r.table address }), false)
    else (r, false)

unfoldable pub publish_osc : Router → List ℕ → List ℕ → List ℕ → List ℕ → Router × Bool
publish_osc r local address typetag args =
    if r.stop then (r, false) else build_and_enqueue r local address typetag args

-- The requests that the router's pipe knows, and any other. A publish request carries its arrays
-- whole; `behind` is the memory behind `arg_bytes`.
pub data Request : Type 0 where
  osc_route_subscribe : ℕ → ℕ → List ℕ → Request
  osc_route_unsubscribe : ℕ → Request
  osc_publish : List ℕ → List ℕ → ℕ → List ℕ → List ℕ → Request
  osc_get_stats : Request
  other : Request

pub data Response : Type 0 where
  invalid success : Response
  osc_router_stats : RouterStats → Response

abbrev status : Bool → Response
status true = success
status false = invalid

-- The text before the NUL of an array that `memcpy` copied and a NUL was put behind.
unfoldable pub until_nul : List ℕ → List ℕ
until_nul [] = []
until_nul (c ∷ s) = if c == 0 then [] else c ∷ until_nul s

unfoldable pub get_stats : Router → RouterStats
get_stats r = elim (read_global_stats r.shmem) [
  | some s ↦ s
  | none ↦ record {
    packets_sent = 0;
    bytes_sent = 0;
    packets_dropped = 0;
    active_routes = active_count r.table;
  }
]

-- `sub_label` is `snprintf` with the format "sub-%u". The response is `none` where `HandleRequest`
-- returns false.
unfoldable pub handle_request : (ℕ → List ℕ) → List ℕ → Router → Request → Router × Option Response
handle_request sub_label local r (osc_route_subscribe id enabled pattern_text) =
    let (table, done) = subscribe r.table id (until_nul pattern_text) (sub_label id) in
    (record r { table = table }, some (status done))
handle_request sub_label local r (osc_route_unsubscribe id) =
    (record r { table = unsubscribe r.table id }, some success)
handle_request sub_label local r (osc_publish address typetag arg_len arg_bytes behind) =
    let (r', done) =
      build_and_enqueue r local (until_nul address) (until_nul typetag)
        (take arg_len (arg_bytes ++ behind)) in
    (r', some (status done))
handle_request sub_label local r osc_get_stats = (r, some (osc_router_stats (get_stats r)))
handle_request sub_label local r other = (r, none)

-- What one round of the send worker finds: whether the socket is open, how many bytes `Send`
-- reports (0 for an error), the clock, and whether statistics are due.
pub record Round : Type 0 where
  pub is_open : Bool
  pub sent : ℕ
  pub qpc_now : ℕ
  pub stats_due : Bool
  pub unset : RouteFields

abbrev address_of : OscMessage → List ℕ
address_of m = elim m.address [ none ↦ [] | some a ↦ a ]

-- The packet was sent: the counters, and the routes that its address matches.
unfoldable pub count_sent : Router → ℕ → ℕ → List ℕ → Router
count_sent r sent now bytes =
    let m = parse_message bytes in
    record r {
      packets_sent = increment r.packets_sent;
      bytes_sent = (r.bytes_sent + sent) % 2 ^ 64;
      shmem = if r.shmem_ready then add_sent r.shmem sent else r.shmem;
      table = if m.valid then (dispatch r.table (address_of m) now false).0 else r.table;
    }

-- What is handed to the socket, if anything, and the state after the round.
unfoldable pub send_entry : Router → Round → Option SendEntry → Router × Option (List ℕ)
unfolding count_sent
send_entry r round none = (r, none)
send_entry r round (some e) =
    let bytes = take e.size e.contents in
    if round.is_open && ltb 0 e.size
    then (if ltb 0 round.sent then count_sent r round.sent round.qpc_now bytes else r, some bytes)
    else (r, none)

unfoldable pub maybe_stats : Router → Round → Router
maybe_stats r round =
    if round.stats_due && r.shmem_ready
    then record r { shmem = publish_to_shmem round.unset r.shmem r.table }
    else r

-- One round of `SendWorkerMain` before it is stopped.
unfoldable pub send_worker_round : Router → Round → Router × Option (List ℕ)
send_worker_round r round =
    if r.stop
    then (r, none)
    else let (entry, queue) = dequeue r.queue in
      let (r', out) = send_entry (record r { queue = queue }) round entry in
      (maybe_stats r' round, out)

-- The length of a frame of the publish pipe: four bytes, the least significant first.
unfoldable pub from_little_endian : List ℕ → ℕ
from_little_endian b =
    get_or b 0 0 % 256
    + get_or b 1 0 % 256 * 2 ^ 8
    + get_or b 2 0 % 256 * 2 ^ 16
    + get_or b 3 0 % 256 * 2 ^ 24

-- One frame of `PubPipeWorkerMain`, from the four bytes of its length and the bytes that the pipe
-- then delivers: whether the client is kept, and the state.
unfoldable pub pub_pipe_frame : Router → List ℕ → List ℕ → Router × Bool
pub_pipe_frame r len_buf stream =
    let frame_len = from_little_endian len_buf in
    let (queue, queued) = enqueue r.queue (take frame_len stream) in
    if frame_len == 0 || ltb entry_max_size frame_len
    then (r, false)
    else if ltb (length stream) frame_len
    then (r, false)
    else (if queued then record r { queue = queue } else count_drop r, true)
