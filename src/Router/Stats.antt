-- ===== src/Router/Stats.antt =====
-- OscRouterStatsShmem of core/src/common/Protocol.h: the statistics segment that the driver writes
-- and the overlay reads. A segment that is not mapped is `none`.
pub mod Published
use open_vr_pair_driver.Base.{
  ℕ, zero, suc, ◌+◌, ◌-◌, ◌%◌, ◌^◌, Bool, true, false, Option, none, some, List, [], ◌∷◌, take,
  length, get_or, set, ltb, leb, ◌==◌, if◌then◌else◌,
}
use open_vr_pair_driver.Router.Table.{RouteTable, RouteEntry, max_routes, route_addr_len, increment}

pub record RouteSlot : Type 0 where
  pub generation : ℕ
  pub address_pattern : List ℕ
  pub subscriber_id : List ℕ
  pub match_count : ℕ
  pub drop_count : ℕ
  pub last_match_tick : ℕ
  pub active : ℕ

pub record StatsData : Type 0 where
  pub packets_sent : ℕ
  pub bytes_sent : ℕ
  pub packets_dropped : ℕ
  pub routes : List RouteSlot

-- `pData`.
abbrev pub StatsShmem : Type 0
StatsShmem = Option StatsData

unfoldable pub add_sent : StatsShmem → ℕ → StatsShmem
add_sent none bytes = none
add_sent (some d) bytes = some (record d {
  packets_sent = increment d.packets_sent;
  bytes_sent = (d.bytes_sent + bytes) % 2 ^ 64;
})

unfoldable pub add_dropped : StatsShmem → StatsShmem
add_dropped none = none
add_dropped (some d) = some (record d { packets_dropped = increment d.packets_dropped })

-- `CopyStrField` into an array of `size` characters.
unfoldable pub copy_str_field : ℕ → List ℕ → List ℕ
copy_str_field size src = take (size - 1) src

-- What a route slot is given by `WriteRoute`.
pub record RouteFields : Type 0 where
  pub pattern_text : List ℕ
  pub label : List ℕ
  pub match_count : ℕ
  pub drop_count : ℕ
  pub last_match_tick : ℕ
  pub active : Bool

unfoldable pub write_slot : RouteSlot → RouteFields → RouteSlot
write_slot s f = record {
  generation = (s.generation + 2) % 2 ^ 64;
  address_pattern = copy_str_field route_addr_len f.pattern_text;
  subscriber_id = copy_str_field 32 f.label;
  match_count = f.match_count;
  drop_count = f.drop_count;
  last_match_tick = f.last_match_tick;
  active = if f.active then 1 else 0;
}

-- Stands for a slot out of range, which is never read.
abbrev pub no_slot : RouteSlot
no_slot = record {
  generation = 0;
  address_pattern = [];
  subscriber_id = [];
  match_count = 0;
  drop_count = 0;
  last_match_tick = 0;
  active = 0;
}

unfoldable pub write_route : StatsShmem → ℕ → RouteFields → StatsShmem
write_route none index f = none
write_route (some d) index f =
    if leb max_routes index
    then some d
    else some
        (record d { routes = set d.routes index (write_slot (get_or d.routes index no_slot) f) })

-- The snapshot of an entry in `PublishToShmem`. The counters of an inactive entry are not
-- initialised there: `unset` is what they hold.
unfoldable pub snapshot : RouteFields → RouteEntry → RouteFields
snapshot unset e =
    if e.active
    then record {
      pattern_text = e.pattern_text;
      label = e.subscriber_label;
      match_count = e.match_count;
      drop_count = e.drop_count;
      last_match_tick = e.last_match_tick;
      active = true;
    }
    else record unset { pattern_text = []; label = []; active = false }

-- `PublishToShmem`, from slot `index` on.
unfoldable pub publish_from : RouteFields → StatsShmem → ℕ → RouteTable → StatsShmem
publish_from unset m index [] = m
publish_from unset m index (e ∷ es) =
    publish_from unset (write_route m index (snapshot unset e)) (suc index) es

unfoldable pub publish_to_shmem : RouteFields → StatsShmem → RouteTable → StatsShmem
publish_to_shmem unset m t = publish_from unset m 0 t

pub record RouterStats : Type 0 where
  pub packets_sent : ℕ
  pub bytes_sent : ℕ
  pub packets_dropped : ℕ
  pub active_routes : ℕ

unfoldable pub active_slots : List RouteSlot → ℕ
active_slots [] = 0
active_slots (s ∷ ss) = (if s.active == 0 then 0 else 1) + active_slots ss

unfoldable pub read_global_stats : StatsShmem → Option RouterStats
read_global_stats none = none
read_global_stats (some d) = some (record {
  packets_sent = d.packets_sent;
  bytes_sent = d.bytes_sent;
  packets_dropped = d.packets_dropped;
  active_routes = active_slots d.routes;
})
