-- ===== src/Router/Table.antt =====
-- RouteTable of modules/oscrouter/src/driver/RouteTable.h and RouteTable.cpp. A fixed character
-- array is the text before its NUL.
pub mod Lookup
pub mod Counters
pub mod Invariant
use open_vr_pair_driver.Base.{
  ℕ, zero, suc, ◌+◌, ◌-◌, ◌%◌, ◌^◌, Bool, true, false, Option, none, some, List, [], ◌∷◌, take, set,
  replicate, ◌==◌, ◌&&◌, if◌then◌else◌,
}
use open_vr_pair_driver.Osc.Pattern.{osc_pattern_match}

-- OSC_ROUTER_ROUTE_SLOTS.
abbrev pub max_routes : ℕ
max_routes = 32

-- OSC_ROUTE_ADDR_LEN.
abbrev pub route_addr_len : ℕ
route_addr_len = 64

pub record RouteEntry : Type 0 where
  pub subscriber_id : ℕ
  pub pattern_text : List ℕ
  pub subscriber_label : List ℕ
  pub match_count : ℕ
  pub drop_count : ℕ
  pub last_match_tick : ℕ
  pub active : Bool

-- `entries_`, of which there are `max_routes`.
abbrev pub RouteTable : Type 0
RouteTable = List RouteEntry

-- The table when the router is constructed: no entry is active, whatever else it holds.
unfoldable pub empty_table : RouteTable
empty_table = replicate max_routes (record {
  subscriber_id = 0;
  pattern_text = [];
  subscriber_label = [];
  match_count = 0;
  drop_count = 0;
  last_match_tick = 0;
  active = false;
})

abbrev pub following : Option ℕ → Option ℕ
following none = none
following (some i) = some (suc i)

unfoldable pub find_slot : ℕ → RouteTable → Option ℕ
find_slot id [] = none
find_slot id (e ∷ es) =
    if e.active && e.subscriber_id == id then some 0 else following (find_slot id es)

unfoldable pub find_free_slot : RouteTable → Option ℕ
find_free_slot [] = none
find_free_slot (e ∷ es) = if e.active then following (find_free_slot es) else some 0

-- What `Subscribe` writes into the slot.
unfoldable pub new_entry : ℕ → List ℕ → List ℕ → RouteEntry
new_entry id pattern_text label = record {
  subscriber_id = id;
  pattern_text = take (route_addr_len - 1) pattern_text;
  subscriber_label = take (32 - 1) label;
  match_count = 0;
  drop_count = 0;
  last_match_tick = 0;
  active = true;
}

unfoldable pub subscribe : RouteTable → ℕ → List ℕ → List ℕ → RouteTable × Bool
subscribe t id pattern_text label = elim (find_slot id t) [
  | some slot ↦ (set t slot (new_entry id pattern_text label), true)
  | none ↦ elim (find_free_slot t) [
    | some slot ↦ (set t slot (new_entry id pattern_text label), true)
    | none ↦ (t, false)
  ]
]

-- `entries_[slot].active = false`.
unfoldable pub deactivate : RouteTable → ℕ → RouteTable
deactivate [] slot = []
deactivate (e ∷ es) zero = record e { active = false } ∷ es
deactivate (e ∷ es) (suc slot) = e ∷ deactivate es slot

unfoldable pub unsubscribe : RouteTable → ℕ → RouteTable
unsubscribe t id = elim (find_slot id t) [ some slot ↦ deactivate t slot | none ↦ t ]

-- `fetch_add(1)` of a 64-bit counter.
abbrev pub increment : ℕ → ℕ
increment n = (n + 1) % 2 ^ 64

unfoldable pub hits : List ℕ → RouteEntry → Bool
hits address e = e.active && osc_pattern_match e.pattern_text address

unfoldable pub bump_match : List ℕ → ℕ → RouteEntry → RouteEntry
bump_match address tick e =
    if hits address e
    then record e { match_count = increment e.match_count; last_match_tick = tick }
    else e

unfoldable pub bump_drop : List ℕ → RouteEntry → RouteEntry
bump_drop address e = if hits address e then record e { drop_count = increment e.drop_count } else e

-- `Dispatch`, with `matched_out` beside the table.
unfoldable pub dispatch : RouteTable → List ℕ → ℕ → Bool → RouteTable × Bool
dispatch [] address tick matched = ([], matched)
dispatch (e ∷ es) address tick matched =
    let (rest, out) = dispatch es address tick (if hits address e then true else matched) in
    (bump_match address tick e ∷ rest, out)

unfoldable pub bump_drop_count : RouteTable → List ℕ → RouteTable
bump_drop_count [] address = []
bump_drop_count (e ∷ es) address = bump_drop address e ∷ bump_drop_count es address

unfoldable pub active_count : RouteTable → ℕ
active_count [] = 0
active_count (e ∷ es) = (if e.active then 1 else 0) + active_count es
