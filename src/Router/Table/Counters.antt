-- ===== src/Router/Table/Counters.antt =====
-- The counters that RouteTable::Dispatch and BumpDropCount advance.
use open_vr_pair_driver.Base.{
  ℕ, ◌+◌, ◌%◌, ◌^◌, ◌≡◌, refl, ap, Bool, true, false, Option, none, some, List, [], ◌∷◌, map,
  length, ◌&&◌, ◌||◌, if◌then◌else◌, arith,
}
use open_vr_pair_driver.Osc.Pattern.{osc_pattern_match}
use open_vr_pair_driver.Router.Table.{
  RouteEntry, RouteTable, hits, bump_match, bump_drop, dispatch, bump_drop_count, active_count,
}
use open_vr_pair_driver.Router.Table.Lookup.{lookup}

abbrev pub mapped : (RouteEntry → RouteEntry) → Option RouteEntry → Option RouteEntry
mapped f none = none
mapped f (some e) = some (f e)

-- Some active route's pattern matches the address.
abbrev pub any_hit : List ℕ → RouteTable → Bool
any_hit address [] = false
any_hit address (e ∷ es) = hits address e || any_hit address es

-- Publishing an address counts it, with its time, on every active route whose pattern matches, and
-- leaves every other route as it is; it reports whether there was such a route.
pub dispatch_lem :
    (t : RouteTable) (address : List ℕ) (tick : ℕ) (m : Bool)
    → ((id : ℕ)
        → lookup id (dispatch t address tick m).0 ≡ mapped (bump_match address tick) (lookup id t))
      × ((dispatch t address tick m).1 ≡ (m || any_hit address t))
      × (active_count (dispatch t address tick m).0 ≡ active_count t)
      × (length (dispatch t address tick m).0 ≡ length t)
unfolding dispatch lookup bump_match active_count
dispatch_lem [] address tick m = (λ id. refl, ground arith, refl, refl)
dispatch_lem (e ∷ es) address tick m =
    let rest = dispatch_lem es address tick (if hits address e then true else m) in
    (
      λ id. ground (arith, rest.0 id),
      ground (arith, rest.1),
      ground (arith, rest.2),
      ground (arith, rest.3),
    )

-- A drop is counted on every active route whose pattern matches, and changes nothing else.
pub bump_drop_count_lem :
    (t : RouteTable) (address : List ℕ)
    → ((id : ℕ) → lookup id (bump_drop_count t address) ≡ mapped (bump_drop address) (lookup id t))
      × (active_count (bump_drop_count t address) ≡ active_count t)
      × (length (bump_drop_count t address) ≡ length t)
unfolding bump_drop_count lookup bump_drop active_count
bump_drop_count_lem [] address = (λ id. refl, refl, refl)
bump_drop_count_lem (e ∷ es) address =
    let rest = bump_drop_count_lem es address in
    (λ id. ground (arith, rest.0 id), ground (arith, rest.1), ground (arith, rest.2))

-- An active route whose pattern matches the address.
abbrev pub is_hit : List ℕ → RouteEntry → Bool
is_hit address e = e.active && osc_pattern_match e.pattern_text address

-- A route on which a message is counted, with its time, if it matches the message's address.
abbrev pub with_match : List ℕ → ℕ → RouteEntry → RouteEntry
with_match address tick e =
    if is_hit address e
    then record e { match_count = (e.match_count + 1) % 2 ^ 64; last_match_tick = tick }
    else e

abbrev pub with_drop : List ℕ → RouteEntry → RouteEntry
with_drop address e =
    if is_hit address e then record e { drop_count = (e.drop_count + 1) % 2 ^ 64 } else e

pub dispatch-map :
    (t : RouteTable) (address : List ℕ) (tick : ℕ) (m : Bool)
    → (dispatch t address tick m).0 ≡ map (with_match address tick) t
unfolding dispatch bump_match hits
dispatch-map [] address tick m = refl
dispatch-map (e ∷ es) address tick m =
    ap (λ (r : List RouteEntry). with_match address tick e ∷ r)
      (dispatch-map es address tick (if hits address e then true else m))

pub bump_drop_count-map :
    (t : RouteTable) (address : List ℕ) → bump_drop_count t address ≡ map (with_drop address) t
unfolding bump_drop_count bump_drop hits
bump_drop_count-map [] address = refl
bump_drop_count-map (e ∷ es) address =
    ap (λ (r : List RouteEntry). with_drop address e ∷ r) (bump_drop_count-map es address)
