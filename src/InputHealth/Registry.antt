-- ===== src/InputHealth/Registry.antt =====
-- The components that the driver has seen: InputHealthComponentRegistry.cpp, and the requests to
-- reset their statistics, ApplyResetRequest of InputHealthSnapshotStaging.cpp
-- (modules/inputhealth/src/driver). The serial number of a device, which OpenVR answers for its
-- property container, is a parameter: none stands for an error and for absent properties.
pub mod Reset
use Prim.Native.Nat.{bit_xor}
use open_vr_pair_driver.Base.{
  ℕ, ◌+◌, ◌-◌, ◌*◌, ◌%◌, ◌^◌, Bool, true, false, not, Option, none, some, List, [], ◌∷◌, length,
  take, get_or, replicate, ltb, ◌==◌, ◌&&◌, ◌||◌, if◌then◌else◌, find, put, same_codes,
}
use open_vr_pair_driver.InputHealth.Compensation.{
  InputHealthComp, is_empty, clear_input_health_compensation,
}
use open_vr_pair_driver.InputHealth.Stats.{
  AxisRole, unpaired, stick_x, stick_y, ComponentStats, StatsMap, component_stats_reset_passive,
  welford_reset, page_hinkley_reset, ewma_rolling_min_reset, polar_histogram_reset,
}

-- `Fnv1a64`, from the hash `h` of the bytes before.
unfoldable pub fnv1a64_from : ℕ → List ℕ → ℕ
fnv1a64_from h [] = h
fnv1a64_from h (b ∷ bytes) = fnv1a64_from (bit_xor h (b % 256) * 1099511628211 % 2 ^ 64) bytes

unfoldable pub fnv1a64 : List ℕ → ℕ
fnv1a64 s = fnv1a64_from 14695981039346656037 s

-- The invalid container is 0.
unfoldable pub resolve_serial_hash : (ℕ → Option (List ℕ)) → ℕ → ℕ
resolve_serial_hash serial container =
    if container == 0
    then 0
    else elim (serial container) [ none ↦ 0 | some s ↦ if is_empty s then 0 else fnv1a64 s ]

-- The role of an axis, and the stem of its path.
unfoldable pub classify_axis_role : List ℕ → AxisRole × List ℕ
classify_axis_role path =
    let a = get_or path (length path - 2) 0 in
    let b = get_or path (length path - 1) 0 in
    let stem = take (length path - 2) path in
    if ltb (length path) 2
    then (unpaired, path)
    else if a == 47 && (b == 120 || b == 88)
    then (stick_x, stem)
    else if a == 47 && (b == 121 || b == 89)
    then (stick_y, stem)
    else (unpaired, path)

abbrev same_role : AxisRole → AxisRole → Bool
same_role unpaired unpaired = true
same_role stick_x stick_x = true
same_role stick_y stick_y = true
same_role unpaired stick_x = false
same_role unpaired stick_y = false
same_role stick_x unpaired = false
same_role stick_x stick_y = false
same_role stick_y unpaired = false
same_role stick_y stick_x = false

abbrev other_role : AxisRole → AxisRole
other_role stick_x = stick_y
other_role stick_y = stick_x
other_role unpaired = stick_x

unfoldable pub find_stick_partner : List ℕ → AxisRole → ℕ → StatsMap → ℕ
find_stick_partner stem this_role container [] = 0
find_stick_partner stem this_role container ((handle, peer) ∷ m) =
    let rest = find_stick_partner stem this_role container m in
    if peer.is_scalar
      && (same_role peer.axis_role (other_role this_role)
          && (peer.container_handle == container
              && same_codes (classify_axis_role peer.path).1 stem))
    then handle
    else rest

-- An entry that `operator[]` creates.
unfoldable pub new_stats : ComponentStats
unfolding welford_reset page_hinkley_reset ewma_rolling_min_reset polar_histogram_reset
new_stats = record {
  path = [];
  is_scalar = false;
  is_boolean = false;
  container_handle = 0;
  device_serial_hash = 0;
  last_serial_resolve_attempt_us = 0;
  serial_resolution_logged = false;
  first_update_logged = false;
  welford = welford_reset;
  scalar_range_initialized = false;
  observed_min = 0;
  observed_max = 0;
  ph_drift = page_hinkley_reset;
  rest_min = ewma_rolling_min_reset;
  last_value = 0;
  last_update_us = 0;
  axis_role = unpaired;
  partner_handle = 0;
  polar = polar_histogram_reset;
  press_count = 0;
  last_boolean = false;
  pending_state = false;
  last_committed_us = 0;
}

-- `g_componentStats[handle]`.
unfoldable pub stats_of : StatsMap → ℕ → ComponentStats
stats_of m handle = elim (find ◌==◌ handle m) [ none ↦ new_stats | some s ↦ s ]

unfoldable pub register_boolean_component :
    (ℕ → Option (List ℕ)) → StatsMap → ℕ → ℕ → List ℕ → StatsMap
register_boolean_component serial m handle container path =
    put ◌==◌ handle
      (record (stats_of m handle) {
        path = path;
        is_boolean = true;
        is_scalar = false;
        first_update_logged = false;
        container_handle = container;
        device_serial_hash = resolve_serial_hash serial container;
      })
      m

abbrev is_stick : AxisRole → Bool
is_stick unpaired = false
is_stick stick_x = true
is_stick stick_y = true

unfoldable pub register_scalar_component :
    (ℕ → Option (List ℕ)) → StatsMap → ℕ → ℕ → List ℕ → StatsMap
register_scalar_component serial m handle container path =
    let (role, stem) = classify_axis_role path in
    let m' =
      put ◌==◌ handle
        (record (stats_of m handle) {
          path = path;
          is_boolean = false;
          is_scalar = true;
          first_update_logged = false;
          axis_role = role;
          partner_handle = 0;
          container_handle = container;
          device_serial_hash = resolve_serial_hash serial container;
        })
        m in
    let partner = find_stick_partner stem role container m' in
    let paired = put ◌==◌ handle (record (stats_of m' handle) { partner_handle = partner }) m' in
    if is_stick role && not (partner == 0)
    then put ◌==◌ partner (record (stats_of paired partner) { partner_handle = handle }) paired
    else m'

-- InputHealthResetStats.
pub record ResetStats : Type 0 where
  pub device_serial_hash : ℕ
  pub reset_passive : ℕ
  pub reset_active : ℕ
  pub reset_curves : ℕ

-- The hash of an entry after the second pass.
unfoldable pub resolved_hash : (ℕ → Option (List ℕ)) → ComponentStats → ℕ
resolved_hash serial s =
    if s.device_serial_hash == 0
    then resolve_serial_hash serial s.container_handle
    else s.device_serial_hash

-- What the third pass makes of an entry, for the hash of the second.
unfoldable pub reset_entry : ResetStats → ℕ → ComponentStats → ComponentStats
reset_entry req hash s =
    let s' : ComponentStats =
      if not (hash == 0) && s.device_serial_hash == 0
      then record s { device_serial_hash = hash }
      else s in
    if not (req.device_serial_hash == 0) && not (s'.device_serial_hash == req.device_serial_hash)
    then s'
    else if req.reset_passive == 0
    then s'
    else component_stats_reset_passive s'

-- The third pass, over the entries that the first one found; `m` is the map as it then is.
unfoldable pub reset_pass : (ℕ → Option (List ℕ)) → ResetStats → StatsMap → StatsMap → StatsMap
reset_pass serial req [] m = m
reset_pass serial req ((handle, s) ∷ snap) m =
    reset_pass serial req snap (elim (find ◌==◌ handle m) [
      | none ↦ m
      | some s' ↦ put ◌==◌ handle (reset_entry req (resolved_hash serial s) s') m
    ])

-- `before` is the map in the first pass, `now` the map in the third: other threads may change it
-- between them. `driver` is whether `g_driver` is set.
unfoldable pub apply_reset_request :
    (ℕ → Option (List ℕ))
    → ResetStats
    → Bool
    → StatsMap
    → StatsMap × InputHealthComp
    → StatsMap × InputHealthComp
apply_reset_request serial req driver before (now, curves) = (
  reset_pass serial req before now,
  if not (req.reset_curves == 0) && driver
      then clear_input_health_compensation curves req.device_serial_hash
      else curves,
)
