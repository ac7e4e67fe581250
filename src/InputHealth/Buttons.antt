-- ===== src/InputHealth/Buttons.antt =====
-- An update of a boolean component on its way to SteamVR: DetourUpdateBooleanComponent of
-- modules/inputhealth/src/driver/InputHealthHookInjector.cpp, with ObserveBooleanSample of
-- InputHealthObservation.cpp and ShouldSwallowBooleanUpdate of InputHealthCompensation.cpp. No
-- exception is thrown. The clock is in microseconds, of 64 bits.
pub mod Updated
pub mod Debounce
use open_vr_pair_driver.Base.{
  ℕ, ◌+◌, ◌-◌, ◌*◌, ◌%◌, ◌^◌, Bool, true, false, not, Option, none, some, List, ltb, ◌==◌, ◌&&◌,
  if◌then◌else◌, find, put,
}
use open_vr_pair_driver.InputHealth.Compensation.{
  CompensationEntry, InputHealthComp, lookup_input_health_compensation,
}
use open_vr_pair_driver.InputHealth.Stats.{ComponentStats, StatsMap}
use open_vr_pair_driver.InputHealth.Registry.{resolve_serial_hash}

-- `!=` of two booleans.
abbrev pub differs : Bool → Bool → Bool
differs true b = not b
differs false b = b

-- InputHealthConfig, as far as the buttons read it.
pub record InputHealthConfig : Type 0 where
  pub master_enabled : Bool
  pub diagnostics_only : Bool

-- `a - b` of two `uint64_t`.
abbrev pub minus64 : ℕ → ℕ → ℕ
minus64 a b = (a + (2 ^ 64 - b)) % 2 ^ 64

-- `press_count` is a `uint64_t`.
unfoldable pub observe_boolean_sample : ComponentStats → Bool → ComponentStats
observe_boolean_sample s new_value =
    if differs new_value s.pending_state
    then record s {
      press_count = if new_value then (s.press_count + 1) % 2 ^ 64 else s.press_count;
      pending_state = new_value;
    }
    else s

-- InputHealthCompBoolean is 3.
unfoldable pub should_swallow_boolean_update : ComponentStats → CompensationEntry → Bool → ℕ → Bool
should_swallow_boolean_update s entry new_value now_us =
    entry.kind == 3
    && (not (entry.learned_debounce_us == 0)
        && (differs new_value s.last_boolean
            && (not (s.last_committed_us == 0)
                && ltb (minus64 now_us s.last_committed_us) entry.learned_debounce_us)))

-- The late resolution of the serial number, at most once a second.
unfoldable pub resolve_late :
    (ℕ → Option (List ℕ)) → InputHealthConfig → ℕ → ComponentStats → ComponentStats
resolve_late serial cfg now_us s =
    let hash = resolve_serial_hash serial s.container_handle in
    if not cfg.diagnostics_only
      && (s.device_serial_hash == 0
          && ltb 1000000 (minus64 now_us s.last_serial_resolve_attempt_us))
    then record s {
      last_serial_resolve_attempt_us = now_us;
      device_serial_hash = hash;
      serial_resolution_logged = if hash == 0 then s.serial_resolution_logged else true;
    }
    else s

-- Whether the update is swallowed.
unfoldable pub swallows : InputHealthConfig → InputHealthComp → ComponentStats → Bool → ℕ → Bool
swallows cfg curves s new_value now_us =
    let found : Bool = elim (lookup_input_health_compensation curves s.device_serial_hash s.path) [
      | none ↦ false
      | some entry ↦ should_swallow_boolean_update s entry new_value now_us
    ] in
    not cfg.diagnostics_only && (not (s.device_serial_hash == 0) && found)

-- The component after the update.
unfoldable pub commit : Bool → Bool → ℕ → ComponentStats → ComponentStats
commit swallow new_value now_us s =
    let s' : ComponentStats =
      if not swallow && differs new_value s.last_boolean
      then record s { last_boolean = new_value; last_committed_us = now_us }
      else s in
    record s' { last_update_us = now_us; first_update_logged = true }

unfoldable pub update_boolean :
    (ℕ → Option (List ℕ))
    → InputHealthConfig
    → InputHealthComp
    → ComponentStats
    → Bool
    → ℕ
    → ComponentStats × Bool
update_boolean serial cfg curves s new_value now_us =
    let s' = resolve_late serial cfg now_us (observe_boolean_sample s new_value) in
    let swallow = swallows cfg curves s' new_value now_us in
    (commit swallow new_value now_us s', swallow)

-- The map after the detour, and whether the update is forwarded. `driver` is whether `g_driver` is
-- set.
unfoldable pub detour_update_boolean_component :
    (ℕ → Option (List ℕ))
    → InputHealthConfig
    → InputHealthComp
    → Bool
    → StatsMap
    → ℕ
    → Bool
    → ℕ
    → StatsMap × Bool
detour_update_boolean_component serial cfg curves driver m handle new_value now_us =
    if driver && cfg.master_enabled
    then elim (find ◌==◌ handle m) [
      | none ↦ (m, true)
      | some s ↦
          let (s', swallow) = update_boolean serial cfg curves s new_value now_us in
          (put ◌==◌ handle s' m, not swallow)
    ]
    else (m, true)
