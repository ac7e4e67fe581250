-- ===== src/InputHealth/Tests.antt =====
-- A controller with a trigger and a button.
use open_vr_pair_driver.Base.{
  ℕ, zero, suc, ◌≡◌, ◌≢◌, refl, Bool, true, false, Option, none, some, List, [], ◌∷◌, ◌++◌,
  replicate, ◌==◌, arith, codes, find,
}
use open_vr_pair_driver.Pacer.Pace.{AreApart}
use open_vr_pair_driver.InputHealth.Compensation.{
  CompensationEntry, InputHealthComp, lookup_input_health_compensation,
}
use open_vr_pair_driver.InputHealth.Compensation.History.{
  Op, sets, clears, after, expected, lookup-after,
}
use open_vr_pair_driver.InputHealth.Stats.{SnapshotBody, ComponentStats, StatsMap}
use open_vr_pair_driver.InputHealth.Registry.{new_stats, ResetStats, apply_reset_request}
use open_vr_pair_driver.InputHealth.Registry.Reset.{after_reset, apply_reset_request_lem}
use open_vr_pair_driver.InputHealth.Publisher.{Segment, snapshot_publisher_init}
use open_vr_pair_driver.InputHealth.Publisher.Shown
use open_vr_pair_driver.InputHealth.Publisher.Shown.{
  stopped, shown, newest, ticked, seated, shown-after, AreUnused,
}
use open_vr_pair_driver.InputHealth.Buttons.{InputHealthConfig}
use open_vr_pair_driver.InputHealth.Buttons.Updated.{IsDebounced}
use open_vr_pair_driver.InputHealth.Buttons.Debounce.{Update, changes, changes_apart}

abbrev entry : CompensationEntry
entry = record {
  device_serial_hash = 7;
  path = codes "/input/a/click" ++ replicate 50 0;
  kind = 3;
  enabled = 1;
  learned_rest_offset = 0;
  learned_trigger_min = 0;
  learned_trigger_max = 0;
  learned_deadzone_radius = 0;
  learned_debounce_us = 5000;
}

abbrev requests : List Op
requests = sets entry ∷ clears 7 ∷ sets entry ∷ []

lookup-after_example :
    lookup_input_health_compensation (after requests) 7 (codes "/input/a/click")
    ≡ expected requests 7 (codes "/input/a/click")
lookup-after_example = lookup-after requests 7 (codes "/input/a/click")

abbrev button : ComponentStats
button = record new_stats {
  path = codes "/input/a/click";
  is_boolean = true;
  container_handle = 9;
  device_serial_hash = 7;
}

abbrev serial : ℕ → Option (List ℕ)
serial container = if_nine (container == 9)
  where
    if_nine : Bool → Option (List ℕ)
    if_nine true = some (codes "LHR-1")
    if_nine false = none

abbrev stats : StatsMap
stats = (3, button) ∷ (4, record button { device_serial_hash = 0 }) ∷ []

abbrev request : ResetStats
request = record { device_serial_hash = 7; reset_passive = 1; reset_active = 0; reset_curves = 0 }

apply_reset_request_lem_example :
    find ◌==◌ 3 (apply_reset_request serial request true stats (stats, [])).0
    ≡ after_reset serial request (find ◌==◌ 3 stats) (find ◌==◌ 3 stats)
apply_reset_request_lem_example =
    apply_reset_request_lem serial request true stats stats [] 3 (refl, (refl, tt))

abbrev unused : SnapshotBody
unused = record {
  handle = 0;
  container_handle = 0;
  device_serial_hash = 0;
  partner_handle = 0;
  path = [];
  is_scalar = 0;
  is_boolean = 0;
  axis_role = 0;
  ph_initialized = 0;
  ph_triggered = 0;
  ph_triggered_positive = 0;
  rest_min_initialized = 0;
  last_boolean = 0;
  welford_count = 0;
  welford_mean = 0;
  welford_m2 = 0;
  ph_mean = 0;
  ph_pos = 0;
  ph_neg = 0;
  rest_min = 0;
  last_value = 0;
  last_update_us = 0;
  press_count = 0;
  scalar_range_initialized = 0;
  observed_min = 0;
  observed_max = 0;
  polar_max_r = [];
  polar_count = [];
  polar_last_update_us = [];
  polar_global_max_r = 0;
}

replicate-AreUnused : (n : ℕ) → AreUnused (replicate n unused)
replicate-AreUnused zero = tt
replicate-AreUnused (suc n) = (refl, replicate-AreUnused n)

shown-after_example :
    let segment : Segment = record { slots = replicate 256 unused; publish_tick = 5 } in
    let p = Shown.after (snapshot_publisher_init stopped (some segment)) (stats ∷ stats ∷ []) in
    (g : Segment) × (p.shmem ≡ some g)
    × ((h : ℕ)
        → h ≢ 0
        → shown g 77 h
          ≡ newest (ticked 5 (stats ∷ stats ∷ [])) (find ◌==◌ h (seated [] (stats ∷ stats ∷ []))))
shown-after_example =
    shown-after (replicate 256 unused) 5 77 (stats ∷ stats ∷ []) refl (replicate-AreUnused 256)

abbrev config : InputHealthConfig
config = record { master_enabled = true; diagnostics_only = false }

abbrev curves : InputHealthComp
curves = (7, (codes "/input/a/click", entry) ∷ []) ∷ []

button-IsDebounced : IsDebounced curves entry button
unfolding lookup_input_health_compensation
button-IsDebounced = record { resolved = refl; entry = refl; is_button = refl }

-- The release at 200 comes too early, and the one at 6000 is forwarded.
abbrev updates : List Update
updates =
    record { handle = 3; new_value = true; now_us = 100 }
    ∷ record { handle = 3; new_value = false; now_us = 200 }
    ∷ record { handle = 3; new_value = false; now_us = 6000 }
    ∷ []

changes_apart_example : AreApart 5000 (changes serial config curves 3 false stats updates)
unfolding new_stats
changes_apart_example =
    changes_apart serial config curves entry updates 3 1 stats button refl refl refl
      button-IsDebounced (omega arith) (omega arith)
      (omega arith, omega arith, (omega arith, omega arith, (omega arith, omega arith, tt)))
