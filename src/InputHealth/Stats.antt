-- ===== src/InputHealth/Stats.antt =====
-- The statistics of one component of a device, and the body that is published of them:
-- ComponentStats of modules/inputhealth/src/driver/inputhealth/PerComponentStats.h with its parts,
-- and InputHealthSnapshotStaging.cpp. A `float` or a `double` is its bit pattern.
use open_vr_pair_driver.Base.{
  ℕ, ◌-◌, Bool, false, List, [], ◌∷◌, ◌++◌, map, length, take, replicate, if◌then◌else◌,
}
use open_vr_pair_driver.InputHealth.Compensation.{path_len}

pub record WelfordState : Type 0 where
  pub count : ℕ
  pub mean : ℕ
  pub m2 : ℕ

pub record PageHinkleyState : Type 0 where
  pub mean : ℕ
  pub ph_pos : ℕ
  pub ph_neg : ℕ
  pub initialized : Bool
  pub triggered : Bool
  pub triggered_positive : Bool

pub record EwmaRollingMinState : Type 0 where
  pub value : ℕ
  pub initialized : Bool

pub record PolarBin : Type 0 where
  pub max_r : ℕ
  pub count : ℕ
  pub last_update_us : ℕ

pub record PolarHistogramState : Type 0 where
  pub bins : List PolarBin
  pub global_max_r : ℕ

pub data AxisRole : Type 0 where
  unpaired stick_x stick_y : AxisRole

-- What the static cast to `uint8_t` gives.
abbrev pub role_number : AxisRole → ℕ
role_number unpaired = 0
role_number stick_x = 1
role_number stick_y = 2

pub record ComponentStats : Type 0 where
  pub path : List ℕ
  pub is_scalar : Bool
  pub is_boolean : Bool
  pub container_handle : ℕ
  pub device_serial_hash : ℕ
  pub last_serial_resolve_attempt_us : ℕ
  pub serial_resolution_logged : Bool
  pub first_update_logged : Bool
  pub welford : WelfordState
  pub scalar_range_initialized : Bool
  pub observed_min : ℕ
  pub observed_max : ℕ
  pub ph_drift : PageHinkleyState
  pub rest_min : EwmaRollingMinState
  pub last_value : ℕ
  pub last_update_us : ℕ
  pub axis_role : AxisRole
  pub partner_handle : ℕ
  pub polar : PolarHistogramState
  pub press_count : ℕ
  pub last_boolean : Bool
  pub pending_state : Bool
  pub last_committed_us : ℕ

abbrev pub bin_count : ℕ
bin_count = 36

unfoldable pub welford_reset : WelfordState
welford_reset = record { count = 0; mean = 0; m2 = 0 }

unfoldable pub page_hinkley_reset : PageHinkleyState
page_hinkley_reset = record {
  mean = 0;
  ph_pos = 0;
  ph_neg = 0;
  initialized = false;
  triggered = false;
  triggered_positive = false;
}

unfoldable pub ewma_rolling_min_reset : EwmaRollingMinState
ewma_rolling_min_reset = record { value = 0; initialized = false }

unfoldable pub polar_histogram_reset : PolarHistogramState
polar_histogram_reset = record {
  bins = replicate bin_count (record { max_r = 0; count = 0; last_update_us = 0 });
  global_max_r = 0;
}

unfoldable pub component_stats_reset_passive : ComponentStats → ComponentStats
component_stats_reset_passive s = record s {
  welford = welford_reset;
  ph_drift = page_hinkley_reset;
  rest_min = ewma_rolling_min_reset;
  polar = polar_histogram_reset;
  scalar_range_initialized = false;
  observed_min = 0;
  observed_max = 0;
  last_value = 0;
  last_update_us = 0;
  press_count = 0;
  last_boolean = false;
  pending_state = false;
  last_committed_us = 0;
  first_update_logged = false;
}

-- `g_componentStats`, in the order in which it is walked.
abbrev pub StatsMap : Type 0
StatsMap = List (ℕ × ComponentStats)

-- InputHealthSnapshotBody, without its padding.
pub record SnapshotBody : Type 0 where
  pub handle : ℕ
  pub container_handle : ℕ
  pub device_serial_hash : ℕ
  pub partner_handle : ℕ
  pub path : List ℕ
  pub is_scalar : ℕ
  pub is_boolean : ℕ
  pub axis_role : ℕ
  pub ph_initialized : ℕ
  pub ph_triggered : ℕ
  pub ph_triggered_positive : ℕ
  pub rest_min_initialized : ℕ
  pub last_boolean : ℕ
  pub welford_count : ℕ
  pub welford_mean : ℕ
  pub welford_m2 : ℕ
  pub ph_mean : ℕ
  pub ph_pos : ℕ
  pub ph_neg : ℕ
  pub rest_min : ℕ
  pub last_value : ℕ
  pub last_update_us : ℕ
  pub press_count : ℕ
  pub scalar_range_initialized : ℕ
  pub observed_min : ℕ
  pub observed_max : ℕ
  pub polar_max_r : List ℕ
  pub polar_count : List ℕ
  pub polar_last_update_us : List ℕ
  pub polar_global_max_r : ℕ

abbrev pub flag : Bool → ℕ
flag b = if b then 1 else 0

-- The array `path`: at most 63 characters, and NULs behind them.
unfoldable pub path_array : List ℕ → List ℕ
path_array path =
    let text = take (path_len - 1) path in text ++ replicate (path_len - length text) 0

unfoldable pub fill_snapshot_body : ℕ → ComponentStats → SnapshotBody
fill_snapshot_body handle s =
    let bins = take bin_count s.polar.bins in
    record {
      handle = handle;
      container_handle = s.container_handle;
      device_serial_hash = s.device_serial_hash;
      partner_handle = s.partner_handle;
      path = path_array s.path;
      is_scalar = flag s.is_scalar;
      is_boolean = flag s.is_boolean;
      axis_role = role_number s.axis_role;
      ph_initialized = flag s.ph_drift.initialized;
      ph_triggered = flag s.ph_drift.triggered;
      ph_triggered_positive = flag s.ph_drift.triggered_positive;
      rest_min_initialized = flag s.rest_min.initialized;
      last_boolean = flag s.last_boolean;
      welford_count = s.welford.count;
      welford_mean = s.welford.mean;
      welford_m2 = s.welford.m2;
      ph_mean = s.ph_drift.mean;
      ph_pos = s.ph_drift.ph_pos;
      ph_neg = s.ph_drift.ph_neg;
      rest_min = s.rest_min.value;
      last_value = s.last_value;
      last_update_us = s.last_update_us;
      press_count = s.press_count;
      scalar_range_initialized = flag s.scalar_range_initialized;
      observed_min = s.observed_min;
      observed_max = s.observed_max;
      polar_max_r = map (λ (b : PolarBin). b.max_r) bins;
      polar_count = map (λ (b : PolarBin). b.count) bins;
      polar_last_update_us = map (λ (b : PolarBin). b.last_update_us) bins;
      polar_global_max_r = s.polar.global_max_r;
    }

unfoldable pub stage_snapshots : StatsMap → List (ℕ × SnapshotBody)
stage_snapshots [] = []
stage_snapshots ((handle, s) ∷ m) = (handle, fill_snapshot_body handle s) ∷ stage_snapshots m
