-- ===== src/Calibration.antt =====
-- The state machine of the calibration overlay and its watchdog:
-- modules/calibration/src/overlay/StateTransitions.h and WatchdogDecisions.h.
pub mod Phases
pub mod Liveness
mod Tests
use open_vr_pair_driver.Base.{ℕ, Bool, true, false, not, leb, ltb, ◌&&◌}

pub data CalibrationState : Type 0 where
  none begin rotation translation editing continuous continuous_standby : CalibrationState

-- Whether a transition to another state is legal, as the switch lists it; staying is always legal.
unfoldable pub is_legal_transition : CalibrationState → CalibrationState → Bool
is_legal_transition none none = true
is_legal_transition none begin = true
is_legal_transition none continuous = true
is_legal_transition none continuous_standby = true
is_legal_transition none editing = true
is_legal_transition none rotation = false
is_legal_transition none translation = false
is_legal_transition begin begin = true
is_legal_transition begin none = true
is_legal_transition begin rotation = true
is_legal_transition begin continuous = true
is_legal_transition begin translation = false
is_legal_transition begin editing = false
is_legal_transition begin continuous_standby = false
is_legal_transition rotation rotation = true
is_legal_transition rotation none = true
is_legal_transition rotation translation = true
is_legal_transition rotation begin = false
is_legal_transition rotation editing = false
is_legal_transition rotation continuous = false
is_legal_transition rotation continuous_standby = false
is_legal_transition translation translation = true
is_legal_transition translation none = true
is_legal_transition translation begin = false
is_legal_transition translation rotation = false
is_legal_transition translation editing = false
is_legal_transition translation continuous = false
is_legal_transition translation continuous_standby = false
is_legal_transition editing editing = true
is_legal_transition editing none = true
is_legal_transition editing begin = false
is_legal_transition editing rotation = false
is_legal_transition editing translation = false
is_legal_transition editing continuous = false
is_legal_transition editing continuous_standby = false
is_legal_transition continuous continuous = true
is_legal_transition continuous none = true
is_legal_transition continuous begin = true
is_legal_transition continuous continuous_standby = true
is_legal_transition continuous rotation = false
is_legal_transition continuous translation = false
is_legal_transition continuous editing = false
is_legal_transition continuous_standby continuous_standby = true
is_legal_transition continuous_standby none = true
is_legal_transition continuous_standby begin = true
is_legal_transition continuous_standby continuous = true
is_legal_transition continuous_standby rotation = false
is_legal_transition continuous_standby translation = false
is_legal_transition continuous_standby editing = false

abbrev pub max_consecutive_rejections : ℕ
max_consecutive_rejections = 50

-- An error in micrometres; the source's 0.005 metres.
abbrev pub healthy_prior_error_max : ℕ
healthy_prior_error_max = 5000

unfoldable pub is_calibration_healthy : Bool → ℕ → Bool
is_calibration_healthy is_valid prior_error = is_valid && ltb prior_error healthy_prior_error_max

unfoldable pub should_clear_via_watchdog : Bool → ℕ → ℕ → Bool
should_clear_via_watchdog is_valid rejection_count prior_error =
    is_valid
    && (leb max_consecutive_rejections rejection_count
        && not (is_calibration_healthy is_valid prior_error))
