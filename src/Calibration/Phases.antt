-- ===== src/Calibration/Phases.antt =====
-- The phases of a one-shot calibration, and the decision of the watchdog.
use open_vr_pair_driver.Base.{ℕ, ◌≤◌, ◌≡◌, ◌⊎◌, inl, inr, Bool, true, refl, arith, ◌↔◌}
use open_vr_pair_driver.Calibration.{
  CalibrationState, none, begin, rotation, translation, editing, continuous, continuous_standby,
  is_legal_transition, max_consecutive_rejections, healthy_prior_error_max, is_calibration_healthy,
  should_clear_via_watchdog,
}

-- A run of the state machine from one state to another, newest step last.
pub data Run (from : CalibrationState) : CalibrationState → Type 0 where
  here : Run from from
  step : {s t : CalibrationState} → Run from s → is_legal_transition s t ≡ true → Run from t

-- The run has been in the state.
abbrev pub Visits : {from to : CalibrationState} → CalibrationState → Run from to → Type 0
Visits {to = t} v here = t ≡ v
Visits {to = t} v (step r _) = (t ≡ v) ⊎ Visits v r

Visits-end : {from to : CalibrationState} (r : Run from to) → Visits to r
Visits-end here = refl
Visits-end (step r _) = inl refl

begin_first : (r : Run none rotation) → Visits begin r
unfolding is_legal_transition
begin_first (step {s = none} r h) = ground (arith, h)
begin_first (step {s = begin} r h) = inr (Visits-end r)
begin_first (step {s = rotation} r h) = inr (begin_first r)
begin_first (step {s = translation} r h) = ground (arith, h)
begin_first (step {s = editing} r h) = ground (arith, h)
begin_first (step {s = continuous} r h) = ground (arith, h)
begin_first (step {s = continuous_standby} r h) = ground (arith, h)

-- A run of legal transitions from the idle state to the translation phase has been in the rotation
-- phase and in the begin state.
pub phases_in_order : (r : Run none translation) → Visits rotation r × Visits begin r
unfolding is_legal_transition
phases_in_order (step {s = none} r h) = ground (arith, h)
phases_in_order (step {s = begin} r h) = ground (arith, h)
phases_in_order (step {s = rotation} r h) = (inr (Visits-end r), inr (begin_first r))
phases_in_order (step {s = translation} r h) =
    (inr (phases_in_order r).0, inr (phases_in_order r).1)
phases_in_order (step {s = editing} r h) = ground (arith, h)
phases_in_order (step {s = continuous} r h) = ground (arith, h)
phases_in_order (step {s = continuous_standby} r h) = ground (arith, h)

-- The watchdog clears exactly the valid calibrations with an error of at least 5 millimetres after
-- 50 rejections in a row.
pub should_clear_via_watchdog_iff :
    (is_valid : Bool) (rejection_count prior_error : ℕ)
    → (should_clear_via_watchdog is_valid rejection_count prior_error ≡ true) ↔ (
        (is_valid ≡ true)
        × (max_consecutive_rejections ≤ rejection_count)
        × (healthy_prior_error_max ≤ prior_error))
unfolding should_clear_via_watchdog is_calibration_healthy
should_clear_via_watchdog_iff is_valid rejection_count prior_error =
    (λ h. ground (arith, h), λ h. ground (arith, h))
