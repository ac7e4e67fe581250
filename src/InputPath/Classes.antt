-- ===== src/InputPath/Classes.antt =====
-- What the classes of paths guarantee.
use open_vr_pair_driver.Base.{
  ℕ, ◌≡◌, ◌≢◌, Bool, true, false, not, List, ◌++◌, ◌||◌, codes, contains, contains-append, arith,
}
use open_vr_pair_driver.InputPath.{
  trigger, is_compensation_path, is_diagnostics_only_path, is_trigger_like_path,
  classify_input_path,
}

-- Whether the path names a sensor that must not be compensated.
abbrev pub names_sensor : List ℕ → Bool
names_sensor path =
    contains (codes "/eye") path
    || contains (codes "/face") path
    || contains (codes "/pupil") path
    || contains (codes "proximity") path
    || contains (codes "/imu") path

-- A path that names a sensor is never compensated, whatever else it contains.
pub sensor_not_compensated :
    (path : List ℕ)
    → names_sensor path ≡ true
    → is_compensation_path (classify_input_path path) ≡ false
unfolding classify_input_path is_compensation_path
sensor_not_compensated path h = ground (arith, h)

-- An input path is compensated exactly when it names no sensor.
pub input_compensated :
    (before after : List ℕ)
    → let path = before ++ (codes "/input/" ++ after) in
      is_compensation_path (classify_input_path path) ≡ not (names_sensor path)
unfolding classify_input_path is_compensation_path
input_compensated before after = ground (arith, contains-append before (codes "/input/") after)

derived_not_trigger :
    (path : List ℕ)
    → (contains (codes "/click") path || contains (codes "/touch") path) ≡ true
    → classify_input_path path ≢ trigger
unfolding classify_input_path is_trigger_like_path
derived_not_trigger path h = λ e. ground (arith, h, e)

expression_diagnostics :
    (path : List ℕ)
    → (contains (codes "/eye") path || contains (codes "/face") path) ≡ true
    → is_diagnostics_only_path (classify_input_path path) ≡ true
unfolding classify_input_path is_diagnostics_only_path
expression_diagnostics path h = ground (arith, h)

-- A path with a click or a touch in it is never a trigger; a path with the eyes or the face in it is
-- only shown in the diagnostics.
pub classify_derived :
    (before after : List ℕ)
    → (classify_input_path (before ++ (codes "/click" ++ after)) ≢ trigger)
      × (classify_input_path (before ++ (codes "/touch" ++ after)) ≢ trigger)
      × (is_diagnostics_only_path (classify_input_path (before ++ (codes "/eye" ++ after))) ≡ true)
      × (is_diagnostics_only_path (classify_input_path (before ++ (codes "/face" ++ after))) ≡ true)
classify_derived before after = (
  derived_not_trigger _ (ground (arith, contains-append before (codes "/click") after)),
  derived_not_trigger _ (ground (arith, contains-append before (codes "/touch") after)),
  expression_diagnostics _ (ground (arith, contains-append before (codes "/eye") after)),
  expression_diagnostics _ (ground (arith, contains-append before (codes "/face") after)),
)
