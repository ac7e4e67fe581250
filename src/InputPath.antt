-- ===== src/InputPath.antt =====
-- core/src/common/inputhealth/PathClassifier.h: which input paths of a device are compensated.
pub mod Classes
use open_vr_pair_driver.Base.{
  ℕ, ◌+◌, ◌-◌, Bool, true, false, not, List, [], ◌∷◌, length, drop, leb, ◌==◌, ◌&&◌, ◌||◌,
  if◌then◌else◌, codes, contains, has_prefix,
}

pub data PathClass : Type 0 where
  trigger stick_axis controller_button diagnostics_only unsupported : PathClass

unfoldable pub is_compensation_path : PathClass → Bool
is_compensation_path trigger = true
is_compensation_path stick_axis = true
is_compensation_path controller_button = true
is_compensation_path diagnostics_only = false
is_compensation_path unsupported = false

unfoldable pub is_diagnostics_only_path : PathClass → Bool
is_diagnostics_only_path diagnostics_only = true
is_diagnostics_only_path trigger = false
is_diagnostics_only_path stick_axis = false
is_diagnostics_only_path controller_button = false
is_diagnostics_only_path unsupported = false

-- The lambda `endsWith`.
unfoldable pub ends_with : List ℕ → List ℕ → Bool
ends_with suffix path =
    let rest = drop (length path - length suffix) path in
    leb (length suffix) (length path) && (length rest == length suffix && has_prefix suffix rest)

unfoldable pub is_trigger_like_path : List ℕ → Bool
is_trigger_like_path path =
    if contains (codes "/click") path || contains (codes "/touch") path
    then false
    else if contains (codes "trigger") path || contains (codes "Trigger") path
    then true
    else if ends_with (codes "/force") path
    then true
    else if ends_with (codes "/pressure") path
    then true
    else if contains (codes "/grip/value") path
    then true
    else contains (codes "/squeeze/value") path

-- Whether the path ends in an axis of a stick or of a pad.
unfoldable pub is_stick_axis : List ℕ → Bool
is_stick_axis path =
    (ends_with (codes "/x") path
      || ends_with (codes "/X") path
      || ends_with (codes "/y") path
      || ends_with (codes "/Y") path)
    && (contains (codes "stick") path
        || contains (codes "joystick") path
        || contains (codes "trackpad") path
        || contains (codes "thumbstick") path
        || contains (codes "touchpad") path)

abbrev is_empty : List ℕ → Bool
is_empty [] = true
is_empty (_ ∷ _) = false

unfoldable pub classify_input_path : List ℕ → PathClass
classify_input_path path =
    if is_empty path
    then unsupported
    else if contains (codes "/eye") path || contains (codes "/face") path
    then diagnostics_only
    else if contains (codes "/pupil") path
        || contains (codes "proximity") path
        || contains (codes "/imu") path
    then unsupported
    else if is_trigger_like_path path
    then trigger
    else if is_stick_axis path
    then stick_axis
    else if contains (codes "/input/") path
    then controller_button
    else unsupported
