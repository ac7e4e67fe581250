-- ===== src/InputHealth/Compensation.antt =====
-- The compensations that the driver keeps for each device and input path: the methods of
-- ServerTrackedDeviceProvider in core/src/driver/ServerTrackedDeviceProvider.cpp. Each holds the
-- mutex of the store and is one step. A `float` is its bit pattern.
pub mod Store
pub mod History
use open_vr_pair_driver.Base.{
  ℕ, zero, suc, Bool, true, false, not, Option, none, some, List, [], ◌∷◌, ◌==◌, ◌||◌,
  if◌then◌else◌, find, put, erase, same_codes,
}
use open_vr_pair_driver.InputPath.{is_compensation_path, classify_input_path}

-- INPUTHEALTH_PATH_LEN.
abbrev pub path_len : ℕ
path_len = 64

-- InputHealthCompensationEntry; `path` is the array.
pub record CompensationEntry : Type 0 where
  pub device_serial_hash : ℕ
  pub path : List ℕ
  pub kind : ℕ
  pub enabled : ℕ
  pub learned_rest_offset : ℕ
  pub learned_trigger_min : ℕ
  pub learned_trigger_max : ℕ
  pub learned_deadzone_radius : ℕ
  pub learned_debounce_us : ℕ

-- The characters before the first NUL, and at most `n` of them.
unfoldable pub chars : ℕ → List ℕ → List ℕ
chars zero s = []
chars (suc n) [] = []
chars (suc n) (c ∷ s) = if c == 0 then [] else c ∷ chars n s

unfoldable pub input_health_path_string : List ℕ → List ℕ
input_health_path_string path = chars path_len path

-- The entries of one device, by their path, and all of them, by the hash of the serial number.
abbrev pub DeviceComp : Type 0
DeviceComp = List (List ℕ × CompensationEntry)

abbrev pub InputHealthComp : Type 0
InputHealthComp = List (ℕ × DeviceComp)

abbrev pub is_empty {ℓ} : {A : Type ℓ} → List A → Bool
is_empty [] = true
is_empty (x ∷ l) = false

-- The branch of an entry that is not enabled.
unfoldable pub remove_path : InputHealthComp → ℕ → List ℕ → InputHealthComp
remove_path m hash path = elim (find ◌==◌ hash m) [
  | none ↦ m
  | some paths ↦
      let left = erase same_codes path paths in
      if is_empty left then erase ◌==◌ hash m else put ◌==◌ hash left m
]

-- `inputHealthComp[hash][path] = entry`.
unfoldable pub store_path : InputHealthComp → ℕ → List ℕ → CompensationEntry → InputHealthComp
store_path m hash path entry =
    let paths : DeviceComp = elim (find ◌==◌ hash m) [ none ↦ [] | some paths ↦ paths ] in
    put ◌==◌ hash (put same_codes path entry paths) m

unfoldable pub set_input_health_compensation : InputHealthComp → CompensationEntry → InputHealthComp
set_input_health_compensation m entry =
    let path = input_health_path_string entry.path in
    if entry.device_serial_hash == 0 || is_empty path
    then m
    else if not (is_compensation_path (classify_input_path path))
    then m
    else if entry.enabled == 0
    then remove_path m entry.device_serial_hash path
    else store_path m entry.device_serial_hash path entry

-- The entry found, or none where the source returns false.
unfoldable pub lookup_input_health_compensation :
    InputHealthComp → ℕ → List ℕ → Option CompensationEntry
lookup_input_health_compensation m serial_hash path =
    let found : Option CompensationEntry = elim (find ◌==◌ serial_hash m) [
      | none ↦ none
      | some paths ↦ find same_codes path paths
    ] in
    if serial_hash == 0 || is_empty path
    then none
    else elim found [ none ↦ none | some out ↦ if out.enabled == 0 then none else some out ]

-- `kSerialHashAllDevices` is 0.
unfoldable pub clear_input_health_compensation : InputHealthComp → ℕ → InputHealthComp
clear_input_health_compensation m serial_hash =
    if serial_hash == 0 then [] else erase ◌==◌ serial_hash m
