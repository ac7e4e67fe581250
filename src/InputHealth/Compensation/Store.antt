-- ===== src/InputHealth/Compensation/Store.antt =====
-- What one request does to the map from devices and paths to entries.
use open_vr_pair_driver.Base.{
  ℕ, ◌≡◌, refl, sym, ap, ◌∙◌, subst, inl, inr, Bool, true, not, ◌&&◌, ◌||◌, Option, none, some,
  List, [], ◌∷◌, ◌==◌, if◌then◌else◌, if_true, if_false, Bool-cases, arith, find, put, erase,
  find-put, find-erase, ==_IsKeyTest, same_codes, same_codes-IsKeyTest,
}
use open_vr_pair_driver.InputPath.{is_compensation_path, classify_input_path}
use open_vr_pair_driver.InputHealth.Compensation.{
  CompensationEntry, DeviceComp, InputHealthComp, input_health_path_string, is_empty, remove_path,
  store_path, set_input_health_compensation, clear_input_health_compensation,
}

-- What the two maps hold for a device and a path.
abbrev pub in_device : Option DeviceComp → List ℕ → Option CompensationEntry
in_device o path = elim o [ none ↦ none | some paths ↦ find same_codes path paths ]

abbrev pub entry_at : InputHealthComp → ℕ → List ℕ → Option CompensationEntry
entry_at m hash path = in_device (find ◌==◌ hash m) path

abbrev is_key : ℕ → List ℕ → ℕ → List ℕ → Bool
is_key hash path h p = hash == h && same_codes path p

nothing_there :
    (left : DeviceComp) (p : List ℕ) → is_empty left ≡ true → find same_codes p left ≡ none
nothing_there [] p h = refl
nothing_there (x ∷ left) p h = cc

module _ (m : InputHealthComp) (hash : ℕ) (path : List ℕ) (h : ℕ) (p : List ℕ) where
  -- Replacing the entries of one device.
  put_device :
      (paths : DeviceComp)
      → entry_at (put ◌==◌ hash paths m) h p
        ≡ (if hash == h then find same_codes p paths else entry_at m h p)
  put_device paths = elim (Bool-cases (hash == h)) [
    | inl e ↦
        ap (λ d. in_device d p)
          (find-put ◌==◌ ==_IsKeyTest hash h paths m ∙ if_true {b = hash == h} _ e)
        ∙ sym (if_true {b = hash == h} _ e)
    | inr e ↦
        ap (λ d. in_device d p)
          (find-put ◌==◌ ==_IsKeyTest hash h paths m ∙ if_false {b = hash == h} _ e)
        ∙ sym (if_false {b = hash == h} _ e)
  ]

  erase_device : entry_at (erase ◌==◌ hash m) h p ≡ (if hash == h then none else entry_at m h p)
  erase_device = elim (Bool-cases (hash == h)) [
    | inl e ↦
        ap (λ d. in_device d p)
          (find-erase ◌==◌ ==_IsKeyTest hash h m ∙ if_true {b = hash == h} _ e)
        ∙ sym (if_true {b = hash == h} _ e)
    | inr e ↦
        ap (λ d. in_device d p)
          (find-erase ◌==◌ ==_IsKeyTest hash h m ∙ if_false {b = hash == h} _ e)
        ∙ sym (if_false {b = hash == h} _ e)
  ]

  -- For a device that is the one asked for, or not.
  by_device :
      (d : Option DeviceComp) (left : DeviceComp) (e : Option CompensationEntry)
      → find ◌==◌ hash m ≡ d
      → find same_codes p left ≡ (if same_codes path p then e else in_device d p)
      → (if hash == h then find same_codes p left else entry_at m h p)
        ≡ (if is_key hash path h p then e else entry_at m h p)
  by_device d left e found left_is = elim (Bool-cases (hash == h)) [
    | inr other ↦ rw (other, if◌then◌else◌) refl
    | inl same ↦
        let here : in_device d p ≡ entry_at m h p =
          ap (λ x. in_device x p) (sym found)
          ∙ ap (λ k. entry_at m k p) (==_IsKeyTest.sound hash h same) in
        rw (same, if◌then◌else◌) (left_is ∙ ap (λ x. if same_codes path p then e else x) here)
  ]

  store_path_lem :
      (entry : CompensationEntry)
      → entry_at (store_path m hash path entry) h p
        ≡ (if is_key hash path h p then some entry else entry_at m h p)
  unfolding store_path
  store_path_lem entry = from (find ◌==◌ hash m) refl
    where
      from :
          (d : Option DeviceComp)
          → find ◌==◌ hash m ≡ d
          → entry_at (store_path m hash path entry) h p
            ≡ (if is_key hash path h p then some entry else entry_at m h p)
      from none e =
          rw (e, store_path)
            (put_device (put same_codes path entry [])
              ∙ by_device none (put same_codes path entry []) (some entry) e
                  (find-put same_codes same_codes-IsKeyTest path p entry []))
      from (some paths) e =
          rw (e, store_path)
            (put_device (put same_codes path entry paths)
              ∙ by_device (some paths) (put same_codes path entry paths) (some entry) e
                  (find-put same_codes same_codes-IsKeyTest path p entry paths))

  remove_path_lem :
      entry_at (remove_path m hash path) h p
      ≡ (if is_key hash path h p then none else entry_at m h p)
  unfolding remove_path
  remove_path_lem = from (find ◌==◌ hash m) refl
    where
      Goal : InputHealthComp → Type 0
      Goal r = entry_at r h p ≡ (if is_key hash path h p then none else entry_at m h p)

      from : (d : Option DeviceComp) → find ◌==◌ hash m ≡ d → Goal (remove_path m hash path)
      from none e =
          rw (e, remove_path)
            (elim (Bool-cases (is_key hash path h p)) [
              | inl k ↦
                  let here : hash ≡ h = ==_IsKeyTest.sound hash h (ground (arith, k)) in
                  ap (λ j. entry_at m j p) (sym here)
                  ∙ ap (λ d. in_device d p) e
                  ∙ sym (if_true {b = is_key hash path h p} _ k)
              | inr k ↦ sym (if_false {b = is_key hash path h p} _ k)
            ])
      from (some paths) e =
          rw (e, remove_path)
            (elim (Bool-cases (is_empty left)) [
              | inl nothing ↦ subst Goal (sym (if_true {b = is_empty left} _ nothing)) (
                  erase_device
                  ∙ ap (λ x. if hash == h then x else entry_at m h p)
                      (sym (nothing_there left p nothing))
                  ∙ removed)
              | inr some_ ↦
                  subst Goal (sym (if_false {b = is_empty left} _ some_))
                    (put_device left ∙ removed)
            ])
        where
          left : DeviceComp
          left = erase same_codes path paths

          removed :
              (if hash == h then find same_codes p left else entry_at m h p)
              ≡ (if is_key hash path h p then none else entry_at m h p)
          removed =
              by_device (some paths) left none e
                (find-erase same_codes same_codes-IsKeyTest path p paths)

-- A request for an entry takes effect if it names a device, and a path that may be compensated.
abbrev pub takes_effect : CompensationEntry → Bool
takes_effect e =
    not (e.device_serial_hash == 0 || is_empty (input_health_path_string e.path))
    && is_compensation_path (classify_input_path (input_health_path_string e.path))

abbrev pub names : CompensationEntry → ℕ → List ℕ → Bool
names e h p = e.device_serial_hash == h && same_codes (input_health_path_string e.path) p

pub set_lem :
    (m : InputHealthComp) (e : CompensationEntry) (h : ℕ) (p : List ℕ)
    → entry_at (set_input_health_compensation m e) h p ≡ (
        if takes_effect e && names e h p
        then if e.enabled == 0 then none else some e
        else entry_at m h p)
unfolding set_input_health_compensation
set_lem m e h p = ground (
  arith,
  store_path_lem m e.device_serial_hash (input_health_path_string e.path) h p e,
  remove_path_lem m e.device_serial_hash (input_health_path_string e.path) h p,
)

pub clear_lem :
    (m : InputHealthComp) (hash h : ℕ) (p : List ℕ)
    → entry_at (clear_input_health_compensation m hash) h p
      ≡ (if hash == 0 || hash == h then none else entry_at m h p)
unfolding clear_input_health_compensation
clear_lem m hash h p = ground (arith, erase_device m hash [] h p)
