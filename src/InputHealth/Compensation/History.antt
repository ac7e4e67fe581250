-- ===== src/InputHealth/Compensation/History.antt =====
-- The store after every history of requests.
use open_vr_pair_driver.Base.{
  ℕ, ◌≡◌, refl, sym, ap, ◌∙◌, subst, inl, inr, true, false, ◌&&◌, ◌||◌, Option, none, some, List,
  [], ◌∷◌, ◌==◌, if◌then◌else◌, if_true, if_false, Bool-cases, arith, ==_IsKeyTest,
  same_codes-IsKeyTest,
}
use open_vr_pair_driver.InputPath.{is_compensation_path, classify_input_path}
use open_vr_pair_driver.InputPath.Classes.{names_sensor, sensor_not_compensated}
use open_vr_pair_driver.InputHealth.Compensation.{
  CompensationEntry, InputHealthComp, input_health_path_string, is_empty,
  set_input_health_compensation, lookup_input_health_compensation, clear_input_health_compensation,
}
use open_vr_pair_driver.InputHealth.Compensation.Store.{
  entry_at, takes_effect, names, set_lem, clear_lem,
}

-- A request of the overlay.
pub data Op : Type 0 where
  sets : CompensationEntry → Op
  clears : ℕ → Op

-- The store after a history, the newest request first.
abbrev pub after : List Op → InputHealthComp
after [] = []
after (sets e ∷ older) = set_input_health_compensation (after older) e
after (clears hash ∷ older) = clear_input_health_compensation (after older) hash

-- The newest request that takes effect on a device and a path decides.
abbrev pub expected : List Op → ℕ → List ℕ → Option CompensationEntry
expected [] h p = none
expected (sets e ∷ older) h p =
    let before = expected older h p in
    if takes_effect e && names e h p then if e.enabled == 0 then none else some e else before
expected (clears hash ∷ older) h p =
    let before = expected older h p in if hash == 0 || hash == h then none else before

entry_at-after : (ops : List Op) (h : ℕ) (p : List ℕ) → entry_at (after ops) h p ≡ expected ops h p
entry_at-after [] h p = refl
entry_at-after (sets e ∷ older) h p =
    set_lem (after older) e h p
    ∙ ap (λ x. if takes_effect e && names e h p then if e.enabled == 0 then none else some e else x)
        (entry_at-after older h p)
entry_at-after (clears hash ∷ older) h p =
    clear_lem (after older) hash h p
    ∙ ap (λ x. if hash == 0 || hash == h then none else x) (entry_at-after older h p)

some_injective : (a b : CompensationEntry) → some a ≡ some b → a ≡ b
some_injective a b e = ap (λ o. elim o [ none ↦ a | some x ↦ x ]) e

-- What is expected is enabled, and only for a device and a path.
record IsUsable (o : Option CompensationEntry) (h : ℕ) (p : List ℕ) : Type 0 where
  enabled : (e : CompensationEntry) → o ≡ some e → (e.enabled == 0) ≡ false
  named : (h == 0 || is_empty p) ≡ true → o ≡ none

none-IsUsable : (h : ℕ) (p : List ℕ) → IsUsable none h p
none-IsUsable h p = record { enabled = λ e n. cc; named = λ n. refl }

named_path :
    (e : CompensationEntry) (h : ℕ) (p : List ℕ)
    → (takes_effect e && names e h p) ≡ true
    → (h == 0 || is_empty p) ≡ false
named_path e h p t =
    let device : e.device_serial_hash ≡ h =
      ==_IsKeyTest.sound e.device_serial_hash h (ground (arith, t)) in
    let path : input_health_path_string e.path ≡ p =
      same_codes-IsKeyTest.sound (input_health_path_string e.path) p (ground (arith, t)) in
    subst (λ k. (k == 0 || is_empty p) ≡ false) device
      (subst (λ q. (e.device_serial_hash == 0 || is_empty q) ≡ false) path (ground (arith, t)))

expected-IsUsable : (ops : List Op) (h : ℕ) (p : List ℕ) → IsUsable (expected ops h p) h p
expected-IsUsable [] h p = none-IsUsable h p
expected-IsUsable (sets e ∷ older) h p = elim (Bool-cases (takes_effect e && names e h p)) [
  | inr other ↦
      subst (λ o. IsUsable o h p) (sym (if_false {b = takes_effect e && names e h p} _ other))
        (expected-IsUsable older h p)
  | inl mine ↦
      subst (λ o. IsUsable o h p) (sym (if_true {b = takes_effect e && names e h p} _ mine))
        (elim (Bool-cases (e.enabled == 0)) [
          | inl off ↦
              subst (λ o. IsUsable o h p) (sym (if_true {b = e.enabled == 0} _ off))
                (none-IsUsable h p)
          | inr on ↦
              subst (λ o. IsUsable o h p) (sym (if_false {b = e.enabled == 0} _ on))
                (record {
                  enabled = λ x s. subst (λ y. (y.enabled == 0) ≡ false) (some_injective e x s) on;
                  named = λ bad. absurd (ground (arith, bad, named_path e h p mine));
                })
        ])
]
expected-IsUsable (clears hash ∷ older) h p = elim (Bool-cases (hash == 0 || hash == h)) [
  | inl c ↦
      subst (λ o. IsUsable o h p) (sym (if_true {b = hash == 0 || hash == h} _ c))
        (none-IsUsable h p)
  | inr c ↦
      subst (λ o. IsUsable o h p) (sym (if_false {b = hash == 0 || hash == h} _ c))
        (expected-IsUsable older h p)
]

checked : Option CompensationEntry → Option CompensationEntry
checked o = elim o [ none ↦ none | some out ↦ if out.enabled == 0 then none else some out ]

lookup_entry :
    (m : InputHealthComp) (h : ℕ) (p : List ℕ)
    → IsUsable (entry_at m h p) h p
    → lookup_input_health_compensation m h p ≡ entry_at m h p
unfolding lookup_input_health_compensation checked
lookup_entry m h p u = elim (Bool-cases (h == 0 || is_empty p)) [
  | inl bad ↦ if_true {b = h == 0 || is_empty p} _ bad ∙ sym (u.named bad)
  | inr good ↦ if_false {b = h == 0 || is_empty p} _ good ∙ from (entry_at m h p) u.enabled
]
  where
    from :
        (o : Option CompensationEntry)
        → ((e : CompensationEntry) → o ≡ some e → (e.enabled == 0) ≡ false)
        → checked o ≡ o
    from none on = refl
    from (some e) on = if_false {b = e.enabled == 0} _ (on e refl)

-- After every history of requests, looking up a device and a path gives the entry of the newest
-- request that took effect on them, if that is an enabled entry, and nothing if it is a disabled
-- one, if the device or all devices were cleared since, or if there is none. A request for an entry
-- takes effect only if the hash of its device is not 0 and its path may be compensated.
pub lookup-after :
    (ops : List Op) (h : ℕ) (p : List ℕ)
    → lookup_input_health_compensation (after ops) h p ≡ expected ops h p
lookup-after ops h p =
    lookup_entry (after ops) h p
      (subst (λ o. IsUsable o h p) (sym (entry_at-after ops h p)) (expected-IsUsable ops h p))
    ∙ entry_at-after ops h p

-- After every history of requests, no compensation is found for a path that names a sensor.
pub sensor_never_compensated :
    (ops : List Op) (h : ℕ) (p : List ℕ)
    → names_sensor p ≡ true
    → lookup_input_health_compensation (after ops) h p ≡ none
sensor_never_compensated ops h p sensor = lookup-after ops h p ∙ none_expected ops
  where
    not_both : (e : CompensationEntry) → (takes_effect e && names e h p) ≡ false
    not_both e = elim (Bool-cases (takes_effect e && names e h p)) [
      | inr other ↦ other
      | inl both ↦
          let path : input_health_path_string e.path ≡ p =
            same_codes-IsKeyTest.sound (input_health_path_string e.path) p (ground (arith, both)) in
          absurd (
            ground (
              arith,
              both,
              subst (λ q. is_compensation_path (classify_input_path q) ≡ false) (sym path)
                  (sensor_not_compensated p sensor),
            ))
    ]

    none_expected : (older : List Op) → expected older h p ≡ none
    none_expected [] = refl
    none_expected (sets e ∷ older) =
        if_false {b = takes_effect e && names e h p} _ (not_both e) ∙ none_expected older
    none_expected (clears hash ∷ older) = elim (Bool-cases (hash == 0 || hash == h)) [
      | inl c ↦ if_true {b = hash == 0 || hash == h} _ c
      | inr c ↦ if_false {b = hash == 0 || hash == h} _ c ∙ none_expected older
    ]
