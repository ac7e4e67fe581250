-- ===== src/InputHealth/Buttons/Updated.antt =====
-- What one update of a button does.
use open_vr_pair_driver.Base.{
  ℕ, ◌+◌, ◌-◌, ◌^◌, ◌≤◌, ◌<◌, ◌≡◌, refl, sym, ap, ap₂, ◌∙◌, subst, ◌⊎◌, inl, inr, Bool, true, false,
  not, Option, some, List, ◌==◌, ◌&&◌, ltb, if◌then◌else◌, if_true, if_false, Bool-cases, arith,
}
use open_vr_pair_driver.InputHealth.Compensation.{
  CompensationEntry, InputHealthComp, lookup_input_health_compensation,
}
use open_vr_pair_driver.InputHealth.Stats.{ComponentStats}
use open_vr_pair_driver.InputHealth.Buttons.{
  InputHealthConfig, differs, minus64, observe_boolean_sample, should_swallow_boolean_update,
  resolve_late, swallows, commit, update_boolean,
}

-- The component belongs to a device that has an entry for it, of a button.
pub record IsDebounced (curves : InputHealthComp) (e : CompensationEntry) (s : ComponentStats)
    : Type 0 where
  pub resolved : (s.device_serial_hash == 0) ≡ false
  pub entry : lookup_input_health_compensation curves s.device_serial_hash s.path ≡ some e
  pub is_button : e.kind ≡ 3

-- What one update does to the state that SteamVR sees.
pub data Updated (d now : ℕ) (new_value : Bool) (s s' : ComponentStats) (swallow : Bool)
    : Type 0 where
  stays :
      s'.last_boolean ≡ s.last_boolean
      → s'.last_committed_us ≡ s.last_committed_us
      → (swallow ≡ true) ⊎ (differs new_value s.last_boolean ≡ false)
      → Updated d now new_value s s' swallow
  changes_to :
      swallow ≡ false
      → differs new_value s.last_boolean ≡ true
      → s'.last_boolean ≡ new_value
      → s'.last_committed_us ≡ now
      → (0 < s.last_committed_us → s.last_committed_us + d ≤ now)
      → Updated d now new_value s s' swallow

swallowed_or : (b w : Bool) → (not b && w) ≡ false → (b ≡ true) ⊎ (w ≡ false)
swallowed_or true w h = inl refl
swallowed_or false w h = inr h

module _ (serial : ℕ → Option (List ℕ)) (cfg : InputHealthConfig) (curves : InputHealthComp)
    (e : CompensationEntry) (on : cfg.diagnostics_only ≡ false) where
  -- The component as it is when it is decided whether the update is swallowed.
  ready : ComponentStats → Bool → ℕ → ComponentStats
  ready s v now = resolve_late serial cfg now (observe_boolean_sample s v)

  pub record Same (s s' : ComponentStats) : Type 0 where
    pub hash : s'.device_serial_hash ≡ s.device_serial_hash
    pub path : s'.path ≡ s.path
    pub value : s'.last_boolean ≡ s.last_boolean
    pub time : s'.last_committed_us ≡ s.last_committed_us

  observe-Same : (s : ComponentStats) (v : Bool) → Same s (observe_boolean_sample s v)
  unfolding observe_boolean_sample
  observe-Same s v = elim (Bool-cases (differs v s.pending_state)) [
    | inl new ↦
        subst (Same s) (sym (if_true {b = differs v s.pending_state} s new))
          (record { hash = refl; path = refl; value = refl; time = refl })
    | inr old ↦
        subst (Same s) (sym (if_false {b = differs v s.pending_state} _ old))
          (record { hash = refl; path = refl; value = refl; time = refl })
  ]

  ready-Same :
      (s : ComponentStats) (v : Bool) (now : ℕ)
      → (s.device_serial_hash == 0) ≡ false
      → Same s (ready s v now)
  unfolding resolve_late ready
  ready-Same s v now known =
      let seen = observe-Same s v in
      subst (Same s)
        (sym (
          if_false
            {b = not cfg.diagnostics_only
              && ((observe_boolean_sample s v).device_serial_hash == 0
                  && ltb 1000000
                      (minus64 now (observe_boolean_sample s v).last_serial_resolve_attempt_us))}
            _ (ground (arith, known, seen.hash))))
        seen

  -- Whether an update is swallowed, in terms of the component before it.
  swallows_lem :
      (s s' : ComponentStats) (v : Bool) (now : ℕ)
      → IsDebounced curves e s
      → Same s s'
      → swallows cfg curves s' v now ≡ should_swallow_boolean_update s' e v now
  unfolding swallows
  swallows_lem s s' v now known same =
      rw (entry', swallows)
        (ap (λ b. not b && (not (s'.device_serial_hash == 0) && should)) on
          ∙ ap (λ b. not b && should)
              (subst (λ n. (n == 0) ≡ false) (sym same.hash) known.resolved))
    where
      should : Bool
      should = should_swallow_boolean_update s' e v now

      entry' : lookup_input_health_compensation curves s'.device_serial_hash s'.path ≡ some e
      entry' = ap₂ (lookup_input_health_compensation curves) same.hash same.path ∙ known.entry

  -- An update that is not swallowed and changes the value is not too early.
  in_time :
      (s : ComponentStats) (v : Bool) (now : ℕ)
      → e.kind ≡ 3
      → s.last_committed_us ≤ now
      → now < 2 ^ 64
      → should_swallow_boolean_update s e v now ≡ false
      → differs v s.last_boolean ≡ true
      → 0 < s.last_committed_us
      → s.last_committed_us + e.learned_debounce_us ≤ now
  unfolding should_swallow_boolean_update
  in_time s v now button past small pass new later =
      elim (Bool-cases (e.learned_debounce_us == 0)) [
        | inl none_ ↦ ground (arith, none_, past)
        | inr some_ ↦
            let late : ltb (minus64 now s.last_committed_us) e.learned_debounce_us ≡ false =
              ground (arith, pass, new, some_, later, button) in
            let gap : minus64 now s.last_committed_us ≡ now - s.last_committed_us =
              omega (arith, past, small) in
            ground (arith, late, gap, past)
      ]

  committed :
      (s s' : ComponentStats) (v b : Bool) (now : ℕ)
      → Same s s'
      → (b ≡ false
          → differs v s'.last_boolean ≡ true
          → 0 < s'.last_committed_us
          → s'.last_committed_us + e.learned_debounce_us ≤ now)
      → Updated e.learned_debounce_us now v s (commit b v now s') b
  unfolding commit
  committed s s' v b now same due = elim (Bool-cases (not b && differs v s'.last_boolean)) [
    | inr old ↦
        let unchanged : (if changed then next else s') ≡ s' = if_false {b = changed} next old in
        stays (ap (λ (x : ComponentStats). x.last_boolean) unchanged ∙ same.value)
          (ap (λ (x : ComponentStats). x.last_committed_us) unchanged ∙ same.time)
          (swallowed_or b (differs v s.last_boolean)
            (subst (λ l. (not b && differs v l) ≡ false) same.value old))
    | inl new ↦
        let becomes : (if changed then next else s') ≡ next = if_true {b = changed} s' new in
        let passed : b ≡ false = ground (arith, new) in
        let differs' : differs v s'.last_boolean ≡ true = ground (arith, new) in
        changes_to passed (subst (λ l. differs v l ≡ true) same.value differs')
          (ap (λ (x : ComponentStats). x.last_boolean) becomes)
          (ap (λ (x : ComponentStats). x.last_committed_us) becomes)
          (subst (λ t. 0 < t → t + e.learned_debounce_us ≤ now) same.time (due passed differs'))
  ]
    where
      changed : Bool
      changed = not b && differs v s'.last_boolean

      next : ComponentStats
      next = record s' { last_boolean = v; last_committed_us = now }

  pub update_boolean-Updated :
      (s : ComponentStats) (v : Bool) (now : ℕ)
      → IsDebounced curves e s
      → s.last_committed_us ≤ now
      → now < 2 ^ 64
      → Updated e.learned_debounce_us now v s
          (update_boolean serial cfg curves s v now).0
          (update_boolean serial cfg curves s v now).1
  unfolding update_boolean ready
  update_boolean-Updated s v now known past small =
      committed s (ready s v now) v (swallows cfg curves (ready s v now) v now) now same
        (λ pass new later.
          in_time (ready s v now) v now known.is_button (subst (λ t. t ≤ now) (sym same.time) past)
            small (sym (swallows_lem s (ready s v now) v now known same) ∙ pass) new later)
    where
      same : Same s (ready s v now)
      same = ready-Same s v now known.resolved

  commit_keeps :
      (s : ComponentStats) (v b : Bool) (now : ℕ)
      → ((commit b v now s).device_serial_hash ≡ s.device_serial_hash)
        × ((commit b v now s).path ≡ s.path)
  unfolding commit
  commit_keeps s v b now = either (not b && differs v s.last_boolean)
    where
      next : ComponentStats
      next = record s { last_boolean = v; last_committed_us = now }

      either :
          (c : Bool)
          → ((if c then next else s).device_serial_hash ≡ s.device_serial_hash)
            × ((if c then next else s).path ≡ s.path)
      either true = (refl, refl)
      either false = (refl, refl)

  pub update_boolean-IsDebounced :
      (s : ComponentStats) (v : Bool) (now : ℕ)
      → IsDebounced curves e s
      → IsDebounced curves e (update_boolean serial cfg curves s v now).0
  unfolding update_boolean commit ready
  update_boolean-IsDebounced s v now known =
      transfer same (commit_keeps s' v (swallows cfg curves s' v now) now)
    where
      s' : ComponentStats
      s' = ready s v now

      same : Same s s'
      same = ready-Same s v now known.resolved

      transfer :
          Same s s'
          → ((commit (swallows cfg curves s' v now) v now s').device_serial_hash
              ≡ s'.device_serial_hash)
            × ((commit (swallows cfg curves s' v now) v now s').path ≡ s'.path)
          → IsDebounced curves e (commit (swallows cfg curves s' v now) v now s')
      transfer same (h, p) = record {
        resolved = subst (λ n. (n == 0) ≡ false) (sym (h ∙ same.hash)) known.resolved;
        entry =
            ap₂ (lookup_input_health_compensation curves) (h ∙ same.hash) (p ∙ same.path)
            ∙ known.entry;
        is_button = known.is_button;
      }
