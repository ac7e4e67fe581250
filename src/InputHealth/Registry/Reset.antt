-- ===== src/InputHealth/Registry/Reset.antt =====
-- What a request to reset the statistics does to each component.
use open_vr_pair_driver.Base.{
  ℕ, ◌≡◌, refl, sym, ap, ap₂, ◌∙◌, inl, inr, Bool, false, not, replicate, ◌&&◌, ◌||◌, Option, none,
  some, List, [], ◌∷◌, ◌==◌, if◌then◌else◌, if_true, if_false, Bool-cases, arith, find, put,
  find-put, ==_IsKeyTest,
}
use open_vr_pair_driver.InputHealth.Stats.{
  ComponentStats, StatsMap, component_stats_reset_passive, welford_reset, page_hinkley_reset,
  ewma_rolling_min_reset, polar_histogram_reset,
}
use open_vr_pair_driver.InputHealth.Compensation.{InputHealthComp, is_empty}
use open_vr_pair_driver.InputHealth.Registry.{
  fnv1a64, resolve_serial_hash, ResetStats, resolved_hash, reset_entry, reset_pass,
  apply_reset_request,
}

-- No handle stands twice, as in `std::unordered_map`.
abbrev pub IsMap : StatsMap → Type 0
IsMap [] = Unit {0}
IsMap ((h, s) ∷ m) = (find ◌==◌ h m ≡ none) × IsMap m

-- The component with the hash of its device, if it had none.
abbrev pub with_hash : ℕ → ComponentStats → ComponentStats
with_hash hash s = record s {
  device_serial_hash = if s.device_serial_hash == 0 then hash else s.device_serial_hash;
}

-- The component as it was registered, with every statistic as before its first update.
abbrev pub cleared : ComponentStats → ComponentStats
cleared s = record {
  path = s.path;
  is_scalar = s.is_scalar;
  is_boolean = s.is_boolean;
  container_handle = s.container_handle;
  device_serial_hash = s.device_serial_hash;
  last_serial_resolve_attempt_us = s.last_serial_resolve_attempt_us;
  serial_resolution_logged = s.serial_resolution_logged;
  axis_role = s.axis_role;
  partner_handle = s.partner_handle;
  first_update_logged = false;
  welford = record { count = 0; mean = 0; m2 = 0 };
  scalar_range_initialized = false;
  observed_min = 0;
  observed_max = 0;
  ph_drift = record {
    mean = 0;
    ph_pos = 0;
    ph_neg = 0;
    initialized = false;
    triggered = false;
    triggered_positive = false;
  };
  rest_min = record { value = 0; initialized = false };
  last_value = 0;
  last_update_us = 0;
  polar = record {
    bins = replicate 36 (record { max_r = 0; count = 0; last_update_us = 0 });
    global_max_r = 0;
  };
  press_count = 0;
  last_boolean = false;
  pending_state = false;
  last_committed_us = 0;
}

-- The hash that the first pass knows of the component's device, or that is computed of the serial
-- number of its container; 0 if there is none.
abbrev pub device_hash : (ℕ → Option (List ℕ)) → ComponentStats → ℕ
device_hash serial s =
    if s.device_serial_hash == 0
    then if s.container_handle == 0 then 0 else elim (serial s.container_handle) [
      | none ↦ 0
      | some number ↦ elim number [ [] ↦ 0 | c ∷ rest ↦ fnv1a64 (c ∷ rest) ]
    ]
    else s.device_serial_hash

-- It is reset if the request is for its device, or for all, and asks for it.
abbrev pub is_reset : ResetStats → ComponentStats → Bool
is_reset req s =
    (req.device_serial_hash == 0 || s.device_serial_hash == req.device_serial_hash)
    && not (req.reset_passive == 0)

abbrev pub expected_entry : ResetStats → ℕ → ComponentStats → ComponentStats
expected_entry req hash s =
    if is_reset req (with_hash hash s) then cleared (with_hash hash s) else with_hash hash s

reset_passive-cleared : (s : ComponentStats) → component_stats_reset_passive s ≡ cleared s
unfolding component_stats_reset_passive welford_reset page_hinkley_reset ewma_rolling_min_reset
    polar_histogram_reset
reset_passive-cleared s = refl

resolved_hash-device_hash :
    (serial : ℕ → Option (List ℕ)) (s : ComponentStats)
    → resolved_hash serial s ≡ device_hash serial s
unfolding resolved_hash resolve_serial_hash
resolved_hash-device_hash serial s =
    ap
      (λ (n : ℕ).
        if s.device_serial_hash == 0
        then if s.container_handle == 0 then 0 else n
        else s.device_serial_hash)
      (of (serial s.container_handle))
  where
    of :
        (o : Option (List ℕ))
        → ◌≡◌ {A = ℕ}
            (elim o [ none ↦ 0 | some number ↦ if is_empty number then 0 else fnv1a64 number ])
            (elim o [
              | none ↦ 0
              | some number ↦ elim number [ [] ↦ 0 | c ∷ rest ↦ fnv1a64 (c ∷ rest) ]
            ])
    of none = refl
    of (some []) = refl
    of (some (c ∷ rest)) = refl

with_hash_lem :
    (hash : ℕ) (s : ComponentStats)
    → (if not (hash == 0) && s.device_serial_hash == 0
        then record s { device_serial_hash = hash }
        else s)
      ≡ with_hash hash s
with_hash_lem hash s = elim (Bool-cases (s.device_serial_hash == 0)) [
  | inr known ↦
      if_false {b = not (hash == 0) && s.device_serial_hash == 0} _ (ground (arith, known))
      ∙ ap (λ n. record s { device_serial_hash = n })
          (sym (if_false {b = s.device_serial_hash == 0} hash known))
  | inl unknown ↦ elim (Bool-cases (hash == 0)) [
    | inl zero_ ↦
        let same : s.device_serial_hash ≡ hash = ground (arith, unknown, zero_) in
        if_false {b = not (hash == 0) && s.device_serial_hash == 0} _ (ground (arith, zero_))
        ∙ ap (λ n. record s { device_serial_hash = n })
            (same ∙ sym (if_true {b = s.device_serial_hash == 0} s.device_serial_hash unknown))
    | inr found ↦
        if_true {b = not (hash == 0) && s.device_serial_hash == 0} s
          (ground (arith, unknown, found))
        ∙ ap (λ n. record s { device_serial_hash = n })
            (sym (if_true {b = s.device_serial_hash == 0} s.device_serial_hash unknown))
  ]
]

reset_entry_lem :
    (req : ResetStats) (hash : ℕ) (s : ComponentStats)
    → reset_entry req hash s ≡ expected_entry req hash s
unfolding reset_entry
reset_entry_lem req hash s = ap decide (with_hash_lem hash s) ∙ decided (with_hash hash s)
  where
    decide : ComponentStats → ComponentStats
    decide x =
        if not (req.device_serial_hash == 0) && not (x.device_serial_hash == req.device_serial_hash)
        then x
        else if req.reset_passive == 0
        then x
        else component_stats_reset_passive x

    decided : (x : ComponentStats) → decide x ≡ (if is_reset req x then cleared x else x)
    decided x = ground (arith, reset_passive-cleared x)

-- What becomes of a component: nothing, if the first pass did not see it or it is gone in the third.
abbrev pub after_reset :
    (ℕ → Option (List ℕ))
    → ResetStats
    → Option ComponentStats
    → Option ComponentStats
    → Option ComponentStats
after_reset serial req seen now = elim seen [
  | none ↦ now
  | some s ↦ elim now [
    | none ↦ none
    | some s' ↦ some (expected_entry req (device_hash serial s) s')
  ]
]

module _ (serial : ℕ → Option (List ℕ)) (req : ResetStats) where
  -- One entry of the third pass.
  abbrev pub one : ℕ → ComponentStats → StatsMap → StatsMap
  one handle s m = elim (find ◌==◌ handle m) [
    | none ↦ m
    | some s' ↦ put ◌==◌ handle (reset_entry req (resolved_hash serial s) s') m
  ]

  one_lem :
      (k h : ℕ) (s : ComponentStats) (m : StatsMap)
      → find ◌==◌ h (one k s m)
        ≡ (if k == h then after_reset serial req (some s) (find ◌==◌ h m) else find ◌==◌ h m)
  one_lem k h s m = from (find ◌==◌ k m) refl
    where
      Goal : StatsMap → Type 0
      Goal r =
          find ◌==◌ h r
          ≡ (if k == h then after_reset serial req (some s) (find ◌==◌ h m) else find ◌==◌ h m)

      from : (o : Option ComponentStats) → find ◌==◌ k m ≡ o → Goal (one k s m)
      from none e =
          rw (e, one)
            (elim (Bool-cases (k == h)) [
              | inl same ↦
                  let gone : find ◌==◌ h m ≡ none =
                    ap (λ j. find ◌==◌ j m) (sym (==_IsKeyTest.sound k h same)) ∙ e in
                  gone
                  ∙ sym (if_true {b = k == h} _ same ∙ ap (after_reset serial req (some s)) gone)
              | inr other ↦ sym (if_false {b = k == h} _ other)
            ])
      from (some s') e =
          rw (e, one)
            (find-put ◌==◌ ==_IsKeyTest k h (reset_entry req (resolved_hash serial s) s') m
              ∙ ap (λ x. if k == h then some x else find ◌==◌ h m)
                  (reset_entry_lem req (resolved_hash serial s) s'
                    ∙ ap (λ n. expected_entry req n s') (resolved_hash-device_hash serial s))
              ∙ elim (Bool-cases (k == h)) [
                | inl same ↦
                    let there : find ◌==◌ h m ≡ some s' =
                      ap (λ j. find ◌==◌ j m) (sym (==_IsKeyTest.sound k h same)) ∙ e in
                    if_true {b = k == h} _ same
                    ∙ sym (if_true {b = k == h} _ same ∙ ap (after_reset serial req (some s)) there)
                | inr other ↦ if_false {b = k == h} _ other ∙ sym (if_false {b = k == h} _ other)
              ])

  reset_pass_lem :
      (snap m : StatsMap) (h : ℕ)
      → IsMap snap
      → find ◌==◌ h (reset_pass serial req snap m)
        ≡ after_reset serial req (find ◌==◌ h snap) (find ◌==◌ h m)
  unfolding reset_pass
  reset_pass_lem [] m h v = refl
  reset_pass_lem ((k, s) ∷ snap) m h (once, v) =
      reset_pass_lem snap (one k s m) h v
      ∙ ap (after_reset serial req (find ◌==◌ h snap)) (one_lem k h s m)
      ∙ elim (Bool-cases (k == h)) [
        | inl same ↦
            let behind : find ◌==◌ h snap ≡ none =
              ap (λ j. find ◌==◌ j snap) (sym (==_IsKeyTest.sound k h same)) ∙ once in
            ap₂ (after_reset serial req) behind (if_true {b = k == h} _ same)
            ∙ ap (λ o. after_reset serial req o (find ◌==◌ h m)) (sym (if_true {b = k == h} _ same))
        | inr other ↦
            ap₂ (after_reset serial req) (sym (if_false {b = k == h} (some s) other))
              (if_false {b = k == h} _ other)
      ]

-- A request to reset, while other threads may change the map between its passes: a component that
-- the first pass saw and that is still there in the third gets the hash of its device if it had
-- none, and if the request names this device or all devices and asks for it, every statistic of it
-- is as before its first update, with its path, kind, device, role and partner kept; every other
-- component stays as it is, and none is added.
pub apply_reset_request_lem :
    (serial : ℕ → Option (List ℕ)) (req : ResetStats) (driver : Bool) (before now : StatsMap)
    (curves : InputHealthComp) (h : ℕ)
    → IsMap before
    → find ◌==◌ h (apply_reset_request serial req driver before (now, curves)).0
      ≡ after_reset serial req (find ◌==◌ h before) (find ◌==◌ h now)
unfolding apply_reset_request
apply_reset_request_lem serial req driver before now curves h v =
    reset_pass_lem serial req before now h v
