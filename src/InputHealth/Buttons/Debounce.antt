-- ===== src/InputHealth/Buttons/Debounce.antt =====
-- The gap between the changes of a button that SteamVR sees.
use open_vr_pair_driver.Base.{
  ℕ, ◌^◌, ◌≤◌, ◌<◌, ◌≡◌, refl, sym, ap, ◌∙◌, subst, inl, inr, Bool, true, false, not, Option, none,
  some, List, [], ◌∷◌, ◌==◌, ◌&&◌, if◌then◌else◌, if_true, if_false, Bool-cases, arith, find, put,
  find-put_self, find-put_ne, ==_IsKeyTest,
}
use open_vr_pair_driver.Pacer.Pace.{AreApart}
use open_vr_pair_driver.InputHealth.Compensation.{CompensationEntry, InputHealthComp}
use open_vr_pair_driver.InputHealth.Stats.{ComponentStats, StatsMap}
use open_vr_pair_driver.InputHealth.Buttons.{
  InputHealthConfig, differs, update_boolean, detour_update_boolean_component,
}
use open_vr_pair_driver.InputHealth.Buttons.Updated.{
  IsDebounced, Updated, stays, changes_to, update_boolean-Updated, update_boolean-IsDebounced,
}

-- An update of a component at a time.
pub record Update : Type 0 where
  pub handle : ℕ
  pub new_value : Bool
  pub now_us : ℕ

-- The clock of 64 bits does not go back.
abbrev pub IsSteady : ℕ → List Update → Type 0
IsSteady since [] = Unit {0}
IsSteady since (u ∷ us) = (since ≤ u.now_us) × (u.now_us < 2 ^ 64) × IsSteady u.now_us us

module _ (serial : ℕ → Option (List ℕ)) (cfg : InputHealthConfig) (curves : InputHealthComp) where
  abbrev pub detour : StatsMap → Update → StatsMap × Bool
  detour m u =
      detour_update_boolean_component serial cfg curves true m u.handle u.new_value u.now_us

  -- The times at which SteamVR, which has seen the value `shown` of a component, is forwarded the
  -- other value.
  abbrev pub changes : ℕ → Bool → StatsMap → List Update → List ℕ
  changes h shown m [] = []
  changes h shown m (u ∷ us) =
      let (m', forwarded) = detour m u in
      let mine = u.handle == h && forwarded in
      let rest = changes h (if mine then u.new_value else shown) m' us in
      if mine && differs u.new_value shown then u.now_us ∷ rest else rest

  on_entry : StatsMap → Update → Option ComponentStats → StatsMap × Bool
  on_entry m u o = elim o [
    | none ↦ (m, true)
    | some s ↦
        let (s', swallow) = update_boolean serial cfg curves s u.new_value u.now_us in
        (put ◌==◌ u.handle s' m, not swallow)
  ]

  detour_lem :
      (m : StatsMap) (u : Update)
      → cfg.master_enabled ≡ true
      → detour m u ≡ on_entry m u (find ◌==◌ u.handle m)
  unfolding detour_update_boolean_component on_entry
  detour_lem m u on = if_true {b = cfg.master_enabled} (m, true) on

  other_handle :
      (m : StatsMap) (u : Update) (h : ℕ)
      → cfg.master_enabled ≡ true
      → (u.handle == h) ≡ false
      → find ◌==◌ h (detour m u).0 ≡ find ◌==◌ h m
  unfolding on_entry
  other_handle m u h on other =
      ap (λ (x : StatsMap × Bool). find ◌==◌ h x.0) (detour_lem m u on)
      ∙ from (find ◌==◌ u.handle m)
    where
      from : (o : Option ComponentStats) → find ◌==◌ h (on_entry m u o).0 ≡ find ◌==◌ h m
      from none = refl
      from (some s) =
          find-put_ne ◌==◌ ==_IsKeyTest u.handle h
            (update_boolean serial cfg curves s u.new_value u.now_us).0 m other

-- One round of `changes`.
abbrev emit : Bool → Bool → Bool → ℕ → (Bool → List ℕ) → List ℕ
emit mine v shown now rest =
    let later = rest (if mine then v else shown) in
    if mine && differs v shown then now ∷ later else later

-- What follows the last change, at `last` or 0 for none.
abbrev Follow : ℕ → ℕ → List ℕ → Type 0
Follow d last ts = (0 < last → AreApart d (last ∷ ts)) × AreApart d ts

not_differing : (v b : Bool) → differs v b ≡ false → v ≡ b
not_differing true true h = refl
not_differing true false h = cc
not_differing false true h = cc
not_differing false false h = refl

emit_same :
    (mine v shown : Bool) (now : ℕ) (rest : Bool → List ℕ)
    → differs v shown ≡ false
    → emit mine v shown now rest ≡ rest shown
emit_same true v shown now rest h =
    if_false {b = differs v shown} (now ∷ rest v) h ∙ ap rest (not_differing v shown h)
emit_same false v shown now rest h = refl

-- The round of an update of the component itself.
emit-Follow :
    (d now : ℕ) (v : Bool) (s s' : ComponentStats) (swallow : Bool) (rest : Bool → List ℕ)
    → 0 < now
    → Updated d now v s s' swallow
    → Follow d s'.last_committed_us (rest s'.last_boolean)
    → Follow d s.last_committed_us (emit (not swallow) v s.last_boolean now rest)
emit-Follow d now v s s' swallow rest some_ (stays value time (inl hidden)) f =
    subst (λ b. Follow d s.last_committed_us (emit (not b) v s.last_boolean now rest)) (sym hidden)
      (subst (λ b. Follow d s.last_committed_us (rest b)) value
        (subst (λ t. Follow d t (rest s'.last_boolean)) time f))
emit-Follow d now v s s' swallow rest some_ (stays value time (inr same)) f =
    subst (Follow d s.last_committed_us)
      (sym (emit_same (not swallow) v s.last_boolean now rest same))
      (subst (λ b. Follow d s.last_committed_us (rest b)) value
        (subst (λ t. Follow d t (rest s'.last_boolean)) time f))
emit-Follow d now v s s' swallow rest some_ (changes_to pass new value time due) f =
    subst (Follow d s.last_committed_us)
      (sym (
        ap (λ b. emit (not b) v s.last_boolean now rest) pass
        ∙ if_true {b = differs v s.last_boolean} (rest v) new))
      (λ c. (due c, behind), behind)
  where
    behind : AreApart d (now ∷ rest v)
    behind =
        subst (λ b. AreApart d (now ∷ rest b)) value
          (subst (λ t. AreApart d (t ∷ rest s'.last_boolean)) time
            (f.0 (subst (λ t. 0 < t) (sym time) some_)))

committed_past :
    (d now : ℕ) (v : Bool) (s s' : ComponentStats) (swallow : Bool)
    → Updated d now v s s' swallow
    → s.last_committed_us ≤ now
    → s'.last_committed_us ≤ now
committed_past d now v s s' swallow (stays _ time _) past = omega (arith, time, past)
committed_past d now v s s' swallow (changes_to _ _ _ time _) past = omega (arith, time)

changes-Follow :
    (serial : ℕ → Option (List ℕ)) (cfg : InputHealthConfig) (curves : InputHealthComp)
    (e : CompensationEntry) (us : List Update) (h since : ℕ) (m : StatsMap) (s : ComponentStats)
    → cfg.master_enabled ≡ true
    → cfg.diagnostics_only ≡ false
    → find ◌==◌ h m ≡ some s
    → IsDebounced curves e s
    → s.last_committed_us ≤ since
    → 0 < since
    → IsSteady since us
    → Follow e.learned_debounce_us s.last_committed_us
        (changes serial cfg curves h s.last_boolean m us)
unfolding on_entry
changes-Follow serial cfg curves e [] h since m s master on there known past some_ steady =
    (λ _. tt, tt)
changes-Follow serial cfg curves e (u ∷ us) h since m s master on there known past some_
      (next, small, steady) =
    elim (Bool-cases (u.handle == h)) [
      | inr other ↦
          subst (Follow e.learned_debounce_us s.last_committed_us)
            (sym (
              ap
                (λ b.
                  emit (b && (detour serial cfg curves m u).1) u.new_value s.last_boolean u.now_us
                    rest)
                other))
            (changes-Follow serial cfg curves e us h u.now_us (detour serial cfg curves m u).0 s
              master on (other_handle serial cfg curves m u h master other ∙ there) known
              (omega (arith, past, next)) (omega (arith, some_, next)) steady)
      | inl mine ↦
          let here : u.handle ≡ h = ==_IsKeyTest.sound u.handle h mine in
          let met : detour serial cfg curves m u ≡ (put ◌==◌ u.handle s' m, not swallow) =
            detour_lem serial cfg curves m u master
            ∙ ap (on_entry serial cfg curves m u) (ap (λ k. find ◌==◌ k m) here ∙ there) in
          subst (Follow e.learned_debounce_us s.last_committed_us)
            (sym (
              ap
                (λ b.
                  emit (b && (detour serial cfg curves m u).1) u.new_value s.last_boolean u.now_us
                    rest)
                mine
              ∙ ap (λ (x : StatsMap × Bool). emit x.1 u.new_value s.last_boolean u.now_us rest)
                  met))
            (emit-Follow e.learned_debounce_us u.now_us u.new_value s s' swallow rest
              (omega (arith, some_, next)) updated
              (changes-Follow serial cfg curves e us h u.now_us (detour serial cfg curves m u).0 s'
                master on
                (ap (λ (x : StatsMap × Bool). find ◌==◌ h x.0) met
                  ∙ ap (λ k. find ◌==◌ h (put ◌==◌ k s' m)) here
                  ∙ find-put_self ◌==◌ ==_IsKeyTest h s' m)
                (update_boolean-IsDebounced serial cfg curves e on s u.new_value u.now_us known)
                (committed_past e.learned_debounce_us u.now_us u.new_value s s' swallow updated
                  (omega (arith, past, next)))
                (omega (arith, some_, next)) steady))
    ]
  where
    s' : ComponentStats
    s' = (update_boolean serial cfg curves s u.new_value u.now_us).0

    swallow : Bool
    swallow = (update_boolean serial cfg curves s u.new_value u.now_us).1

    updated : Updated e.learned_debounce_us u.now_us u.new_value s s' swallow
    updated =
        update_boolean-Updated serial cfg curves e on s u.new_value u.now_us known
          (omega (arith, past, next)) small

    rest : Bool → List ℕ
    rest shown = changes serial cfg curves h shown (detour serial cfg curves m u).0 us

-- Whatever updates SteamVR's input system is given for any components, in the order of a clock that
-- starts above 0: while input health is on, and a button has an entry with a debounce time, the
-- changes of the button's value that are forwarded are at least that time apart.
pub changes_apart :
    (serial : ℕ → Option (List ℕ)) (cfg : InputHealthConfig) (curves : InputHealthComp)
    (e : CompensationEntry) (us : List Update) (h since : ℕ) (m : StatsMap) (s : ComponentStats)
    → cfg.master_enabled ≡ true
    → cfg.diagnostics_only ≡ false
    → find ◌==◌ h m ≡ some s
    → IsDebounced curves e s
    → s.last_committed_us ≤ since
    → 0 < since
    → IsSteady since us
    → AreApart e.learned_debounce_us (changes serial cfg curves h s.last_boolean m us)
changes_apart serial cfg curves e us h since m s master on there known past some_ steady =
    (changes-Follow serial cfg curves e us h since m s master on there known past some_ steady).1
