-- ===== src/Calibration/Liveness/Frozen.antt =====
-- What has happened to a tracker that is declared offline.
use open_vr_pair_driver.Base.{
  ℕ, ◌-◌, ◌≤◌, ◌≡◌, ◌⊎◌, refl, sym, ◌∙◌, inl, inr, Bool, true, false, Option, none, some, List, [],
  ◌∷◌, leb, ◌==◌, not, ◌&&◌, if◌then◌else◌, if_true, if_false, arith, Bool-cases, Option-cases,
  subst,
}
use open_vr_pair_driver.Calibration.Liveness.{
  TrackerLivenessState, TrackerLivenessInputs, fresh_state, is_offline, set_offline, after_still,
  pose_changed, pose_frozen, tick_tracker_liveness, tick_tracker_liveness_offline,
}

-- A history of ticks, the newest first, from a state that is default-constructed.
abbrev pub state_after : List TrackerLivenessInputs → TrackerLivenessState
state_after [] = fresh_state
state_after (i ∷ past) = (tick_tracker_liveness (state_after past) i).0

-- From a tick at the time `since` on, every tick that finds the device connected finds the pose
-- `pose`; and if `moved` is true, the headset moved at 20 mm/s or more in one of them.
pub data IsStill (pose since : ℕ) : Bool → List TrackerLivenessInputs → Type 0 where
  starts :
      {i : TrackerLivenessInputs} {past : List TrackerLivenessInputs} {moved : Bool}
      → i.device_is_connected ≡ true
      → i.pos_hash ≡ pose
      → i.now ≡ since
      → (moved ≡ true → 20 ≤ i.hmd_speed)
      → IsStill pose since moved (i ∷ past)
  stays :
      {i : TrackerLivenessInputs} {past : List TrackerLivenessInputs} {moved before : Bool}
      → i.device_is_connected ≡ true
      → i.pos_hash ≡ pose
      → (moved ≡ true → (before ≡ true) ⊎ (20 ≤ i.hmd_speed))
      → IsStill pose since before past
      → IsStill pose since moved (i ∷ past)
  away :
      {i : TrackerLivenessInputs} {past : List TrackerLivenessInputs} {moved : Bool}
      → i.device_is_connected ≡ false
      → IsStill pose since moved past
      → IsStill pose since moved (i ∷ past)

-- What the state says of the ticks before.
record Remembers (past : List TrackerLivenessInputs) (s : TrackerLivenessState) : Type 0 where
  still :
      (since : ℕ)
      → s.pose_hash_since ≡ some since
      → IsStill s.last_pose_hash since s.hmd_moved_during_freeze past
  unmoved : s.pose_hash_since ≡ none → is_offline s ≡ false → s.hmd_moved_during_freeze ≡ false

fresh-Remembers : (past : List TrackerLivenessInputs) → Remembers past fresh_state
fresh-Remembers past = record {
  still = λ since h. absurd (ground (arith, h));
  unmoved = λ _ _. refl;
}

module _ (s : TrackerLivenessState) (i : TrackerLivenessInputs) (past : List TrackerLivenessInputs)
    (r : Remembers past s) where
  away-Remembers :
      (s' : TrackerLivenessState)
      → i.device_is_connected ≡ false
      → s'.pose_hash_since ≡ s.pose_hash_since
      → s'.last_pose_hash ≡ s.last_pose_hash
      → s'.hmd_moved_during_freeze ≡ s.hmd_moved_during_freeze
      → (is_offline s' ≡ false → is_offline s ≡ false)
      → Remembers (i ∷ past) s'
  away-Remembers s' gone since pose moved on = record {
    still = λ t h. away gone (
        subst (λ p. IsStill p t s'.hmd_moved_during_freeze past) (sym pose)
          (subst (λ m. IsStill s.last_pose_hash t m past) (sym moved) (r.still t (sym since ∙ h))));
    unmoved = λ h o. moved ∙ r.unmoved (sym since ∙ h) (on o);
  }

  still_since :
      (t u : ℕ)
      → i.device_is_connected ≡ true
      → i.pos_hash ≡ s.last_pose_hash
      → s.pose_hash_since ≡ some t
      → some t ≡ some u
      → IsStill s.last_pose_hash u (after_still s i).hmd_moved_during_freeze (i ∷ past)
  still_since t u on same e h = stays on same (λ m. ground (arith, m)) (r.still u (e ∙ h))

  starts_now :
      (s' : TrackerLivenessState)
      → i.device_is_connected ≡ true
      → s'.last_pose_hash ≡ i.pos_hash
      → s'.pose_hash_since ≡ some i.now
      → (s'.hmd_moved_during_freeze ≡ true → 20 ≤ i.hmd_speed)
      → Remembers (i ∷ past) s'
  starts_now s' on pose since moved = record {
    still = λ t h. starts on (sym pose) (ground (arith, since, h)) moved;
    unmoved = λ h o. absurd (ground (arith, since, h));
  }

  changed-Remembers : i.device_is_connected ≡ true → Remembers (i ∷ past) (pose_changed s i)
  unfolding pose_changed
  changed-Remembers on = elim (Bool-cases (is_offline s)) [
    | inr online ↦
        rw (online, if◌then◌else◌) (starts_now _ on refl refl (λ m. absurd (ground (arith, m))))
    | inl offline ↦ rw (offline, if◌then◌else◌) (from s.reconnect_since)
  ]
    where
      s' : TrackerLivenessState
      s' = record s {
        last_pose_hash = i.pos_hash;
        pose_hash_since = some i.now;
        hmd_moved_during_freeze = false;
      }

      from :
          (o : Option ℕ)
          → Remembers (i ∷ past) (elim o [
            | none ↦ record s' { reconnect_since = some i.now }
            | some since ↦ if leb 2000 (i.now - since) then fresh_state else s'
          ])
      from none = starts_now _ on refl refl (λ m. absurd (ground (arith, m)))
      from (some since) = elim (Bool-cases (leb 2000 (i.now - since))) [
        | inl back ↦ rw (back, if◌then◌else◌) (fresh-Remembers (i ∷ past))
        | inr soon ↦
            rw (soon, if◌then◌else◌) (starts_now _ on refl refl (λ m. absurd (ground (arith, m))))
      ]

  kept-Remembers :
      (s' : TrackerLivenessState)
      → i.device_is_connected ≡ true
      → i.pos_hash ≡ s.last_pose_hash
      → s'.pose_hash_since ≡ s.pose_hash_since
      → s'.last_pose_hash ≡ s.last_pose_hash
      → s'.hmd_moved_during_freeze ≡ (after_still s i).hmd_moved_during_freeze
      → (s.pose_hash_since ≡ none → is_offline s' ≡ true)
      → Remembers (i ∷ past) s'
  kept-Remembers s' on same since pose moved off = record {
    still = λ t h.
        subst (λ p. IsStill p t s'.hmd_moved_during_freeze (i ∷ past)) (sym pose)
          (subst (λ m. IsStill s.last_pose_hash t m (i ∷ past)) (sym moved)
            (still_since t t on same (sym since ∙ h) refl));
    unmoved = λ h o. absurd (ground (arith, o, off (sym since ∙ h)));
  }

  abbrev Goal : TrackerLivenessState × Bool → Type 0
  Goal x = Remembers (i ∷ past) x.0

  frozen-Remembers :
      i.device_is_connected ≡ true
      → i.pos_hash ≡ s.last_pose_hash
      → is_offline s ≡ false
      → Remembers (i ∷ past) (pose_frozen (after_still s i) i).0
  unfolding pose_frozen
  frozen-Remembers on same online = elim (Option-cases s.pose_hash_since) [
    | inl unset ↦
        rw (unset, pose_frozen)
          (starts_now _ on (sym same) refl (λ m. ground (arith, m, r.unmoved unset online)))
    | inr (t, e) ↦
        rw (e, pose_frozen)
          (elim (Bool-cases (leb 8000 (i.now - t) && (after_still s i).hmd_moved_during_freeze)) [
            | inl long ↦ subst Goal (sym (if_true _ long)) (
                kept-Remembers (set_offline (after_still s i) i.now) on same refl refl refl
                  (λ unset. absurd (ground (arith, unset, e))))
            | inr short ↦ subst Goal (sym (if_false _ short)) (
                kept-Remembers (after_still s i) on same refl refl refl
                  (λ unset. absurd (ground (arith, unset, e))))
          ])
  ]

  either :
      (b : Bool) (x y : TrackerLivenessState × Bool)
      → (b ≡ true → Goal x)
      → (b ≡ false → Goal y)
      → Goal (if b then x else y)
  either true x y g h = g refl
  either false x y g h = h refl

  tick-Remembers : Goal (tick_tracker_liveness s i)
  unfolding tick_tracker_liveness is_offline
  tick-Remembers =
      either (not i.device_is_connected)
        (if is_offline s then (s, false) else (set_offline s i.now, true)) rest disconnected
        (λ e.
          either (not (i.pos_hash == s.last_pose_hash)) (pose_changed s i, false) same_pose
            (λ _. changed-Remembers (ground (arith, e)))
            (λ same. unchanged (ground (arith, e)) (ground (arith, same))))
    where
      same_pose : TrackerLivenessState × Bool
      same_pose = if is_offline s then (after_still s i, false) else pose_frozen (after_still s i) i

      rest : TrackerLivenessState × Bool
      rest = if not (i.pos_hash == s.last_pose_hash) then (pose_changed s i, false) else same_pose

      disconnected :
          not i.device_is_connected ≡ true
          → Goal (if is_offline s then (s, false) else (set_offline s i.now, true))
      disconnected e =
          let gone : i.device_is_connected ≡ false = ground (arith, e) in
          either (is_offline s) (s, false) (set_offline s i.now, true)
            (λ off. away-Remembers s gone refl refl refl (λ o. o))
            (λ online. away-Remembers (set_offline s i.now) gone refl refl refl (λ _. online))

      unchanged : i.device_is_connected ≡ true → i.pos_hash ≡ s.last_pose_hash → Goal same_pose
      unchanged on same =
          either (is_offline s) (after_still s i, false) (pose_frozen (after_still s i) i)
            (λ off. kept-Remembers (after_still s i) on same refl refl refl (λ _. off))
            (λ online. frozen-Remembers on same online)

remembers : (past : List TrackerLivenessInputs) → Remembers past (state_after past)
remembers [] = fresh-Remembers []
remembers (i ∷ past) = tick-Remembers (state_after past) i past (remembers past)

-- After every history of ticks, a tracker is declared offline only if it is disconnected, or if there
-- was a tick at least eight seconds ago since which every tick that found the tracker connected found
-- the pose of now, and in one of which the headset moved at 20 mm/s or more.
pub offline_after :
    (past : List TrackerLivenessInputs) (i : TrackerLivenessInputs)
    → (tick_tracker_liveness (state_after past) i).1 ≡ true
    → (i.device_is_connected ≡ false)
      ⊎ ((since : ℕ) × (8000 ≤ i.now - since) × IsStill i.pos_hash since true (i ∷ past))
offline_after past i h =
    let s = state_after past in
    let r = remembers past in
    elim (Bool-cases i.device_is_connected) [
      | inr gone ↦ inl gone
      | inl on ↦ elim (tick_tracker_liveness_offline s i h) [
        | inl gone ↦ inl gone
        | inr (same, (since, e, long), moved) ↦ inr (
          since,
          long,
          stays on refl (λ _. moved)
              (subst (λ p. IsStill p since s.hmd_moved_during_freeze past) (sym same)
                (r.still since e)),
        )
      ]
    ]
