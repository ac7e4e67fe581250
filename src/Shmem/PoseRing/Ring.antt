-- ===== src/Shmem/PoseRing/Ring.antt =====
-- What the ring holds.
use open_vr_pair_driver.Base.{
  ℕ, zero, suc, ◌+◌, ◌%◌, ◌^◌, ◌≤◌, ◌<◌, ◌≡◌, refl, ap, sym, ◌∙◌, true, false, List, [], ◌∷◌, ◌++◌,
  append-nil, append_assoc, length, take, get_or, ◌==◌, if◌then◌else◌, inl, inr, Bool-cases, arith,
  length-append, take-suc, get_or-append_below, get_or-append_end, ==_refl,
}
use open_vr_pair_driver.Shmem.PoseRing.{
  DriverPose, AugmentedPose, PoseData, buffered_samples, zero_pose, created, read_from,
}

-- The ring holds the newest of the poses `h`, the slot of each given by its place.
pub record IsRing (d : PoseData) (h : List AugmentedPose) : Type 0 where
  pub counted : suc d.index ≡ length h
  pub kept :
      (i : ℕ)
      → i ≤ d.index
      → d.index < i + buffered_samples
      → d.poses (i % buffered_samples) ≡ get_or h i zero_pose

pub read_from-take :
    (d : PoseData) (h : List AugmentedPose) (c k : ℕ)
    → IsRing d h
    → c + k ≤ d.index
    → d.index < c + buffered_samples
    → take c h ++ read_from d.poses c k ≡ take (c + k) h
unfolding read_from
read_from-take d h c zero ring below near = append-nil (take c h) ∙ ap (λ n. take n h) (omega arith)
read_from-take d h c (suc k) ring below near =
    ap (λ p. take c h ++ p ∷ read_from d.poses (c + 1) k) (ring.kept c (omega arith) near)
    ∙ (sym (append_assoc (take c h) (get_or h c zero_pose ∷ []) (read_from d.poses (c + 1) k))
        ∙ (ap (λ l. l ++ read_from d.poses (c + 1) k)
              (sym (take-suc h c zero_pose (omega (arith, ring.counted)))
                ∙ ap (λ n. take n h) {x = suc c} (omega arith))
            ∙ (read_from-take d h (c + 1) k ring (omega arith) (omega arith)
                ∙ ap (λ n. take n h) {x = c + 1 + k} (omega arith))))

pub created-IsRing : IsRing created (zero_pose ∷ [])
created-IsRing = record { counted = refl; kept = λ i h near. rw (nothing_else i h) refl }
  where
    nothing_else : (i : ℕ) → i ≤ 0 → i ≡ 0
    nothing_else i h = omega arith

abbrev pub augmented : ℕ → DriverPose → ℕ → AugmentedPose
augmented device pose now = record { sample_time = now; device_id = device; pose = pose }

-- The ring that SetPose leaves.
unfoldable pub set_pose_data : PoseData → ℕ → DriverPose → ℕ → PoseData
set_pose_data d device pose now =
    let cur_index = (d.index + 1) % 2 ^ 64 in
    record d {
      index = cur_index;
      poses =
          λ i. if i == (cur_index % buffered_samples) then augmented device pose now else d.poses i;
    }

pub set_pose-IsRing :
    (d : PoseData) (h : List AugmentedPose) (device : ℕ) (pose : DriverPose) (now : ℕ)
    → IsRing d h
    → d.index + 1 < 2 ^ 64
    → IsRing (set_pose_data d device pose now) (h ++ augmented device pose now ∷ [])
unfolding set_pose_data
set_pose-IsRing d h device pose now ring fits = record {
  counted = omega (arith, next, length-append h (augmented device pose now ∷ []), ring.counted);
  kept = λ i below near. elim (Bool-cases (i == ((d.index + 1) % 2 ^ 64))) [
    | inl new ↦
        let at_end : i ≡ length h = ground (arith, next, new, ring.counted) in
        let hit : (i % buffered_samples == (((d.index + 1) % 2 ^ 64) % buffered_samples)) ≡ true =
          rw (same_slot i new) (==_refl ((d.index + 1) % 2 ^ 64 % buffered_samples)) in
        rw (hit, if◌then◌else◌)
          (sym (
            ap (λ k. get_or (h ++ augmented device pose now ∷ []) k zero_pose) at_end
            ∙ get_or-append_end h (augmented device pose now) zero_pose))
    | inr old ↦
        let before : i ≤ d.index = ground (arith, next, old, below) in
        let close : d.index + 1 < i + buffered_samples = ground (arith, next, near) in
        let missed : (i % buffered_samples == (((d.index + 1) % 2 ^ 64) % buffered_samples))
            ≡ false =
          rw next (ground (arith, before, close)) in
        rw (missed, if◌then◌else◌)
          (ring.kept i before (omega arith)
            ∙ sym (
                get_or-append_below h (augmented device pose now ∷ []) i zero_pose
                  (omega (arith, ring.counted))))
  ];
}
  where
    next : (d.index + 1) % 2 ^ 64 ≡ d.index + 1
    next = ground (arith, fits)

    same_slot :
        (i : ℕ)
        → (i == ((d.index + 1) % 2 ^ 64)) ≡ true
        → i % buffered_samples ≡ (d.index + 1) % 2 ^ 64 % buffered_samples
    same_slot i e = ap (λ k. k % buffered_samples) (ground (arith, e))
