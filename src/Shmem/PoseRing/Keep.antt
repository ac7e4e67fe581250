-- ===== src/Shmem/PoseRing/Keep.antt =====
-- The callback of GetPose over the poses read.
use open_vr_pair_driver.Base.{
  ℕ, ◌<◌, ◌≡◌, refl, ap, ◌∙◌, Bool, List, [], ◌∷◌, ◌++◌, length, get_or, set, ◌==◌, ◌&&◌,
  if◌then◌else◌, inl, inr, Bool-cases, arith, length-set, get_or-set_self, get_or-set_ne,
}
use open_vr_pair_driver.Shmem.PoseRing.{AugmentedPose, running_ok, zero_pose, keep_last, keep_all}

-- The callback over the poses read, at one device.
abbrev pub counts : AugmentedPose → Bool
counts p = p.pose.pose_is_valid && p.pose.result == running_ok

-- The newest pose of a device that is valid and tracked, or else `d`.
abbrev pub latest : ℕ → AugmentedPose → List AugmentedPose → AugmentedPose
latest device d [] = d
latest device d (p ∷ ps) = latest device (if counts p && device == p.device_id then p else d) ps

keep_last-at :
    (last : List AugmentedPose) (p : AugmentedPose) (device : ℕ)
    → device < length last
    → get_or (keep_last last p) device zero_pose
      ≡ (if counts p && device == p.device_id then p else get_or last device zero_pose)
unfolding keep_last
keep_last-at last p device h = elim (Bool-cases (counts p)) [
  | inl yes_ ↦
      rw (yes_, if◌then◌else◌)
        (elim (Bool-cases (device == p.device_id)) [
          | inl e ↦
              rw (e, if◌then◌else◌)
                (ap (λ k. get_or (set last k p) device zero_pose) {y = device} (ground (arith, e))
                  ∙ get_or-set_self last device p zero_pose h)
          | inr ne ↦
              rw (ne, if◌then◌else◌)
                (get_or-set_ne last p.device_id device p zero_pose (λ e. ground (arith, ne, e)))
        ])
  | inr no_ ↦ rw (no_, if◌then◌else◌) refl
]

keep_last-length :
    (last : List AugmentedPose) (p : AugmentedPose) → length (keep_last last p) ≡ length last
unfolding keep_last
keep_last-length last p = elim (Bool-cases (counts p)) [
  | inl yes_ ↦ rw (yes_, if◌then◌else◌) (length-set last p.device_id p)
  | inr no_ ↦ rw (no_, if◌then◌else◌) refl
]

pub keep_all-latest :
    (last : List AugmentedPose) (ps : List AugmentedPose) (device : ℕ)
    → device < length last
    → get_or (keep_all last ps) device zero_pose ≡ latest device (get_or last device zero_pose) ps
unfolding keep_all
keep_all-latest last [] device h = refl
keep_all-latest last (p ∷ ps) device h =
    keep_all-latest (keep_last last p) ps device (omega (arith, h, keep_last-length last p))
    ∙ ap (λ q. latest device q ps) (keep_last-at last p device h)

pub keep_all-append :
    (last : List AugmentedPose) (ps qs : List AugmentedPose)
    → keep_all last (ps ++ qs) ≡ keep_all (keep_all last ps) qs
unfolding keep_all
keep_all-append last [] qs = refl
keep_all-append last (p ∷ ps) qs = keep_all-append (keep_last last p) ps qs

pub keep_all-length :
    (last : List AugmentedPose) (ps : List AugmentedPose) → length (keep_all last ps) ≡ length last
unfolding keep_all
keep_all-length last [] = refl
keep_all-length last (p ∷ ps) = keep_all-length (keep_last last p) ps ∙ keep_last-length last p
