-- ===== src/Shmem/PoseRing/Late.antt =====
-- What GetPose returns after a history of writes and reads.
use open_vr_pair_driver.Base.{
  ℕ, suc, ◌+◌, ◌-◌, ◌%◌, ◌^◌, ◌/◌, ◌≤◌, ◌<◌, ◌≡◌, refl, ap, sym, ◌∙◌, subst, Bool, true, false,
  Option, none, some, List, [], ◌∷◌, ◌++◌, append-nil, append_assoc, length, take, get_or, ltb, leb,
  if◌then◌else◌, inl, inr, Bool-cases, arith, length-append, take-append_below, lt→ltb,
  get_or-replicate,
}
use open_vr_pair_driver.Shmem.PoseRing.{
  DriverPose, AugmentedPose, PoseData, PoseReader, buffered_samples, max_tracked_devices, zero_pose,
  created, new_reader, set_pose, catch_up, read_from, read_new_poses, keep_all, get_pose,
}
use open_vr_pair_driver.Shmem.PoseRing.Ring.{
  IsRing, read_from-take, created-IsRing, set_pose-IsRing, set_pose_data, augmented,
}
use open_vr_pair_driver.Shmem.PoseRing.Keep.{latest, keep_all-latest, keep_all-append}

-- The driver calls SetPose, the overlay GetPose.
pub data Op : Type 0 where
  sets : ℕ → DriverPose → ℕ → Op
  gets : ℕ → Op

pub record Session : Type 0 where
  pub shmem : Option PoseData
  pub reader : PoseReader

-- GetPose throws on a segment that is not open.
abbrev pub overlay_get : Session → ℕ → Session × Option AugmentedPose
overlay_get s device = elim s.shmem [
  | none ↦ (s, none)
  | some d ↦ let (r, p) = get_pose d s.reader device in (record s { reader = r }, p)
]

abbrev pub after : Session → List Op → Session
after s [] = s
after s (sets device pose now ∷ ops) =
    after (record s { shmem = set_pose s.shmem device pose now }) ops
after s (gets device ∷ ops) = after (overlay_get s device).0 ops

abbrev pub fresh : Session
fresh = record { shmem = some created; reader = new_reader }

-- The poses that the driver writes, the oldest first.
abbrev pub accepted : List Op → List AugmentedPose
accepted [] = []
accepted (sets device pose now ∷ ops) =
    let rest = accepted ops in
    if leb max_tracked_devices device then rest else augmented device pose now ∷ rest
accepted (gets device ∷ ops) = accepted ops

-- The calls of SetPose since the last GetPose.
abbrev pub unread : ℕ → List Op → ℕ
unread n [] = n
unread n (sets device pose now ∷ ops) = unread (suc n) ops
unread n (gets device ∷ ops) = unread 0 ops

-- At each GetPose at most half a ring is unread.
abbrev pub IsTimely : ℕ → List Op → Type 0
IsTimely n [] = Unit {0}
IsTimely n (sets device pose now ∷ ops) = IsTimely (suc n) ops
IsTimely n (gets device ∷ ops) = (n ≤ buffered_samples / 2) × IsTimely 0 ops

-- The zero pose, and all poses but the newest.
abbrev pub delayed : List AugmentedPose → List AugmentedPose
delayed h = take (length h) (zero_pose ∷ h)

record IsGood (s : Session) (h : List AugmentedPose) (n : ℕ) : Type 0 where
  d : PoseData
  mapped : s.shmem ≡ some d
  ring : IsRing d (zero_pose ∷ h)
  behind : s.reader.cursor ≤ d.index
  near : d.index ≤ s.reader.cursor + n
  seen : s.reader.last_pose ≡ keep_all new_reader.last_pose (take s.reader.cursor (zero_pose ∷ h))

catch_up-near : (c idx : ℕ) → c ≤ idx → idx - c ≤ buffered_samples / 2 → catch_up c idx ≡ c
unfolding catch_up
catch_up-near c idx below near =
    let back : ltb idx c ≡ false = ground (arith, below) in
    let far : ltb (buffered_samples / 2) (idx - c) ≡ false = ground (arith, near) in
    rw (back, far) refl

-- Reading the rest makes the overlay keep all poses but the newest.
keep_rest :
    (d : PoseData) (h : List AugmentedPose) (last : List AugmentedPose) (c : ℕ)
    → IsRing d (zero_pose ∷ h)
    → c ≤ d.index
    → d.index - c ≤ buffered_samples / 2
    → last ≡ keep_all new_reader.last_pose (take c (zero_pose ∷ h))
    → keep_all last (read_from d.poses c (d.index - c)) ≡ keep_all new_reader.last_pose (delayed h)
keep_rest d h last c ring below near seen =
    ap (λ l. keep_all l (read_from d.poses c (d.index - c))) seen
    ∙ (sym (
          keep_all-append new_reader.last_pose (take c (zero_pose ∷ h))
            (read_from d.poses c (d.index - c)))
        ∙ ap (keep_all new_reader.last_pose) (
            read_from-take d (zero_pose ∷ h) c (d.index - c) ring (omega arith) (omega arith)
            ∙ ap (λ n. take n (zero_pose ∷ h)) (omega (arith, ring.counted))))

get_pose-IsGood :
    (s : Session) (h : List AugmentedPose) (n device : ℕ)
    → IsGood s h n
    → n ≤ buffered_samples / 2
    → IsGood (overlay_get s device).0 h 0
      × (device < max_tracked_devices
          → (overlay_get s device).1 ≡ some (latest device zero_pose (delayed h)))
unfolding get_pose read_new_poses
get_pose-IsGood s h n device good few = rw good.mapped (
    rw start (
      record {
        d = good.d;
        mapped = refl;
        ring = good.ring;
        behind = omega (arith, all_read);
        near = omega (arith, all_read);
        seen = kept ∙ ap (λ k. keep_all new_reader.last_pose (take k (zero_pose ∷ h))) count;
      },
      λ small. rw (lt→ltb device max_tracked_devices small) (
          ap some (
            ap (λ l. get_or l device zero_pose) kept
            ∙ keep_all-latest new_reader.last_pose (delayed h) device small
            ∙ ap (λ p. latest device p (delayed h))
                (get_or-replicate max_tracked_devices zero_pose device))),
    ))
  where
    start : catch_up s.reader.cursor good.d.index ≡ s.reader.cursor
    start = catch_up-near s.reader.cursor good.d.index good.behind (omega (arith, good.near, few))

    kept :
        keep_all s.reader.last_pose
          (read_from good.d.poses s.reader.cursor (good.d.index - s.reader.cursor))
        ≡ keep_all new_reader.last_pose (delayed h)
    kept =
        keep_rest good.d h s.reader.last_pose s.reader.cursor good.ring good.behind
          (omega (arith, good.near, few)) good.seen

    all_read : s.reader.cursor + (good.d.index - s.reader.cursor) ≡ good.d.index
    all_read = omega (arith, good.behind)

    count : length h ≡ s.reader.cursor + (good.d.index - s.reader.cursor)
    count = omega (arith, good.ring.counted, good.behind)

set_pose-IsGood :
    (s : Session) (h : List AugmentedPose) (n device : ℕ) (pose : DriverPose) (now : ℕ)
    → IsGood s h n
    → length h + 1 < 2 ^ 64
    → IsGood
        (record s { shmem = set_pose s.shmem device pose now })
        (h ++ accepted (sets device pose now ∷ []))
        (suc n)
unfolding set_pose set_pose_data
set_pose-IsGood s h n device pose now good fits =
    rw good.mapped (elim (Bool-cases (leb max_tracked_devices device)) [
      | inl out ↦
          rw (out, if◌then◌else◌, append-nil h)
            (record {
              d = good.d;
              mapped = refl;
              ring = good.ring;
              behind = good.behind;
              near = omega (arith, good.near);
              seen = good.seen;
            })
      | inr fine ↦
          rw (fine, if◌then◌else◌)
            (record {
              d = set_pose_data good.d device pose now;
              mapped = refl;
              ring =
                  set_pose-IsRing good.d (zero_pose ∷ h) device pose now good.ring
                    (omega (arith, good.ring.counted, fits));
              behind = omega (arith, next, good.behind);
              near = omega (arith, next, good.near);
              seen =
                  good.seen
                  ∙ ap (keep_all new_reader.last_pose) (
                      sym (
                        take-append_below (zero_pose ∷ h) (augmented device pose now ∷ [])
                          s.reader.cursor (omega (arith, good.behind, good.ring.counted))));
            })
    ])
  where
    next : (good.d.index + 1) % 2 ^ 64 ≡ good.d.index + 1
    next = ground (arith, fits, good.ring.counted)

after-IsGood :
    (ops : List Op) (s : Session) (h : List AugmentedPose) (n : ℕ)
    → IsGood s h n
    → IsTimely n ops
    → length h + length ops < 2 ^ 64
    → IsGood (after s ops) (h ++ accepted ops) (unread n ops)
after-IsGood [] s h n good timely fits = rw (append-nil h) good
after-IsGood (sets device pose now ∷ ops) s h n good timely fits =
    subst
      (λ l.
        IsGood (after (record s { shmem = set_pose s.shmem device pose now }) ops) l
          (unread (suc n) ops))
      (append_assoc h one (accepted ops)
        ∙ ap (λ l. h ++ l) (one_more (leb max_tracked_devices device)))
      (after-IsGood ops (record s { shmem = set_pose s.shmem device pose now })
        (h ++ accepted (sets device pose now ∷ [])) (suc n)
        (set_pose-IsGood s h n device pose now good (omega (arith, fits))) timely
        (omega (arith, fits, length-append h one, short (leb max_tracked_devices device))))
  where
    one : List AugmentedPose
    one = accepted (sets device pose now ∷ [])

    p : AugmentedPose
    p = augmented device pose now

    one_more :
        (out : Bool)
        → (if out then [] else p ∷ []) ++ accepted ops
          ≡ (if out then accepted ops else p ∷ accepted ops)
    one_more true = refl
    one_more false = refl

    short : (out : Bool) → length (if out then [] else p ∷ []) ≤ 1
    short true = omega arith
    short false = omega arith
after-IsGood (gets device ∷ ops) s h n good (few, timely) fits =
    after-IsGood ops (overlay_get s device).0 h 0 (get_pose-IsGood s h n device good few).0 timely
      (omega (arith, fits))

fresh-IsGood : IsGood fresh [] 0
unfolding keep_all
fresh-IsGood = record {
  d = created;
  mapped = refl;
  ring = created-IsRing;
  behind = omega arith;
  near = omega arith;
  seen = refl;
}

-- From a new segment, after every history of calls of SetPose and GetPose in which at most half a
-- ring is unread at each GetPose, GetPose returns for a device below 64 its newest valid and tracked
-- pose among all the poses written but the newest: the pose that any device wrote last is never
-- seen before another is written. If there is no such pose, it returns the zero pose.
pub get_pose-latest :
    (ops : List Op) (device : ℕ)
    → IsTimely 0 ops
    → unread 0 ops ≤ buffered_samples / 2
    → length ops < 2 ^ 64
    → device < max_tracked_devices
    → (overlay_get (after fresh ops) device).1
      ≡ some (latest device zero_pose (delayed (accepted ops)))
get_pose-latest ops device timely few fits small =
    (get_pose-IsGood (after fresh ops) (accepted ops) (unread 0 ops) device
        (after-IsGood ops fresh [] 0 fresh-IsGood timely (omega (arith, fits))) few).1
      small
