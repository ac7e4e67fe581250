-- ===== src/Shmem/FaceFrames/History.antt =====
-- Which frames can be read after a history of published ones.
use open_vr_pair_driver.Base.{
  ℕ, zero, suc, ◌+◌, ◌-◌, ◌%◌, ◌^◌, ◌≤◌, ◌<◌, ◌≡◌, refl, ap, sym, ◌∙◌, subst, false, Option, none,
  some, List, [], ◌∷◌, ◌++◌, append-nil, append_assoc, length, get_or, set, replicate, ltb, leb,
  ◌==◌, ◌&&◌, if◌then◌else◌, inl, inr, Bool-cases, arith, length-append, length-set,
  get_or-append_below, get_or-append_end, get_or-set_self, get_or-set_ne,
}
use open_vr_pair_driver.Shmem.Seqlock.{Slot}
use open_vr_pair_driver.Shmem.FaceFrames.{
  FrameData, ring_size, no_slot, created, read_slot, publish, try_read_wire_by_index,
  try_read_latest_wire,
}

abbrev pub publish_all : Option FrameData → List (List ℕ) → Option FrameData
publish_all m [] = m
publish_all m (b ∷ bs) = publish_all (publish m b) bs

record IsFrames (d : FrameData) (h : List (List ℕ)) : Type 0 where
  counted : d.publish_index ≡ length h
  full : length d.slots ≡ ring_size
  even : (i : ℕ) → i < ring_size → (get_or d.slots i no_slot).generation % 2 ≡ 0
  kept :
      (t : ℕ)
      → t < length h
      → length h - t ≤ ring_size
      → (get_or d.slots (t % ring_size) no_slot).body ≡ get_or h t []

published : FrameData → List ℕ → FrameData
published d body =
    let next = (d.publish_index + 1) % 2 ^ 64 in
    let at = (next - 1) % ring_size in
    let prev_gen = (get_or d.slots at no_slot).generation in
    record d {
      publish_index = next;
      slots = set d.slots at (record { generation = (prev_gen + 2) % 2 ^ 64; body = body });
    }

published-IsFrames :
    (d : FrameData) (h : List (List ℕ)) (body : List ℕ)
    → IsFrames d h
    → length h + 1 < 2 ^ 64
    → IsFrames (published d body) (h ++ body ∷ [])
unfolding published
published-IsFrames d h body frames fits = rw at (record {
  counted = omega (arith, next, length-append h (body ∷ []), frames.counted);
  full = length-set d.slots (length h % ring_size) stored ∙ frames.full;
  even = λ i small. elim (Bool-cases (i == (length h % ring_size))) [
    | inl e ↦
        subst
          (λ k. (get_or (set d.slots (length h % ring_size) stored) k no_slot).generation % 2 ≡ 0)
          {x = length h % ring_size} (ground (arith, e))
          (ap (λ s. s.generation % 2)
              (get_or-set_self d.slots (length h % ring_size) stored no_slot inside)
            ∙ even_again)
    | inr ne ↦
        ap (λ s. s.generation % 2)
          (get_or-set_ne d.slots (length h % ring_size) i stored no_slot
            (λ e. ground (arith, ne, e)))
        ∙ frames.even i small
  ];
  kept = λ t old near. elim (Bool-cases (t == length h)) [
    | inl e ↦
        let end : t ≡ length h = ground (arith, e) in
        ap (λ k. (get_or (set d.slots (length h % ring_size) stored) (k % ring_size) no_slot).body)
          end
        ∙ (ap (λ s. s.body) (get_or-set_self d.slots (length h % ring_size) stored no_slot inside)
            ∙ sym (ap (λ k. get_or (h ++ body ∷ []) k []) end ∙ get_or-append_end h body []))
    | inr ne ↦
        let before : t < length h = ground (arith, ne, old, length-append h (body ∷ [])) in
        let close : length h + 1 - t ≤ ring_size =
          omega (arith, near, length-append h (body ∷ [])) in
        ap (λ s. s.body)
          (get_or-set_ne d.slots (length h % ring_size) (t % ring_size) stored no_slot
            (λ e. omega (arith, e, before, close)))
        ∙ (frames.kept t before (omega (arith, close))
            ∙ sym (get_or-append_below h (body ∷ []) t [] before))
  ];
})
  where
    next : (d.publish_index + 1) % 2 ^ 64 ≡ length h + 1
    next = ground (arith, fits, frames.counted)

    at : ((d.publish_index + 1) % 2 ^ 64 - 1) % ring_size ≡ length h % ring_size
    at = ap (λ k. k % ring_size) (omega (arith, next))

    inside : length h % ring_size < length d.slots
    inside = omega (arith, frames.full)

    gen : ℕ
    gen = (get_or d.slots (length h % ring_size) no_slot).generation

    stored : Slot
    stored = record { generation = (gen + 2) % 2 ^ 64; body = body }

    even_again : (gen + 2) % 2 ^ 64 % 2 ≡ 0
    even_again = omega (arith, frames.even (length h % ring_size) (omega arith))

publish_all-IsFrames :
    (d : FrameData) (h bs : List (List ℕ))
    → IsFrames d h
    → length h + length bs < 2 ^ 64
    → (d' : FrameData) × (publish_all (some d) bs ≡ some d') × IsFrames d' (h ++ bs)
unfolding publish published
publish_all-IsFrames d h [] frames fits = (d, refl, rw (append-nil h) frames)
publish_all-IsFrames d h (b ∷ bs) frames fits =
    let (d', same, after) =
      publish_all-IsFrames (published d b) (h ++ b ∷ []) bs
        (published-IsFrames d h b frames (omega (arith, fits)))
        (omega (arith, fits, length-append h (b ∷ []))) in
    (d', same, subst (IsFrames d') (append_assoc h (b ∷ []) bs) after)

created-IsFrames : (empty : List ℕ) → IsFrames (created empty) []
created-IsFrames empty = record {
  counted = refl;
  full = refl;
  even = λ i small. ap (λ g. g % 2) (zeros ring_size i);
  kept = λ t old near. absurd (omega arith);
}
  where
    zeros :
        (k i : ℕ)
        → (get_or (replicate k (record { generation = 0; body = empty })) i no_slot).generation ≡ 0
    zeros zero i = refl
    zeros (suc k) zero = refl
    zeros (suc k) (suc i) = zeros k i

-- A slot that is not being written is read at the first attempt.
read_slot-even : (s : Slot) (n : ℕ) → s.generation % 2 ≡ 0 → read_slot s (suc n) ≡ some s.body
unfolding read_slot
read_slot-even s n even =
    let rested : (s.generation % 2 == 1) ≡ false = ground (arith, even) in rw (rested) refl

read_at :
    (d : FrameData) (h : List (List ℕ)) (t n : ℕ)
    → IsFrames d h
    → try_read_wire_by_index (some d) t (suc n) ≡ (
        if ltb 0 t && (leb t (length h) && ltb (length h - t) ring_size)
        then some (get_or h (t - 1) [])
        else none)
unfolding try_read_wire_by_index
read_at d h t n frames = rw frames.counted (elim (Bool-cases (t == 0)) [
  | inl e ↦ ground (arith, e)
  | inr pos ↦ elim (Bool-cases (ltb (length h) t)) [
    | inl new ↦ ground (arith, pos, new)
    | inr old ↦ elim (Bool-cases (leb ring_size (length h - t))) [
      | inl gone ↦ ground (arith, pos, old, gone)
      | inr near ↦
          let hit =
            read_slot-even (get_or d.slots ((t - 1) % ring_size) no_slot) n
              (frames.even ((t - 1) % ring_size) (omega arith))
            ∙ ap some
                (frames.kept (t - 1) (ground (arith, pos, old)) (ground (arith, pos, old, near))) in
          ground (arith, pos, old, near, hit)
    ]
  ]
])

-- After every history of published frames, between whose writes the reads come, the frame with the
-- index `t` is returned if it has been published, counting from 1, and fewer than 32 frames were
-- published after it. Every other index is refused.
pub try_read_wire_by_index-publish_all :
    (empty : List ℕ) (h : List (List ℕ)) (t n : ℕ)
    → length h < 2 ^ 64
    → try_read_wire_by_index (publish_all (some (created empty)) h) t (suc n) ≡ (
        if ltb 0 t && (leb t (length h) && ltb (length h - t) ring_size)
        then some (get_or h (t - 1) [])
        else none)
try_read_wire_by_index-publish_all empty h t n fits =
    let (d, same, frames) =
      publish_all-IsFrames (created empty) [] h (created-IsFrames empty) (omega (arith, fits)) in
    rw same (read_at d h t n frames)

latest_at :
    (d : FrameData) (h : List (List ℕ)) (n : ℕ)
    → IsFrames d h
    → try_read_latest_wire (some d) (suc n)
      ≡ (if length h == 0 then none else some (get_or h (length h - 1) []))
unfolding try_read_latest_wire
latest_at d h n frames = rw frames.counted (elim (Bool-cases (length h == 0)) [
  | inl e ↦ ground (arith, e)
  | inr pos ↦
      let hit =
        read_slot-even (get_or d.slots ((length h - 1) % ring_size) no_slot) n
          (frames.even ((length h - 1) % ring_size) (omega arith))
        ∙ ap some (frames.kept (length h - 1) (ground (arith, pos)) (omega arith)) in
      ground (arith, pos, hit)
])

-- TryReadLatestWire returns the newest frame published, and fails if there is none.
pub try_read_latest_wire-publish_all :
    (empty : List ℕ) (h : List (List ℕ)) (n : ℕ)
    → length h < 2 ^ 64
    → try_read_latest_wire (publish_all (some (created empty)) h) (suc n)
      ≡ (if length h == 0 then none else some (get_or h (length h - 1) []))
try_read_latest_wire-publish_all empty h n fits =
    let (d, same, frames) =
      publish_all-IsFrames (created empty) [] h (created-IsFrames empty) (omega (arith, fits)) in
    rw same (latest_at d h n frames)
