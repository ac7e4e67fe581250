-- ===== src/Shmem/Seqlock/Progress.antt =====
-- The reader's loop ends, and it succeeds on a slot that is not written meanwhile.
use open_vr_pair_driver.Base.{
  ℕ, zero, suc, ◌+◌, ◌-◌, ◌*◌, ◌%◌, ◌^◌, ◌≤◌, ◌≡◌, refl, ap, sym, ◌∙◌, true, false, Option, some,
  List, [], ◌∷◌, ◌++◌, length, replicate, take, get_or, set, ltb, ◌==◌, if◌then◌else◌, inl, inr,
  Bool-cases, arith, length-append, length-set, take-length, ==_refl,
}
use open_vr_pair_driver.Shmem.Seqlock.Safety.{IsReady, word, prefix_suc}
use open_vr_pair_driver.Shmem.Seqlock.{
  Slot, Writer, resting, storing, Reader, attempt, copying, returned, System, write_step, read_step,
  Actor, driver, overlay, turn, run,
}

-- How often the overlay comes to its turn.
abbrev pub overlay_turns : List Actor → ℕ
overlay_turns [] = 0
overlay_turns (driver ∷ ts) = overlay_turns ts
overlay_turns (overlay ∷ ts) = suc (overlay_turns ts)

-- At most this many steps are left for a reader of a body of `size` words.
abbrev steps_left : ℕ → Reader → ℕ
steps_left size (attempt n) = 1 + n * (size + 2)
steps_left size (copying n g1 out) = 2 + n * (size + 2) + (size - length out)
steps_left size (returned o) = 0

pub data Ended : Reader → Type 0 where
  ended : (o : Option (List ℕ)) → Ended (returned o)

-- The driver keeps the size of the body, and the reader.
write_step-keeps :
    (s : System)
    → (length (write_step s).slot.body ≡ length s.slot.body) × ((write_step s).reader ≡ s.reader)
unfolding write_step
write_step-keeps s = from s.writer s.todo refl refl
  where
    from :
        (w : Writer) (todo : List (List ℕ))
        → s.writer ≡ w
        → s.todo ≡ todo
        → (length (write_step s).slot.body ≡ length s.slot.body)
          × ((write_step s).reader ≡ s.reader)
    from resting [] e e' = rw (e, e') (refl, refl)
    from resting (b ∷ todo) e e' = rw (e, e') (refl, refl)
    from (storing prev b i) todo e e' = rw e (elim (Bool-cases (ltb i (length b))) [
      | inl more ↦ rw (more, if◌then◌else◌) (length-set s.slot.body i (get_or b i 0), refl)
      | inr done ↦ rw (done, if◌then◌else◌) (refl, refl)
    ])

-- Every step of the overlay brings it nearer to the end.
read_step-left :
    (slot : Slot) (r : Reader) (k : ℕ)
    → steps_left (length slot.body) r ≤ suc k
    → steps_left (length slot.body) (read_step slot r) ≤ k
unfolding read_step
read_step-left slot (attempt zero) k h = omega arith
read_step-left slot (attempt (suc n)) k h = elim (Bool-cases (slot.generation % 2 == 1)) [
  | inl odd ↦ rw (odd, if◌then◌else◌) (omega (arith, h))
  | inr even ↦ rw (even, if◌then◌else◌) (omega (arith, h))
]
read_step-left slot (copying n g1 out) k h =
    elim (Bool-cases (ltb (length out) (length slot.body))) [
      | inl more ↦
          rw (more, if◌then◌else◌)
            (ground (arith, more, h, length-append out (get_or slot.body (length out) 0 ∷ [])))
      | inr done ↦
          rw (done, if◌then◌else◌)
            (elim (Bool-cases (g1 == slot.generation)) [
              | inl e ↦ rw (e, if◌then◌else◌) (omega arith)
              | inr changed ↦ rw (changed, if◌then◌else◌) (omega arith)
            ])
    ]
read_step-left slot (returned o) k h = omega arith

left_zero : (size : ℕ) (r : Reader) → steps_left size r ≤ 0 → Ended r
left_zero size (attempt n) h = absurd (omega arith)
left_zero size (copying n g1 out) h = absurd (omega arith)
left_zero size (returned o) h = ended o

run_left :
    (s : System) (ts : List Actor)
    → steps_left (length s.slot.body) s.reader ≤ overlay_turns ts
    → Ended (run s ts).reader
unfolding run turn
run_left s [] h = left_zero (length s.slot.body) s.reader h
run_left s (driver ∷ ts) h =
    run_left (write_step s) ts (let (size, same) = write_step-keeps s in rw (size, same) h)
run_left s (overlay ∷ ts) h =
    run_left (turn s overlay) ts (read_step-left s.slot s.reader (overlay_turns ts) h)

-- TryReadSlot ends in every schedule, however the driver interferes: after at most size + 2 steps of
-- the overlay for each attempt, and one more.
pub run-Ended :
    (s : System) (n : ℕ) (ts : List Actor)
    → s.reader ≡ attempt n
    → 1 + n * (length s.slot.body + 2) ≤ overlay_turns ts
    → Ended (run s ts).reader
run-Ended s n ts start h = run_left s ts (rw start h)

-- The driver alone finishes a write.
finish_write :
    (s : System) (prev : ℕ) (b : List ℕ) (i k : ℕ) (ts : List Actor)
    → s.writer ≡ storing prev b i
    → i + k ≡ length b
    → length s.slot.body ≡ length b
    → take i s.slot.body ≡ take i b
    → run s (replicate (suc k) driver ++ ts)
      ≡ run
          (record s {
            slot = record { generation = (prev + 2) % 2 ^ 64; body = b };
            writer = resting;
          })
          ts
unfolding run turn write_step
finish_write s prev b i zero ts e h long same = ap (λ s'. run s' ts) stamp
  where
    copied : s.slot.body ≡ b
    copied = sym (take-length s.slot.body i (omega arith)) ∙ (same ∙ take-length b i (omega arith))

    i_lem : ltb i (length b) ≡ false
    i_lem = ground (arith, h)

    stamp : write_step s ≡ record s {
      slot = record { generation = (prev + 2) % 2 ^ 64; body = b };
      writer = resting;
    }
    stamp = rw e (rw i_lem (rw copied refl))
finish_write s prev b i (suc k) ts e h long same =
    ap (λ s'. run s' (replicate (suc k) driver ++ ts)) next
    ∙ finish_write stored prev b (i + 1) k ts refl (omega arith)
        (length-set s.slot.body i (get_or b i 0) ∙ long)
        (word i b s.slot.body (omega arith) (omega arith) same)
  where
    stored : System
    stored = record s {
      slot = record { generation = s.slot.generation; body = set s.slot.body i (get_or b i 0) };
      writer = storing prev b (i + 1);
    }

    next : write_step s ≡ stored
    next = let i_lem : ltb i (length b) ≡ true = ground (arith, h) in rw e (rw i_lem refl)

-- The overlay alone finishes a read.
finish_read :
    (s : System) (n : ℕ) (out : List ℕ) (k : ℕ)
    → s.reader ≡ copying n s.slot.generation out
    → length out + k ≡ length s.slot.body
    → out ≡ take (length out) s.slot.body
    → (run s (replicate (suc k) overlay)).reader ≡ returned (some s.slot.body)
unfolding run turn read_step
finish_read s n out zero e h same = rw e last
  where
    last : read_step s.slot (copying n s.slot.generation out) ≡ returned (some s.slot.body)
    last =
        let out_lem : ltb (length out) (length s.slot.body) ≡ false = ground (arith, h) in
        rw (out_lem, ==_refl s.slot.generation)
          (ap (λ l. returned (some l)) (same ∙ take-length s.slot.body (length out) (omega arith)))
finish_read s n out (suc k) e h same =
    ap (λ r. (run (record s { reader = r }) (replicate (suc k) overlay)).reader) next
    ∙ finish_read (record s { reader = copying n s.slot.generation (out ++ w) }) n (out ++ w) k refl
        (omega (arith, length-append out w))
        (ap (λ l. l ++ w) same ∙ prefix_suc s.slot.body out (omega arith) same)
  where
    w : List ℕ
    w = get_or s.slot.body (length out) 0 ∷ []

    next : read_step s.slot s.reader ≡ copying n s.slot.generation (out ++ w)
    next =
        let out_lem : ltb (length out) (length s.slot.body) ≡ true = ground (arith, h) in
        rw e (rw out_lem refl)

-- Reading a slot that the driver has just written returns the body written, whole.
pub run-written :
    (s : System) (b : List ℕ) (rest : List (List ℕ)) (n : ℕ)
    → IsReady s (suc n)
    → s.todo ≡ b ∷ rest
    → length b ≡ length s.slot.body
    → (run s (replicate (length b + 2) driver ++ replicate (length b + 2) overlay)).reader
      ≡ returned (some b)
unfolding run turn write_step read_step
run-written s b rest n ready todo long =
    ap (λ k. (run s (replicate k driver ++ replicate k overlay)).reader) two
    ∙ (ap (λ s'. (run s' (replicate (suc (length b)) driver ++ reads)).reader) begin
        ∙ (ap (λ s'. s'.reader)
              (finish_write writing s.slot.generation b 0 (length b) reads refl (omega arith)
                (sym long) refl)
            ∙ (ap
                  (λ r.
                    (run (record written { reader = r })
                      (replicate (suc (length b)) overlay)).reader)
                  look
                ∙ finish_read (record written { reader = copying n written.slot.generation [] }) n
                    [] (length b) refl (omega arith) refl)))
  where
    two : length b + 2 ≡ suc (suc (length b))
    two = omega arith

    reads : List Actor
    reads = replicate (suc (suc (length b))) overlay

    writing : System
    writing = record s {
      slot = record { generation = (s.slot.generation + 1) % 2 ^ 64; body = s.slot.body };
      writer = storing s.slot.generation b 0;
      todo = rest;
    }

    written : System
    written = record writing {
      slot = record { generation = (s.slot.generation + 2) % 2 ^ 64; body = b };
      writer = resting;
    }

    begin : write_step s ≡ writing
    begin = rw ready.rests (rw todo refl)

    even : (((s.slot.generation + 2) % 2 ^ 64) % 2 == 1) ≡ false
    even = ground (arith, ready.even, ready.fits)

    look : read_step written.slot s.reader ≡ copying n written.slot.generation []
    look = rw ready.reads (rw even refl)
