-- ===== src/InputHealth/Publisher/Table.antt =====
-- The slots of the segment as a table of handles.
use open_vr_pair_driver.Base.{
  ℕ, zero, suc, ◌+◌, ◌≤◌, ◌<◌, ◌≡◌, refl, sym, ap, ap₂, ◌∙◌, subst, inl, inr, Bool, true, false,
  Option, none, some, List, [], ◌∷◌, ◌++◌, map, length, drop, set, leb, ◌==◌, ◌||◌, if◌then◌else◌,
  if_true, if_false, Bool-cases, arith, find, put, find-put, ==_IsKeyTest, length-append,
  length-map, length-drop, drop-drop,
}
use open_vr_pair_driver.InputHealth.Stats.{SnapshotBody}
use open_vr_pair_driver.InputHealth.Publisher.{
  slot_count, Publisher, write_slot, publish_record, publish_records,
}

-- Handles with their bodies, in the order of their slots.
abbrev pub Table : Type 0
Table = List (ℕ × SnapshotBody)

abbrev pub has : ℕ → Table → Bool
has h [] = false
has h ((k, b) ∷ t) = k == h || has h t

abbrev pub update : ℕ → SnapshotBody → Table → Table
update h b [] = []
update h b ((k, c) ∷ t) = let rest = update h b t in if k == h then (k, b) ∷ t else (k, c) ∷ rest

-- A table takes at most 256 handles; a handle that it has keeps its place and gets the new body.
abbrev pub seat : Table → ℕ → SnapshotBody → Table
seat t h b =
    if has h t then update h b t else if leb slot_count (length t) then t else t ++ (h, b) ∷ []

abbrev pub bodies : Table → List SnapshotBody
bodies t = map (λ (x : ℕ × SnapshotBody). x.1) t

abbrev raise : Option ℕ → Option ℕ
raise o = elim o [ none ↦ none | some i ↦ some (suc i) ]

abbrev index_of : ℕ → Table → Option ℕ
index_of h [] = none
index_of h ((k, b) ∷ t) = let rest = raise (index_of h t) in if k == h then some 0 else rest

-- Where a handle is.
data Place (h : ℕ) (t : Table) : Type 0 where
  absent : has h t ≡ false → index_of h t ≡ none → Place h t
  at_slot :
      (i : ℕ)
      → has h t ≡ true
      → index_of h t ≡ some i
      → ((b : SnapshotBody) (free : List SnapshotBody)
          → set (bodies t ++ free) i b ≡ bodies (update h b t) ++ free)
      → Place h t

Place-behind :
    (h k : ℕ) (c : SnapshotBody) (t : Table) → (k == h) ≡ false → Place h t → Place h ((k, c) ∷ t)
Place-behind h k c t other (absent missing none_) =
    absent (ground (arith, other, missing)) (if_false {b = k == h} _ other ∙ ap raise none_)
Place-behind h k c t other (at_slot i there found moved) =
    at_slot (suc i) (ground (arith, there)) (if_false {b = k == h} _ other ∙ ap raise found)
      (λ b free.
        ap (◌∷◌ c) (moved b free)
        ∙ ap (λ u. bodies u ++ free) (sym (if_false {b = k == h} _ other)))

place : (h : ℕ) (t : Table) → Place h t
place h [] = absent refl refl
place h ((k, c) ∷ t) = elim (Bool-cases (k == h)) [
  | inl here ↦
      at_slot 0 (ground (arith, here)) (if_true {b = k == h} _ here)
        (λ b free. ap (λ u. bodies u ++ free) (sym (if_true {b = k == h} _ here)))
  | inr other ↦ Place-behind h k c t other (place h t)
]

index_of-update :
    (j h : ℕ) (b : SnapshotBody) (t : Table) → index_of j (update h b t) ≡ index_of j t
index_of-update j h b [] = refl
index_of-update j h b ((k, c) ∷ t) = elim (Bool-cases (k == h)) [
  | inl here ↦ ap (index_of j) (if_true {b = k == h} _ here)
  | inr other ↦
      ap (index_of j) (if_false {b = k == h} _ other)
      ∙ ap (λ o. if k == j then some 0 else raise o) (index_of-update j h b t)
]

raise_if :
    (b : Bool) (n : ℕ) (o : Option ℕ)
    → raise (if b then some n else o) ≡ (if b then some (suc n) else raise o)
raise_if true n o = refl
raise_if false n o = refl

index_of-append :
    (j h : ℕ) (b : SnapshotBody) (t : Table)
    → has h t ≡ false
    → index_of j (t ++ (h, b) ∷ []) ≡ (if h == j then some (length t) else index_of j t)
index_of-append j h b [] missing = refl
index_of-append j h b ((k, c) ∷ t) missing = elim (Bool-cases (k == j)) [
  | inl here ↦
      let different : (h == j) ≡ false = ground (arith, here, missing) in
      if_true {b = k == j} _ here
      ∙ sym (
          if_false {b = h == j} (some (length ((k, c) ∷ t))) different
          ∙ if_true {b = k == j} _ here)
  | inr other ↦
      if_false {b = k == j} _ other
      ∙ ap raise (index_of-append j h b t (ground (arith, missing)))
      ∙ raise_if (h == j) (length t) (index_of j t)
      ∙ ap (λ o. if h == j then some (suc (length t)) else o) (sym (if_false {b = k == j} _ other))
]

length-update : (h : ℕ) (b : SnapshotBody) (t : Table) → length (update h b t) ≡ length t
length-update h b [] = refl
length-update h b ((k, c) ∷ t) = elim (Bool-cases (k == h)) [
  | inl here ↦ ap length (if_true {b = k == h} _ here)
  | inr other ↦ ap length (if_false {b = k == h} _ other) ∙ ap suc (length-update h b t)
]

set_next :
    (l free : List SnapshotBody) (n : ℕ) (b : SnapshotBody)
    → n ≡ length l
    → 0 < length free
    → set (l ++ free) n b ≡ (l ++ b ∷ []) ++ drop 1 free
set_next [] [] n b e h = absurd (omega (arith, h))
set_next [] (x ∷ free) zero b e h = refl
set_next [] (x ∷ free) (suc n) b e h = absurd (omega (arith, e))
set_next (y ∷ l) free zero b e h = absurd (omega (arith, e))
set_next (y ∷ l) free (suc n) b e h = ap (◌∷◌ y) (set_next l free n b (omega (arith, e)) h)

bodies-append :
    (t : Table) (h : ℕ) (b : SnapshotBody) → bodies (t ++ (h, b) ∷ []) ≡ bodies t ++ b ∷ []
bodies-append [] h b = refl
bodies-append (x ∷ t) h b = ap (◌∷◌ x.1) (bodies-append t h b)

seat_full :
    (t : Table) (h : ℕ) (b : SnapshotBody)
    → has h t ≡ false
    → leb slot_count (length t) ≡ true
    → seat t h b ≡ t
seat_full t h b missing full =
    if_false {b = has h t} _ missing ∙ if_true {b = leb slot_count (length t)} _ full

seat_room :
    (t : Table) (h : ℕ) (b : SnapshotBody)
    → has h t ≡ false
    → leb slot_count (length t) ≡ false
    → seat t h b ≡ t ++ (h, b) ∷ []
seat_room t h b missing room =
    if_false {b = has h t} _ missing ∙ if_false {b = leb slot_count (length t)} _ room

-- What a record of a new handle does when a slot is free.
abbrev filled : Publisher → ℕ → SnapshotBody → Publisher
filled p h b = record p {
  next_free_slot = p.next_free_slot + 1;
  handle_to_slot = put ◌==◌ h p.next_free_slot p.handle_to_slot;
  shmem = write_slot p.shmem p.next_free_slot b;
}

-- The publisher's variables and the segment for a table, in a segment that held `base` at first.
pub record Holds (base : List SnapshotBody) (tick : ℕ) (p : Publisher) (t : Table) : Type 0 where
  pub mapped :
      p.shmem ≡ some (record { slots = bodies t ++ drop (length t) base; publish_tick = tick })
  pub size : length t ≤ slot_count
  pub next : p.next_free_slot ≡ length t
  pub slot_of : (h : ℕ) → find ◌==◌ h p.handle_to_slot ≡ index_of h t

module _ (base : List SnapshotBody) (whole : length base ≡ slot_count) (tick : ℕ) where
  filled-Holds :
      (p : Publisher) (t : Table) (h : ℕ) (b : SnapshotBody)
      → Holds base tick p t
      → has h t ≡ false
      → length t < slot_count
      → Holds base tick (filled p h b) (t ++ (h, b) ∷ [])
  unfolding write_slot
  filled-Holds p t h b v missing room = record {
    mapped =
        ap₂ (λ m n. write_slot m n b) v.mapped (v.next ∙ sym (length-map t (λ x. x.1)))
        ∙ ap (λ l. some (record { slots = l; publish_tick = tick }))
            (set_next (bodies t) (drop (length t) base) (length (bodies t)) b refl
                (omega (arith, whole, room, length-drop (length t) base))
              ∙ ap₂ (◌++◌) (sym (bodies-append t h b)) (
                  drop-drop (length t) 1 base
                  ∙ ap (λ n. drop n base) (sym (length-append t ((h, b) ∷ [])))));
    size = omega (arith, room, length-append t ((h, b) ∷ []));
    next = omega (arith, v.next, length-append t ((h, b) ∷ []));
    slot_of = λ j.
        find-put ◌==◌ ==_IsKeyTest h j p.next_free_slot p.handle_to_slot
        ∙ ap₂ (λ n o. if h == j then some n else o) v.next (v.slot_of j)
        ∙ sym (index_of-append j h b t missing);
  }

  publish_record-Holds :
      (p : Publisher) (t : Table) (h : ℕ) (b : SnapshotBody)
      → Holds base tick p t
      → Holds base tick (publish_record p h b) (seat t h b)
  unfolding publish_record write_slot
  publish_record-Holds p t h b v = from (place h t)
    where
      Goal : Publisher → Type 0
      Goal q = Holds base tick q (seat t h b)

      from : Place h t → Goal (publish_record p h b)
      from (at_slot i there found moved) =
          rw (v.slot_of h ∙ found, publish_record)
            (subst (Holds base tick (record p { shmem = write_slot p.shmem i b }))
              (sym (if_true {b = has h t} _ there))
              (record {
                mapped =
                    ap (λ m. write_slot m i b) v.mapped
                    ∙ ap (λ l. some (record { slots = l; publish_tick = tick }))
                        (moved b (drop (length t) base)
                          ∙ ap (λ n. bodies (update h b t) ++ drop n base)
                              (sym (length-update h b t)));
                size = subst (λ n. n ≤ slot_count) (sym (length-update h b t)) v.size;
                next = v.next ∙ sym (length-update h b t);
                slot_of = λ j. v.slot_of j ∙ sym (index_of-update j h b t);
              }))
      from (absent missing none_) =
          rw (v.slot_of h ∙ none_, publish_record)
            (elim (Bool-cases (leb slot_count p.next_free_slot)) [
              | inl full ↦ subst Goal (sym (if_true {b = leb slot_count p.next_free_slot} _ full)) (
                  subst (Holds base tick (record p { logged_full_table = true }))
                    (sym
                      (seat_full t h b missing (subst (λ n. leb slot_count n ≡ true) v.next full)))
                    (record {
                      mapped = v.mapped;
                      size = v.size;
                      next = v.next;
                      slot_of = v.slot_of;
                    }))
              | inr room ↦
                  subst Goal (sym (if_false {b = leb slot_count p.next_free_slot} _ room)) (
                    subst (Holds base tick (filled p h b))
                      (sym (
                        seat_room t h b missing
                          (subst (λ n. leb slot_count n ≡ false) v.next room)))
                      (filled-Holds p t h b v missing (ground (arith, room, v.next))))
            ])

-- The records of a tick, one after the other.
abbrev pub seat_all : Table → List (ℕ × SnapshotBody) → Table
seat_all t [] = t
seat_all t ((h, b) ∷ staged) = seat_all (seat t h b) staged

pub publish_records-Holds :
    (base : List SnapshotBody) (tick : ℕ) (p : Publisher) (t : Table)
    (staged : List (ℕ × SnapshotBody))
    → length base ≡ slot_count
    → Holds base tick p t
    → Holds base tick (publish_records p staged) (seat_all t staged)
unfolding publish_records
publish_records-Holds base tick p t [] whole v = v
publish_records-Holds base tick p t ((h, b) ∷ staged) whole v =
    publish_records-Holds base tick (publish_record p h b) (seat t h b) staged whole
      (publish_record-Holds base whole tick p t h b v)
