-- ===== src/InputHealth/Publisher/Shown.antt =====
-- What the overlay reads after every history of ticks of the publisher.
use open_vr_pair_driver.Base.{
  ℕ, zero, suc, ◌+◌, ◌-◌, ◌%◌, ◌^◌, ◌≡◌, ◌≢◌, refl, sym, ap, ap₂, ◌∙◌, subst, inl, inr, Bool, true,
  false, not, Option, none, some, List, [], ◌∷◌, ◌++◌, map, length, drop, leb, ◌==◌, ◌||◌,
  if◌then◌else◌, if_true, if_false, Bool-cases, arith, ◌&&◌, ltb, find, put, find-put, ==_IsKeyTest,
  ==_refl,
}
use open_vr_pair_driver.InputHealth.Stats.{
  SnapshotBody, StatsMap, stage_snapshots, fill_snapshot_body,
}
use open_vr_pair_driver.InputHealth.Publisher.{
  slot_count, Segment, Publisher, publish_one_tick, bump_publish_tick, snapshot_publisher_init,
  Entry, SnapshotReader, stale_after, read_slots, try_open, refresh, refresh_open,
}
use open_vr_pair_driver.InputHealth.Publisher.Table.{
  Table, has, update, seat, bodies, Holds, seat_all, publish_records-Holds,
}

-- Each body carries its handle, and no handle stands twice.
abbrev IsKeyed : Table → Type 0
IsKeyed [] = Unit {0}
IsKeyed ((k, b) ∷ t) = (b.handle ≡ k) × (has k t ≡ false) × IsKeyed t

abbrev pub AreUnused : List SnapshotBody → Type 0
AreUnused [] = Unit {0}
AreUnused (b ∷ free) = (b.handle ≡ 0) × AreUnused free

drop-AreUnused : (n : ℕ) (free : List SnapshotBody) → AreUnused free → AreUnused (drop n free)
drop-AreUnused zero free u = u
drop-AreUnused (suc n) [] u = tt
drop-AreUnused (suc n) (b ∷ free) (_, u) = drop-AreUnused n free u

has-update : (j h : ℕ) (b : SnapshotBody) (t : Table) → has j (update h b t) ≡ has j t
has-update j h b [] = refl
has-update j h b ((k, c) ∷ t) = elim (Bool-cases (k == h)) [
  | inl here ↦ ap (has j) (if_true {b = k == h} _ here)
  | inr other ↦
      ap (has j) (if_false {b = k == h} _ other) ∙ ap (λ o. k == j || o) (has-update j h b t)
]

has-append :
    (j h : ℕ) (b : SnapshotBody) (t : Table) → has j (t ++ (h, b) ∷ []) ≡ (has j t || (h == j))
has-append j h b [] = ground arith
has-append j h b ((k, c) ∷ t) = ground (arith, has-append j h b t)

update-IsKeyed :
    (h : ℕ) (b : SnapshotBody) (t : Table) → b.handle ≡ h → IsKeyed t → IsKeyed (update h b t)
update-IsKeyed h b [] e v = tt
update-IsKeyed h b ((k, c) ∷ t) e (own, once, v) = elim (Bool-cases (k == h)) [
  | inl here ↦
      subst IsKeyed (sym (if_true {b = k == h} _ here))
        (e ∙ sym (==_IsKeyTest.sound k h here), once, v)
  | inr other ↦
      subst IsKeyed (sym (if_false {b = k == h} _ other))
        (own, has-update k h b t ∙ once, update-IsKeyed h b t e v)
]

append-IsKeyed :
    (h : ℕ) (b : SnapshotBody) (t : Table)
    → b.handle ≡ h
    → has h t ≡ false
    → IsKeyed t
    → IsKeyed (t ++ (h, b) ∷ [])
append-IsKeyed h b [] e missing v = (e, refl, tt)
append-IsKeyed h b ((k, c) ∷ t) e missing (own, once, v) =
    (own, has-append k h b t ∙ apart, append-IsKeyed h b t e (ground (arith, missing)) v)
  where
    apart : (has k t || (h == k)) ≡ false
    apart = ground (arith, once, missing)

seat-IsKeyed :
    (t : Table) (h : ℕ) (b : SnapshotBody) → b.handle ≡ h → IsKeyed t → IsKeyed (seat t h b)
seat-IsKeyed t h b e v = elim (Bool-cases (has h t)) [
  | inl there ↦ subst IsKeyed (sym (if_true {b = has h t} _ there)) (update-IsKeyed h b t e v)
  | inr missing ↦
      subst IsKeyed (sym (if_false {b = has h t} _ missing))
        (elim (Bool-cases (leb slot_count (length t))) [
          | inl full ↦ subst IsKeyed (sym (if_true {b = leb slot_count (length t)} _ full)) v
          | inr room ↦
              subst IsKeyed (sym (if_false {b = leb slot_count (length t)} _ room))
                (append-IsKeyed h b t e missing v)
        ])
]

seat_all-stage_snapshots :
    (t : Table) (m : StatsMap) → IsKeyed t → IsKeyed (seat_all t (stage_snapshots m))
unfolding stage_snapshots fill_snapshot_body
seat_all-stage_snapshots t [] v = v
seat_all-stage_snapshots t ((h, s) ∷ m) v =
    seat_all-stage_snapshots (seat t h (fill_snapshot_body h s)) m
      (seat-IsKeyed t h (fill_snapshot_body h s) refl v)

-- What the loop of Refresh leaves for a handle.
abbrev or_else : ℕ → Option SnapshotBody → Option Entry → Option Entry
or_else tick o e = elim o [ none ↦ e | some b ↦ some (b, tick) ]

abbrev pub reads_of : List SnapshotBody → List (Option SnapshotBody)
reads_of l = map some l

not_there : (h : ℕ) (t : Table) → has h t ≡ false → find ◌==◌ h t ≡ none
not_there h [] e = refl
not_there h ((k, b) ∷ t) e =
    if_false {b = k == h} _ (ground (arith, e)) ∙ not_there h t (ground (arith, e))

unused_slots :
    (tick : ℕ) (free : List SnapshotBody) (es : List (ℕ × Entry))
    → AreUnused free
    → read_slots tick (reads_of free) es ≡ es
unfolding read_slots
unused_slots tick [] es u = refl
unused_slots tick (b ∷ free) es (zero_, u) =
    ap (read_slots tick (reads_of free)) (if_true {b = b.handle == 0} _ (ground (arith, zero_)))
    ∙ unused_slots tick free es u

table_slots :
    (tick h : ℕ) (t : Table) (free : List SnapshotBody) (es : List (ℕ × Entry))
    → h ≢ 0
    → IsKeyed t
    → AreUnused free
    → find ◌==◌ h (read_slots tick (reads_of (bodies t ++ free)) es)
      ≡ or_else tick (find ◌==◌ h t) (find ◌==◌ h es)
unfolding read_slots
table_slots tick h [] free es nz v u = ap (find ◌==◌ h) (unused_slots tick free es u)
table_slots tick h ((k, b) ∷ t) free es nz (own, once, v) u =
    table_slots tick h t free next nz v u ∙ here
  where
    next : List (ℕ × Entry)
    next = if b.handle == 0 then es else put ◌==◌ b.handle (b, tick) es

    next_is : find ◌==◌ h next ≡ (if k == h then some (b, tick) else find ◌==◌ h es)
    next_is = elim (Bool-cases (b.handle == 0)) [
      | inl unused ↦
          ap (find ◌==◌ h) (if_true {b = b.handle == 0} _ unused)
          ∙ sym (if_false {b = k == h} _ (ground (arith, unused, own, nz)))
      | inr used ↦
          ap (find ◌==◌ h) (if_false {b = b.handle == 0} _ used)
          ∙ find-put ◌==◌ ==_IsKeyTest b.handle h (b, tick) es
          ∙ ap (λ i. if i == h then some (b, tick) else find ◌==◌ h es) own
    ]

    here :
        or_else tick (find ◌==◌ h t) (find ◌==◌ h next)
        ≡ or_else tick (if k == h then some b else find ◌==◌ h t) (find ◌==◌ h es)
    here = elim (Bool-cases (k == h)) [
      | inl same ↦
          ap₂ (or_else tick)
            (not_there h t (subst (λ i. has i t ≡ false) (==_IsKeyTest.sound k h same) once))
            (next_is ∙ if_true {b = k == h} _ same)
          ∙ ap (λ o. or_else tick o (find ◌==◌ h es)) (sym (if_true {b = k == h} _ same))
      | inr other ↦
          ap (or_else tick (find ◌==◌ h t)) (next_is ∙ if_false {b = k == h} _ other)
          ∙ ap (λ o. or_else tick o (find ◌==◌ h es)) (sym (if_false {b = k == h} _ other))
    ]

-- The publisher after its ticks, and the table of all the records that were staged in them.
abbrev pub after : Publisher → List StatsMap → Publisher
after p [] = p
after p (m ∷ ms) = after (publish_one_tick p m) ms

abbrev pub seated : Table → List StatsMap → Table
seated t [] = t
seated t (m ∷ ms) = seated (seat_all t (stage_snapshots m)) ms

-- The publish tick after these ticks, of 64 bits.
abbrev pub ticked : ℕ → List StatsMap → ℕ
ticked tick [] = tick
ticked tick (m ∷ ms) = ticked ((tick + 1) % 2 ^ 64) ms

record Shows (base : List SnapshotBody) (tick : ℕ) (p : Publisher) (t : Table) : Type 0 where
  holds : Holds base tick p t
  keyed : IsKeyed t

publish_one_tick-Shows :
    (base : List SnapshotBody) (tick : ℕ) (p : Publisher) (t : Table) (m : StatsMap)
    → length base ≡ slot_count
    → Shows base tick p t
    → Shows base ((tick + 1) % 2 ^ 64) (publish_one_tick p m) (seat_all t (stage_snapshots m))
unfolding publish_one_tick bump_publish_tick
publish_one_tick-Shows base tick p t m whole s =
    let v = publish_records-Holds base tick p t (stage_snapshots m) whole s.holds in
    record {
      holds = record {
        mapped = ap bump_publish_tick v.mapped;
        size = v.size;
        next = v.next;
        slot_of = v.slot_of;
      };
      keyed = seat_all-stage_snapshots t m s.keyed;
    }

after-Shows :
    (base : List SnapshotBody) (tick : ℕ) (p : Publisher) (t : Table) (ms : List StatsMap)
    → length base ≡ slot_count
    → Shows base tick p t
    → Shows base (ticked tick ms) (after p ms) (seated t ms)
after-Shows base tick p t [] whole s = s
after-Shows base tick p t (m ∷ ms) whole s =
    after-Shows base ((tick + 1) % 2 ^ 64) (publish_one_tick p m) (seat_all t (stage_snapshots m))
      ms whole (publish_one_tick-Shows base tick p t m whole s)

abbrev pub closed : SnapshotReader
closed = record {
  is_open = false;
  entries_by_handle = [];
  last_publish_tick = 0;
  last_publish_tick_change = 0;
}

abbrev pub stopped : Publisher
stopped = record {
  shmem = none;
  running = false;
  handle_to_slot = [];
  next_free_slot = 0;
  logged_full_table = false;
}

-- What a reader that opens the segment shows for a handle.
abbrev pub shown : Segment → ℕ → ℕ → Option Entry
shown g now h = find ◌==◌ h (refresh closed true g (reads_of g.slots) now).entries_by_handle

refresh-closed :
    (g : Segment) (reads : List (Option SnapshotBody)) (now : ℕ)
    → (refresh closed true g reads now).entries_by_handle ≡ read_slots g.publish_tick reads []
unfolding refresh try_open refresh_open
refresh-closed g reads now =
    ap (λ (r : SnapshotReader). r.entries_by_handle)
      (if_false {b = not (not same) && (not (now == 0) && ltb stale_after (now - now))} _
        (ground (arith, ==_refl g.publish_tick)))
    ∙ ap (λ b. read_slots (changed b).last_publish_tick reads (changed b).entries_by_handle)
        (ap not (==_refl g.publish_tick))
  where
    same : Bool
    same = g.publish_tick == g.publish_tick

    changed : Bool → SnapshotReader
    changed b =
        if b
        then record {
          is_open = true;
          entries_by_handle = [];
          last_publish_tick = g.publish_tick;
          last_publish_tick_change = now;
        }
        else record {
          is_open = true;
          entries_by_handle = [];
          last_publish_tick = g.publish_tick;
          last_publish_tick_change = now;
        }

-- The table's newest body of a handle, with the tick.
abbrev pub newest : ℕ → Option SnapshotBody → Option Entry
newest tick o = or_else tick o none

-- The publisher starts on a segment whose slots are unused, and runs any number of ticks over any
-- statistics; then an overlay opens the segment and reads it. It shows a handle other than 0 exactly
-- if the handle was among the first 256 that were published, with its newest body and the tick of
-- the publisher.
pub shown-after :
    (base : List SnapshotBody) (tick now : ℕ) (ms : List StatsMap)
    → length base ≡ slot_count
    → AreUnused base
    → let segment : Segment = record { slots = base; publish_tick = tick } in
      let p = after (snapshot_publisher_init stopped (some segment)) ms in
      (g : Segment) × (p.shmem ≡ some g)
      × ((h : ℕ) → h ≢ 0 → shown g now h ≡ newest (ticked tick ms) (find ◌==◌ h (seated [] ms)))
unfolding snapshot_publisher_init
shown-after base tick now ms whole unused = (
  g,
  s.holds.mapped,
  λ h nz.
      ap (find ◌==◌ h) (refresh-closed g (reads_of g.slots) now)
      ∙ table_slots (ticked tick ms) h t (drop (length t) base) [] nz s.keyed
          (drop-AreUnused (length t) base unused),
)
  where
    segment : Segment
    segment = record { slots = base; publish_tick = tick }

    p : Publisher
    p = after (snapshot_publisher_init stopped (some segment)) ms

    t : Table
    t = seated [] ms

    g : Segment
    g = record { slots = bodies t ++ drop (length t) base; publish_tick = ticked tick ms }

    s : Shows base (ticked tick ms) p t
    s = after-Shows base tick (snapshot_publisher_init stopped (some segment)) [] ms whole (record {
      holds = record { mapped = refl; size = omega arith; next = refl; slot_of = λ h. refl };
      keyed = tt;
    })
