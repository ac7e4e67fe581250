-- ===== src/Router/Stats/Published.antt =====
-- What the overlay reads of the routes after they were published.
use open_vr_pair_driver.Base.{
  ℕ, zero, suc, ◌+◌, ◌≤◌, ◌≡◌, refl, ap, ◌∙◌, some, List, [], ◌∷◌, ◌++◌, length, get_or, set, arith,
  subst, length-append, append_assoc, lt→leb,
}
use open_vr_pair_driver.Router.Table.{RouteTable, max_routes, active_count}
use open_vr_pair_driver.Router.Stats.{
  RouteSlot, StatsData, RouteFields, write_slot, no_slot, write_route, snapshot, publish_from,
  publish_to_shmem, active_slots, read_global_stats,
}

get_or-append :
    (xs ys : List RouteSlot) (y : RouteSlot) (i : ℕ)
    → i ≡ length xs
    → get_or (xs ++ y ∷ ys) i no_slot ≡ y
get_or-append [] ys y zero e = refl
get_or-append [] ys y (suc i) e = absurd (omega arith)
get_or-append (x ∷ xs) ys y zero e = absurd (omega arith)
get_or-append (x ∷ xs) ys y (suc i) e = get_or-append xs ys y i (omega arith)

set-append :
    (xs ys : List RouteSlot) (y z : RouteSlot) (i : ℕ)
    → i ≡ length xs
    → set (xs ++ y ∷ ys) i z ≡ xs ++ z ∷ ys
set-append [] ys y z zero e = refl
set-append [] ys y z (suc i) e = absurd (omega arith)
set-append (x ∷ xs) ys y z zero e = absurd (omega arith)
set-append (x ∷ xs) ys y z (suc i) e = ap (◌∷◌ x) (set-append xs ys y z i (omega arith))

-- Each slot with what its entry's snapshot writes into it.
abbrev pub written : RouteFields → List RouteSlot → RouteTable → List RouteSlot
written unset [] t = []
written unset (s ∷ ss) [] = s ∷ ss
written unset (s ∷ ss) (e ∷ es) = write_slot s (snapshot unset e) ∷ written unset ss es

publish_from_lem :
    (unset : RouteFields) (d : StatsData) (done ss : List RouteSlot) (es : RouteTable) (index : ℕ)
    → index ≡ length done
    → length es ≡ length ss
    → length done + length ss ≤ max_routes
    → publish_from unset (some (record d { routes = done ++ ss })) index es
      ≡ some (record d { routes = done ++ written unset ss es })
unfolding publish_from write_route
publish_from_lem unset d done [] [] index at same fit = refl
publish_from_lem unset d done [] (e ∷ es) index at same fit = absurd (omega arith)
publish_from_lem unset d done (s ∷ ss) [] index at same fit = absurd (omega arith)
publish_from_lem unset d done (s ∷ ss) (e ∷ es) index at same fit =
    rw
      (
        lt→leb max_routes index (omega arith),
        get_or-append done ss s index at,
        set-append done ss s (write_slot s (snapshot unset e)) index at,
      )
      (subst
        (λ l.
          publish_from unset (some (record d { routes = l })) (suc index) es
          ≡ some (record d { routes = done ++ x ∷ written unset ss es }))
        (append_assoc done (x ∷ []) ss)
        (publish_from_lem unset d (done ++ x ∷ []) ss es (suc index)
            (omega (arith, length-append done (x ∷ []))) (omega arith)
            (omega (arith, length-append done (x ∷ [])))
          ∙ ap (λ l. some (record d { routes = l }))
              (append_assoc done (x ∷ []) (written unset ss es))))
  where
    x : RouteSlot
    x = write_slot s (snapshot unset e)

active_slots-written :
    (unset : RouteFields) (ss : List RouteSlot) (es : RouteTable)
    → length es ≡ length ss
    → active_slots (written unset ss es) ≡ active_count es
unfolding active_slots active_count write_slot snapshot
active_slots-written unset [] [] same = refl
active_slots-written unset [] (e ∷ es) same = absurd (omega arith)
active_slots-written unset (s ∷ ss) [] same = absurd (omega arith)
active_slots-written unset (s ∷ ss) (e ∷ es) same =
    ground (arith, active_slots-written unset ss es (omega arith))

-- Publishing a table of 32 entries to a mapped segment writes every slot from its entry, in order,
-- leaves the global counters, and makes the overlay read the number of active routes, whatever the
-- slots and the uninitialised snapshots held before.
pub publish_to_shmem_lem :
    (unset : RouteFields) (d : StatsData) (t : RouteTable)
    → length t ≡ max_routes
    → length d.routes ≡ max_routes
    → let m = publish_to_shmem unset (some d) t in
      (m ≡ some (record d { routes = written unset d.routes t }))
      × (read_global_stats m
          ≡ some (record {
            packets_sent = d.packets_sent;
            bytes_sent = d.bytes_sent;
            packets_dropped = d.packets_dropped;
            active_routes = active_count t;
          }))
unfolding publish_to_shmem read_global_stats
publish_to_shmem_lem unset d t size slots =
    let all = publish_from_lem unset d [] d.routes t 0 refl (omega arith) (omega arith) in
    (
      all,
      rw (all, read_global_stats) (rw (active_slots-written unset d.routes t (omega arith)) refl),
    )
