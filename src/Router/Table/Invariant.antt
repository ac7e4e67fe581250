-- ===== src/Router/Table/Invariant.antt =====
-- What every history of calls keeps of the route table.
use open_vr_pair_driver.Base.{
  ℕ, zero, suc, ◌≤◌, ◌≡◌, refl, ap, ◌∙◌, inl, inr, Bool, true, false, none, some, List, [], ◌∷◌,
  length, set, if◌then◌else◌, arith, replicate, Option-cases, length-set,
}
use open_vr_pair_driver.Router.Table.{
  RouteEntry, RouteTable, max_routes, empty_table, find_slot, find_free_slot, new_entry, subscribe,
  deactivate, unsubscribe, dispatch, bump_drop_count, active_count, bump_match, bump_drop, hits,
}
use open_vr_pair_driver.Router.Table.Lookup.{
  IsUnique, lookup-set_found, lookup-set_free, lookup-find_slot, lookup-deactivate, active_count-le,
}
use open_vr_pair_driver.Router.Table.Counters.{dispatch_lem, bump_drop_count_lem}

IsUnique-set_found :
    (t : RouteTable) (id i : ℕ) (n : RouteEntry)
    → n.active ≡ true
    → n.subscriber_id ≡ id
    → find_slot id t ≡ some i
    → IsUnique t
    → IsUnique (set t i n)
unfolding find_slot
IsUnique-set_found [] id i n a s e u = u
IsUnique-set_found (x ∷ t) id zero n a s e u = (
  λ h.
      let here : x.subscriber_id ≡ n.subscriber_id = ground arith in
      rw here at (u.0 (ground arith)),
  u.1,
)
IsUnique-set_found (x ∷ t) id (suc i) n a s e u = (
  λ h. ground (arith, lookup-set_found t id x.subscriber_id i n a s, u.0 h),
  IsUnique-set_found t id i n a s (ground arith) u.1,
)

IsUnique-set_free :
    (t : RouteTable) (id i : ℕ) (n : RouteEntry)
    → n.active ≡ true
    → n.subscriber_id ≡ id
    → find_slot id t ≡ none
    → find_free_slot t ≡ some i
    → IsUnique t
    → IsUnique (set t i n)
unfolding find_slot find_free_slot
IsUnique-set_free [] id i n a s e f u = u
IsUnique-set_free (x ∷ t) id zero n a s e f u =
    (λ h. rw s (lookup-find_slot t id (ground arith)), u.1)
IsUnique-set_free (x ∷ t) id (suc i) n a s e f u = (
  λ h. ground (arith, lookup-set_free t id x.subscriber_id i n a s, u.0 h),
  IsUnique-set_free t id i n a s (ground arith) (ground arith) u.1,
)

IsUnique-deactivate :
    (t : RouteTable) (id i : ℕ) → find_slot id t ≡ some i → IsUnique t → IsUnique (deactivate t i)
unfolding find_slot deactivate
IsUnique-deactivate [] id i e u = u
IsUnique-deactivate (x ∷ t) id zero e u = (λ h. cc, u.1)
IsUnique-deactivate (x ∷ t) id (suc i) e u = (
  λ h. ground (arith, lookup-deactivate t id x.subscriber_id i u.1, u.0 h),
  IsUnique-deactivate t id i (ground arith) u.1,
)

IsUnique-dispatch :
    (t : RouteTable) (address : List ℕ) (tick : ℕ) (m : Bool)
    → IsUnique t
    → IsUnique (dispatch t address tick m).0
unfolding dispatch bump_match
IsUnique-dispatch [] address tick m u = u
IsUnique-dispatch (x ∷ t) address tick m u =
    let m' = if hits address x then true else m in
    (
      λ h. ground (
        arith,
        (dispatch_lem t address tick m').0 (bump_match address tick x).subscriber_id,
        u.0,
      ),
      IsUnique-dispatch t address tick m' u.1,
    )

IsUnique-bump_drop_count :
    (t : RouteTable) (address : List ℕ) → IsUnique t → IsUnique (bump_drop_count t address)
unfolding bump_drop_count bump_drop
IsUnique-bump_drop_count [] address u = u
IsUnique-bump_drop_count (x ∷ t) address u = (
  λ h. ground (arith, (bump_drop_count_lem t address).0 (bump_drop address x).subscriber_id, u.0),
  IsUnique-bump_drop_count t address u.1,
)

pub record IsValid (t : RouteTable) : Type 0 where
  pub unique : IsUnique t
  pub size : length t ≡ max_routes

-- The calls that change the table.
pub data TableCall : Type 0 where
  subscribes : ℕ → List ℕ → List ℕ → TableCall
  unsubscribes : ℕ → TableCall
  dispatches : List ℕ → ℕ → TableCall
  drops : List ℕ → TableCall

abbrev pub table_step : RouteTable → TableCall → RouteTable
table_step t (subscribes id text label) = (subscribe t id text label).0
table_step t (unsubscribes id) = unsubscribe t id
table_step t (dispatches address tick) = (dispatch t address tick false).0
table_step t (drops address) = bump_drop_count t address

abbrev pub table_run : RouteTable → List TableCall → RouteTable
table_run t [] = t
table_run t (c ∷ cs) = table_run (table_step t c) cs

length-deactivate : (t : RouteTable) (i : ℕ) → length (deactivate t i) ≡ length t
unfolding deactivate
length-deactivate [] i = refl
length-deactivate (x ∷ t) zero = refl
length-deactivate (x ∷ t) (suc i) = ap suc (length-deactivate t i)

subscribe-IsValid :
    (t : RouteTable) (id : ℕ) (text label : List ℕ)
    → IsValid t
    → IsValid (subscribe t id text label).0
unfolding subscribe new_entry
subscribe-IsValid t id text label v = elim (Option-cases (find_slot id t)) [
  | inr (i, e) ↦
      rw (e, subscribe)
        (record {
          unique = IsUnique-set_found t id i (new_entry id text label) refl refl e v.unique;
          size = length-set t i (new_entry id text label) ∙ v.size;
        })
  | inl e ↦ elim (Option-cases (find_free_slot t)) [
    | inr (i, f) ↦
        rw (e, subscribe)
          (rw (f, subscribe)
            (record {
              unique = IsUnique-set_free t id i (new_entry id text label) refl refl e f v.unique;
              size = length-set t i (new_entry id text label) ∙ v.size;
            }))
    | inl f ↦ rw (e, subscribe) (rw (f, subscribe) v)
  ]
]

unsubscribe-IsValid : (t : RouteTable) (id : ℕ) → IsValid t → IsValid (unsubscribe t id)
unfolding unsubscribe
unsubscribe-IsValid t id v = elim (Option-cases (find_slot id t)) [
  | inr (i, e) ↦
      rw (e, unsubscribe)
        (record {
          unique = IsUnique-deactivate t id i e v.unique;
          size = length-deactivate t i ∙ v.size;
        })
  | inl e ↦ rw (e, unsubscribe) v
]

pub table_step-IsValid : (t : RouteTable) (c : TableCall) → IsValid t → IsValid (table_step t c)
table_step-IsValid t (subscribes id text label) v = subscribe-IsValid t id text label v
table_step-IsValid t (unsubscribes id) v = unsubscribe-IsValid t id v
table_step-IsValid t (dispatches address tick) v = record {
  unique = IsUnique-dispatch t address tick false v.unique;
  size = (dispatch_lem t address tick false).3 ∙ v.size;
}
table_step-IsValid t (drops address) v = record {
  unique = IsUnique-bump_drop_count t address v.unique;
  size = (bump_drop_count_lem t address).2 ∙ v.size;
}

table_run-IsValid : (t : RouteTable) (cs : List TableCall) → IsValid t → IsValid (table_run t cs)
table_run-IsValid t [] v = v
table_run-IsValid t (c ∷ cs) v = table_run-IsValid (table_step t c) cs (table_step-IsValid t c v)

replicate-IsUnique : (n : ℕ) (e : RouteEntry) → e.active ≡ false → IsUnique (replicate n e)
replicate-IsUnique zero e h = tt
replicate-IsUnique (suc n) e h = (λ a. cc, replicate-IsUnique n e h)

pub empty_table-IsValid : IsValid empty_table
unfolding empty_table
empty_table-IsValid = record { unique = replicate-IsUnique 32 _ refl; size = refl }

-- After every sequence of subscriptions, removals, published addresses and drops, from the table of
-- a new router: no subscriber has two active routes, the table has its 32 slots, and so at most 32
-- routes are active.
pub table_history :
    (cs : List TableCall)
    → let t = table_run empty_table cs in
      IsUnique t × (length t ≡ max_routes) × (active_count t ≤ max_routes)
table_history cs =
    let v = table_run-IsValid empty_table cs empty_table-IsValid in
    (v.unique, v.size, omega (arith, active_count-le (table_run empty_table cs), v.size))
