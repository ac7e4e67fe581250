-- ===== src/Router/Table/Lookup.antt =====
-- The table as a map from subscriber ids to routes.
use open_vr_pair_driver.Base.{
  ℕ, zero, suc, ◌≤◌, ◌<◌, ◌≡◌, ◌≢◌, refl, inl, inr, ◌⊎◌, true, false, Option, none, some, List, [],
  ◌∷◌, length, set, ◌==◌, ◌&&◌, if◌then◌else◌, arith, Bool-cases, Option-cases,
}
use open_vr_pair_driver.Router.Table.{
  RouteEntry, RouteTable, find_slot, find_free_slot, new_entry, subscribe, deactivate, unsubscribe,
  active_count,
}

-- The active route of a subscriber.
unfoldable pub lookup : ℕ → RouteTable → Option RouteEntry
lookup id [] = none
lookup id (e ∷ es) = if e.active && e.subscriber_id == id then some e else lookup id es

-- No subscriber has two active routes.
abbrev pub IsUnique : RouteTable → Type 0
IsUnique [] = Unit {0}
IsUnique (e ∷ es) = (e.active ≡ true → lookup e.subscriber_id es ≡ none) × IsUnique es

-- Writing an active route of `id` into the slot that has one.
pub lookup-set_found :
    (t : RouteTable) (id j i : ℕ) (n : RouteEntry)
    → n.active ≡ true
    → n.subscriber_id ≡ id
    → find_slot id t ≡ some i
    → lookup j (set t i n) ≡ (if id == j then some n else lookup j t)
unfolding lookup find_slot
lookup-set_found [] id j i n a s e = cc
lookup-set_found (x ∷ t) id j zero n a s e = ground arith
lookup-set_found (x ∷ t) id j (suc i) n a s e = ground (arith, lookup-set_found t id j i n a s)

-- Writing one into a free slot, where there is none yet.
pub lookup-set_free :
    (t : RouteTable) (id j i : ℕ) (n : RouteEntry)
    → n.active ≡ true
    → n.subscriber_id ≡ id
    → find_slot id t ≡ none
    → find_free_slot t ≡ some i
    → lookup j (set t i n) ≡ (if id == j then some n else lookup j t)
unfolding lookup find_slot find_free_slot
lookup-set_free [] id j i n a s e f = cc
lookup-set_free (x ∷ t) id j zero n a s e f = ground arith
lookup-set_free (x ∷ t) id j (suc i) n a s e f = ground (arith, lookup-set_free t id j i n a s)

find_slot-lookup : (t : RouteTable) (id : ℕ) → lookup id t ≡ none → find_slot id t ≡ none
unfolding lookup find_slot
find_slot-lookup [] id h = refl
find_slot-lookup (x ∷ t) id h = ground (arith, find_slot-lookup t id)

pub lookup-find_slot : (t : RouteTable) (id : ℕ) → find_slot id t ≡ none → lookup id t ≡ none
unfolding lookup find_slot
lookup-find_slot [] id h = refl
lookup-find_slot (x ∷ t) id h = ground (arith, lookup-find_slot t id)

find_free_slot-none : (t : RouteTable) → find_free_slot t ≡ none → active_count t ≡ length t
unfolding find_free_slot active_count
find_free_slot-none [] h = refl
find_free_slot-none (x ∷ t) h = ground (arith, find_free_slot-none t)

pub active_count-le : (t : RouteTable) → active_count t ≤ length t
unfolding active_count
active_count-le [] = omega arith
active_count-le (x ∷ t) = ground (arith, active_count-le t)

find_free_slot-some :
    (t : RouteTable) (i : ℕ) → find_free_slot t ≡ some i → active_count t < length t
unfolding find_free_slot active_count
find_free_slot-some [] i h = cc
find_free_slot-some (x ∷ t) zero h = ground (arith, active_count-le t)
find_free_slot-some (x ∷ t) (suc i) h = ground (arith, find_free_slot-some t i)

-- Subscribing is an update of the map, or is refused. It succeeds exactly when the subscriber has a
-- route already, or some slot is free. It is then the new route's subscriber alone whose lookup
-- changes; when it is refused the table stays as it was.
pub subscribe_lem :
    (t : RouteTable) (id : ℕ) (text label : List ℕ)
    → let r = subscribe t id text label in
      ((r.1 ≡ true)
        × ((lookup id t ≢ none) ⊎ (active_count t < length t))
        × ((j : ℕ)
            → lookup j r.0 ≡ (if id == j then some (new_entry id text label) else lookup j t)))
      ⊎ ((r.1 ≡ false) × (lookup id t ≡ none) × (active_count t ≡ length t) × (r.0 ≡ t))
unfolding subscribe new_entry
subscribe_lem t id text label = elim (Option-cases (find_slot id t)) [
  | inr (i, e) ↦
      rw (e, subscribe)
        (inl (
          refl,
          inl (λ h. ground (arith, find_slot-lookup t id h)),
          λ j. lookup-set_found t id j i (new_entry id text label) refl refl e,
        ))
  | inl e ↦ elim (Option-cases (find_free_slot t)) [
    | inr (i, f) ↦
        rw (e, subscribe)
          (rw (f, subscribe)
            (inl (
              refl,
              inr (find_free_slot-some t i f),
              λ j. lookup-set_free t id j i (new_entry id text label) refl refl e f,
            )))
    | inl f ↦
        rw (e, subscribe)
          (rw (f, subscribe) (inr (refl, lookup-find_slot t id e, find_free_slot-none t f, refl)))
  ]
]

pub lookup-deactivate :
    (t : RouteTable) (id j i : ℕ)
    → IsUnique t
    → find_slot id t ≡ some i
    → lookup j (deactivate t i) ≡ (if id == j then none else lookup j t)
unfolding lookup find_slot deactivate
lookup-deactivate [] id j i u e = cc
lookup-deactivate (x ∷ t) id j zero u e = elim (Bool-cases (id == j)) [
  | inr other ↦ ground arith
  | inl same ↦
      let none_left : lookup x.subscriber_id t ≡ none = u.0 (ground arith) in
      let here : x.subscriber_id ≡ j = ground arith in
      rw (same, if◌then◌else◌) (rw here at none_left)
]
lookup-deactivate (x ∷ t) id j (suc i) u e = ground (arith, lookup-deactivate t id j i u.1)

-- Unsubscribing removes the subscriber's route, if it has one, and no other.
pub lookup-unsubscribe :
    (t : RouteTable) (id j : ℕ)
    → IsUnique t
    → lookup j (unsubscribe t id) ≡ (if id == j then none else lookup j t)
unfolding unsubscribe
lookup-unsubscribe t id j u = elim (Option-cases (find_slot id t)) [
  | inr (i, e) ↦ rw (e, unsubscribe) (lookup-deactivate t id j i u e)
  | inl e ↦ rw (e, unsubscribe) (absent (lookup-find_slot t id e))
]
  where
    absent : lookup id t ≡ none → lookup j t ≡ (if id == j then none else lookup j t)
    absent h = elim (Bool-cases (id == j)) [
      | inr other ↦ rw other refl
      | inl same ↦ let here : id ≡ j = ground arith in rw (same, if◌then◌else◌) (rw here at h)
    ]
