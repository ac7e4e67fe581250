-- ===== src/FaceTracking/Shapes/Remap.antt =====
-- Which shape each expression comes from.
use open_vr_pair_driver.Base.{
  ℕ, suc, ◌<◌, ◌≡◌, refl, ap, ◌∙◌, Bool, true, false, Option, none, some, List, [], ◌∷◌, length,
  get_or, replicate, ltb, leb, ◌==◌, ◌&&◌, ◌||◌, if◌then◌else◌, inl, inr, Bool-cases, Option-cases,
  arith, length-set, length-replicate, get_or-set_self, get_or-set_ne, get_or-replicate,
}
use open_vr_pair_driver.FaceTracking.Shapes.{
  Floats, upstream_to_ours, expression_count, store, remap_from, remap_upstream_shapes, FrameBody,
  translate_wire_body,
}

-- The first upstream shape that is given the place `o`, when the table starts at the shape `u`.
abbrev pub source_of : List (Option ℕ) → ℕ → ℕ → Option ℕ
source_of [] u o = none
source_of (none ∷ table) u o = source_of table (suc u) o
source_of (some p ∷ table) u o =
    let rest = source_of table (suc u) o in if o == p then some u else rest

-- No two shapes have the same place, and each place is one of ours.
abbrev pub distinct : List (Option ℕ) → Bool
distinct [] = true
distinct (none ∷ table) = distinct table
distinct (some p ∷ table) =
    ltb p expression_count
    && (elim (source_of table 0 p) [ none ↦ true | some u ↦ false ] && distinct table)

distinct_rest :
    (p : ℕ) (table : List (Option ℕ)) → distinct (some p ∷ table) ≡ true → distinct table ≡ true
distinct_rest p table h = ground (arith, h)

-- That a shape has no place in a table does not depend on where the table starts.
source_of-none :
    (table : List (Option ℕ)) (u u' o : ℕ)
    → source_of table u o ≡ none
    → source_of table u' o ≡ none
source_of-none [] u u' o h = refl
source_of-none (none ∷ table) u u' o h = source_of-none table (suc u) (suc u') o h
source_of-none (some p ∷ table) u u' o h = elim (Bool-cases (o == p)) [
  | inl e ↦ ground (arith, e, h)
  | inr ne ↦
      rw (ne, if◌then◌else◌) (source_of-none table (suc u) (suc u') o (ground (arith, ne, h)))
]

source_none :
    (p : ℕ) (table : List (Option ℕ)) (u o : ℕ)
    → distinct (some p ∷ table) ≡ true
    → (o == p) ≡ true
    → source_of table u o ≡ none
source_none p table u o h e = source_of-none table 0 u o (
    ap (source_of table 0) {y = p} (ground (arith, e)) ∙ elim (Option-cases (source_of table 0 p)) [
      | inl free ↦ free
      | inr (v, taken) ↦ ground (arith, h, taken)
    ])

module _ (fl : Floats) where
  -- The clamped value of a shape, unless it is not finite.
  abbrev pub finite_or : fl.Float → fl.Float → fl.Float
  finite_or v d = if fl.is_nan v || fl.is_inf v then d else fl.clamp v

  -- What the shape named for a place gives it.
  abbrev pub expected : Option ℕ → List fl.Float → fl.Float → fl.Float
  expected none src d = d
  expected (some u) src d = finite_or (get_or src u fl.zero_float) d

  store-length :
      (v : fl.Float) (o : ℕ) (dst : List fl.Float) → length (store fl v o dst) ≡ length dst
  unfolding store
  store-length v o dst = elim (Bool-cases (leb expression_count o)) [
    | inl out ↦ rw (out, if◌then◌else◌) refl
    | inr fine ↦
        rw (fine, if◌then◌else◌)
          (elim (Bool-cases (fl.is_nan v || fl.is_inf v)) [
            | inl bad ↦ rw (bad, if◌then◌else◌) refl
            | inr good ↦ rw (good, if◌then◌else◌) (length-set dst o (fl.clamp v))
          ])
  ]

  store_self :
      (v : fl.Float) (o : ℕ) (dst : List fl.Float)
      → o < expression_count
      → o < length dst
      → get_or (store fl v o dst) o fl.zero_float ≡ finite_or v (get_or dst o fl.zero_float)
  unfolding store
  store_self v o dst small inside = elim (Bool-cases (fl.is_nan v || fl.is_inf v)) [
    | inl bad ↦ ground (arith, bad, small)
    | inr good ↦
        ground (arith, good, small, get_or-set_self dst o (fl.clamp v) fl.zero_float inside)
  ]

  store_ne :
      (v : fl.Float) (p o : ℕ) (dst : List fl.Float)
      → (o == p) ≡ false
      → get_or (store fl v p dst) o fl.zero_float ≡ get_or dst o fl.zero_float
  unfolding store
  store_ne v p o dst ne = elim (Bool-cases (leb expression_count p)) [
    | inl out ↦ rw (out, if◌then◌else◌) refl
    | inr fine ↦
        rw (fine, if◌then◌else◌)
          (elim (Bool-cases (fl.is_nan v || fl.is_inf v)) [
            | inl bad ↦ rw (bad, if◌then◌else◌) refl
            | inr good ↦
                rw (good, if◌then◌else◌)
                  (get_or-set_ne dst p o (fl.clamp v) fl.zero_float (λ e. ground (arith, ne, e)))
          ])
  ]

  remap_from-expected :
      (table : List (Option ℕ)) (u : ℕ) (src dst : List fl.Float) (o : ℕ)
      → distinct table ≡ true
      → o < expression_count
      → o < length dst
      → get_or (remap_from fl table u src dst) o fl.zero_float
        ≡ expected (source_of table u o) src (get_or dst o fl.zero_float)
  unfolding remap_from
  remap_from-expected [] u src dst o one_each small inside = refl
  remap_from-expected (none ∷ table) u src dst o one_each small inside =
      remap_from-expected table (suc u) src dst o one_each small inside
  remap_from-expected (some p ∷ table) u src dst o one_each small inside =
      remap_from-expected table (suc u) src (store fl (get_or src u fl.zero_float) p dst) o
        (distinct_rest p table one_each) small
        (omega (arith, inside, store-length (get_or src u fl.zero_float) p dst))
      ∙ elim (Bool-cases (o == p)) [
        | inl e ↦
            rw (source_none p table (suc u) o one_each e, e, if◌then◌else◌)
              (ap (λ k. get_or (store fl (get_or src u fl.zero_float) k dst) o fl.zero_float)
                  {y = o} (ground (arith, e))
                ∙ store_self (get_or src u fl.zero_float) o dst small inside)
        | inr ne ↦
            rw (ne, if◌then◌else◌)
              (ap (expected (source_of table (suc u) o) src)
                (store_ne (get_or src u fl.zero_float) p o dst ne))
      ]

  -- Which shape the table gives to an expression.
  pub remap_expected :
      (wire : FrameBody fl) (o : ℕ)
      → o < expression_count
      → get_or (translate_wire_body fl wire).expressions o fl.zero_float
        ≡ expected (source_of upstream_to_ours 0 o) wire.expressions fl.zero_float
  unfolding translate_wire_body remap_upstream_shapes
  remap_expected wire o small =
      remap_from-expected upstream_to_ours 0 wire.expressions
        (replicate expression_count fl.zero_float) o refl small
        (omega (arith, small, length-replicate expression_count fl.zero_float))
      ∙ ap (expected (source_of upstream_to_ours 0 o) wire.expressions)
          (get_or-replicate expression_count fl.zero_float o)
