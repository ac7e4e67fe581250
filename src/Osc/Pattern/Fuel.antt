-- ===== src/Osc/Pattern/Fuel.antt =====
-- The fuel of the pattern matcher suffices: more of it changes nothing, for any pattern.
use open_vr_pair_driver.Base.{
  ℕ, zero, suc, ◌+◌, ◌≤◌, ◌<◌, ◌≡◌, refl, ap, ◌∙◌, inl, inr, Bool, true, false, List, [], ◌∷◌, ◌++◌,
  length, arith, length-append, Bool-cases, none, some, Option, ◌==◌, if◌then◌else◌, ◌||◌,
}
use open_vr_pair_driver.Osc.Pattern.{
  in_range, class_loop, close_class, match_char_class, skip_stars, skip_group, next_depth,
  match_any, match_literal, anchor, first, or_false, match_star, after_class, match_class,
  try_alternative, match_alternates, match_impl, osc_pattern_match,
}

pub length-skip_stars : (p : List ℕ) → length (skip_stars p) ≤ length p
unfolding skip_stars
length-skip_stars [] = omega arith
length-skip_stars (c ∷ p) = ground (arith, length-skip_stars p)

depth_same : (c : ℕ) {d : ℕ} → (c == b'{') ≡ false → (c == b'}') ≡ false → next_depth c d ≡ suc d
unfolding next_depth
depth_same c x y = rw (x, next_depth) (rw y refl)

depth_deeper : (c : ℕ) {d : ℕ} → (c == b'{') ≡ true → next_depth c d ≡ suc (suc d)
unfolding next_depth
depth_deeper c x = rw x refl

length-skip_group : (d : ℕ) (p : List ℕ) → length (skip_group d p) ≤ length p
unfolding skip_group
length-skip_group zero p = omega arith
length-skip_group (suc d) [] = omega arith
length-skip_group (suc d) (c ∷ p) = omega (arith, length-skip_group (next_depth c d) p)

length-class_loop : (ch : ℕ) (p : List ℕ) (m : Bool) → length (class_loop ch p m).1 ≤ length p
unfolding class_loop
length-class_loop ch [] m = omega arith
length-class_loop ch (c ∷ []) m = ground arith
length-class_loop ch (c ∷ d ∷ []) m = ground (arith, length-class_loop ch (d ∷ []) (m || ch == c))
length-class_loop ch (c ∷ d ∷ e ∷ p) m = ground (
  arith,
  length-class_loop ch (d ∷ e ∷ p) (m || ch == c),
  length-class_loop ch p (m || in_range c e ch),
)

length-close_class :
    (negated : Bool) (r : Bool × List ℕ) (hit : Bool) (q : List ℕ)
    → close_class negated r ≡ some (hit, q)
    → length q < length r.1
unfolding close_class
length-close_class negated (m, []) hit q e = cc
length-close_class negated (m, c ∷ p) hit q e = ground arith

length-match_char_class :
    (p : List ℕ) (ch : ℕ) (hit : Bool) (q : List ℕ)
    → match_char_class p ch ≡ some (hit, q)
    → length q < length p
unfolding match_char_class
length-match_char_class [] ch hit q e = cc
length-match_char_class (c ∷ p) ch hit q e = ground (
  arith,
  length-close_class true (class_loop ch p false) hit q,
  length-close_class false (class_loop ch (c ∷ p) false) hit q,
  length-class_loop ch p false,
  length-class_loop ch (c ∷ p) false,
)

-- Two matchers that agree on all shorter patterns.
module _ (n : ℕ) (g h : List ℕ → List ℕ → Bool)
    (same : (p a : List ℕ) → length p < n → g p a ≡ h p a) where
  anchor_agree : (p a : List ℕ) → length p < n → anchor g p a ≡ anchor h p a
  unfolding anchor
  anchor_agree p [] lt = refl
  anchor_agree p (x ∷ a) lt = ground (arith, same p (x ∷ a) lt, anchor_agree p a lt)

  match_any_agree : (p a : List ℕ) → length p < n → match_any g p a ≡ match_any h p a
  unfolding match_any
  match_any_agree p [] lt = refl
  match_any_agree p (x ∷ a) lt = same p a lt

  match_literal_agree :
      (c : ℕ) (p a : List ℕ) → length p < n → match_literal g c p a ≡ match_literal h c p a
  unfolding match_literal
  match_literal_agree c p [] lt = refl
  match_literal_agree c p (x ∷ a) lt = ground (arith, same p a lt)

  match_star_agree : (p a : List ℕ) → length p < n → match_star g p a ≡ match_star h p a
  unfolding match_star
  match_star_agree p a lt =
      ground (arith, anchor_agree (skip_stars p) a (omega (arith, length-skip_stars p)))

  after_class_agree :
      (r : Option (Bool × List ℕ)) (a : List ℕ)
      → ((hit : Bool) (q : List ℕ) → r ≡ some (hit, q) → length q < n)
      → after_class g r a ≡ after_class h r a
  unfolding after_class
  after_class_agree none a shorter = refl
  after_class_agree (some (hit, q)) [] shorter = refl
  after_class_agree (some (hit, q)) (x ∷ a) shorter = ground (arith, same q a (shorter hit q refl))

  match_class_agree : (p a : List ℕ) → length p < n → match_class g p a ≡ match_class h p a
  unfolding match_class
  match_class_agree p a lt =
      after_class_agree (match_char_class p (first a)) a
        (λ hit q e. omega (arith, length-match_char_class p (first a) hit q e))

  try_alternative_agree :
      (alt rest a : List ℕ)
      → length alt + length rest < n
      → try_alternative g alt rest a ≡ try_alternative h alt rest a
  unfolding try_alternative
  try_alternative_agree alt rest a lt =
      ground (arith, same (alt ++ rest) a (omega (arith, length-append alt rest)))

  -- What follows the group is what skipping it from here gives, until its brace is passed.
  match_alternates_agree :
      (rest a alt p : List ℕ) (d : ℕ)
      → rest ≡ skip_group (suc d) p
      → length alt + length p < n
      → match_alternates g rest a alt p ≡ match_alternates h rest a alt p
  unfolding match_alternates skip_group
  match_alternates_agree rest a alt [] d e lt = refl
  match_alternates_agree rest a alt (c ∷ p) d e lt = elim (Bool-cases (c == b'}')) [
    | inl closed ↦ rw closed (ap (or_false) (try_alternative_agree alt p a (omega arith)))
    | inr inner ↦ elim (Bool-cases (c == b',')) [
      | inl comma ↦
          rw (inner, match_alternates)
            (rw (comma, match_alternates)
              (rw (tried comma) (
                ap
                  (λ (r : Bool). elim (try_alternative h alt rest a) [
                    | none ↦ false
                    | some hit ↦ if hit then true else r
                  ])
                  (match_alternates_agree rest a [] p d (e ∙ same_depth (ground arith) inner)
                    (omega arith)))))
      | inr other ↦
          rw (inner, match_alternates)
            (rw (other, match_alternates)
              (elim (Bool-cases (c == b'{')) [
                | inl open_ ↦
                    match_alternates_agree rest a (alt ++ c ∷ []) p (suc d) (e ∙ deeper open_)
                      (omega (arith, length-append alt (c ∷ [])))
                | inr plain ↦
                    match_alternates_agree rest a (alt ++ c ∷ []) p d (e ∙ same_depth plain inner)
                      (omega (arith, length-append alt (c ∷ [])))
              ]))
    ]
  ]
    where
      same_depth :
          (c == b'{') ≡ false
          → (c == b'}') ≡ false
          → skip_group (suc d) (c ∷ p) ≡ skip_group (suc d) p
      same_depth x y = ap (λ k. skip_group k p) (depth_same c x y)

      deeper : (c == b'{') ≡ true → skip_group (suc d) (c ∷ p) ≡ skip_group (suc (suc d)) p
      deeper x = ap (λ k. skip_group k p) (depth_deeper c x)

      tried : (c == b',') ≡ true → try_alternative g alt rest a ≡ try_alternative h alt rest a
      tried comma =
          try_alternative_agree alt rest a
            (omega (arith, ap length e, length-skip_group (next_depth c d) p))

match_impl_agree :
    (f g : ℕ) (p a : List ℕ) → length p < f → length p < g → match_impl f p a ≡ match_impl g p a
unfolding match_impl
match_impl_agree zero g p a lf lg = absurd (omega arith)
match_impl_agree (suc f) zero p a lf lg = absurd (omega arith)
match_impl_agree (suc f) (suc g) [] a lf lg = refl
match_impl_agree (suc f) (suc g) (c ∷ p) a lf lg =
    conclude (λ q b x y. match_impl_agree f g q b x y)
  where
    n : ℕ
    n = suc (length p)

    f' : List ℕ → List ℕ → Bool
    f' = match_impl f

    g' : List ℕ → List ℕ → Bool
    g' = match_impl g

    lt : length p < n
    lt = omega arith

    cases :
        match_any f' p a ≡ match_any g' p a
        → match_star f' p a ≡ match_star g' p a
        → match_class f' p a ≡ match_class g' p a
        → match_alternates f' (skip_group 1 p) a [] p ≡ match_alternates g' (skip_group 1 p) a [] p
        → match_literal f' c p a ≡ match_literal g' c p a
        → match_impl (suc f) (c ∷ p) a ≡ match_impl (suc g) (c ∷ p) a
    cases e1 e2 e3 e4 e5 = ground (arith, e1, e2, e3, e4, e5)

    conclude :
        ((q b : List ℕ) → length q < f → length q < g → f' q b ≡ g' q b)
        → match_impl (suc f) (c ∷ p) a ≡ match_impl (suc g) (c ∷ p) a
    conclude agree =
        let same : ((q b : List ℕ) → length q < n → f' q b ≡ g' q b) =
          λ q b h. agree q b (omega arith) (omega arith) in
        cases (match_any_agree n f' g' same p a lt) (match_star_agree n f' g' same p a lt)
          (match_class_agree n f' g' same p a lt)
          (match_alternates_agree n f' g' same (skip_group 1 p) a [] p 0 refl (omega arith))
          (match_literal_agree n f' g' same c p a lt)

-- The matcher answers the same for every pattern and address with any fuel above the pattern's
-- length: its recursion and its loops end by themselves, also on malformed classes and groups.
pub match_impl-osc_pattern_match :
    (fuel : ℕ) (p a : List ℕ) → length p < fuel → match_impl fuel p a ≡ osc_pattern_match p a
unfolding osc_pattern_match
match_impl-osc_pattern_match fuel p a enough =
    match_impl_agree fuel (suc (length p)) p a enough (omega arith)
