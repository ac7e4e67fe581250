-- ===== src/Osc/Pattern/Glob.antt =====
-- The matcher decides `Matches` on every pattern without groups.
use open_vr_pair_driver.Base.{
  ℕ, zero, suc, ◌<◌, ◌≡◌, refl, sym, ◌∙◌, ap, Bool, true, false, some, List, [], ◌∷◌, ◌++◌, length,
  ◌==◌, ne→==, arith, if◌then◌else◌, length-append, ◌↔◌,
}
use open_vr_pair_driver.Osc.Pattern.{
  is_end, skip_stars, match_any, match_literal, anchor, match_star, after_class, match_class,
  match_impl, osc_pattern_match, match_char_class, first,
}
use open_vr_pair_driver.Osc.Pattern.Fuel.{length-skip_stars}
use open_vr_pair_driver.Osc.Pattern.Classes.{match_char_class-negated, match_char_class-plain}
use open_vr_pair_driver.Osc.Pattern.Tokens.{
  Item, Token, any, star, lit, cls, spell, spell_items, Matches, AreTokens, any_suffix, accepts,
  matches, matches-Matches, Matches-matches,
}

-- The tokens behind the stars at the front.
abbrev drop_stars : List Token → List Token
drop_stars [] = []
drop_stars (star ∷ ts) = drop_stars ts
drop_stars (any ∷ ts) = any ∷ ts
drop_stars (lit c ∷ ts) = lit c ∷ ts
drop_stars (cls b items ∷ ts) = cls b items ∷ ts

skip_stars-spell : (ts : List Token) → AreTokens ts → skip_stars (spell ts) ≡ spell (drop_stars ts)
unfolding skip_stars
skip_stars-spell [] w = refl
skip_stars-spell (star ∷ ts) w = skip_stars-spell ts w
skip_stars-spell (any ∷ ts) w = refl
skip_stars-spell (lit c ∷ ts) w = rw (ne→== c b'*' w.0.1) refl
skip_stars-spell (cls false items ∷ ts) w = refl
skip_stars-spell (cls true items ∷ ts) w = refl

any_suffix-any_suffix :
    (g : List ℕ → Bool) (a : List ℕ) → any_suffix (any_suffix g) a ≡ any_suffix g a
any_suffix-any_suffix g [] = refl
any_suffix-any_suffix g (x ∷ a) = ground (arith, any_suffix-any_suffix g a)

-- A star takes the stars behind it in.
any_suffix-drop_stars :
    (ts : List Token) (a : List ℕ)
    → any_suffix (matches ts) a ≡ any_suffix (matches (drop_stars ts)) a
unfolding matches
any_suffix-drop_stars [] a = refl
any_suffix-drop_stars (star ∷ ts) a =
    any_suffix-any_suffix (matches ts) a ∙ any_suffix-drop_stars ts a
any_suffix-drop_stars (any ∷ ts) a = refl
any_suffix-drop_stars (lit c ∷ ts) a = refl
any_suffix-drop_stars (cls b items ∷ ts) a = refl

any_suffix-is_end : (a : List ℕ) → any_suffix is_end a ≡ true
unfolding is_end
any_suffix-is_end [] = refl
any_suffix-is_end (x ∷ a) = ground (arith, any_suffix-is_end a)

-- Where the tokens want a character, only the suffixes that have one count.
any_suffix-anchor :
    (go : List ℕ → List ℕ → Bool) (g : List ℕ → Bool) (p a : List ℕ)
    → g [] ≡ false
    → ((b : List ℕ) → go p b ≡ g b)
    → anchor go p a ≡ any_suffix g a
unfolding anchor
any_suffix-anchor go g p [] none_left same = sym none_left
any_suffix-anchor go g p (x ∷ a) none_left same =
    ground (arith, same (x ∷ a), any_suffix-anchor go g p a none_left same)

abbrev NotStar : List Token → Type 0
NotStar [] = Unit {0}
NotStar (star ∷ ts) = ⊥
NotStar (any ∷ ts) = Unit {0}
NotStar (lit c ∷ ts) = Unit {0}
NotStar (cls b items ∷ ts) = Unit {0}

drop_stars_lem :
    (ts : List Token) → AreTokens ts → NotStar (drop_stars ts) × AreTokens (drop_stars ts)
drop_stars_lem [] w = (tt, tt)
drop_stars_lem (star ∷ ts) w = drop_stars_lem ts w
drop_stars_lem (any ∷ ts) w = (tt, w)
drop_stars_lem (lit c ∷ ts) w = (tt, w)
drop_stars_lem (cls b items ∷ ts) w = (tt, w)

-- `match_star` behind its stars.
module _ (go : List ℕ → List ℕ → Bool) (a : List ℕ) where
  after_stars :
      (ts : List Token)
      → NotStar ts
      → ((b : List ℕ) → go (spell ts) b ≡ matches ts b)
      → (if is_end (spell ts) then true else anchor go (spell ts) a) ≡ any_suffix (matches ts) a
  unfolding matches is_end
  after_stars [] n same = sym (any_suffix-is_end a)
  after_stars (star ∷ ts) n same = absurd n
  after_stars (any ∷ ts) n same =
      any_suffix-anchor go (matches (any ∷ ts)) (spell (any ∷ ts)) a refl same
  after_stars (lit c ∷ ts) n same =
      any_suffix-anchor go (matches (lit c ∷ ts)) (spell (lit c ∷ ts)) a refl same
  after_stars (cls false items ∷ ts) n same =
      any_suffix-anchor go (matches (cls false items ∷ ts)) (spell (cls false items ∷ ts)) a refl
        same
  after_stars (cls true items ∷ ts) n same =
      any_suffix-anchor go (matches (cls true items ∷ ts)) (spell (cls true items ∷ ts)) a refl same

  match_star-spell :
      (ts : List Token)
      → AreTokens ts
      → ((b : List ℕ) → go (spell (drop_stars ts)) b ≡ matches (drop_stars ts) b)
      → match_star go (spell ts) a ≡ any_suffix (matches ts) a
  unfolding match_star
  match_star-spell ts w same =
      rw (skip_stars-spell ts w) (
        after_stars (drop_stars ts) (drop_stars_lem ts w).0 same ∙ sym (any_suffix-drop_stars ts a))

  match_class-spell :
      (negated : Bool) (items : List Item) (p q : List ℕ) (ts : List Token)
      → match_char_class p (first a) ≡ some (accepts negated items (first a), q)
      → ((b : List ℕ) → go q b ≡ matches ts b)
      → match_class go p a ≡ matches (cls negated items ∷ ts) a
  unfolding match_class after_class matches
  match_class-spell negated items p q ts e same = rw e (after a)
    where
      after :
          (b : List ℕ)
          → after_class go (some (accepts negated items (first b), q)) b
            ≡ matches (cls negated items ∷ ts) b
      after [] = refl
      after (x ∷ b) = ap (λ r. if accepts negated items x then r else false) (same b)

match_any-spell :
    (go : List ℕ → List ℕ → Bool) (p : List ℕ) (ts : List Token) (a : List ℕ)
    → ((b : List ℕ) → go p b ≡ matches ts b)
    → match_any go p a ≡ matches (any ∷ ts) a
unfolding match_any matches
match_any-spell go p ts [] same = refl
match_any-spell go p ts (x ∷ a) same = same a

match_literal-spell :
    (go : List ℕ → List ℕ → Bool) (c : ℕ) (p : List ℕ) (ts : List Token) (a : List ℕ)
    → ((b : List ℕ) → go p b ≡ matches ts b)
    → match_literal go c p a ≡ matches (lit c ∷ ts) a
unfolding match_literal matches
match_literal-spell go c p ts [] same = refl
match_literal-spell go c p ts (x ∷ a) same = ap (λ r. if c == x then r else false) (same a)

match_impl-spell :
    (f : ℕ) (ts : List Token) (a : List ℕ)
    → AreTokens ts
    → length (spell ts) < f
    → match_impl f (spell ts) a ≡ matches ts a
unfolding match_impl matches
match_impl-spell zero ts a w enough = absurd (omega arith)
match_impl-spell (suc f) [] a w enough = refl
match_impl-spell (suc f) (any ∷ ts) a w enough =
    match_any-spell (match_impl f) (spell ts) ts a (λ b. match_impl-spell f ts b w (omega arith))
match_impl-spell (suc f) (lit c ∷ ts) a w enough =
    rw (ne→== c b'?' w.0.0, ne→== c b'*' w.0.1, ne→== c b'[' w.0.2, ne→== c b'{' w.0.3)
      (match_literal-spell (match_impl f) c (spell ts) ts a
        (λ b. match_impl-spell f ts b w.1 (omega arith)))
match_impl-spell (suc f) (star ∷ ts) a w enough = match_star-spell (match_impl f) a ts w (λ b.
    match_impl-spell f (drop_stars ts) b (drop_stars_lem ts w).1
      (omega (arith, ap length (skip_stars-spell ts w), length-skip_stars (spell ts))))
match_impl-spell (suc f) (cls false items ∷ ts) a w enough =
    match_class-spell (match_impl f) a false items (spell_items items ++ b']' ∷ spell ts) (spell ts)
      ts (match_char_class-plain (first a) items (spell ts) w.0)
      (λ b.
        match_impl-spell f ts b w.1
          (omega (arith, length-append (spell_items items) (b']' ∷ spell ts))))
match_impl-spell (suc f) (cls true items ∷ ts) a w enough =
    match_class-spell (match_impl f) a true items (b'!' ∷ (spell_items items ++ b']' ∷ spell ts))
      (spell ts) ts (match_char_class-negated (first a) items (spell ts) w.0)
      (λ b.
        match_impl-spell f ts b w.1
          (omega (arith, length-append (spell_items items) (b']' ∷ spell ts))))

-- For every pattern without groups, of single wildcards, stars, literals, and character classes
-- (with ranges or negated), and for every address: `OscPatternMatch` answers true exactly when the
-- tokens of the pattern cover the address from end to end. (Literals are not special characters, and
-- members of classes are none of ']', '-' and '!'.)
pub osc_pattern_match-spell :
    (ts : List Token) (a : List ℕ)
    → AreTokens ts
    → (osc_pattern_match (spell ts) a ≡ true) ↔ Matches ts a
unfolding osc_pattern_match
osc_pattern_match-spell ts a w =
    let same = match_impl-spell (suc (length (spell ts))) ts a w (omega arith) in
    (λ h. matches-Matches ts a (sym same ∙ h), λ m. same ∙ Matches-matches m)
