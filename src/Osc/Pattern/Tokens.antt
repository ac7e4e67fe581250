-- ===== src/Osc/Pattern/Tokens.antt =====
-- What a pattern without groups means: its tokens, their spelling, and the addresses they match.
use open_vr_pair_driver.Base.{
  ℕ, ◌+◌, ◌%◌, leb, ◌&&◌, ◌≡◌, ◌≢◌, Bool, true, false, not, List, [], ◌∷◌, ◌++◌, ◌==◌, ◌||◌, refl,
  if◌then◌else◌, inl, inr, arith, subst, Bool-cases, ==_refl,
}
use open_vr_pair_driver.Osc.Pattern.{is_end}

pub data Item : Type 0 where
  one : ℕ → Item
  range : ℕ → ℕ → Item

pub data Token : Type 0 where
  any star : Token
  lit : ℕ → Token
  cls : Bool → List Item → Token

abbrev pub spell_items : List Item → List ℕ
spell_items [] = []
spell_items (one c ∷ items) = c ∷ spell_items items
spell_items (range c d ∷ items) = c ∷ b'-' ∷ d ∷ spell_items items

abbrev pub spell : List Token → List ℕ
spell [] = []
spell (any ∷ ts) = b'?' ∷ spell ts
spell (star ∷ ts) = b'*' ∷ spell ts
spell (lit c ∷ ts) = c ∷ spell ts
spell (cls false items ∷ ts) = b'[' ∷ (spell_items items ++ b']' ∷ spell ts)
spell (cls true items ∷ ts) = b'[' ∷ b'!' ∷ (spell_items items ++ b']' ∷ spell ts)

-- A character as a number in the order of signed bytes: those from 128 on come first.
abbrev pub place : ℕ → ℕ
place x = (x + 128) % 256

abbrev pub between : ℕ → ℕ → ℕ → Bool
between c d x = leb (place c) (place x) && leb (place x) (place d)

abbrev pub in_class : ℕ → List Item → Bool
in_class x [] = false
in_class x (one c ∷ items) = x == c || in_class x items
in_class x (range c d ∷ items) = between c d x || in_class x items

-- An address matches when the tokens cover it from end to end.
pub data Matches : List Token → List ℕ → Type 0 where
  done : Matches [] []
  any_one : {ts : List Token} {x : ℕ} {a : List ℕ} → Matches ts a → Matches (any ∷ ts) (x ∷ a)
  literal : {ts : List Token} {c : ℕ} {a : List ℕ} → Matches ts a → Matches (lit c ∷ ts) (c ∷ a)
  one_of :
      {ts : List Token} {items : List Item} {x : ℕ} {a : List ℕ}
      → in_class x items ≡ true
      → Matches ts a
      → Matches (cls false items ∷ ts) (x ∷ a)
  none_of :
      {ts : List Token} {items : List Item} {x : ℕ} {a : List ℕ}
      → in_class x items ≡ false
      → Matches ts a
      → Matches (cls true items ∷ ts) (x ∷ a)
  nothing : {ts : List Token} {a : List ℕ} → Matches ts a → Matches (star ∷ ts) a
  more :
      {ts : List Token} {x : ℕ} {a : List ℕ} → Matches (star ∷ ts) a → Matches (star ∷ ts) (x ∷ a)

-- The tokens that a pattern can spell: the special characters stand for themselves nowhere.
abbrev pub IsPlain : ℕ → Type 0
IsPlain c = (c ≢ b'?') × (c ≢ b'*') × (c ≢ b'[') × (c ≢ b'{')

abbrev pub IsMember : ℕ → Type 0
IsMember c = (c ≢ b']') × (c ≢ b'-') × (c ≢ b'!')

abbrev pub AreItems : List Item → Type 0
AreItems [] = Unit {0}
AreItems (one c ∷ items) = IsMember c × AreItems items
AreItems (range c d ∷ items) = IsMember c × IsMember d × AreItems items

abbrev pub AreTokens : List Token → Type 0
AreTokens [] = Unit {0}
AreTokens (any ∷ ts) = AreTokens ts
AreTokens (star ∷ ts) = AreTokens ts
AreTokens (lit c ∷ ts) = IsPlain c × AreTokens ts
AreTokens (cls negated items ∷ ts) = AreItems items × AreTokens ts

-- The same by recursion on the tokens.
abbrev pub any_suffix : (List ℕ → Bool) → List ℕ → Bool
any_suffix g [] = g []
any_suffix g (x ∷ a) = g (x ∷ a) || any_suffix g a

abbrev pub accepts : Bool → List Item → ℕ → Bool
accepts false items x = in_class x items
accepts true items x = not (in_class x items)

unfoldable pub matches : List Token → List ℕ → Bool
unfolding is_end
matches [] a = is_end a
matches (any ∷ ts) [] = false
matches (any ∷ ts) (x ∷ a) = matches ts a
matches (lit c ∷ ts) [] = false
matches (lit c ∷ ts) (x ∷ a) = if c == x then matches ts a else false
matches (cls negated items ∷ ts) [] = false
matches (cls negated items ∷ ts) (x ∷ a) = if accepts negated items x then matches ts a else false
matches (star ∷ ts) a = any_suffix (matches ts) a

pub any_suffix_here : (g : List ℕ → Bool) (a : List ℕ) → g a ≡ true → any_suffix g a ≡ true
any_suffix_here g [] h = h
any_suffix_here g (x ∷ a) h = ground arith

any_suffix_later :
    (g : List ℕ → Bool) (x : ℕ) (a : List ℕ) → any_suffix g a ≡ true → any_suffix g (x ∷ a) ≡ true
any_suffix_later g x a h = ground arith

star_sound :
    (ts : List Token)
    → ((b : List ℕ) → matches ts b ≡ true → Matches ts b)
    → (a : List ℕ) → any_suffix (matches ts) a ≡ true
    → Matches (star ∷ ts) a
star_sound ts sound [] h = nothing (sound [] h)
star_sound ts sound (x ∷ a) h = elim (Bool-cases (matches ts (x ∷ a))) [
  | inl e ↦ nothing (sound (x ∷ a) e)
  | inr e ↦ more (star_sound ts sound a (rw e at h))
]

pub matches-Matches : (ts : List Token) (a : List ℕ) → matches ts a ≡ true → Matches ts a
unfolding matches
matches-Matches [] [] e = done
matches-Matches [] (x ∷ a) e = cc
matches-Matches (any ∷ ts) [] e = cc
matches-Matches (any ∷ ts) (x ∷ a) e = any_one (matches-Matches ts a e)
matches-Matches (lit c ∷ ts) [] e = cc
matches-Matches (lit c ∷ ts) (x ∷ a) e =
    let same : c ≡ x = ground arith in
    subst (λ y. Matches (lit c ∷ ts) (y ∷ a)) same (literal (matches-Matches ts a (ground arith)))
matches-Matches (cls negated items ∷ ts) [] e = cc
matches-Matches (cls false items ∷ ts) (x ∷ a) e =
    one_of (ground arith) (matches-Matches ts a (ground arith))
matches-Matches (cls true items ∷ ts) (x ∷ a) e =
    none_of (ground arith) (matches-Matches ts a (ground arith))
matches-Matches (star ∷ ts) a e = star_sound ts (λ b. matches-Matches ts b) a e

pub Matches-matches : {ts : List Token} {a : List ℕ} → Matches ts a → matches ts a ≡ true
unfolding matches
Matches-matches done = refl
Matches-matches (any_one m) = Matches-matches m
Matches-matches (literal {c = c} m) = rw (==_refl c) (Matches-matches m)
Matches-matches (one_of e m) = rw e (Matches-matches m)
Matches-matches (none_of e m) = rw e (Matches-matches m)
Matches-matches (nothing {ts = ts} {a = a} m) = any_suffix_here (matches ts) a (Matches-matches m)
Matches-matches (more {ts = ts} {x = x} {a = a} m) =
    any_suffix_later (matches ts) x a (Matches-matches m)
