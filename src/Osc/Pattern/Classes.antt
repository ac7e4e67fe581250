-- ===== src/Osc/Pattern/Classes.antt =====
-- The matcher's character classes against their items.
use open_vr_pair_driver.Base.{
  ℕ, ◌≡◌, ◌≢◌, refl, ◌∙◌, ap, Bool, true, false, some, List, [], ◌∷◌, ◌++◌, ◌==◌, ◌||◌, ne→==,
  arith,
}
use open_vr_pair_driver.Osc.Pattern.{in_range, signed, class_loop, close_class, match_char_class}
use open_vr_pair_driver.Osc.Pattern.Tokens.{
  Item, one, range, spell_items, between, in_class, AreItems, accepts,
}

or_assoc : (a b c : Bool) → ((a || b) || c) ≡ (a || (b || c))
or_assoc a b c = ground arith

-- A character that no range begins with.
single_step :
    (ch c d : ℕ) (p : List ℕ) (m : Bool)
    → c ≢ b']'
    → d ≢ b'-'
    → class_loop ch (c ∷ d ∷ p) m ≡ class_loop ch (d ∷ p) (m || ch == c)
unfolding class_loop
single_step ch c d [] m h k = rw (ne→== c b']' h) refl
single_step ch c d (e ∷ p) m h k = rw (ne→== c b']' h, ne→== d b'-' k) refl

range_step :
    (ch c e : ℕ) (p : List ℕ) (m : Bool)
    → c ≢ b']'
    → e ≢ b']'
    → class_loop ch (c ∷ b'-' ∷ e ∷ p) m ≡ class_loop ch p (m || between c e ch)
unfolding class_loop in_range signed
range_step ch c e p m h k = rw (ne→== c b']' h, ne→== e b']' k) refl

closing_step :
    (ch : ℕ) (rest : List ℕ) (m : Bool) → class_loop ch (b']' ∷ rest) m ≡ (m || false, b']' ∷ rest)
unfolding class_loop
closing_step ch [] m = ground arith
closing_step ch (x ∷ []) m = ground arith
closing_step ch (x ∷ y ∷ rest) m = ground arith

regroup :
    (rest : List ℕ) (a b c : Bool)
    → ◌≡◌ {A = Bool × List ℕ} ((a || b) || c, b']' ∷ rest) (a || (b || c), b']' ∷ rest)
regroup rest a b c = ap (λ m. (m, b']' ∷ rest)) (or_assoc a b c)

class_loop-spell_items :
    (ch : ℕ) (items : List Item) (rest : List ℕ) (m : Bool)
    → AreItems items
    → class_loop ch (spell_items items ++ b']' ∷ rest) m ≡ (m || in_class ch items, b']' ∷ rest)
class_loop-spell_items ch [] rest m w = closing_step ch rest m
class_loop-spell_items ch (one c ∷ []) rest m w =
    single_step ch c b']' rest m w.0.0 (omega arith)
    ∙ class_loop-spell_items ch [] rest (m || ch == c) tt
    ∙ regroup rest m (ch == c) false
class_loop-spell_items ch (one c ∷ one d ∷ items) rest m w =
    single_step ch c d (spell_items items ++ b']' ∷ rest) m w.0.0 w.1.0.1
    ∙ class_loop-spell_items ch (one d ∷ items) rest (m || ch == c) w.1
    ∙ regroup rest m (ch == c) (in_class ch (one d ∷ items))
class_loop-spell_items ch (one c ∷ range d e ∷ items) rest m w =
    single_step ch c d (b'-' ∷ e ∷ (spell_items items ++ b']' ∷ rest)) m w.0.0 w.1.0.1
    ∙ class_loop-spell_items ch (range d e ∷ items) rest (m || ch == c) w.1
    ∙ regroup rest m (ch == c) (in_class ch (range d e ∷ items))
class_loop-spell_items ch (range c d ∷ items) rest m w =
    range_step ch c d (spell_items items ++ b']' ∷ rest) m w.0.0 w.1.0
    ∙ class_loop-spell_items ch items rest (m || between c d ch) w.2
    ∙ regroup rest m (between c d ch) (in_class ch items)

pub match_char_class-negated :
    (ch : ℕ) (items : List Item) (rest : List ℕ)
    → AreItems items
    → match_char_class (b'!' ∷ (spell_items items ++ b']' ∷ rest)) ch
      ≡ some (accepts true items ch, rest)
unfolding match_char_class close_class
match_char_class-negated ch items rest w =
    ap (close_class true) (class_loop-spell_items ch items rest false w)

pub match_char_class-plain :
    (ch : ℕ) (items : List Item) (rest : List ℕ)
    → AreItems items
    → match_char_class (spell_items items ++ b']' ∷ rest) ch ≡ some (accepts false items ch, rest)
unfolding match_char_class close_class
match_char_class-plain ch [] rest w =
    ap (close_class false) (class_loop-spell_items ch [] rest false w)
match_char_class-plain ch (one c ∷ items) rest w =
    rw (ne→== c b'!' w.0.2, match_char_class)
      (ap (close_class false) (class_loop-spell_items ch (one c ∷ items) rest false w))
match_char_class-plain ch (range c d ∷ items) rest w =
    rw (ne→== c b'!' w.0.2, match_char_class)
      (ap (close_class false) (class_loop-spell_items ch (range c d ∷ items) rest false w))
