-- ===== src/Osc/Pattern.antt =====
-- OSC 1.0 address patterns: modules/oscrouter/src/driver/OscWire.cpp. Texts are the lists of their
-- characters before the NUL; `char` is signed there, so characters are ordered as signed bytes.
pub mod Fuel
pub mod Tokens
pub mod Classes
pub mod Glob
use open_vr_pair_driver.Base.{
  ℕ, zero, suc, ◌+◌, ◌%◌, Bool, true, false, not, Option, none, some, List, [], ◌∷◌, ◌++◌, length,
  ltb, leb, ◌==◌, ◌&&◌, ◌||◌, if◌then◌else◌,
}

-- A `char` as a number with the same order.
unfoldable pub signed : ℕ → ℕ
signed c = (c + 128) % 256

unfoldable pub in_range : ℕ → ℕ → ℕ → Bool
in_range c1 c2 ch = leb (signed c1) (signed ch) && leb (signed ch) (signed c2)

-- The loop of `MatchCharClass`, up to the closing bracket or the end of the text.
unfoldable pub class_loop : ℕ → List ℕ → Bool → Bool × List ℕ
class_loop ch [] matched = (matched, [])
class_loop ch (c ∷ []) matched = if c == b']' then (matched, c ∷ []) else (matched || ch == c, [])
class_loop ch (c ∷ d ∷ []) matched =
    let single = class_loop ch (d ∷ []) (matched || ch == c) in
    if c == b']' then (matched, c ∷ d ∷ []) else single
class_loop ch (c ∷ d ∷ e ∷ p) matched =
    let single = class_loop ch (d ∷ e ∷ p) (matched || ch == c) in
    let range = class_loop ch p (matched || in_range c e ch) in
    if c == b']'
    then (matched, c ∷ d ∷ e ∷ p)
    else if d == b'-' && not (e == b']')
    then range
    else single

-- After the loop: `none` for a class that is not closed, else the answer and the rest.
unfoldable pub close_class : Bool → Bool × List ℕ → Option (Bool × List ℕ)
close_class negated (matched, []) = none
close_class negated (matched, c ∷ p) = some ((if negated then not matched else matched), p)

unfoldable pub match_char_class : List ℕ → ℕ → Option (Bool × List ℕ)
match_char_class [] ch = none
match_char_class (c ∷ p) ch =
    if c == b'!'
    then close_class true (class_loop ch p false)
    else close_class false (class_loop ch (c ∷ p) false)

-- The address is at its end.
unfoldable pub is_end : List ℕ → Bool
is_end [] = true
is_end (x ∷ a) = false

-- `while (*p == '*') ++p;`
unfoldable pub skip_stars : List ℕ → List ℕ
skip_stars [] = []
skip_stars (c ∷ p) = if c == b'*' then skip_stars p else c ∷ p

-- The depth behind a character, where a group is being skipped.
unfoldable pub next_depth : ℕ → ℕ → ℕ
next_depth c depth = if c == b'{' then suc (suc depth) else if c == b'}' then depth else suc depth

-- From behind an opening brace: what follows the brace that closes it.
unfoldable pub skip_group : ℕ → List ℕ → List ℕ
skip_group zero p = p
skip_group (suc depth) [] = []
skip_group (suc depth) (c ∷ p) = skip_group (next_depth c depth) p

-- `*a`, which is the NUL at the end.
abbrev first : List ℕ → ℕ
first [] = 0
first (x ∷ a) = x

abbrev or_false : Option Bool → Bool
or_false none = false
or_false (some b) = b

-- The cases of `PatternMatchImpl`, with `go` for its call of itself.
module _ (go : List ℕ → List ℕ → Bool) where
  unfoldable pub match_any : List ℕ → List ℕ → Bool
  match_any p [] = false
  match_any p (x ∷ a) = go p a

  unfoldable pub match_literal : ℕ → List ℕ → List ℕ → Bool
  match_literal c p [] = false
  match_literal c p (x ∷ a) = if c == x then go p a else false

  -- The `for` loop over what is left of the address.
  unfoldable pub anchor : List ℕ → List ℕ → Bool
  anchor p [] = false
  anchor p (x ∷ a) = let later = anchor p a in if go p (x ∷ a) then true else later

  unfoldable pub match_star : List ℕ → List ℕ → Bool
  match_star p a = let q = skip_stars p in if is_end q then true else anchor q a

  unfoldable pub after_class : Option (Bool × List ℕ) → List ℕ → Bool
  after_class none a = false
  after_class (some (hit, q)) [] = false
  after_class (some (hit, q)) (x ∷ a) = if hit then go q a else false

  unfoldable pub match_class : List ℕ → List ℕ → Bool
  match_class p a = after_class (match_char_class p (first a)) a

  -- One alternative of a group with what follows the group, in a buffer of 256 bytes: `none` where
  -- they do not fit.
  unfoldable pub try_alternative : List ℕ → List ℕ → List ℕ → Option Bool
  try_alternative alt rest a =
      if leb 255 (length alt) || leb 256 (length alt + length rest)
      then none
      else some (go (alt ++ rest) a)

  -- `MatchAlternates`: `alt` is the text between `start` and `p`.
  unfoldable pub match_alternates : List ℕ → List ℕ → List ℕ → List ℕ → Bool
  match_alternates rest a alt [] = false
  match_alternates rest a alt (c ∷ p) =
      let next = match_alternates rest a [] p in
      let longer = match_alternates rest a (alt ++ c ∷ []) p in
      if c == b'}'
      then or_false (try_alternative alt p a)
      else if c == b','
      then elim (try_alternative alt rest a) [
        | none ↦ false
        | some hit ↦ if hit then true else next
      ]
      else longer

-- `PatternMatchImpl`, with fuel for its loop and its calls of itself.
unfoldable pub match_impl : ℕ → List ℕ → List ℕ → Bool
match_impl zero p a = false
match_impl (suc fuel) [] a = is_end a
match_impl (suc fuel) (c ∷ p) a =
    if c == b'?'
    then match_any (match_impl fuel) p a
    else if c == b'*'
    then match_star (match_impl fuel) p a
    else if c == b'['
    then match_class (match_impl fuel) p a
    else if c == b'{'
    then match_alternates (match_impl fuel) (skip_group 1 p) a [] p
    else match_literal (match_impl fuel) c p a

-- `OscPatternMatch` of two texts.
unfoldable pub osc_pattern_match : List ℕ → List ℕ → Bool
osc_pattern_match pattern_ address = match_impl (suc (length pattern_)) pattern_ address
