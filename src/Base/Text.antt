-- ===== src/Base/Text.antt =====
-- C strings. A `const char *` is the list of its characters before the terminating NUL, as the
-- numbers 0 to 255.
use Prim.Native.Char.{code}
use Prim.Native.String.{String}
use mathlib.Core.List.{List, [], ◌∷◌, ◌++◌}
use mathlib.Core.Bool.{Bool, true, false, ◌&&◌, ◌||◌}
use mathlib.Core.Path.{◌≡◌, refl, ap₂}
use native.Mathlib.Omega.{arith}
use open_vr_pair_driver.Base.Tests.{◌==◌, ==_refl}
use open_vr_pair_driver.Base.Maps.{IsKeyTest}
use Prim.Native.Nat.{ℕ}

-- The code points of a text: its bytes, if it is ASCII.
abbrev pub codes : String → List ℕ
codes String.[] = []
codes (String.◌∷◌ c s) = code c ∷ codes s

-- Whether a text begins with another, contains it, and ends with it: `compare` and `find` of
-- std::string.
abbrev pub has_prefix : List ℕ → List ℕ → Bool
has_prefix [] s = true
has_prefix (c ∷ w) [] = false
has_prefix (c ∷ w) (d ∷ s) = c == d && has_prefix w s

abbrev pub contains : List ℕ → List ℕ → Bool
contains w [] = has_prefix w []
contains w (c ∷ s) = has_prefix w (c ∷ s) || contains w s

pub has_prefix-append : (w s : List ℕ) → has_prefix w (w ++ s) ≡ true
has_prefix-append [] s = refl
has_prefix-append (c ∷ w) s = ground (arith, ==_refl c, has_prefix-append w s)

-- A text contains every word that stands anywhere in it.
pub contains-append : (before w after : List ℕ) → contains w (before ++ (w ++ after)) ≡ true
contains-append [] w after = begins (w ++ after) (has_prefix-append w after)
  where
    begins : (s : List ℕ) → has_prefix w s ≡ true → contains w s ≡ true
    begins [] h = h
    begins (c ∷ s) h = ground (arith, h)
contains-append (c ∷ before) w after = ground (arith, contains-append before w after)

-- Whether two texts are the same: `==` of std::string.
abbrev pub same_codes : List ℕ → List ℕ → Bool
same_codes [] [] = true
same_codes [] (d ∷ t) = false
same_codes (c ∷ s) [] = false
same_codes (c ∷ s) (d ∷ t) = c == d && same_codes s t

same_codes_sound : (s t : List ℕ) → same_codes s t ≡ true → s ≡ t
same_codes_sound [] [] h = refl
same_codes_sound [] (d ∷ t) h = cc
same_codes_sound (c ∷ s) [] h = cc
same_codes_sound (c ∷ s) (d ∷ t) h =
    ap₂ (◌∷◌) (ground (arith, h)) (same_codes_sound s t (ground (arith, h)))

same_codes_refl : (s : List ℕ) → same_codes s s ≡ true
same_codes_refl [] = refl
same_codes_refl (c ∷ s) = ground (arith, ==_refl c, same_codes_refl s)

pub same_codes-IsKeyTest : IsKeyTest same_codes
same_codes-IsKeyTest = record { sound = same_codes_sound; same_self = same_codes_refl }
