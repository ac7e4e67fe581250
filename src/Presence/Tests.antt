-- ===== src/Presence/Tests.antt =====
-- A text that is cut, and three entries of which two have the highest priority.
use open_vr_pair_driver.Base.{
  ◌≡◌, refl, ℕ, List, [], ◌∷◌, none, some, if◌then◌else◌, zero, suc, ◌<◌, ◌≤◌, true, arith, get_or,
}
use open_vr_pair_driver.Presence.{
  PresenceEntry, PresenceComposer, idle_texts, no_entry, equal_texts, tick, clamp_utf8,
  is_continuation,
}
use open_vr_pair_driver.Presence.Clamp.{IsCodePoint, text, fitting, clamp_utf8-fitting}
use open_vr_pair_driver.Presence.Shown.{shown_texts, tick_highest}

-- An `a` and a euro sign.
abbrev euro : List (List ℕ)
euro = (97 ∷ []) ∷ (226 ∷ 130 ∷ 172 ∷ []) ∷ []

clamp_utf8-fitting_example : clamp_utf8 (text euro) 3 ≡ text (fitting 3 euro)
clamp_utf8-fitting_example = clamp_utf8-fitting euro 3 (letter, (sign, tt))
  where
    letter : IsCodePoint (97 ∷ [])
    letter = record { some_byte = omega arith; lead = refl; trail = λ i h h'. absurd (omega arith) }

    trail : (i : ℕ) → 1 ≤ i → i < 3 → is_continuation (get_or (226 ∷ 130 ∷ 172 ∷ []) i 0) ≡ true
    trail zero h h' = absurd (omega arith)
    trail (suc zero) h h' = refl
    trail (suc (suc zero)) h h' = refl
    trail (suc (suc (suc i))) h h' = absurd (omega arith)

    sign : IsCodePoint (226 ∷ 130 ∷ 172 ∷ [])
    sign = record { some_byte = omega arith; lead = refl; trail = trail }

abbrev entry : ℕ → ℕ → PresenceEntry
entry priority name = record {
  module_name = name ∷ [];
  update = record { priority = priority; details = name ∷ []; state = []; large_image_text = [] };
}

abbrev composer : PresenceComposer
composer = record {
  entries = entry 30 65 ∷ entry 50 66 ∷ entry 50 67 ∷ [];
  carousel_index = 2;
  last_carousel = 10;
  last = idle_texts;
}

tick_highest_example :
    let t = shown_texts (entry 50 66) in
    ((tick composer 7000).0.last ≡ t)
    × ((tick composer 7000).1
        ≡ (if equal_texts t idle_texts then none else some (t.state, t.details)))
tick_highest_example =
    tick_highest composer 7000 1
      (record { inside = omega arith; positive = omega arith; highest = highest; first = first })
  where
    highest : (j : ℕ) → j < 3 → (get_or composer.entries j no_entry).update.priority ≤ 50
    highest zero h = omega arith
    highest (suc zero) h = omega arith
    highest (suc (suc zero)) h = omega arith
    highest (suc (suc (suc j))) h = absurd (omega arith)

    first : (j : ℕ) → j < 1 → (get_or composer.entries j no_entry).update.priority < 50
    first zero h = omega arith
    first (suc j) h = absurd (omega arith)
