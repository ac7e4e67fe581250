-- ===== src/Presence.antt =====
-- PresenceComposer of core/src/overlay/DiscordPresenceComposer.h and .cpp. A text is the list of its
-- bytes, times are in milliseconds, and a priority is not negative.
pub mod Clamp
pub mod Shown
mod Tests
use open_vr_pair_driver.Base.{
  ℕ, zero, suc, ◌+◌, ◌-◌, ◌/◌, ◌%◌, ◌^◌, Bool, true, false, not, Option, none, some, List, [], ◌∷◌,
  ◌++◌, length, take, get_or, ltb, leb, ◌==◌, ◌&&◌, if◌then◌else◌, codes,
}

abbrev pub discord_max_text_bytes : ℕ
discord_max_text_bytes = 128

abbrev pub idle_carousel_ms : ℕ
idle_carousel_ms = 6000

-- A byte from 0x80 to 0xBF.
abbrev pub is_continuation : ℕ → Bool
is_continuation b = b / 64 == 2

-- Where the walk back from a place stops.
unfoldable pub cut_at : List ℕ → ℕ → ℕ
cut_at s zero = zero
cut_at s (suc n) =
    let back = cut_at s n in if is_continuation (get_or s (suc n) 0) then back else suc n

unfoldable pub clamp_utf8 : List ℕ → ℕ → List ℕ
clamp_utf8 s max_bytes = if leb (length s) max_bytes then s else take (cut_at s max_bytes) s

pub record PresenceUpdate : Type 0 where
  pub priority : ℕ
  pub details : List ℕ
  pub state : List ℕ
  pub large_image_text : List ℕ

pub record PresenceEntry : Type 0 where
  pub module_name : List ℕ
  pub update : PresenceUpdate

-- The three texts that were composed last.
pub record Texts : Type 0 where
  pub details : List ℕ
  pub state : List ℕ
  pub large_image_text : List ℕ

pub record PresenceComposer : Type 0 where
  pub entries : List PresenceEntry
  pub carousel_index : ℕ
  pub last_carousel : ℕ
  pub last : Texts

unfoldable pub begin_frame : PresenceComposer → PresenceComposer
begin_frame p = record p { entries = [] }

unfoldable pub submit : PresenceComposer → List ℕ → PresenceUpdate → PresenceComposer
submit p module_name u = record p {
  entries =
      p.entries
      ++ record {
        module_name = module_name;
        update = record u {
          details = clamp_utf8 u.details discord_max_text_bytes;
          state = clamp_utf8 u.state discord_max_text_bytes;
          large_image_text = clamp_utf8 u.large_image_text discord_max_text_bytes;
        };
      }
        ∷ [];
}

abbrev pub idle_texts : Texts
idle_texts = record {
  details = codes "WKOpenVR ready";
  state = codes "No modules enabled";
  large_image_text = codes "WKOpenVR";
}

-- `==` of std::string.
unfoldable pub equal_text : List ℕ → List ℕ → Bool
equal_text [] [] = true
equal_text [] (d ∷ t) = false
equal_text (c ∷ s) [] = false
equal_text (c ∷ s) (d ∷ t) = c == d && equal_text s t

abbrev pub equal_texts : Texts → Texts → Bool
equal_texts a b =
    equal_text a.details b.details
    && (equal_text a.state b.state && equal_text a.large_image_text b.large_image_text)

-- The end of `Tick`: the texts are kept, and the state and the details handed to
-- DiscordPresence_SetState, if they are not the last ones.
unfoldable pub push : PresenceComposer → Texts → PresenceComposer × Option (List ℕ × List ℕ)
push p t =
    if equal_texts t p.last then (p, none) else (record p { last = t }, some (t.state, t.details))

unfoldable pub max_priority : List PresenceEntry → ℕ → ℕ
max_priority [] m = m
max_priority (e ∷ es) m = max_priority es (if ltb m e.update.priority then e.update.priority else m)

-- The index of the first entry with a priority, counted from `i`, and 0 if there is none.
unfoldable pub first_at : ℕ → List PresenceEntry → ℕ → ℕ
first_at m [] i = 0
first_at m (e ∷ es) i =
    let rest = first_at m es (suc i) in if e.update.priority == m then i else rest

unfoldable pub texts_of : PresenceEntry → Texts
texts_of e = record {
  details = e.update.details;
  state = e.update.state;
  large_image_text =
      clamp_utf8
        (if length e.update.large_image_text == 0
          then codes "WKOpenVR"
          else e.update.large_image_text)
        discord_max_text_bytes;
}

-- The step of the carousel.
unfoldable pub advance : PresenceComposer → ℕ → PresenceComposer
advance p now =
    if leb idle_carousel_ms (now - p.last_carousel)
    then record p { last_carousel = now; carousel_index = (p.carousel_index + 1) % 2 ^ 64 }
    else p

abbrev pub no_entry : PresenceEntry
no_entry = record {
  module_name = [];
  update = record { priority = 0; details = []; state = []; large_image_text = [] };
}

-- The composer after the choice of the winner, and its index.
unfoldable pub choose : PresenceComposer → ℕ → PresenceComposer × ℕ
choose p now =
    let m = max_priority p.entries 0 in
    let p' = advance p now in
    if m == 0
    then (p', p'.carousel_index % length p.entries)
    else (record p { carousel_index = 0; last_carousel = now }, first_at m p.entries 0)

-- `Tick` at the time `now`.
unfoldable pub tick : PresenceComposer → ℕ → PresenceComposer × Option (List ℕ × List ℕ)
tick p now =
    let (p', winner) = choose p now in
    if length p.entries == 0
    then push p idle_texts
    else push p' (texts_of (get_or p.entries winner no_entry))
