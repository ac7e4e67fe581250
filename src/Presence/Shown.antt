-- ===== src/Presence/Shown.antt =====
-- What a tick shows.
use open_vr_pair_driver.Base.{
  ℕ, zero, suc, ◌+◌, ◌-◌, ◌≤◌, ◌<◌, ◌≡◌, ◌≢◌, ◌⊎◌, refl, ap, ap₂, sym, ◌∙◌, true, false, none, some,
  List, [], ◌∷◌, codes, length, get_or, ltb, leb, ◌==◌, if◌then◌else◌, inl, inr, Bool-cases,
  if_true, if_false, arith, ==_refl,
}
use open_vr_pair_driver.Presence.{
  PresenceEntry, Texts, PresenceComposer, idle_carousel_ms, equal_text, equal_texts, push,
  max_priority, first_at, texts_of, clamp_utf8, advance, no_entry, choose, tick,
}

equal_text_sound : (s t : List ℕ) → equal_text s t ≡ true → s ≡ t
unfolding equal_text
equal_text_sound [] [] h = refl
equal_text_sound [] (d ∷ t) h = ground (arith, h)
equal_text_sound (c ∷ s) [] h = ground (arith, h)
equal_text_sound (c ∷ s) (d ∷ t) h =
    ap₂ (◌∷◌) (ground (arith, h)) (equal_text_sound s t (ground (arith, h)))

equal_text_refl : (s : List ℕ) → equal_text s s ≡ true
unfolding equal_text
equal_text_refl [] = refl
equal_text_refl (c ∷ s) = ground (arith, ==_refl c, equal_text_refl s)

-- The entry at `i` is the first of those with the highest priority, which is not 0.
pub record IsFirstHighest (es : List PresenceEntry) (i : ℕ) : Type 0 where
  pub inside : i < length es
  pub positive : 1 ≤ (get_or es i no_entry).update.priority
  pub highest :
      (j : ℕ)
      → j < length es
      → (get_or es j no_entry).update.priority ≤ (get_or es i no_entry).update.priority
  pub first :
      (j : ℕ)
      → j < i
      → (get_or es j no_entry).update.priority < (get_or es i no_entry).update.priority

abbrev pub priority_at : List PresenceEntry → ℕ → ℕ
priority_at es i = (get_or es i no_entry).update.priority

max_priority_above : (es : List PresenceEntry) (m : ℕ) → m ≤ max_priority es m
unfolding max_priority
max_priority_above [] m = omega arith
max_priority_above (e ∷ es) m = elim (Bool-cases (ltb m e.update.priority)) [
  | inl up ↦ rw (up, if◌then◌else◌) (ground (arith, up, max_priority_above es e.update.priority))
  | inr keep ↦ rw (keep, if◌then◌else◌) (max_priority_above es m)
]

max_priority_all :
    (es : List PresenceEntry) (m j : ℕ) → j < length es → priority_at es j ≤ max_priority es m
unfolding max_priority
max_priority_all [] m j h = absurd (omega arith)
max_priority_all (e ∷ es) m zero h = elim (Bool-cases (ltb m e.update.priority)) [
  | inl up ↦ rw (up, if◌then◌else◌) (max_priority_above es e.update.priority)
  | inr keep ↦ rw (keep, if◌then◌else◌) (ground (arith, keep, max_priority_above es m))
]
max_priority_all (e ∷ es) m (suc j) h =
    max_priority_all es (if ltb m e.update.priority then e.update.priority else m) j (omega arith)

-- The highest priority is the one to begin with or that of an entry.
max_priority_some :
    (es : List PresenceEntry) (m : ℕ)
    → (max_priority es m ≡ m) ⊎ ((j : ℕ) × (j < length es) × (priority_at es j ≡ max_priority es m))
unfolding max_priority
max_priority_some [] m = inl refl
max_priority_some (e ∷ es) m = elim (Bool-cases (ltb m e.update.priority)) [
  | inl up ↦
      rw (up, if◌then◌else◌)
        (elim (max_priority_some es e.update.priority) [
          | inl same ↦ inr (0, omega arith, sym same)
          | inr (j, h, at) ↦ inr (suc j, omega (arith, h), at)
        ])
  | inr keep ↦
      rw (keep, if◌then◌else◌)
        (elim (max_priority_some es m) [
          | inl same ↦ inl same
          | inr (j, h, at) ↦ inr (suc j, omega (arith, h), at)
        ])
]

not_before :
    (e : PresenceEntry) (es : List PresenceEntry) (m k : ℕ)
    → (e.update.priority == m) ≡ false
    → ((l : ℕ) → l < k → priority_at es l ≢ m)
    → (l : ℕ) → l < suc k
    → priority_at (e ∷ es) l ≢ m
not_before e es m k other before zero h same = ground (arith, other, same)
not_before e es m k other before (suc l) h same = before l (omega arith) same

-- The search finds the first entry of a priority that one has.
first_at_found :
    (m : ℕ) (es : List PresenceEntry) (i j : ℕ)
    → j < length es
    → priority_at es j ≡ m
    → (k : ℕ) × (first_at m es i ≡ i + k)
      × (k < length es)
      × (priority_at es k ≡ m)
      × ((l : ℕ) → l < k → priority_at es l ≢ m)
unfolding first_at
first_at_found m [] i j h at = absurd (omega arith)
first_at_found m (e ∷ es) i zero h at = (
  0,
  if_true {b = e.update.priority == m} _ (ground (arith, at)) ∙ omega arith,
  omega arith,
  at,
  λ l small. absurd (omega arith),
)
first_at_found m (e ∷ es) i (suc j) h at = elim (Bool-cases (e.update.priority == m)) [
  | inl here ↦ (
    0,
    if_true _ here ∙ omega arith,
    omega arith,
    ground (arith, here),
    λ l small. absurd (omega arith),
  )
  | inr other ↦
      let (k, e', inside, at', before) = first_at_found m es (suc i) j (omega arith) at in
      (
        suc k,
        if_false _ other ∙ (e' ∙ omega arith),
        omega (arith, inside),
        at',
        not_before e es m k other before,
      )
]

abbrev texts : List ℕ → List ℕ → List ℕ → Texts
texts details state image = record { details = details; state = state; large_image_text = image }

equal_texts_sound : (a b : Texts) → equal_texts a b ≡ true → a ≡ b
equal_texts_sound a b h =
    let details = equal_text_sound a.details b.details (ground (arith, h)) in
    let state = equal_text_sound a.state b.state (ground (arith, h)) in
    let image = equal_text_sound a.large_image_text b.large_image_text (ground (arith, h)) in
    ap (λ d. texts d a.state a.large_image_text) details
    ∙ (ap (λ s. texts b.details s a.large_image_text) state
        ∙ ap (λ l. texts b.details b.state l) image)

push_last :
    (p : PresenceComposer) (t : Texts)
    → ((push p t).0.last ≡ t)
      × ((push p t).1 ≡ (if equal_texts t p.last then none else some (t.state, t.details)))
unfolding push
push_last p t = elim (Bool-cases (equal_texts t p.last)) [
  | inl same ↦ rw (same, if◌then◌else◌) (sym (equal_texts_sound t p.last same), refl)
  | inr new ↦ rw (new, if◌then◌else◌) (refl, refl)
]

choose_highest :
    (p : PresenceComposer) (now i : ℕ) → IsFirstHighest p.entries i → (choose p now).1 ≡ i
unfolding choose
choose_highest p now i f =
    let top : max_priority p.entries 0 ≡ priority_at p.entries i =
      elim (max_priority_some p.entries 0) [
        | inl none_ ↦ omega (arith, none_, f.positive, max_priority_all p.entries 0 i f.inside)
        | inr (j, h, at) ↦ omega (arith, at, f.highest j h, max_priority_all p.entries 0 i f.inside)
      ] in
    let some_ : (max_priority p.entries 0 == 0) ≡ false = ground (arith, top, f.positive) in
    let (k, found, inside, at, before) =
      first_at_found (max_priority p.entries 0) p.entries 0 i f.inside (sym top) in
    ap (λ (r : PresenceComposer × ℕ). r.1) (if_false {b = max_priority p.entries 0 == 0} _ some_)
    ∙ (found ∙ elim (Bool-cases (ltb k i)) [
      | inl early ↦ absurd (omega (arith, f.first k (ground (arith, early)), at, top))
      | inr late ↦ elim (Bool-cases (ltb i k)) [
        | inl missed ↦ absurd (before i (ground (arith, missed)) (sym top))
        | inr near ↦ ground (arith, late, near)
      ]
    ])

choose_last : (p : PresenceComposer) (now : ℕ) → (choose p now).0.last ≡ p.last
unfolding choose advance
choose_last p now = elim (Bool-cases (max_priority p.entries 0 == 0)) [
  | inl idle ↦
      rw (idle, if◌then◌else◌)
        (elim (Bool-cases (leb idle_carousel_ms (now - p.last_carousel))) [
          | inl due ↦ rw (due, if◌then◌else◌) refl
          | inr early ↦ rw (early, if◌then◌else◌) refl
        ])
  | inr busy ↦ rw (busy, if◌then◌else◌) refl
]

-- The texts of an entry, where the image has a text of its own if the entry has none.
abbrev pub shown_texts : PresenceEntry → Texts
shown_texts e = record {
  details = e.update.details;
  state = e.update.state;
  large_image_text =
      clamp_utf8
        (if length e.update.large_image_text == 0
          then codes "WKOpenVR"
          else e.update.large_image_text)
        128;
}

-- When an entry has a priority above 0, a tick composes the texts of the first of the entries with
-- the highest priority, the image's clamped to 128 bytes and replaced if it is empty, whatever the state of the carousel, and hands them to Discord exactly when
-- they differ from the last ones.
pub tick_highest :
    (p : PresenceComposer) (now i : ℕ)
    → IsFirstHighest p.entries i
    → let t = shown_texts (get_or p.entries i no_entry) in
      ((tick p now).0.last ≡ t)
      × ((tick p now).1 ≡ (if equal_texts t p.last then none else some (t.state, t.details)))
unfolding tick texts_of
tick_highest p now i f =
    let t = shown_texts (get_or p.entries i no_entry) in
    let some_ : (length p.entries == 0) ≡ false = ground (arith, f.inside) in
    let (last, out) = push_last (choose p now).0 t in
    rw (some_, if◌then◌else◌)
      (rw (choose_highest p now i f) (
        last,
        out
            ∙ ap (λ l. if equal_texts t l then none else some (t.state, t.details))
                (choose_last p now),
      ))
