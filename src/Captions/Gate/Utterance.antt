-- ===== src/Captions/Gate/Utterance.antt =====
-- Which audio becomes one transcript.
use open_vr_pair_driver.Base.{
  ℕ, ◌+◌, ◌<◌, ◌≡◌, refl, sym, ap, ap₂, ◌∙◌, subst, Bool, true, false, Option, none, some, List, [],
  ◌∷◌, ◌++◌, append-nil, append_assoc, length, ltb, leb, if◌then◌else◌, if_true, if_false, arith,
  lt→leb, le→leb,
}
use open_vr_pair_driver.Captions.Gate.{
  Gate, idle, listening, silence_frames, shortest, transcribe, vad_frame, ptt_frame, gate_frame,
}

-- A frame as it is captured: whether the detector hears speech in it, and its samples.
abbrev pub Heard : Type 0
Heard = Bool × List ℕ

abbrev pub samples : List Heard → List ℕ
samples [] = []
samples ((l, f) ∷ fs) = f ++ samples fs

abbrev pub also : Option (List ℕ) → List (List ℕ) → List (List ℕ)
also o rest = elim o [ none ↦ rest | some audio ↦ audio ∷ rest ]

-- The frames in the always-on mode: the state after them, and the audio that is transcribed.
abbrev pub listens : Gate → List Heard → Gate × List (List ℕ)
listens g [] = (g, [])
listens g ((l, f) ∷ fs) =
    let (g', out) = gate_frame g true (some l) false f in
    let (end, rest) = listens g' fs in (end, also out rest)

-- Silence never lasts 20 frames, counted on from `n`.
abbrev pub GoesOn : ℕ → List Heard → Type 0
GoesOn n [] = Unit {0}
GoesOn n ((true, f) ∷ fs) = GoesOn 0 fs
GoesOn n ((false, f) ∷ fs) = (n + 1 < silence_frames) × GoesOn (n + 1) fs

-- How many frames of silence stand at the end.
abbrev pub quiet : ℕ → List Heard → ℕ
quiet n [] = n
quiet n ((true, f) ∷ fs) = quiet 0 fs
quiet n ((false, f) ∷ fs) = quiet (n + 1) fs

-- The audio is transcribed if it has at least 1600 samples.
abbrev pub long_enough : List ℕ → List (List ℕ)
long_enough audio = if ltb (length audio) shortest then [] else audio ∷ []

-- The gate in speech, with the audio so far.
abbrev speaking : Gate → ℕ → List ℕ → Gate
speaking g n audio = record g { silence_count = n; in_speech = true; speech_buf = audio }

abbrev pub at_rest : Gate → ℕ → Gate
at_rest g n = record g { silence_count = n; in_speech = false; speech_buf = []; status = idle }

-- A frame's outcome, and the frames behind it.
abbrev onward : Gate × Option (List ℕ) → List Heard → Gate × List (List ℕ)
onward (g, out) fs = let (end, rest) = listens g fs in (end, also out rest)

also_if :
    (b : Bool) (audio : List ℕ)
    → also (if b then none else some audio) [] ≡ (if b then [] else audio ∷ [])
also_if true audio = refl
also_if false audio = refl

speaks-on :
    (g : Gate) (n : ℕ) (audio : List ℕ) (fs : List Heard) (last : List ℕ)
    → GoesOn n fs
    → quiet n fs + 1 ≡ silence_frames
    → listens (speaking g n audio) (fs ++ (false, last) ∷ [])
      ≡ (at_rest g silence_frames, long_enough (audio ++ samples fs))
unfolding gate_frame vad_frame transcribe
speaks-on g n audio [] last goes_on ends =
    ap (λ x. onward x [])
      (if_true {b = leb silence_frames (n + 1)} _
        (le→leb silence_frames (n + 1) (omega (arith, ends))))
    ∙ ap₂ (λ m o. (at_rest g m, o)) ends
        (also_if (ltb (length audio) shortest) audio ∙ ap long_enough (sym (append-nil audio)))
speaks-on g n audio ((true, f) ∷ fs) last goes_on ends =
    speaks-on g 0 (audio ++ f) fs last goes_on ends
    ∙ ap (λ a. (at_rest g silence_frames, long_enough a)) (append_assoc audio f (samples fs))
speaks-on g n audio ((false, f) ∷ fs) last (short, goes_on) ends =
    ap (λ x. onward x (fs ++ (false, last) ∷ []))
      (if_false {b = leb silence_frames (n + 1)} _ (lt→leb silence_frames (n + 1) short))
    ∙ speaks-on g (n + 1) (audio ++ f) fs last goes_on ends
    ∙ ap (λ a. (at_rest g silence_frames, long_enough a)) (append_assoc audio f (samples fs))

-- In the always-on mode: audio that begins with a loud frame, in which silence never lasts 20 frames
-- until 20 silent frames end it, is transcribed as one piece, from the first loud frame up to but not
-- including the last silent one, if that is at least 1600 samples long; the gate is then at rest. It
-- does not matter what the gate had buffered before.
pub listens-utterance :
    (g : Gate) (first last : List ℕ) (fs : List Heard)
    → g.in_speech ≡ false
    → GoesOn 0 fs
    → quiet 0 fs + 1 ≡ silence_frames
    → listens g ((true, first) ∷ (fs ++ (false, last) ∷ []))
      ≡ (at_rest g silence_frames, long_enough (first ++ samples fs))
unfolding gate_frame vad_frame
listens-utterance g first last fs silent goes_on ends =
    ap
      (λ (s : Gate).
        onward (record s { silence_count = 0; speech_buf = s.speech_buf ++ first }, none)
          (fs ++ (false, last) ∷ []))
      (if_false {b = g.in_speech} g silent)
    ∙ speaks-on (record g { status = listening }) 0 first fs last goes_on ends

-- The frames in the push-to-talk mode while the button is held.
abbrev pub holds : Gate → List (List ℕ) → Gate × List (List ℕ)
holds g [] = (g, [])
holds g (f ∷ fs) =
    let (g', out) = gate_frame g false none true f in
    let (end, rest) = holds g' fs in (end, also out rest)

abbrev pub joined : List (List ℕ) → List ℕ
joined [] = []
joined (f ∷ fs) = f ++ joined fs

-- The gate while the button is held, with the audio so far.
abbrev pressed : Gate → List ℕ → Gate
pressed g audio = record g { ptt_was_held = true; speech_buf = audio }

held_on :
    (g : Gate) (audio : List ℕ) (fs : List (List ℕ))
    → holds (pressed g audio) fs ≡ (pressed g (audio ++ joined fs), [])
unfolding gate_frame ptt_frame
held_on g audio [] = ap (λ a. (pressed g a, [])) (sym (append-nil audio))
held_on g audio (f ∷ fs) =
    held_on g (audio ++ f) fs ∙ ap (λ a. (pressed g a, [])) (append_assoc audio f (joined fs))

held_from :
    (g : Gate) (first : List ℕ) (fs : List (List ℕ))
    → g.ptt_was_held ≡ false
    → holds g (first ∷ fs) ≡ (pressed (record g { status = listening }) (first ++ joined fs), [])
unfolding gate_frame ptt_frame
held_from g first fs released =
    ap (λ (s : Gate). holds (pressed s (s.speech_buf ++ first)) fs)
      (if_false {b = g.ptt_was_held} g released)
    ∙ held_on (record g { status = listening }) first fs

-- In the push-to-talk mode: what is captured while the button is held, from the first frame on, is
-- transcribed as one piece when the first frame comes after it was released, if that is at least 1600
-- samples long. It does not matter what the gate had buffered before.
pub holds-released :
    (g : Gate) (first after : List ℕ) (fs : List (List ℕ))
    → g.ptt_was_held ≡ false
    → let (g', early) = holds g (first ∷ fs) in
      let (end, out) = gate_frame g' false none false after in
      (early ≡ [])
      × (also out [] ≡ long_enough (first ++ joined fs))
      × (end.ptt_was_held ≡ false)
      × (end.speech_buf ≡ [])
unfolding gate_frame ptt_frame transcribe
holds-released g first after fs released =
    subst
      (λ (x : Gate × List (List ℕ)).
        let (end, out) = gate_frame x.0 false none false after in
        (x.1 ≡ [])
        × (also out [] ≡ long_enough (first ++ joined fs))
        × (end.ptt_was_held ≡ false)
        × (end.speech_buf ≡ []))
      (sym (held_from g first fs released))
      (refl, also_if (ltb (length (first ++ joined fs)) shortest) (first ++ joined fs), refl, refl)
