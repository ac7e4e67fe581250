-- ===== src/Captions/Gate.antt =====
-- The gate of the captions host, in the main loop of modules/captions/src/host/main.cpp: which
-- captured audio is transcribed. Samples are bit patterns of floats. The voice detector, the speech
-- recognition and the translation are parameters.
pub mod Utterance
use open_vr_pair_driver.Base.{
  ℕ, ◌+◌, Bool, true, false, not, Option, none, some, List, [], ◌∷◌, ◌++◌, length, ltb, leb, ◌==◌,
  if◌then◌else◌,
}
use open_vr_pair_driver.Pacer.{ChatboxPacer, enqueue}

pub data HostState : Type 0 where
  idle listening transcribing : HostState

-- The variables of the loop; `status` is what the status file shows.
pub record Gate : Type 0 where
  pub silence_count : ℕ
  pub in_speech : Bool
  pub ptt_was_held : Bool
  pub speech_buf : List ℕ
  pub status : HostState

-- kSilenceFrames, and the samples of 100 ms.
abbrev pub silence_frames : ℕ
silence_frames = 20

abbrev pub shortest : ℕ
shortest = 1600

-- Behind the label `transcribe`: the audio that goes to the speech recognition, if any. The states
-- that are shown meanwhile are left out.
unfoldable pub transcribe : Gate → Gate × Option (List ℕ)
transcribe g = (
  record g { speech_buf = []; status = idle },
  if ltb (length g.speech_buf) shortest then none else some g.speech_buf,
)

-- A frame in the always-on mode; `loud` is whether the detector's probability reaches the threshold.
unfoldable pub vad_frame : Gate → Bool → List ℕ → Gate × Option (List ℕ)
vad_frame g loud frame =
    let started : Gate =
      if g.in_speech
      then g
      else record g { in_speech = true; speech_buf = []; status = listening } in
    let count = g.silence_count + 1 in
    if loud
    then (record started { silence_count = 0; speech_buf = started.speech_buf ++ frame }, none)
    else if g.in_speech
    then if leb silence_frames count
      then transcribe (record g { silence_count = count; in_speech = false; status = transcribing })
      else (record g { silence_count = count; speech_buf = g.speech_buf ++ frame }, none)
    else (g, none)

-- A frame in the push-to-talk mode.
unfoldable pub ptt_frame : Gate → Bool → List ℕ → Gate × Option (List ℕ)
ptt_frame g held frame =
    let started : Gate =
      if g.ptt_was_held then g else record g { speech_buf = []; status = listening } in
    if held
    then (record started { speech_buf = started.speech_buf ++ frame; ptt_was_held = true }, none)
    else if g.ptt_was_held
    then transcribe (record g { ptt_was_held = false; status = transcribing })
    else (g, none)

-- `loud` is none where no detector is loaded.
unfoldable pub gate_frame : Gate → Bool → Option Bool → Bool → List ℕ → Gate × Option (List ℕ)
gate_frame g always_on loud held frame =
    if always_on
    then elim loud [ none ↦ (g, none) | some l ↦ vad_frame g l frame ]
    else ptt_frame g held frame

-- What becomes of a transcript or its translation.
unfoldable pub say : ChatboxPacer → List ℕ → ℕ → ChatboxPacer
say p output chatbox_port =
    if length output == 0
    then p
    else enqueue p
        (record { text = output; send_immediate = true; notify = not (chatbox_port == 0) })
