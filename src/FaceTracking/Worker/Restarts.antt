-- ===== src/FaceTracking/Worker/Restarts.antt =====
-- When the worker restarts a wedged host, over every sequence of turns and writes of the host.
use open_vr_pair_driver.Base.{
  ℕ, ◌+◌, ◌^◌, ◌≤◌, ◌≡◌, ◌≢◌, ◌⊎◌, refl, ap, ap₂, subst, sym, ◌∙◌, true, false, not, Option, none,
  some, List, [], ◌∷◌, ◌++◌, ◌==◌, ◌&&◌, if◌then◌else◌, inl, inr, Bool-cases, Option-cases, arith,
}
use open_vr_pair_driver.Shmem.FaceFrames.{
  FrameData, host_state_legacy, host_state_field, reset_host_liveness, publish_index,
  try_read_latest_wire,
}
use open_vr_pair_driver.FaceTracking.Worker.{
  uint64_max, heartbeat_age_ms, Worker, is_wedged, restart_allowed, Outcome, restarted, waits,
  no_frame, unread, frame, read_turn, worker_turn, new_worker,
}

-- What a turn does that finds no wedge.
data Reads (w : Worker) (m : Option FrameData) : Type 0 where
  reads_as :
      (w' : Worker) (o : Outcome)
      → read_turn w m ≡ (w', o)
      → (o ≡ no_frame) ⊎ ((o ≡ unread) ⊎ ((b : List ℕ) × (o ≡ frame b)))
      → w'.wedge_restart_pending ≡ w.wedge_restart_pending
      → w'.last_wedge_restart_time ≡ w.last_wedge_restart_time
      → Reads w m

read_cases : (w : Worker) (m : Option FrameData) → Reads w m
read_cases w m = elim (Bool-cases (publish_index m == w.last_idx)) [
  | inl same ↦
      reads_as w no_frame (unfold read_turn in rw (same, if◌then◌else◌) refl) (inl refl) refl refl
  | inr new ↦ elim (Option-cases (try_read_latest_wire m 8)) [
    | inl torn ↦
        reads_as (record w { last_idx = publish_index m }) unread
          (unfold read_turn in rw (new, if◌then◌else◌) (rw torn refl)) (inr (inl refl)) refl refl
    | inr (b, whole) ↦
        reads_as (record w { last_idx = publish_index m }) (frame b)
          (unfold read_turn in rw (new, if◌then◌else◌) (rw whole refl)) (inr (inr (b, refl))) refl
          refl
  ]
]

data Turned (w : Worker) (m : Option FrameData) (freq qpc now : ℕ) : Type 0 where
  restarts :
      worker_turn w m freq qpc now ≡ (
        record w { wedge_restart_pending = true; last_wedge_restart_time = now },
        (reset_host_liveness m, restarted),
      )
      → is_wedged (host_state_field m) (heartbeat_age_ms m freq qpc) ≡ true
      → (w.wedge_restart_pending ≡ true → w.last_wedge_restart_time + 10 ^ 10 ≤ now)
      → Turned w m freq qpc now
  delays : worker_turn w m freq qpc now ≡ (w, (m, waits)) → Turned w m freq qpc now
  reads :
      (w' : Worker) (o : Outcome)
      → worker_turn w m freq qpc now ≡ (w', (m, o))
      → (o ≡ no_frame) ⊎ ((o ≡ unread) ⊎ ((b : List ℕ) × (o ≡ frame b)))
      → w'.wedge_restart_pending
        ≡ (w.wedge_restart_pending && heartbeat_age_ms m freq qpc == uint64_max)
      → w'.last_wedge_restart_time ≡ w.last_wedge_restart_time
      → Turned w m freq qpc now

turn_cases : (w : Worker) (m : Option FrameData) (freq qpc now : ℕ) → Turned w m freq qpc now
turn_cases w m freq qpc now =
    elim (Bool-cases (is_wedged (host_state_field m) (heartbeat_age_ms m freq qpc))) [
      | inl wedged ↦ elim (Bool-cases (restart_allowed w now)) [
        | inl allowed ↦
            restarts (unfold worker_turn in rw (wedged, allowed) refl) wedged
              (λ pending. unfold restart_allowed in ground (arith, allowed, pending))
        | inr early ↦ delays (unfold worker_turn in rw (wedged, early) refl)
      ]
      | inr fine ↦
          elim (Bool-cases
            (w.wedge_restart_pending && not (heartbeat_age_ms m freq qpc == uint64_max))) [
              | inl clears ↦ elim (read_cases (record w { wedge_restart_pending = false }) m) [
                | reads_as w' o e kind pending last ↦
                    reads w' o (unfold worker_turn in rw (fine, clears, if◌then◌else◌) (rw e refl))
                      kind (ground (arith, clears, pending)) last
              ]
              | inr keeps ↦ elim (read_cases w m) [
                | reads_as w' o e kind pending last ↦
                    reads w' o (unfold worker_turn in rw (fine, keeps, if◌then◌else◌) (rw e refl))
                      kind (ground (arith, keeps, pending)) last
              ]
            ]
    ]

-- The host writes the segment, or the worker takes a turn, at values of the two clocks.
pub data Event : Type 0 where
  writes : FrameData → Event
  turns : ℕ → ℕ → Event

-- The worker restarts the host, or sees a heartbeat without a wedge.
pub data LogEntry : Type 0 where
  restart_at : ℕ → LogEntry
  fresh : LogEntry

abbrev pub entries : Outcome → ℕ → ℕ → List LogEntry
entries restarted age now = restart_at now ∷ []
entries waits age now = []
entries no_frame age now = if age == uint64_max then [] else fresh ∷ []
entries unread age now = if age == uint64_max then [] else fresh ∷ []
entries (frame b) age now = if age == uint64_max then [] else fresh ∷ []

abbrev pub log : Worker → Option FrameData → ℕ → List Event → List LogEntry
log w m freq [] = []
log w m freq (writes d ∷ events) = log w (some d) freq events
log w m freq (turns qpc now ∷ events) =
    let (w', (m', outcome)) = worker_turn w m freq qpc now in
    entries outcome (heartbeat_age_ms m freq qpc) now ++ log w' m' freq events

-- Two restarts, the first of them perhaps the one at `last`, are ten seconds apart unless a
-- heartbeat was seen between them.
abbrev pub AreSpaced : Option ℕ → List LogEntry → Type 0
AreSpaced last [] = Unit {0}
AreSpaced last (fresh ∷ l) = AreSpaced none l
AreSpaced none (restart_at t ∷ l) = AreSpaced (some t) l
AreSpaced (some s) (restart_at t ∷ l) = (s + 10 ^ 10 ≤ t) × AreSpaced (some t) l

abbrev last_restart : Worker → Option ℕ
last_restart w = if w.wedge_restart_pending then some w.last_wedge_restart_time else none

spaced_restart :
    (w : Worker) (now : ℕ) (l : List LogEntry)
    → (w.wedge_restart_pending ≡ true → w.last_wedge_restart_time + 10 ^ 10 ≤ now)
    → AreSpaced (some now) l
    → AreSpaced (last_restart w) (restart_at now ∷ l)
spaced_restart w now l apart h = elim (Bool-cases w.wedge_restart_pending) [
  | inl pending ↦ rw (pending, if◌then◌else◌) (apart pending, h)
  | inr settled ↦ rw (settled, if◌then◌else◌) h
]

read_entries :
    (o : Outcome) (age now : ℕ)
    → (o ≡ no_frame) ⊎ ((o ≡ unread) ⊎ ((b : List ℕ) × (o ≡ frame b)))
    → entries o age now ≡ (if age == uint64_max then [] else fresh ∷ [])
read_entries o age now (inl e) = rw e refl
read_entries o age now (inr (inl e)) = rw e refl
read_entries o age now (inr (inr (b, e))) = rw e refl

spaced_read :
    (w w' : Worker) (age : ℕ) (l : List LogEntry)
    → w'.wedge_restart_pending ≡ (w.wedge_restart_pending && age == uint64_max)
    → w'.last_wedge_restart_time ≡ w.last_wedge_restart_time
    → AreSpaced (last_restart w') l
    → AreSpaced (last_restart w) ((if age == uint64_max then [] else fresh ∷ []) ++ l)
spaced_read w w' age l pending last h = elim (Bool-cases (age == uint64_max)) [
  | inl silent ↦
      rw (silent, if◌then◌else◌)
        (subst (λ o. AreSpaced o l)
          (ap₂ (λ p t. if p then some t else none) {x = w'.wedge_restart_pending}
            {y = w.wedge_restart_pending} (ground (arith, pending, silent)) last)
          h)
  | inr heard ↦
      rw (heard, if◌then◌else◌)
        (subst (λ o. AreSpaced o l)
          (ap (λ p. if p then some w'.last_wedge_restart_time else none)
            {x = w'.wedge_restart_pending} {y = false} (ground (arith, pending, heard)))
          h)
]

log-AreSpaced :
    (w : Worker) (m : Option FrameData) (freq : ℕ) (events : List Event)
    → AreSpaced (last_restart w) (log w m freq events)
log-AreSpaced w m freq [] = tt
log-AreSpaced w m freq (writes d ∷ events) = log-AreSpaced w (some d) freq events
log-AreSpaced w m freq (turns qpc now ∷ events) = elim (turn_cases w m freq qpc now) [
  | restarts e wedged apart ↦
      let w' = record w { wedge_restart_pending = true; last_wedge_restart_time = now } in
      let m' = reset_host_liveness m in
      rw e (spaced_restart w now (log w' m' freq events) apart (log-AreSpaced w' m' freq events))
  | delays e ↦ rw e (log-AreSpaced w m freq events)
  | reads w' o e kind pending last ↦ rw e (
      rw (read_entries o (heartbeat_age_ms m freq qpc) now kind) (
        spaced_read w w' (heartbeat_age_ms m freq qpc) (log w' m freq events) pending last
          (log-AreSpaced w' m freq events)))
]

-- Whatever the host writes and whenever the worker takes its turns, two restarts of a wedged host
-- are at least ten seconds apart, unless the worker has seen a heartbeat without a wedge between
-- them.
pub restarts_spaced :
    (m : Option FrameData) (freq : ℕ) (events : List Event)
    → AreSpaced none (log new_worker m freq events)
restarts_spaced m freq events = log-AreSpaced new_worker m freq events

-- Turns while the host writes nothing.
abbrev pub quiet : List (ℕ × ℕ) → List Event
quiet [] = []
quiet ((qpc, now) ∷ ts) = turns qpc now ∷ quiet ts

abbrev pub HasNoRestart : List LogEntry → Type 0
HasNoRestart [] = Unit {0}
HasNoRestart (restart_at t ∷ l) = ⊥
HasNoRestart (fresh ∷ l) = HasNoRestart l

no_restart_read :
    (age : ℕ) (l : List LogEntry)
    → HasNoRestart l
    → HasNoRestart ((if age == uint64_max then [] else fresh ∷ []) ++ l)
no_restart_read age l h = elim (Bool-cases (age == uint64_max)) [
  | inl silent ↦ rw (silent, if◌then◌else◌) h
  | inr heard ↦ rw (heard, if◌then◌else◌) h
]

legacy_unwedged : (age : ℕ) → is_wedged host_state_legacy age ≡ false
unfolding is_wedged
legacy_unwedged age = refl

legacy-HasNoRestart :
    (w : Worker) (m : Option FrameData) (freq : ℕ) (ts : List (ℕ × ℕ))
    → host_state_field m ≡ host_state_legacy
    → HasNoRestart (log w m freq (quiet ts))
legacy-HasNoRestart w m freq [] legacy = tt
legacy-HasNoRestart w m freq ((qpc, now) ∷ ts) legacy = elim (turn_cases w m freq qpc now) [
  | restarts e wedged apart ↦
      absurd (ground (arith, wedged, legacy, legacy_unwedged (heartbeat_age_ms m freq qpc)))
  | delays e ↦ rw e (legacy-HasNoRestart w m freq ts legacy)
  | reads w' o e kind pending last ↦ rw e (
      rw (read_entries o (heartbeat_age_ms m freq qpc) now kind) (
        no_restart_read (heartbeat_age_ms m freq qpc) (log w' m freq (quiet ts))
          (legacy-HasNoRestart w' m freq ts legacy)))
]

not_restarted :
    (o : Outcome) → (o ≡ no_frame) ⊎ ((o ≡ unread) ⊎ ((b : List ℕ) × (o ≡ frame b))) → o ≢ restarted
not_restarted o (inl e) h = ground (arith, sym e ∙ h)
not_restarted o (inr (inl e)) h = ground (arith, sym e ∙ h)
not_restarted o (inr (inr (b, e))) h = ground (arith, sym e ∙ h)

reset_legacy : (m : Option FrameData) → host_state_field (reset_host_liveness m) ≡ host_state_legacy
unfolding host_state_field reset_host_liveness
reset_legacy none = refl
reset_legacy (some d) = refl

-- After a restart there is none again until the host has written to the segment, however many turns
-- the worker takes.
pub restarted-HasNoRestart :
    (w : Worker) (m : Option FrameData) (freq qpc now : ℕ) (ts : List (ℕ × ℕ))
    → (worker_turn w m freq qpc now).1.1 ≡ restarted
    → HasNoRestart
        (log (worker_turn w m freq qpc now).0 (worker_turn w m freq qpc now).1.0 freq (quiet ts))
restarted-HasNoRestart w m freq qpc now ts h = elim (turn_cases w m freq qpc now) [
  | restarts e wedged apart ↦ rw e (
      legacy-HasNoRestart (record w { wedge_restart_pending = true; last_wedge_restart_time = now })
        (reset_host_liveness m) freq ts (reset_legacy m))
  | delays e ↦ absurd (ground (arith, sym (ap (λ t. t.1.1) e) ∙ h))
  | reads w' o e kind pending last ↦ absurd (not_restarted o kind (sym (ap (λ t. t.1.1) e) ∙ h))
]
