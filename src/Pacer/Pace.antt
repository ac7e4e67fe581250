-- ===== src/Pacer/Pace.antt =====
-- The queue's bound and the gap between sends, over every sequence of calls.
use open_vr_pair_driver.Base.{
  ℕ, ◌+◌, ◌-◌, ◌≤◌, ◌≡◌, false, not, none, some, List, [], ◌∷◌, ◌++◌, length, drop, ltb, leb, ◌&&◌,
  if◌then◌else◌, refl, arith, inl, inr, Bool-cases, length-append, length-drop,
}
use open_vr_pair_driver.Pacer.{Entry, ChatboxPacer, queue_cap, chatbox_pacer, enqueue, dequeue}

-- The newest entries, at most as many as the queue holds.
abbrev pub newest : List Entry → List Entry
newest l = drop (length l - queue_cap) l

drop_one : (l : List Entry) (e : Entry) → 1 ≤ length l → drop 1 l ++ e ∷ [] ≡ drop 1 (l ++ e ∷ [])
drop_one [] e h = ground (arith, h)
drop_one (x ∷ l) e h = refl

-- Enqueueing on a queue within its capacity keeps the newest eight of the entries and the new one,
-- which is always kept.
pub enqueue-newest :
    (p : ChatboxPacer) (e : Entry)
    → length p.queue ≤ queue_cap
    → ((enqueue p e).queue ≡ newest (p.queue ++ e ∷ [])) × (length (enqueue p e).queue ≤ queue_cap)
unfolding enqueue
enqueue-newest p e h = elim (Bool-cases (leb queue_cap (length p.queue))) [
  | inl full ↦
      let one : length (p.queue ++ e ∷ []) - queue_cap ≡ 1 =
        ground (arith, full, h, length-append p.queue (e ∷ [])) in
      let eight : 8 ≤ length p.queue = ground (arith, full) in
      (
        rw (full, if◌then◌else◌) (rw one (drop_one p.queue e (omega (arith, eight)))),
        rw (full, if◌then◌else◌)
            (omega
              (arith, length-append (drop 1 p.queue) (e ∷ []), length-drop 1 p.queue, h, eight)),
      )
  | inr room ↦
      let none_ : length (p.queue ++ e ∷ []) - queue_cap ≡ 0 =
        ground (arith, room, length-append p.queue (e ∷ [])) in
      (
        rw (room, if◌then◌else◌) (rw none_ refl),
        rw (room, if◌then◌else◌) (ground (arith, room, length-append p.queue (e ∷ []))),
      )
]

pub data Op : Type 0 where
  puts : Entry → Op
  gets : ℕ → Op

-- The sends that a sequence of calls makes, with their times.
abbrev pub sends : ChatboxPacer → List Op → List ℕ
sends p [] = []
sends p (puts e ∷ ops) = sends (enqueue p e) ops
sends p (gets now ∷ ops) =
    let (p', out) = dequeue p now in
    let rest = sends p' ops in elim out [ none ↦ rest | some e ↦ now ∷ rest ]

-- The clock does not go back: no call is before `since` or before an earlier call.
abbrev pub IsSteady : ℕ → List Op → Type 0
IsSteady since [] = Unit {0}
IsSteady since (puts e ∷ ops) = IsSteady since ops
IsSteady since (gets now ∷ ops) = (since ≤ now) × IsSteady now ops

-- Each time is at least `gap` after the one before it.
abbrev pub AreApart : ℕ → List ℕ → Type 0
AreApart gap [] = Unit {0}
AreApart gap (t ∷ []) = Unit {0}
AreApart gap (t ∷ u ∷ ts) = (t + gap ≤ u) × AreApart gap (u ∷ ts)

-- What one call of Dequeue does.
data Dequeued (p : ChatboxPacer) (now : ℕ) : Type 0 where
  waits : dequeue p now ≡ (p, none) → Dequeued p now
  sends_one :
      (e : Entry) (rest : List Entry)
      → dequeue p now ≡ (record p { queue = rest; last_send = now; first_send = false }, some e)
      → (p.first_send ≡ false → p.min_gap ≤ now - p.last_send)
      → Dequeued p now

dequeue_cases : (p : ChatboxPacer) (now : ℕ) → Dequeued p now
dequeue_cases p now = from p.queue refl
  where
    from : (q : List Entry) → p.queue ≡ q → Dequeued p now
    from [] e = waits (unfold dequeue in ground (arith, e))
    from (x ∷ rest) e = elim (Bool-cases (not p.first_send && ltb (now - p.last_send) p.min_gap)) [
      | inl soon ↦ waits (unfold dequeue in ground (arith, e, soon))
      | inr due ↦
          sends_one x rest (unfold dequeue in ground (arith, e, due))
            (λ later. ground (arith, due, later))
    ]

-- The sends that follow, also after the last one.
abbrev Follow : ChatboxPacer → List ℕ → Type 0
Follow p ts = (p.first_send ≡ false → AreApart p.min_gap (p.last_send ∷ ts)) × AreApart p.min_gap ts

sends-Follow :
    (p : ChatboxPacer) (ops : List Op) (since : ℕ)
    → (p.first_send ≡ false → p.last_send ≤ since)
    → IsSteady since ops
    → Follow p (sends p ops)
unfolding enqueue
sends-Follow p [] since past steady = (λ _. tt, tt)
sends-Follow p (puts e ∷ ops) since past steady = sends-Follow (enqueue p e) ops since past steady
sends-Follow p (gets now ∷ ops) since past (next, steady) = elim (dequeue_cases p now) [
  | waits same ↦
      rw (same, sends)
        (rw same (sends-Follow p ops now (λ later. omega (arith, past later, next)) steady))
  | sends_one e rest same due ↦
      let after =
        sends-Follow (record p { queue = rest; last_send = now; first_send = false }) ops now
          (λ _. omega arith) steady in
      rw (same, sends)
        (rw same
          (λ later. (omega (arith, due later, past later, next), after.0 refl), after.0 refl))
]

-- Whatever is enqueued and however often the pacer is asked, two sends are never less than the gap
-- apart, as long as the clock does not go back.
pub sends_apart :
    (min_gap : ℕ) (ops : List Op)
    → IsSteady 0 ops
    → AreApart min_gap (sends (chatbox_pacer min_gap) ops)
unfolding chatbox_pacer
sends_apart min_gap ops steady =
    (sends-Follow (chatbox_pacer min_gap) ops 0 (λ h. ground (arith, h)) steady).1
