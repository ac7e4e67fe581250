-- ===== src/Router/Driver/History.antt =====
-- Every history of what the router's threads do with the send queue.
use open_vr_pair_driver.Base.{
  ℕ, ◌≡◌, refl, ap, sym, ◌∙◌, subst, Bool, true, false, Option, none, some, List, [], ◌∷◌, ◌++◌,
  append-nil, append_assoc, length, take, ltb, leb, ◌==◌, ◌||◌, ◌&&◌, if◌then◌else◌, if_true,
  if_false, inl, inr, Bool-cases, arith,
}
use open_vr_pair_driver.Osc.Packet.{emitted}
use open_vr_pair_driver.Router.Queue.{
  SendQueue, SendEntry, enqueue, dequeue, entry_max_size, queue_capacity,
}
use open_vr_pair_driver.Router.Queue.Fifo.{
  IsValid, packets, popped, fifo_push, fifo_pop, enqueue_refines, dequeue_refines,
}
use open_vr_pair_driver.Router.Driver.{
  Router, Round, build_packet, build_and_enqueue, publish_osc, count_drop, count_sent, send_entry,
  maybe_stats, send_worker_round, pub_pipe_frame, from_little_endian,
}

-- A module publishes a message, the publish pipe gets a frame, or the send worker takes a turn.
pub data Event : Type 0 where
  publishes : List ℕ → List ℕ → List ℕ → List ℕ → Event
  frames : List ℕ → List ℕ → Event
  rounds : Round → Event

abbrev pub one_if : Bool → List ℕ → List (List ℕ)
one_if true b = b ∷ []
one_if false b = []

abbrev pub next : Router → Event → Router
next r (publishes local address typetag args) = (publish_osc r local address typetag args).0
next r (frames len_buf stream) = (pub_pipe_frame r len_buf stream).0
next r (rounds round) = (send_worker_round r round).0

-- The packet that an event puts into the queue, if its caller is told so.
abbrev pub accepted : Router → Event → List (List ℕ)
accepted r (publishes local address typetag args) =
    one_if (publish_osc r local address typetag args).1
      (emitted (build_packet local address typetag args))
accepted r (frames len_buf stream) =
    one_if
      ((pub_pipe_frame r len_buf stream).1
        && (enqueue r.queue (take (from_little_endian len_buf) stream)).1)
      (take (from_little_endian len_buf) stream)
accepted r (rounds round) = []

abbrev pub listed : Option (List ℕ) → List (List ℕ)
listed none = []
listed (some b) = b ∷ []

-- The packet that an event takes out of it.
abbrev pub taken : Router → Event → List (List ℕ)
taken r (publishes local address typetag args) = []
taken r (frames len_buf stream) = []
taken r (rounds round) = if r.stop then [] else listed (popped (dequeue r.queue).0)

abbrev pub after : Router → List Event → Router
after r [] = r
after r (e ∷ es) = after (next r e) es

abbrev pub all_accepted : Router → List Event → List (List ℕ)
all_accepted r [] = []
all_accepted r (e ∷ es) = accepted r e ++ all_accepted (next r e) es

abbrev pub all_taken : Router → List Event → List (List ℕ)
all_taken r [] = []
all_taken r (e ∷ es) = taken r e ++ all_taken (next r e) es

-- What an event does with the queue.
record Moves (r : Router) (e : Event) : Type 0 where
  valid : IsValid (next r e).queue
  moved : taken r e ++ packets (next r e).queue ≡ packets r.queue ++ accepted r e

fifo_push_one :
    (l : List (List ℕ)) (bytes : List ℕ)
    → (fifo_push l bytes).0 ≡ l ++ one_if (fifo_push l bytes).1 bytes
fifo_push_one l bytes = elim (Bool-cases (leb queue_capacity (length l))) [
  | inl full ↦ rw (full, if◌then◌else◌) (sym (append-nil l))
  | inr room ↦
      rw (room, if◌then◌else◌)
        (elim (Bool-cases (ltb entry_max_size (length bytes))) [
          | inl long ↦ rw (long, if◌then◌else◌) (sym (append-nil l))
          | inr fits ↦ rw (fits, if◌then◌else◌) refl
        ])
]

enqueue_moves :
    (q : SendQueue) (bytes : List ℕ)
    → IsValid q
    → packets (enqueue q bytes).0 ≡ packets q ++ one_if (enqueue q bytes).1 bytes
enqueue_moves q bytes v =
    let same = (enqueue_refines q bytes v).1 in
    ap (λ (x : List (List ℕ) × Bool). x.0) same
    ∙ (fifo_push_one (packets q) bytes
        ∙ ap (λ (x : List (List ℕ) × Bool). packets q ++ one_if x.1 bytes) (sym same))

-- A call that enqueues, or leaves the queue alone.
record Pushes (q q' : SendQueue) (done : Bool) (bytes : List ℕ) : Type 0 where
  valid : IsValid q'
  pushed : packets q' ≡ packets q ++ one_if done bytes

unchanged : (q : SendQueue) (bytes : List ℕ) → IsValid q → Pushes q q false bytes
unchanged q bytes v = record { valid = v; pushed = sym (append-nil (packets q)) }

-- A packet that is refused leaves the packets of the queue as they were.
enqueued :
    (q : SendQueue) (bytes : List ℕ)
    → IsValid q
    → Pushes q (enqueue q bytes).0 (enqueue q bytes).1 bytes
enqueued q bytes v = record {
  valid = (enqueue_refines q bytes v).0;
  pushed = enqueue_moves q bytes v;
}

abbrev Pushed : Router → List ℕ → Router × Bool → Type 0
Pushed r bytes x = Pushes r.queue x.0.queue x.1 bytes

build_and_enqueue-Pushed :
    (r : Router) (local address typetag args : List ℕ)
    → IsValid r.queue
    → Pushed r
        (emitted (build_packet local address typetag args))
        (build_and_enqueue r local address typetag args)
unfolding build_and_enqueue count_drop
build_and_enqueue-Pushed r local address typetag args v =
    let p = build_packet local address typetag args in
    let q' = (enqueue r.queue (emitted p)).0 in
    let did = enqueued r.queue (emitted p) v in
    elim (Bool-cases p.ok) [
      | inl ok ↦
          subst (Pushed r (emitted p)) (sym (if_true {b = p.ok} _ ok))
            (elim (Bool-cases (enqueue r.queue (emitted p)).1) [
              | inl queued ↦
                  subst (Pushed r (emitted p))
                    (sym (if_true {b = (enqueue r.queue (emitted p)).1} _ queued))
                    (subst (λ b. Pushes r.queue q' b (emitted p)) queued did)
              | inr full ↦
                  subst (Pushed r (emitted p))
                    (sym (if_false {b = (enqueue r.queue (emitted p)).1} _ full))
                    (subst (λ b. Pushes r.queue q' b (emitted p)) full did)
            ])
      | inr bad ↦
          subst (Pushed r (emitted p)) (sym (if_false {b = p.ok} _ bad))
            (unchanged r.queue (emitted p) v)
    ]

publish_osc-Pushed :
    (r : Router) (local address typetag args : List ℕ)
    → IsValid r.queue
    → Pushed r
        (emitted (build_packet local address typetag args))
        (publish_osc r local address typetag args)
unfolding publish_osc
publish_osc-Pushed r local address typetag args v =
    let bytes = emitted (build_packet local address typetag args) in
    elim (Bool-cases r.stop) [
      | inl stopped ↦ subst (Pushed r bytes) (sym (if_true _ stopped)) (unchanged r.queue bytes v)
      | inr running ↦
          subst (Pushed r bytes) (sym (if_false _ running))
            (build_and_enqueue-Pushed r local address typetag args v)
    ]

-- A frame of the publish pipe that is refused by the queue does not end the connection.
abbrev Framed : Router → List ℕ → Bool → Router × Bool → Type 0
Framed r bytes queued x = Pushes r.queue x.0.queue (x.1 && queued) bytes

pub_pipe_frame-Framed :
    (r : Router) (len_buf stream : List ℕ)
    → IsValid r.queue
    → let bytes = take (from_little_endian len_buf) stream in
      Framed r bytes (enqueue r.queue bytes).1 (pub_pipe_frame r len_buf stream)
unfolding pub_pipe_frame count_drop
pub_pipe_frame-Framed r len_buf stream v =
    let n = from_little_endian len_buf in
    let bytes = take n stream in
    let did = enqueued r.queue bytes v in
    let P = Framed r bytes (enqueue r.queue bytes).1 in
    elim (Bool-cases (n == 0 || ltb entry_max_size n)) [
      | inl bad ↦
          subst P (sym (if_true {b = n == 0 || ltb entry_max_size n} _ bad))
            (unchanged r.queue bytes v)
      | inr fine ↦
          subst P (sym (if_false {b = n == 0 || ltb entry_max_size n} _ fine))
            (elim (Bool-cases (ltb (length stream) n)) [
              | inl short ↦
                  subst P (sym (if_true {b = ltb (length stream) n} _ short))
                    (unchanged r.queue bytes v)
              | inr whole ↦
                  subst P (sym (if_false {b = ltb (length stream) n} _ whole))
                    (elim (Bool-cases (enqueue r.queue bytes).1) [
                      | inl queued ↦
                          subst P {x = (record r { queue = (enqueue r.queue bytes).0 }, true)}
                            (ap (λ (x : Router). (x, true))
                              (sym (if_true {b = (enqueue r.queue bytes).1} _ queued)))
                            did
                      | inr full ↦
                          subst P {x = (count_drop r, true)}
                            (ap (λ (x : Router). (x, true))
                              (sym (if_false {b = (enqueue r.queue bytes).1} _ full)))
                            (subst (λ b. Pushes r.queue r.queue b bytes) (sym full)
                              (unchanged r.queue bytes v))
                    ])
            ])
    ]

maybe_stats-queue : (r : Router) (round : Round) → (maybe_stats r round).queue ≡ r.queue
unfolding maybe_stats
maybe_stats-queue r round = elim (Bool-cases (round.stats_due && r.shmem_ready)) [
  | inl due ↦ ap (λ (x : Router). x.queue) (if_true {b = round.stats_due && r.shmem_ready} _ due)
  | inr not_due ↦
      ap (λ (x : Router). x.queue) (if_false {b = round.stats_due && r.shmem_ready} _ not_due)
]

send_entry-queue :
    (r : Router) (round : Round) (o : Option SendEntry) → (send_entry r round o).0.queue ≡ r.queue
unfolding send_entry count_sent
send_entry-queue r round none = refl
send_entry-queue r round (some e) = ground arith

pop_one : (l : List (List ℕ)) → listed (fifo_pop l).0 ++ (fifo_pop l).1 ≡ l
pop_one [] = refl
pop_one (b ∷ l) = refl

dequeue_moves :
    (q : SendQueue) → IsValid q → listed (popped (dequeue q).0) ++ packets (dequeue q).1 ≡ packets q
dequeue_moves q v =
    ap (λ (x : Option (List ℕ) × List (List ℕ)). listed x.0 ++ x.1) (dequeue_refines q v).1
    ∙ pop_one (packets q)

-- A turn of the send worker, by the queue that it leaves and the packets it takes.
abbrev Took : SendQueue → SendQueue → List (List ℕ) → Type 0
Took q q' out = IsValid q' × (out ++ packets q' ≡ packets q)

round-Took :
    (r : Router) (round : Round)
    → IsValid r.queue
    → Took r.queue (send_worker_round r round).0.queue (taken r (rounds round))
unfolding send_worker_round
round-Took r round v = elim (Bool-cases r.stop) [
  | inl stopped ↦
      subst (λ out. Took r.queue (send_worker_round r round).0.queue out)
        (sym (if_true {b = r.stop} _ stopped))
        (subst (λ q'. Took r.queue q' [])
          (ap (λ (x : Router × Option (List ℕ)). x.0.queue) (sym (if_true {b = r.stop} _ stopped)))
          (v, refl))
  | inr running ↦
      let r1 = record r { queue = (dequeue r.queue).1 } in
      let sent = send_entry r1 round (dequeue r.queue).0 in
      subst (λ out. Took r.queue (send_worker_round r round).0.queue out)
        (sym (if_false {b = r.stop} _ running))
        (subst (λ q'. Took r.queue q' (listed (popped (dequeue r.queue).0)))
          (sym (
            ap (λ (x : Router × Option (List ℕ)). x.0.queue) (if_false {b = r.stop} _ running)
            ∙ (maybe_stats-queue sent.0 round ∙ send_entry-queue r1 round (dequeue r.queue).0)))
          ((dequeue_refines r.queue v).0, dequeue_moves r.queue v))
]

next-Moves : (r : Router) (e : Event) → IsValid r.queue → Moves r e
next-Moves r (publishes local address typetag args) v =
    let did = publish_osc-Pushed r local address typetag args v in
    record { valid = did.valid; moved = did.pushed }
next-Moves r (frames len_buf stream) v =
    let did = pub_pipe_frame-Framed r len_buf stream v in
    record { valid = did.valid; moved = did.pushed }
next-Moves r (rounds round) v =
    let (valid, took) = round-Took r round v in
    record { valid = valid; moved = took ∙ sym (append-nil (packets r.queue)) }

-- Whatever modules publish, frames the publish pipe gets and turns the send worker takes, in any
-- order, from a valid queue: the packets that the worker takes out, in their order, followed by those
-- still queued, are the packets queued at first followed by those accepted since, in the order of
-- their acceptance. None is lost, doubled, changed or overtaken in the queue.
pub after_in_order :
    (r : Router) (es : List Event)
    → IsValid r.queue
    → all_taken r es ++ packets (after r es).queue ≡ packets r.queue ++ all_accepted r es
after_in_order r [] v = sym (append-nil (packets r.queue))
after_in_order r (e ∷ es) v =
    let m = next-Moves r e v in
    append_assoc (taken r e) (all_taken (next r e) es) (packets (after (next r e) es).queue)
    ∙ (ap (λ l. taken r e ++ l) (after_in_order (next r e) es m.valid)
        ∙ (sym (append_assoc (taken r e) (packets (next r e).queue) (all_accepted (next r e) es))
            ∙ (ap (λ l. l ++ all_accepted (next r e) es) m.moved
                ∙ append_assoc (packets r.queue) (accepted r e) (all_accepted (next r e) es))))
