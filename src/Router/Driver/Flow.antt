-- ===== src/Router/Driver/Flow.antt =====
-- What the send worker does with the queue.
use open_vr_pair_driver.Base.{
  ℕ, zero, suc, ◌+◌, ◌-◌, ◌%◌, ◌^◌, ◌<◌, ◌≡◌, refl, ap, ◌∙◌, inl, inr, true, false, Option, none,
  some, List, ◌∷◌, ◌++◌, map, length, take, ◌&&◌, if◌then◌else◌, Bool-cases, arith, replicate,
  length-append,
}
use open_vr_pair_driver.Osc.Packet.{osc_pad4}
use open_vr_pair_driver.Osc.Packet.Capacity.{encode, osc_string}
use open_vr_pair_driver.Osc.Reader.{parse_message}
use open_vr_pair_driver.Osc.Reader.Encoded.{NoNul, parse_message-encode}
use open_vr_pair_driver.Router.Table.Counters.{with_match, dispatch-map}
use open_vr_pair_driver.Router.Stats.{StatsShmem, add_sent}
use open_vr_pair_driver.Router.Queue.{SendQueue, SendEntry, dequeue}
use open_vr_pair_driver.Router.Queue.Fifo.{
  IsValid, packets, payload, popped, fifo_pop, dequeue_refines,
}
use open_vr_pair_driver.Router.Driver.{
  Router, Round, count_sent, send_entry, maybe_stats, send_worker_round,
}

-- The statistics with one packet more of `bytes` bytes that was sent, if they are mapped.
abbrev pub with_sent : StatsShmem → ℕ → StatsShmem
with_sent none bytes = none
with_sent (some d) bytes = some (record d {
  packets_sent = (d.packets_sent + 1) % 2 ^ 64;
  bytes_sent = (d.bytes_sent + bytes) % 2 ^ 64;
})

-- The router in which a message that was sent has been counted.
pub record Counted (r : Router) (round : Round) (address : List ℕ) (rest : List (List ℕ))
    (r' : Router) : Type 0 where
  pub packet_counted : r'.packets_sent ≡ (r.packets_sent + 1) % 2 ^ 64
  pub bytes_counted : r'.bytes_sent ≡ (r.bytes_sent + round.sent) % 2 ^ 64
  pub routes_counted : r'.table ≡ map (with_match address round.qpc_now) r.table
  pub taken_out : packets r'.queue ≡ rest
  pub none_dropped : r'.dropped_count ≡ r.dropped_count
  pub stats_counted :
      round.stats_due ≡ false
      → r'.shmem ≡ (if r.shmem_ready then with_sent r.shmem round.sent else r.shmem)

size_pos : (e : SendEntry) (bytes : List ℕ) → payload e ≡ bytes → 0 < length bytes → 0 < e.size
size_pos e bytes same pos = by_size e.size refl
  where
    by_size : (n : ℕ) → e.size ≡ n → 0 < e.size
    by_size zero z = absurd (omega (arith, ap length same, ap (λ k. length (take k e.contents)) z))
    by_size (suc n) z = omega arith

length-encode_pos : (a t args : List ℕ) → 0 < length (encode a t args)
length-encode_pos a t args = omega (
  arith,
  length-append (osc_string a) (osc_string t ++ args),
  length-append a (0 ∷ replicate (osc_pad4 (length a + 1) - (length a + 1)) 0),
)

-- The texts of a message are well formed.
abbrev pub IsMessage : List ℕ → List ℕ → List ℕ → Type 0
IsMessage address typetag args =
    NoNul address
    × NoNul typetag
    × (length address + 1 < 2 ^ 32 - 3)
    × (length typetag + 1 < 2 ^ 32 - 3)
    × (length (encode address typetag args) < 2 ^ 63)

module _ (r : Router) (round : Round) (address typetag args : List ℕ) (rest : List (List ℕ))
    (w : IsMessage address typetag args) (open_ : round.is_open ≡ true)
    (sent : 0 < round.sent) where
  parsed :
      parse_message (encode address typetag args)
      ≡ record { address = some address; typetag = some typetag; arg_data = args; valid = true }
  parsed = parse_message-encode address typetag args w.0 w.1 w.2 w.3 w.4

  entry_sent :
      (q : SendQueue) (e : SendEntry)
      → payload e ≡ encode address typetag args
      → send_entry (record r { queue = q }) round (some e) ≡ (
        count_sent (record r { queue = q }) round.sent round.qpc_now (encode address typetag args),
        some (encode address typetag args),
      )
  unfolding send_entry
  entry_sent q e h =
      ground
        (arith, size_pos e (encode address typetag args) h (length-encode_pos address typetag args))

  add_sent-with_sent : (m : StatsShmem) → add_sent m round.sent ≡ with_sent m round.sent
  unfolding add_sent
  add_sent-with_sent none = refl
  add_sent-with_sent (some d) = refl

  abbrev after_count : SendQueue → Router
  after_count q =
      count_sent (record r { queue = q }) round.sent round.qpc_now (encode address typetag args)

  table_counted :
      (q : SendQueue) → (after_count q).table ≡ map (with_match address round.qpc_now) r.table
  unfolding count_sent
  table_counted q = rw parsed (dispatch-map r.table address round.qpc_now false)

  counted :
      (q : SendQueue)
      → packets q ≡ rest
      → Counted r round address rest (maybe_stats (after_count q) round)
  unfolding maybe_stats count_sent
  counted q h = elim (Bool-cases (round.stats_due && r.shmem_ready)) [
    | inl due ↦
        rw (due, if◌then◌else◌)
          (record {
            packet_counted = refl;
            bytes_counted = refl;
            routes_counted = table_counted q;
            taken_out = h;
            none_dropped = refl;
            stats_counted = λ off. absurd (ground (arith, off, due));
          })
    | inr off ↦
        rw (off, if◌then◌else◌)
          (record {
            packet_counted = refl;
            bytes_counted = refl;
            routes_counted = table_counted q;
            taken_out = h;
            none_dropped = refl;
            stats_counted =
                λ _. ap (λ m. if r.shmem_ready then m else r.shmem) (add_sent-with_sent r.shmem);
          })
  ]

  sent_entry :
      (q : SendQueue) (o : Option SendEntry)
      → popped o ≡ some (encode address typetag args)
      → packets q ≡ rest
      → let (r', out) = send_entry (record r { queue = q }) round o in
        Counted r round address rest (maybe_stats r' round)
        × (out ≡ some (encode address typetag args))
  sent_entry q none h k = cc
  sent_entry q (some e) h k = rw (entry_sent q e (ground arith)) (counted q k, refl)

  round_lem :
      r.stop ≡ false
      → send_worker_round r round ≡ (
          let (r', out) =
            send_entry (record r { queue = (dequeue r.queue).1 }) round (dequeue r.queue).0 in
          (maybe_stats r' round, out))
  unfolding send_worker_round
  round_lem running = ground arith

  -- A round of the send worker that finds a well-formed message at the front of the queue, an open
  -- socket, and a datagram that is sent: it hands exactly the message's bytes to the socket, takes
  -- the message out of the queue, counts one packet and its bytes, counts one match with the time of
  -- the round on every active route whose pattern matches the address, and changes no other route,
  -- and drops nothing; if no statistics are due, the segment, if it is ready, counts the packet and
  -- its bytes and does not change otherwise.
  pub send_worker_round-Counted :
      r.stop ≡ false
      → IsValid r.queue
      → packets r.queue ≡ encode address typetag args ∷ rest
      → let (r', out) = send_worker_round r round in
        Counted r round address rest r' × (out ≡ some (encode address typetag args))
  send_worker_round-Counted running v front =
      let got = (dequeue_refines r.queue v).1 ∙ ap fifo_pop front in
      rw (round_lem running)
        (sent_entry (dequeue r.queue).1 (dequeue r.queue).0 (ap (λ p. p.0) got) (ap (λ p. p.1) got))
