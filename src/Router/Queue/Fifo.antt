-- ===== src/Router/Queue/Fifo.antt =====
-- The send queue is a first-in first-out queue of at most 1024 packets of at most 512 bytes.
use open_vr_pair_driver.Base.{
  ℕ, zero, suc, ◌+◌, ◌-◌, ◌%◌, ◌≤◌, ◌<◌, ◌≡◌, ◌≢◌, refl, ap, ap₂, ◌∙◌, Bool, true, false, Option,
  none, some, List, [], ◌∷◌, ◌++◌, length, take, get_or, set, ltb, leb, if◌then◌else◌, arith,
  length-set, take-append, get_or-set_self, get_or-set_ne,
}
use open_vr_pair_driver.Osc.Packet.{blit}
use open_vr_pair_driver.Router.Queue.{
  entry_max_size, queue_capacity, SendEntry, SendQueue, blank, fill, enqueue, dequeue,
}

-- The bytes of an entry that a reader sees.
abbrev pub payload : SendEntry → List ℕ
payload e = take e.size e.contents

-- The payloads of `n` slots from `h` on, going round at the capacity.
abbrev pub window : List SendEntry → ℕ → ℕ → List (List ℕ)
window slots h zero = []
window slots h (suc n) = payload (get_or slots (h % queue_capacity) blank) ∷ window slots (suc h) n

-- Oldest first.
abbrev pub packets : SendQueue → List (List ℕ)
packets q = window q.slots q.head q.count

pub record IsValid (q : SendQueue) : Type 0 where
  pub size : length q.slots ≡ queue_capacity
  pub head_in : q.head < queue_capacity
  pub count_in : q.count ≤ queue_capacity
  pub tail_at : q.tail ≡ (q.head + q.count) % queue_capacity

payload-fill : (e : SendEntry) (bytes : List ℕ) → payload (fill e bytes) ≡ bytes
unfolding fill blit
payload-fill e bytes = take-append bytes _ (length bytes) refl

window_cong :
    (slots : List SendEntry) (h k n : ℕ)
    → h % queue_capacity ≡ k % queue_capacity
    → window slots h n ≡ window slots k n
window_cong slots h k zero e = refl
window_cong slots h k (suc n) e =
    ap₂ ◌∷◌ (ap (λ i. payload (get_or slots i blank)) e)
      (window_cong slots (suc h) (suc k) n (omega arith))

length-window : (slots : List SendEntry) (h n : ℕ) → length (window slots h n) ≡ n
length-window slots h zero = refl
length-window slots h (suc n) = ap suc (length-window slots (suc h) n)

-- Filling the slot behind the window extends it.
window-set :
    (slots : List SendEntry) (h n i : ℕ) (e : SendEntry)
    → length slots ≡ queue_capacity
    → n < queue_capacity
    → i ≡ (h + n) % queue_capacity
    → window (set slots i e) h (suc n) ≡ window slots h n ++ payload e ∷ []
window-set slots h zero i e size lt at =
    ap (λ s. payload s ∷ [])
      (ap (λ k. get_or (set slots i e) k blank) (omega arith)
        ∙ get_or-set_self slots i e blank (omega arith))
window-set slots h (suc n) i e size lt at =
    ap₂ ◌∷◌ (ap payload (get_or-set_ne slots i (h % queue_capacity) e blank (omega arith)))
      (window-set slots (suc h) n i e size (omega arith) (omega arith))

-- The queue that a client sees.
abbrev pub fifo_push : List (List ℕ) → List ℕ → List (List ℕ) × Bool
fifo_push l bytes =
    if leb queue_capacity (length l)
    then (l, false)
    else if ltb entry_max_size (length bytes)
    then (l, false)
    else (l ++ bytes ∷ [], true)

abbrev pub fifo_pop : List (List ℕ) → Option (List ℕ) × List (List ℕ)
fifo_pop [] = (none, [])
fifo_pop (b ∷ l) = (some b, l)

abbrev pub popped : Option SendEntry → Option (List ℕ)
popped none = none
popped (some e) = some (payload e)

enqueue-IsValid : (q : SendQueue) (bytes : List ℕ) → IsValid q → IsValid (enqueue q bytes).0
unfolding enqueue
enqueue-IsValid q bytes v =
    ground (arith, length-set q.slots q.tail (fill (get_or q.slots q.tail blank) bytes))

dequeue-IsValid : (q : SendQueue) → IsValid q → IsValid (dequeue q).1
unfolding dequeue
dequeue-IsValid q v = ground arith

window_of_ne_zero :
    (slots : List SendEntry) (h n : ℕ)
    → n ≢ 0
    → h < queue_capacity
    → window slots h n
      ≡ payload (get_or slots h blank) ∷ window slots ((h + 1) % queue_capacity) (n - 1)
window_of_ne_zero slots h zero ne lt = absurd (ne refl)
window_of_ne_zero slots h (suc n) ne lt =
    ap₂ ◌∷◌ (ap (λ i. payload (get_or slots i blank)) (omega arith)) (
      window_cong slots (suc h) ((h + 1) % queue_capacity) n (omega arith)
      ∙ ap (window slots ((h + 1) % queue_capacity)) (omega arith))

-- `EnqueueLocked` on a valid queue keeps it valid, reports what the bounded FIFO reports, and
-- appends the packet when it is taken: it is refused at 1024 packets, or over 512 bytes.
pub enqueue_refines :
    (q : SendQueue) (bytes : List ℕ)
    → IsValid q
    → IsValid (enqueue q bytes).0
      × ((packets (enqueue q bytes).0, (enqueue q bytes).1) ≡ fifo_push (packets q) bytes)
enqueue_refines q bytes v = (enqueue-IsValid q bytes v, same)
  where
    e : SendEntry
    e = fill (get_or q.slots q.tail blank) bytes

    grown :
        q.count < queue_capacity
        → window (set q.slots q.tail e) q.head (q.count + 1) ≡ packets q ++ bytes ∷ []
    grown lt =
        ap (window (set q.slots q.tail e) q.head) {y = suc q.count} (omega arith)
        ∙ window-set q.slots q.head q.count q.tail e v.size lt v.tail_at
        ∙ ap (λ b. packets q ++ b ∷ []) (payload-fill (get_or q.slots q.tail blank) bytes)

    same : (packets (enqueue q bytes).0, (enqueue q bytes).1) ≡ fifo_push (packets q) bytes
    same = unfold enqueue in ground (arith, length-window q.slots q.head q.count, grown)

-- Taking an entry out keeps the queue valid, and gives the oldest packet, byte for byte.
pub dequeue_refines :
    (q : SendQueue)
    → IsValid q
    → IsValid (dequeue q).1 × ((popped (dequeue q).0, packets (dequeue q).1) ≡ fifo_pop (packets q))
dequeue_refines q v = (dequeue-IsValid q v, same)
  where
    same : (popped (dequeue q).0, packets (dequeue q).1) ≡ fifo_pop (packets q)
    same = unfold dequeue in ground (arith, window_of_ne_zero q.slots q.head q.count)
