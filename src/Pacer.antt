-- ===== src/Pacer.antt =====
-- ChatboxPacer of modules/captions/src/host/ChatboxPacer.h and ChatboxPacer.cpp. Times of the steady
-- clock, and the gap, are numbers of its ticks.
pub mod Pace
mod Tests
use open_vr_pair_driver.Base.{
  ℕ, zero, suc, ◌+◌, ◌-◌, Bool, true, false, not, Option, none, some, List, [], ◌∷◌, ◌++◌, length,
  drop, ltb, leb, ◌&&◌, if◌then◌else◌,
}

pub record Entry : Type 0 where
  pub text : List ℕ
  pub send_immediate : Bool
  pub notify : Bool

pub record ChatboxPacer : Type 0 where
  pub min_gap : ℕ
  pub queue : List Entry
  pub last_send : ℕ
  pub first_send : Bool

abbrev pub queue_cap : ℕ
queue_cap = 8

unfoldable pub chatbox_pacer : ℕ → ChatboxPacer
chatbox_pacer min_gap = record { min_gap = min_gap; queue = []; last_send = 0; first_send = true }

unfoldable pub enqueue : ChatboxPacer → Entry → ChatboxPacer
enqueue p e =
    let kept = if leb queue_cap (length p.queue) then drop 1 p.queue else p.queue in
    record p { queue = kept ++ e ∷ [] }

-- `Dequeue` at the time `now`: the entry it writes to `out`, if it returns true.
unfoldable pub dequeue : ChatboxPacer → ℕ → ChatboxPacer × Option Entry
dequeue p now =
    let too_soon = not p.first_send && ltb (now - p.last_send) p.min_gap in
    let send : List Entry → ChatboxPacer × Option Entry = λ q. elim q [
      | [] ↦ (p, none)
      | e ∷ rest ↦
          if too_soon
          then (p, none)
          else (record p { queue = rest; last_send = now; first_send = false }, some e)
    ] in
    send p.queue
