-- ===== src/Shmem/Seqlock.antt =====
-- The seqlock of a slot: WriteSlot and TryReadSlot of InputHealthSnapshotShmem, in steps of single
-- loads and stores. The driver and the overlay take their steps in the order of a schedule, and each
-- sees the stores in the order they were made.
pub mod Safety
pub mod Progress
use open_vr_pair_driver.Base.{
  ℕ, zero, suc, ◌+◌, ◌-◌, ◌%◌, ◌^◌, Bool, Option, none, some, List, [], ◌∷◌, ◌++◌, length, get_or,
  set, ltb, ◌==◌, if◌then◌else◌,
}

-- A body is the list of its words.
pub record Slot : Type 0 where
  pub generation : ℕ
  pub body : List ℕ

-- `storing prev b i` is in the memcpy of `b`, after its first `i` words.
pub data Writer : Type 0 where
  resting : Writer
  storing : ℕ → List ℕ → ℕ → Writer

-- `attempt n` is at the head of the loop with `n` attempts left, `copying n g1 out` in the memcpy
-- with the words `out` copied.
pub data Reader : Type 0 where
  attempt : ℕ → Reader
  copying : ℕ → ℕ → List ℕ → Reader
  returned : Option (List ℕ) → Reader

pub record System : Type 0 where
  pub slot : Slot
  pub writer : Writer
  pub todo : List (List ℕ)
  pub reader : Reader

-- A step of the driver, which writes the bodies `todo` one after the other. No one else stores the
-- generation, so its load and the store of the odd one are one step.
unfoldable pub write_step : System → System
write_step s =
    let start : List (List ℕ) → System = λ todo. elim todo [
      | [] ↦ s
      | b ∷ rest ↦ record s {
        slot = record { generation = (s.slot.generation + 1) % 2 ^ 64; body = s.slot.body };
        writer = storing s.slot.generation b 0;
        todo = rest;
      }
    ] in
    elim s.writer [
      | resting ↦ start s.todo
      | storing prev b i ↦
          if ltb i (length b)
          then record s {
            slot = record {
              generation = s.slot.generation;
              body = set s.slot.body i (get_or b i 0);
            };
            writer = storing prev b (i + 1);
          }
          else record s {
            slot = record { generation = (prev + 2) % 2 ^ 64; body = s.slot.body };
            writer = resting;
          }
    ]

-- A step of the overlay.
unfoldable pub read_step : Slot → Reader → Reader
read_step slot (attempt zero) = returned none
read_step slot (attempt (suc n)) =
    if slot.generation % 2 == 1 then attempt n else copying n slot.generation []
read_step slot (copying n g1 out) =
    if ltb (length out) (length slot.body)
    then copying n g1 (out ++ get_or slot.body (length out) 0 ∷ [])
    else if g1 == slot.generation
    then returned (some out)
    else attempt n
read_step slot (returned o) = returned o

pub data Actor : Type 0 where
  driver : Actor
  overlay : Actor

unfoldable pub turn : System → Actor → System
turn s driver = write_step s
turn s overlay = record s { reader = read_step s.slot s.reader }

unfoldable pub run : System → List Actor → System
run s [] = s
run s (t ∷ ts) = run (turn s t) ts
