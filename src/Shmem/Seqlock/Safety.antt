-- ===== src/Shmem/Seqlock/Safety.antt =====
-- No schedule makes a reader return a torn body.
use open_vr_pair_driver.Base.{
  ℕ, zero, suc, ◌+◌, ◌%◌, ◌^◌, ◌≤◌, ◌<◌, ◌≡◌, ◌≢◌, ◌*◌, refl, ap, sym, ◌∙◌, subst, none, some, List,
  [], ◌∷◌, ◌++◌, length, take, get_or, set, ltb, ◌==◌, if◌then◌else◌, ◌⊎◌, inl, inr, Bool-cases,
  arith, length-append, length-set, take-set, take-length, take-suc,
}
use open_vr_pair_driver.Shmem.Seqlock.{
  Slot, Writer, resting, storing, Reader, attempt, copying, returned, System, write_step, read_step,
  Actor, driver, overlay, turn, run,
}

abbrev pub IsOneOf : List (List ℕ) → List ℕ → Type 0
IsOneOf [] b = ⊥
IsOneOf (c ∷ cs) b = (b ≡ c) ⊎ IsOneOf cs b

pub prefix_suc :
    (body out : List ℕ)
    → length out < length body
    → out ≡ take (length out) body
    → take (length out) body ++ get_or body (length out) 0 ∷ []
      ≡ take (length (out ++ get_or body (length out) 0 ∷ [])) body
prefix_suc body out h same =
    sym (take-suc body (length out) 0 h)
    ∙ ap (λ n. take n body) {x = suc (length out)}
        (omega (arith, length-append out (get_or body (length out) 0 ∷ [])))

-- The word that the writer stores next.
pub word :
    (i : ℕ) (b body : List ℕ)
    → i < length body
    → i < length b
    → take i body ≡ take i b
    → take (i + 1) (set body i (get_or b i 0)) ≡ take (i + 1) b
word i b body h h' same =
    rw (suc_lem, take-set body i (get_or b i 0) h, same, take-suc b i 0 h') refl
  where
    suc_lem : i + 1 ≡ suc i
    suc_lem = omega arith

module _ (P : List ℕ → Type 0) (size : ℕ) where
  -- A complete body of the right size.
  abbrev IsWhole : List ℕ → Type 0
  IsWhole b = (length b ≡ size) × P b

  abbrev AreWhole : List (List ℕ) → Type 0
  AreWhole [] = Unit {0}
  AreWhole (b ∷ bs) = IsWhole b × AreWhole bs

  -- The generation is even between writes and odd in one, and the words stored so far are those
  -- of the body that is written.
  abbrev IsSound : ℕ → List ℕ → Writer → Type 0
  IsSound g body resting = (g % 2 ≡ 0) × IsWhole body
  IsSound g body (storing prev b i) =
      (g ≡ prev + 1)
      × (prev % 2 ≡ 0)
      × (i ≤ size)
      × (length body ≡ size)
      × (take i body ≡ take i b)
      × IsWhole b

  -- While the generation is the one it began with, the reader has copied a prefix of the body.
  abbrev IsReading : ℕ → List ℕ → Reader → Type 0
  IsReading g body (attempt n) = Unit {0}
  IsReading g body (copying n g1 out) =
      (g1 % 2 ≡ 0) × (g1 ≤ g) × (length out ≤ size) × (g1 ≡ g → out ≡ take (length out) body)
  IsReading g body (returned none) = Unit {0}
  IsReading g body (returned (some out)) = P out

  -- What is left to do fits into the generation.
  abbrev pending : Writer → ℕ
  pending resting = 0
  pending (storing prev b i) = 1

  abbrev Invariant : System → Type 0
  Invariant s =
      (s.slot.generation + 2 * length s.todo + pending s.writer < 2 ^ 64)
      × IsSound s.slot.generation s.slot.body s.writer
      × AreWhole s.todo
      × IsReading s.slot.generation s.slot.body s.reader

  -- A reader is not misled by a generation that grows past the one it began with.
  IsReading-later :
      (g g' : ℕ) (body body' : List ℕ) (r : Reader)
      → g ≤ g'
      → ((g1 : ℕ) → g1 % 2 ≡ 0 → g1 ≤ g → g1 ≢ g')
      → IsReading g body r
      → IsReading g' body' r
  IsReading-later g g' body body' (attempt n) h new reading = tt
  IsReading-later g g' body body' (copying n g1 out) h new (even, below, short, same) =
      (even, omega arith, short, λ e. absurd (new g1 even below e))
  IsReading-later g g' body body' (returned none) h new reading = tt
  IsReading-later g g' body body' (returned (some out)) h new reading = reading

  abbrev system : Slot → Writer → List (List ℕ) → Reader → System
  system slot w todo r = record { slot = slot; writer = w; todo = todo; reader = r }

  written-Invariant :
      (slot : Slot) (w : Writer) (todo : List (List ℕ)) (r : Reader)
      → Invariant (system slot w todo r)
      → Invariant (write_step (system slot w todo r))
  unfolding write_step
  written-Invariant slot resting [] r inv = inv
  written-Invariant slot resting (b ∷ todo) r
        (bound, (even, (long, whole)), (next, rest), reading) =
      let g' : (slot.generation + 1) % 2 ^ 64 ≡ slot.generation + 1 = ground arith in
      (
        ground (arith, g'),
        (g', even, ground arith, long, refl, next),
        rest,
        IsReading-later slot.generation ((slot.generation + 1) % 2 ^ 64) slot.body slot.body r
            (ground (arith, g')) (λ g1 e1 h e. ground (arith, g', h, e)) reading,
      )
  written-Invariant slot (storing prev b i) todo r
        (bound, (odd, even, within, long, same, (full, whole)), rest, reading) =
      elim (Bool-cases (ltb i (length b))) [
        | inl more ↦
            rw (more, if◌then◌else◌)
              (
                bound,
                (
                  odd,
                  even,
                  ground (arith, more),
                  length-set slot.body i (get_or b i 0) ∙ long,
                  word i b slot.body (ground (arith, more, long, full)) (ground (arith, more)) same,
                  (full, whole),
                ),
                rest,
                IsReading-later slot.generation slot.generation slot.body
                    (set slot.body i (get_or b i 0)) r (omega arith)
                    (λ g1 e1 h e. ground (arith, odd, even, e1, e)) reading,
              )
        | inr done ↦
            let g' : (prev + 2) % 2 ^ 64 ≡ prev + 2 = ground (arith, odd, bound) in
            let copied : slot.body ≡ b =
              sym (take-length slot.body i (ground (arith, done, long, full)))
              ∙ (same ∙ take-length b i (ground (arith, done))) in
            rw (done, if◌then◌else◌)
              (
                ground (arith, g', odd, bound),
                (ground (arith, g', even), (long, subst P (sym copied) whole)),
                rest,
                IsReading-later slot.generation ((prev + 2) % 2 ^ 64) slot.body slot.body r
                    (ground (arith, g', odd)) (λ g1 e1 h e. ground (arith, g', odd, h, e)) reading,
              )
      ]

  read-Invariant :
      (slot : Slot) (r : Reader)
      → IsReading slot.generation slot.body r
      → (slot.generation % 2 ≡ 0 → IsWhole slot.body)
      → length slot.body ≡ size
      → IsReading slot.generation slot.body (read_step slot r)
  unfolding read_step
  read-Invariant slot (attempt zero) reading whole long = tt
  read-Invariant slot (attempt (suc n)) reading whole long =
      elim (Bool-cases (slot.generation % 2 == 1)) [
        | inl odd ↦ rw (odd, if◌then◌else◌) tt
        | inr even ↦
            rw (even, if◌then◌else◌) (ground (arith, even), omega arith, omega arith, λ e. refl)
      ]
  read-Invariant slot (copying n g1 out) (even, below, short, same) whole long =
      elim (Bool-cases (ltb (length out) (length slot.body))) [
        | inl more ↦
            rw (more, if◌then◌else◌)
              (
                even,
                below,
                ground
                    (arith, more, long, length-append out (get_or slot.body (length out) 0 ∷ [])),
                λ e.
                    ap (λ l. l ++ get_or slot.body (length out) 0 ∷ []) (same e)
                    ∙ prefix_suc slot.body out (ground (arith, more)) (same e),
              )
        | inr done ↦
            rw (done, if◌then◌else◌)
              (elim (Bool-cases (g1 == slot.generation)) [
                | inl e ↦
                    rw (e, if◌then◌else◌)
                      (let g : g1 ≡ slot.generation = ground (arith, e) in
                        let all = whole (ground (arith, g, even)) in
                        let copied : out ≡ slot.body =
                          same g ∙ take-length slot.body (length out) (ground (arith, done)) in
                        subst P (sym copied) all.1)
                | inr changed ↦ rw (changed, if◌then◌else◌) tt
              ])
      ]
  read-Invariant slot (returned none) reading whole long = tt
  read-Invariant slot (returned (some out)) reading whole long = reading

  IsWhole-at_rest :
      (slot : Slot) (w : Writer)
      → IsSound slot.generation slot.body w
      → slot.generation % 2 ≡ 0
      → IsWhole slot.body
  IsWhole-at_rest slot resting sound even = sound.1
  IsWhole-at_rest slot (storing prev b i) (odd, even, within, long, same, whole) h =
      absurd (ground (arith, odd, even, h))

  long_always :
      (slot : Slot) (w : Writer) → IsSound slot.generation slot.body w → length slot.body ≡ size
  long_always slot resting (even, (long, whole)) = long
  long_always slot (storing prev b i) (odd, even, within, long, same, whole) = long

  turn-Invariant : (s : System) (t : Actor) → Invariant s → Invariant (turn s t)
  unfolding turn
  turn-Invariant s driver inv = written-Invariant s.slot s.writer s.todo s.reader inv
  turn-Invariant s overlay (bound, sound, rest, reading) = (
    bound,
    sound,
    rest,
    read-Invariant s.slot s.reader reading (IsWhole-at_rest s.slot s.writer sound)
        (long_always s.slot s.writer sound),
  )

  run-Invariant : (s : System) (ts : List Actor) → Invariant s → Invariant (run s ts)
  unfolding run
  run-Invariant s [] inv = inv
  run-Invariant s (t ∷ ts) inv = run-Invariant (turn s t) ts (turn-Invariant s t inv)

AreWhole-of :
    (P : List ℕ → Type 0) (size : ℕ) (bodies : List (List ℕ))
    → ((b : List ℕ) → IsOneOf bodies b → (length b ≡ size) × P b)
    → AreWhole P size bodies
AreWhole-of P size [] h = tt
AreWhole-of P size (b ∷ bodies) h =
    (h b (inl refl), AreWhole-of P size bodies (λ c one. h c (inr one)))

-- The overlay is about to read a slot that the driver is not writing.
pub record IsReady (s : System) (n : ℕ) : Type 0 where
  pub rests : s.writer ≡ resting
  pub even : s.slot.generation % 2 ≡ 0
  pub fits : s.slot.generation + 2 * length s.todo < 2 ^ 64
  pub reads : s.reader ≡ attempt n

-- A read that begins on a slot that is not being written, and that succeeds, returns the body that
-- stood there or one that the driver wrote since, complete: never a mix of two. This holds for
-- every interleaving of the driver's loads and stores with the overlay's, as long as the bodies
-- have one size and the generation does not wrap.
pub run-IsOneOf :
    (s : System) (n : ℕ) (ts : List Actor) (out : List ℕ)
    → IsReady s n
    → ((b : List ℕ) → IsOneOf (s.slot.body ∷ s.todo) b → length b ≡ length s.slot.body)
    → (run s ts).reader ≡ returned (some out)
    → IsOneOf (s.slot.body ∷ s.todo) out
run-IsOneOf s n ts out ready long ends =
    let P = IsOneOf (s.slot.body ∷ s.todo) in
    let size = length s.slot.body in
    let start : Invariant P size s = (
      rw ready.rests (omega (arith, ready.fits)),
      rw ready.rests (ready.even, (refl, inl refl)),
      AreWhole-of P size s.todo (λ b one. (long b (inr one), inr one)),
      rw ready.reads tt,
    ) in
    let last = run s ts in
    subst (IsReading P size last.slot.generation last.slot.body) ends
      (run-Invariant P size s ts start).3
