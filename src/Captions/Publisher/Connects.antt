-- ===== src/Captions/Publisher/Connects.antt =====
-- What connecting, and writing one frame, does to what has been delivered.
use open_vr_pair_driver.Base.{
  ℕ, ◌≤◌, ◌≡◌, refl, sym, ap, ap₂, ◌∙◌, inl, inr, Bool, true, false, not, ◌||◌, List, [], ◌∷◌, ◌++◌,
  append-nil, append_assoc, if_true, if_false, arith, subst, Bool-cases,
}
use open_vr_pair_driver.Captions.Publisher.{
  RouterPublisher, Pipe, max_backoff_ms, write, disconnect, create_file, source_id, connect,
  len_buf, back_off, connected,
}
use open_vr_pair_driver.Captions.Publisher.Streams.{
  frame, frames, IsPart, Carries, Past, Delivered, Written, Grows, write-Grows, cut_header, carries,
  past, complete, partial,
}

pub IsPart-frame : IsPart (frame []) []
unfolding len_buf
IsPart-frame = record { rest = frame []; more = λ n. cc; ends = refl }

pub no_frames : {stream : List ℕ} → stream ≡ source_id → Carries stream []
no_frames {stream = stream} e = carries [] [] [] IsPart-frame (e ∙ sym (append-nil source_id))

-- Delivered, for a pipe that is not open.
pub disconnect-Delivered :
    (p : RouterPublisher) (o : Pipe) (sent : List (List ℕ))
    → Delivered p o sent
    → Delivered (disconnect p) o sent
unfolding disconnect
disconnect-Delivered p o sent d = record {
  both = refl;
  before = d.before;
  now = d.now;
  all = d.all;
  earlier = d.earlier;
  current = d.current;
  whole = λ e. cc;
  backoff = d.backoff;
}

pub back_off-Delivered :
    (p : RouterPublisher) (o : Pipe) (sent : List (List ℕ))
    → Delivered p o sent
    → Delivered (back_off p) o sent
unfolding back_off
back_off-Delivered p o sent d = record {
  both = d.both;
  before = d.before;
  now = d.now;
  all = d.all;
  earlier = d.earlier;
  current = d.current;
  whole = d.whole;
  backoff = omega (arith, d.backoff);
}

-- A pipe that is opened, after the source identifier has been written to it or not.
pub opened-Delivered :
    (p q : RouterPublisher) (o fresh o' : Pipe) (sent : List (List ℕ)) (b : Bool)
    → Delivered p o sent
    → fresh.stream ≡ []
    → fresh.earlier ≡ o.stream ∷ o.earlier
    → Grows fresh o' source_id b
    → (q.identified ≡ b) × (q.pipe ≡ b)
    → (500 ≤ q.backoff_ms) × (q.backoff_ms ≤ max_backoff_ms)
    → Delivered q o' sent
opened-Delivered p q o fresh o' sent b d empty moved g (i, h) bound = record {
  both = i ∙ sym h;
  before = d.before ++ d.now;
  now = [];
  all = d.all ∙ sym (append-nil (d.before ++ d.now));
  earlier =
      subst (λ l. Past l (d.before ++ d.now)) (sym (g.earlier ∙ moved))
        (past o.stream o.earlier d.before d.now d.earlier d.current);
  current = written.0;
  whole = λ e. written.1 (sym h ∙ e);
  backoff = bound;
}
  where
    stream_is : o'.stream ≡ g.out
    stream_is = g.stream ∙ ap (λ t. t ++ g.out) empty

    from :
        (out : List ℕ) (b : Bool)
        → Written source_id out b
        → o'.stream ≡ out
        → Carries o'.stream [] × (b ≡ true → o'.stream ≡ source_id ++ frames [])
    from out true (complete e) s = (no_frames (s ∙ e), λ _. s ∙ e ∙ sym (append-nil source_id))
    from out false (partial part) s = (cut_header (subst (IsPart source_id) (sym s) part), λ e. cc)

    written : Carries o'.stream [] × (b ≡ true → o'.stream ≡ source_id ++ frames [])
    written = from g.out b g.written stream_is

-- What opening the pipe does.
pub data Opens (o o' : Pipe) : Bool → Type 0 where
  fails : o'.stream ≡ o.stream → o'.earlier ≡ o.earlier → Opens o o' false
  fresh : o'.stream ≡ [] → o'.earlier ≡ o.stream ∷ o.earlier → Opens o o' true

pub create_file-Opens : (o : Pipe) → Opens o (create_file o).0 (create_file o).1
unfolding create_file
create_file-Opens o = from o.opens refl
  where
    from : (opens : List Bool) → o.opens ≡ opens → Opens o (create_file o).0 (create_file o).1
    from [] e = rw (e, create_file) (fails refl refl)
    from (false ∷ opens) e = rw (e, create_file) (fails refl refl)
    from (true ∷ opens) e = rw (e, create_file) (fresh refl refl)

pub same_streams-Delivered :
    (p : RouterPublisher) (o o' : Pipe) (sent : List (List ℕ))
    → o'.stream ≡ o.stream
    → o'.earlier ≡ o.earlier
    → Delivered p o sent
    → Delivered p o' sent
same_streams-Delivered p o o' sent s e d = record {
  both = d.both;
  before = d.before;
  now = d.now;
  all = d.all;
  earlier = subst (λ l. Past l d.before) (sym e) d.earlier;
  current = subst (λ l. Carries l d.now) (sym s) d.current;
  whole = λ h. s ∙ d.whole h;
  backoff = d.backoff;
}

-- Connecting keeps what has been delivered, and leaves an open pipe where it succeeds.
abbrev pub Ready : List (List ℕ) → RouterPublisher × Pipe × Bool → Type 0
Ready sent (p, o, ready) = Delivered p o sent × (ready ≡ true → p.pipe ≡ true)

pub connect-Ready :
    (p : RouterPublisher) (o : Pipe) (sent : List (List ℕ))
    → Delivered p o sent
    → Ready sent (connect p o)
unfolding connect disconnect
connect-Ready p o sent d = from (create_file o).1 (create_file-Opens o) refl
  where
    o' : Pipe
    o' = (create_file o).0

    from : (b : Bool) → Opens o o' b → (create_file o).1 ≡ b → Ready sent (connect p o)
    from false (fails s e) h =
        subst (Ready sent) (sym (if_false {b = (create_file o).1} _ h))
          (disconnect-Delivered p o' sent (same_streams-Delivered p o o' sent s e d), λ n. cc)
    from true (fresh s e) h =
        subst (Ready sent) (sym (if_true {b = (create_file o).1} _ h))
          (elim (Bool-cases (write o' source_id).1) [
            | inl ok ↦ subst (Ready sent) (sym (if_true {b = (write o' source_id).1} _ ok)) (
              opened-Delivered p (record p { pipe = true; identified = true; backoff_ms = 500 }) o
                  o' (write o' source_id).0 sent true d s e
                  (subst (Grows o' (write o' source_id).0 source_id) ok (write-Grows o' source_id))
                  (refl, refl) (omega arith),
              λ _. refl,
            )
            | inr failed ↦
                subst (Ready sent) (sym (if_false {b = (write o' source_id).1} _ failed)) (
                  opened-Delivered p (disconnect p) o o' (write o' source_id).0 sent false d s e
                      (subst (Grows o' (write o' source_id).0 source_id) failed
                        (write-Grows o' source_id))
                      (refl, refl) d.backoff,
                  λ n. cc,
                )
          ])

pub connected-Ready :
    (p : RouterPublisher) (o : Pipe) (sent : List (List ℕ))
    → Delivered p o sent
    → Ready sent (connected p o)
unfolding connected
connected-Ready p o sent d = elim (Bool-cases (not p.pipe || not p.identified)) [
  | inl closed ↦
      subst (Ready sent) (sym (if_true {b = not p.pipe || not p.identified} _ closed))
        (connect-Ready p o sent d)
  | inr is_open ↦
      subst (Ready sent) (sym (if_false {b = not p.pipe || not p.identified} _ is_open))
        (d, λ _. ground (arith, is_open))
]

-- A frame written to an open pipe.
pub frames-append :
    (pkts : List (List ℕ)) (pkt : List ℕ) → frames (pkts ++ pkt ∷ []) ≡ frames pkts ++ frame pkt
frames-append [] pkt = append-nil (frame pkt)
frames-append (p ∷ pkts) pkt =
    ap (λ t. frame p ++ t) (frames-append pkts pkt)
    ∙ sym (append_assoc (frame p) (frames pkts) (frame pkt))

abbrev pub one_if : Bool → List ℕ → List (List ℕ)
one_if true pkt = pkt ∷ []
one_if false pkt = []

pub frame_complete :
    (p : RouterPublisher) (o o' : Pipe) (pkt : List ℕ) (sent : List (List ℕ))
    → Delivered p o sent
    → p.pipe ≡ true
    → Grows o o' (frame pkt) true
    → Delivered p o' (sent ++ pkt ∷ [])
frame_complete p o o' pkt sent d is_open g = record {
  both = d.both;
  before = d.before;
  now = d.now ++ pkt ∷ [];
  all = ap (λ l. l ++ pkt ∷ []) d.all ∙ append_assoc d.before d.now (pkt ∷ []);
  earlier = subst (λ l. Past l d.before) (sym g.earlier) d.earlier;
  current =
      carries (d.now ++ pkt ∷ []) [] [] IsPart-frame
        (stream_is ∙ ap (λ t. source_id ++ t) (sym (append-nil (frames (d.now ++ pkt ∷ [])))));
  whole = λ _. stream_is;
  backoff = d.backoff;
}
  where
    all_out : (out : List ℕ) → Written (frame pkt) out true → out ≡ frame pkt
    all_out out (complete e) = e

    stream_is : o'.stream ≡ source_id ++ frames (d.now ++ pkt ∷ [])
    stream_is =
        g.stream
        ∙ ap₂ (◌++◌) (d.whole is_open) (all_out g.out g.written)
        ∙ append_assoc source_id (frames d.now) (frame pkt)
        ∙ ap (λ t. source_id ++ t) (sym (frames-append d.now pkt))

pub frame_cut :
    (p : RouterPublisher) (o o' : Pipe) (pkt : List ℕ) (sent : List (List ℕ))
    → Delivered p o sent
    → p.pipe ≡ true
    → Grows o o' (frame pkt) false
    → Delivered (disconnect p) o' sent
unfolding disconnect
frame_cut p o o' pkt sent d is_open g = record {
  both = refl;
  before = d.before;
  now = d.now;
  all = d.all;
  earlier = subst (λ l. Past l d.before) (sym g.earlier) d.earlier;
  current = carries d.now g.out pkt (part g.out g.written) (
      g.stream
      ∙ ap (λ t. t ++ g.out) (d.whole is_open)
      ∙ append_assoc source_id (frames d.now) g.out);
  whole = λ e. cc;
  backoff = d.backoff;
}
  where
    part : (out : List ℕ) → Written (frame pkt) out false → IsPart (frame pkt) out
    part out (partial h) = h
