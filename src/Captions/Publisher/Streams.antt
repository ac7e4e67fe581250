-- ===== src/Captions/Publisher/Streams.antt =====
-- The streams of the publish pipe, and what one call of Write or one frame adds to them.
use open_vr_pair_driver.Base.{
  ℕ, ◌%◌, ◌^◌, ◌≤◌, ◌≡◌, ◌≢◌, refl, sym, ap, ◌∙◌, inl, inr, Bool, true, false, Option, none, some,
  List, [], ◌∷◌, ◌++◌, append_assoc, length, take, drop, if_true, if_false, subst, Bool-cases,
  take-append-drop,
}
use open_vr_pair_driver.Captions.Publisher.{
  RouterPublisher, Pipe, max_backoff_ms, write_loop, write, source_id, len_buf, write_frame,
}

abbrev pub frame : List ℕ → List ℕ
frame pkt = len_buf (length pkt % 2 ^ 32) ++ pkt

abbrev pub frames : List (List ℕ) → List ℕ
frames [] = []
frames (pkt ∷ pkts) = frame pkt ++ frames pkts

-- Some of the bytes, but not all of them.
pub record IsPart (whole part : List ℕ) : Type 0 where
  pub rest : List ℕ
  pub more : rest ≢ []
  pub ends : part ++ rest ≡ whole

-- A stream that carries exactly these packets: the source identifier, their frames, and perhaps a
-- part of one more frame; or no packet and only a part of the identifier.
pub data Carries (stream : List ℕ) : List (List ℕ) → Type 0 where
  cut_header : IsPart source_id stream → Carries stream []
  carries :
      (pkts : List (List ℕ)) (part last : List ℕ)
      → IsPart (frame last) part
      → stream ≡ source_id ++ (frames pkts ++ part)
      → Carries stream pkts

-- The streams before the current one, the newest first, and the packets that they carry together.
pub data Past : List (List ℕ) → List (List ℕ) → Type 0 where
  no_past : Past [] []
  past :
      (stream : List ℕ) (earlier before now : List (List ℕ))
      → Past earlier before
      → Carries stream now
      → Past (stream ∷ earlier) (before ++ now)

-- The packets `sent` are in the streams, in order and each once; an open pipe carries whole frames;
-- and the backoff is within its bounds.
pub record Delivered (p : RouterPublisher) (o : Pipe) (sent : List (List ℕ)) : Type 0 where
  pub both : p.identified ≡ p.pipe
  pub before : List (List ℕ)
  pub now : List (List ℕ)
  pub all : sent ≡ before ++ now
  pub earlier : Past o.earlier before
  pub current : Carries o.stream now
  pub whole : p.pipe ≡ true → o.stream ≡ source_id ++ frames now
  pub backoff : (500 ≤ p.backoff_ms) × (p.backoff_ms ≤ max_backoff_ms)

-- What a call of Write puts out.
pub data Written (data_ out : List ℕ) : Bool → Type 0 where
  complete : out ≡ data_ → Written data_ out true
  partial : IsPart data_ out → Written data_ out false

pub prepend :
    (n : ℕ) (data_ out : List ℕ) (b : Bool)
    → Written (drop n data_) out b
    → Written data_ (take n data_ ++ out) b
prepend n data_ out true (complete e) =
    complete (ap (λ t. take n data_ ++ t) e ∙ take-append-drop n data_)
prepend n data_ out false (partial h) = partial (record {
  rest = h.rest;
  more = h.more;
  ends =
      append_assoc (take n data_) out h.rest
      ∙ ap (λ t. take n data_ ++ t) h.ends
      ∙ take-append-drop n data_;
})

pub nothing_written : (b : ℕ) (data_ : List ℕ) → Written (b ∷ data_) [] false
nothing_written b data_ = partial (record { rest = b ∷ data_; more = λ e. cc; ends = refl })

pub write_loop-Written :
    (writes : List (Option ℕ)) (data_ : List ℕ)
    → Written data_ (write_loop writes data_).1 (write_loop writes data_).2
unfolding write_loop
write_loop-Written [] [] = complete refl
write_loop-Written (none ∷ writes) [] = complete refl
write_loop-Written (some n ∷ writes) [] = complete refl
write_loop-Written [] (b ∷ data_) = nothing_written b data_
write_loop-Written (none ∷ writes) (b ∷ data_) = nothing_written b data_
write_loop-Written (some n ∷ writes) (b ∷ data_) =
    prepend n (b ∷ data_) (write_loop writes (drop n (b ∷ data_))).1
      (write_loop writes (drop n (b ∷ data_))).2 (write_loop-Written writes (drop n (b ∷ data_)))

-- What a call of Write does to the pipe.
pub record Grows (o o' : Pipe) (data_ : List ℕ) (b : Bool) : Type 0 where
  pub out : List ℕ
  pub written : Written data_ out b
  pub stream : o'.stream ≡ o.stream ++ out
  pub earlier : o'.earlier ≡ o.earlier

pub write-Grows : (o : Pipe) (data_ : List ℕ) → Grows o (write o data_).0 data_ (write o data_).1
unfolding write
write-Grows o data_ = record {
  out = (write_loop o.writes data_).1;
  written = write_loop-Written o.writes data_;
  stream = refl;
  earlier = refl;
}

pub frame_Grows :
    (o o' o'' : Pipe) (xs ys : List ℕ) (b : Bool)
    → Grows o o' xs true
    → Grows o' o'' ys b
    → Grows o o'' (xs ++ ys) b
frame_Grows o o' o'' xs ys b first second = from first.out first.written first.stream
  where
    joined : (out : List ℕ) (b : Bool) → Written ys out b → Written (xs ++ ys) (xs ++ out) b
    joined out true (complete e) = complete (ap (λ t. xs ++ t) e)
    joined out false (partial h) = partial (record {
      rest = h.rest;
      more = h.more;
      ends = append_assoc xs out h.rest ∙ ap (λ t. xs ++ t) h.ends;
    })

    from :
        (out : List ℕ)
        → Written xs out true
        → o'.stream ≡ o.stream ++ out
        → Grows o o'' (xs ++ ys) b
    from out (complete e) grown = record {
      out = xs ++ second.out;
      written = joined second.out b second.written;
      stream =
          second.stream
          ∙ ap (λ t. t ++ second.out) (grown ∙ ap (λ t. o.stream ++ t) e)
          ∙ append_assoc o.stream xs second.out;
      earlier = second.earlier ∙ first.earlier;
    }

pub cut_Grows : (o o' : Pipe) (xs ys : List ℕ) → Grows o o' xs false → Grows o o' (xs ++ ys) false
cut_Grows o o' xs ys g = record {
  out = g.out;
  written = from g.out g.written;
  stream = g.stream;
  earlier = g.earlier;
}
  where
    from : (out : List ℕ) → Written xs out false → Written (xs ++ ys) out false
    from out (partial h) = partial (record {
      rest = h.rest ++ ys;
      more = nonempty h.rest h.more;
      ends = sym (append_assoc out h.rest ys) ∙ ap (λ t. t ++ ys) h.ends;
    })
      where
        nonempty : (l : List ℕ) → l ≢ [] → l ++ ys ≢ []
        nonempty [] h e = h refl
        nonempty (x ∷ l) h e = cc

pub write_frame-Grows :
    (o : Pipe) (pkt : List ℕ) → Grows o (write_frame o pkt).0 (frame pkt) (write_frame o pkt).1
unfolding write_frame
write_frame-Grows o pkt = elim (Bool-cases (write o prefix).1) [
  | inl ok ↦
      subst {A = Pipe × Bool} (λ x. Grows o x.0 (frame pkt) x.1)
        (sym (if_true {b = (write o prefix).1} _ ok))
        (frame_Grows o (write o prefix).0 (write (write o prefix).0 pkt).0 prefix pkt
          (write (write o prefix).0 pkt).1
          (subst (Grows o (write o prefix).0 prefix) ok (write-Grows o prefix))
          (write-Grows (write o prefix).0 pkt))
  | inr failed ↦
      subst {A = Pipe × Bool} (λ x. Grows o x.0 (frame pkt) x.1)
        (sym (if_false {b = (write o prefix).1} _ failed))
        (cut_Grows o (write o prefix).0 prefix pkt
          (subst (Grows o (write o prefix).0 prefix) failed (write-Grows o prefix)))
]
  where
    prefix : List ℕ
    prefix = len_buf (length pkt % 2 ^ 32)
