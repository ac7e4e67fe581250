-- ===== src/Osc/Packet/Capacity.antt =====
-- What the writers of OscPacket leave in the buffer, and when they report that it is too small.
use native.Mathlib.Numerals.{add-one}
use open_vr_pair_driver.Base.{
  ℕ, zero, suc, ◌+◌, ◌-◌, ◌/◌, ◌%◌, ◌^◌, ◌≤◌, ◌<◌, ◌≡◌, refl, sym, ap, ◌∙◌, ◌⊎◌, inl, inr, true,
  false, List, [], ◌∷◌, ◌++◌, append-nil, append_assoc, length, take, drop, replicate, arith, subst,
  length-append, length-set, length-take, length-drop, take-append, take-set, Bool-cases, add_size,
  ltb, leb,
}
use open_vr_pair_driver.Osc.Packet.{
  OscPacket, osc_pad4, blit, append_byte, append, append_zeros, write_str, write_int32, write_blob,
  write_raw_args, begin, emitted,
}

pub record IsValid (n : ℕ) (p : OscPacket) : Type 0 where
  pub size : length p.buf ≡ n
  pub within : p.pos ≤ n

-- `q` is the packet `p` after the bytes `bs` were to be written: either they are what follows in the
-- buffer, or the packet is marked as failed because it was, or because they do not fit.
pub data Wrote (n : ℕ) (p : OscPacket) (bs : List ℕ) (q : OscPacket) : Type 0 where
  fits :
      IsValid n q
      → p.ok ≡ true
      → q.ok ≡ true
      → q.pos ≡ p.pos + length bs
      → emitted q ≡ emitted p ++ bs
      → Wrote n p bs q
  full : IsValid n q → q.ok ≡ false → (p.ok ≡ false) ⊎ (n < p.pos + length bs) → Wrote n p bs q

-- What `WriteStr` appends.
abbrev pub osc_string : List ℕ → List ℕ
osc_string s = s ++ 0 ∷ replicate (osc_pad4 (length s + 1) - (length s + 1)) 0

-- What `WriteInt32` appends: the most significant byte first.
abbrev pub osc_int32 : ℕ → List ℕ
osc_int32 v = (v / 2 ^ 24 % 256) ∷ (v / 2 ^ 16 % 256) ∷ (v / 2 ^ 8 % 256) ∷ (v % 256) ∷ []

-- What `WriteBlob` appends.
abbrev pub osc_blob : List ℕ → List ℕ
osc_blob bytes =
    osc_int32 (length bytes % 2 ^ 32)
    ++ (bytes ++ replicate (osc_pad4 (length bytes) - length bytes) 0)

Wrote-IsValid : {n : ℕ} {p q : OscPacket} {bs : List ℕ} → Wrote n p bs q → IsValid n q
Wrote-IsValid (fits v _ _ _ _) = v
Wrote-IsValid (full v _ _) = v

Wrote-trans :
    {n : ℕ} {p q r : OscPacket} {xs ys : List ℕ}
    → Wrote n p xs q
    → Wrote n q ys r
    → Wrote n p (xs ++ ys) r
Wrote-trans {p = p} {xs = xs} {ys = ys} (fits v a b c d) (fits v' a' b' c' d') =
    fits v' a b' (omega (arith, length-append xs ys))
      (d' ∙ ap (λ t. t ++ ys) d ∙ append_assoc (emitted p) xs ys)
Wrote-trans {xs = xs} {ys = ys} (fits v a b c d) (full v' e (inl f)) = cc
Wrote-trans {xs = xs} {ys = ys} (fits v a b c d) (full v' e (inr f)) =
    full v' e (inr (omega (arith, length-append xs ys)))
Wrote-trans (full v a b) (fits v' a' b' c' d') = cc
Wrote-trans (full v a (inl b)) (full v' a' b') = full v' a' (inl b)
Wrote-trans {xs = xs} {ys = ys} (full v a (inr b)) (full v' a' b') =
    full v' a' (inr (omega (arith, length-append xs ys)))

length-blit :
    (buf : List ℕ) (pos : ℕ) (src : List ℕ)
    → pos + length src ≤ length buf
    → length (blit buf pos src) ≡ length buf
unfolding blit
length-blit buf pos src h = omega (
  arith,
  length-append (take pos buf) (src ++ drop (pos + length src) buf),
  length-append src (drop (pos + length src) buf),
  length-take pos buf,
  length-drop (pos + length src) buf,
)

take-blit :
    (buf : List ℕ) (pos : ℕ) (src : List ℕ)
    → pos + length src ≤ length buf
    → take (pos + length src) (blit buf pos src) ≡ take pos buf ++ src
unfolding blit
take-blit buf pos src h =
    ap (take (pos + length src))
      (sym (append_assoc (take pos buf) src (drop (pos + length src) buf)))
    ∙ take-append (take pos buf ++ src) (drop (pos + length src) buf) (pos + length src)
        (omega (arith, length-append (take pos buf) src, length-take pos buf))

module _ (n : ℕ) (small : n < 2 ^ 63) where
  append-Wrote :
      (p : OscPacket) (src : List ℕ)
      → IsValid n p
      → length src < 2 ^ 63
      → Wrote n p src (append n p src)
  unfolding append emitted
  append-Wrote p src v h = elim (Bool-cases p.ok) [
    | inr e ↦ simp (e, append) (full v e (inl e))
    | inl e ↦ elim (Bool-cases (ltb n (add_size p.pos (length src)))) [
      | inl f ↦
          simp (e, f, append)
            (full (record { size = v.size; within = v.within }) refl (inr (ground arith)))
      | inr f ↦
          let same : add_size p.pos (length src) ≡ p.pos + length src = omega (arith, v.within) in
          simp (e, f, append)
            (rw same (
              fits
                (record {
                  size = length-blit p.buf p.pos src (ground arith) ∙ v.size;
                  within = ground arith;
                })
                e refl refl (take-blit p.buf p.pos src (ground arith))))
    ]
  ]

  append_byte-Wrote : (p : OscPacket) (b : ℕ) → IsValid n p → Wrote n p (b ∷ []) (append_byte n p b)
  unfolding append_byte emitted
  append_byte-Wrote p b v = elim (Bool-cases p.ok) [
    | inr e ↦ simp (e, append_byte) (full v e (inl e))
    | inl e ↦ elim (Bool-cases (leb n p.pos)) [
      | inl f ↦
          simp (e, f, append_byte)
            (full (record { size = v.size; within = v.within }) refl (inr (ground arith)))
      | inr f ↦
          simp (e, f, append_byte)
            (fits (record { size = length-set p.buf p.pos b ∙ v.size; within = ground arith }) e
              refl refl (rw add-one (take-set p.buf p.pos b (ground arith))))
    ]
  ]

  append_zeros-Wrote :
      (k : ℕ) (p : OscPacket) → IsValid n p → Wrote n p (replicate k 0) (append_zeros n k p)
  unfolding append_zeros
  append_zeros-Wrote zero p v = nothing
    where
      nothing : Wrote n p [] p
      nothing = elim (Bool-cases p.ok) [
        | inl e ↦ fits v e e (omega arith) (sym (append-nil (emitted p)))
        | inr e ↦ full v e (inl e)
      ]
  append_zeros-Wrote (suc k) p v =
      let one = append_byte-Wrote p 0 v in
      Wrote-trans one (append_zeros-Wrote k (append_byte n p 0) (Wrote-IsValid one))

  write_str-Wrote :
      (p : OscPacket) (s : List ℕ)
      → IsValid n p
      → length s + 1 < 2 ^ 63
      → Wrote n p (osc_string s) (write_str n p s)
  unfolding write_str
  write_str-Wrote p s v h =
      let text = append-Wrote p (s ++ 0 ∷ []) v (omega (arith, length-append s (0 ∷ []))) in
      let pad = osc_pad4 (length s + 1) - (length s + 1) in
      subst (λ bs. Wrote n p bs (write_str n p s)) (append_assoc s (0 ∷ []) (replicate pad 0))
        (Wrote-trans text (append_zeros-Wrote pad (append n p (s ++ 0 ∷ [])) (Wrote-IsValid text)))

  write_int32-Wrote :
      (p : OscPacket) (w : ℕ) → IsValid n p → Wrote n p (osc_int32 w) (write_int32 n p w)
  unfolding write_int32
  write_int32-Wrote p w v = append-Wrote p _ v (omega arith)

  -- Every writer appends exactly the OSC encoding of its argument when that fits, and fails, for
  -- good, when it does not.
  pub write_blob-Wrote :
      (p : OscPacket) (bytes : List ℕ)
      → IsValid n p
      → length bytes < 2 ^ 63
      → Wrote n p (osc_blob bytes) (write_blob n p bytes)
  unfolding write_blob
  write_blob-Wrote p bytes v h =
      let size = write_int32-Wrote p (length bytes % 2 ^ 32) v in
      let body =
        append-Wrote (write_int32 n p (length bytes % 2 ^ 32)) bytes (Wrote-IsValid size) h in
      Wrote-trans size (Wrote-trans body (append_zeros-Wrote _ _ (Wrote-IsValid body)))

  begin-Wrote :
      (p : OscPacket) (address typetag : List ℕ)
      → length p.buf ≡ n
      → length address + 1 < 2 ^ 63
      → length typetag + 1 < 2 ^ 63
      → Wrote n
          (record p { pos = 0; ok = true })
          (osc_string address ++ osc_string typetag)
          (begin n p address typetag)
  unfolding begin
  begin-Wrote p address typetag size a t =
      let start =
        write_str-Wrote (record p { pos = 0; ok = true }) address
          (record { size = size; within = omega arith }) a in
      Wrote-trans start (write_str-Wrote _ typetag (Wrote-IsValid start) t)

  -- A message is written by `Begin` and `WriteRawArgs` from any state of the buffer.
  message-Wrote :
      (p : OscPacket) (address typetag args : List ℕ)
      → length p.buf ≡ n
      → length address + 1 < 2 ^ 63
      → length typetag + 1 < 2 ^ 63
      → length args < 2 ^ 63
      → Wrote n
          (record p { pos = 0; ok = true })
          (osc_string address ++ (osc_string typetag ++ args))
          (write_raw_args n (begin n p address typetag) args)
  unfolding write_raw_args
  message-Wrote p address typetag args size a t r =
      let texts = begin-Wrote p address typetag size a t in
      subst
        (λ bs.
          Wrote n (record p { pos = 0; ok = true }) bs
            (write_raw_args n (begin n p address typetag) args))
        (append_assoc (osc_string address) (osc_string typetag) args)
        (Wrote-trans texts (append-Wrote _ args (Wrote-IsValid texts) r))

-- The bytes of a message.
abbrev pub encode : List ℕ → List ℕ → List ℕ → List ℕ
encode address typetag args = osc_string address ++ (osc_string typetag ++ args)

-- The message fits and is in the packet, or it does not and the packet has failed.
abbrev pub Fits : ℕ → List ℕ → OscPacket → Type 0
Fits n bytes q =
    ((length bytes ≤ n) × (q.ok ≡ true) × (emitted q ≡ bytes))
    ⊎ ((n < length bytes) × (q.ok ≡ false))

conclude :
    (n : ℕ) (p : OscPacket) (bytes : List ℕ) {q : OscPacket}
    → p.ok ≡ true
    → p.pos ≡ 0
    → Wrote n p bytes q
    → Fits n bytes q
unfolding emitted
conclude n p bytes good start (fits v _ b c d) =
    inl (omega (arith, v.within), b, d ∙ ap (λ k. take k p.buf ++ bytes) start)
conclude n p bytes good start (full v b (inl c)) = cc
conclude n p bytes good start (full v b (inr c)) = inr (omega arith, b)

-- For a buffer of `n` bytes, whatever it and the packet's state hold: if the encoded message has at
-- most `n` bytes, `Begin` and `WriteRawArgs` leave `Ok()` true and exactly the encoded message in
-- `Data()` and `Size()`; if it has more, `Ok()` is false. (Buffer and texts are below 2^63 bytes, so
-- that no `size_t` addition wraps.)
pub message_written :
    (n : ℕ) (p : OscPacket) (address typetag args : List ℕ)
    → n < 2 ^ 63
    → length p.buf ≡ n
    → length address + 1 < 2 ^ 63
    → length typetag + 1 < 2 ^ 63
    → length args < 2 ^ 63
    → Fits n (encode address typetag args) (write_raw_args n (begin n p address typetag) args)
message_written n p address typetag args small size a t r =
    conclude n (record p { pos = 0; ok = true }) (encode address typetag args) refl refl
      (message-Wrote n small p address typetag args size a t r)

-- The same for a message without arguments, for which `WriteRawArgs` is not called.
pub begin_written :
    (n : ℕ) (p : OscPacket) (address typetag : List ℕ)
    → n < 2 ^ 63
    → length p.buf ≡ n
    → length address + 1 < 2 ^ 63
    → length typetag + 1 < 2 ^ 63
    → Fits n (encode address typetag []) (begin n p address typetag)
unfolding begin
begin_written n p address typetag small size a t =
    conclude n (record p { pos = 0; ok = true }) (encode address typetag []) refl refl
      (subst
        (λ bs.
          Wrote n (record p { pos = 0; ok = true }) (osc_string address ++ bs)
            (begin n p address typetag))
        (sym (append-nil (osc_string typetag))) (begin-Wrote n small p address typetag size a t))
