-- ===== src/Osc/Reader/Bounds.antt =====
-- OscReader and OscParseMessage on any input, however malformed.
use open_vr_pair_driver.Base.{
  ℕ, suc, ◌+◌, ◌-◌, ◌^◌, ◌≤◌, ◌<◌, ◌≡◌, ◌≢◌, refl, sym, ap, ◌∙◌, inl, inr, true, false, Option,
  some, none, List, [], ◌∷◌, ◌++◌, length, take, drop, arith, subst, length-drop, length-take,
  Bool-cases, ltb, ◌==◌, add_size,
}
use open_vr_pair_driver.Osc.Packet.{osc_pad4}
use open_vr_pair_driver.Osc.Reader.Encoded.{NoNul}
use open_vr_pair_driver.Osc.Reader.{OscReader, reader, strnlen, read_str, OscMessage, parse_message}

-- A padded length has 32 bits.
osc_pad4-lt : (n : ℕ) → osc_pad4 n < 2 ^ 32
unfolding osc_pad4
osc_pad4-lt n = omega arith

strnlen_le : (s : List ℕ) → strnlen s ≤ length s
unfolding strnlen
strnlen_le [] = omega arith
strnlen_le (c ∷ s) = ground (arith, strnlen_le s)

-- A NUL that is found ends a text that has none.
strnlen_split :
    (s : List ℕ)
    → strnlen s ≢ length s
    → (s ≡ take (strnlen s) s ++ 0 ∷ drop (suc (strnlen s)) s) × NoNul (take (strnlen s) s)
unfolding strnlen
strnlen_split [] h = absurd (h refl)
strnlen_split (c ∷ s) h = elim (Bool-cases (c == 0)) [
  | inl e ↦ rw e (ground arith, tt)
  | inr e ↦
      let rest = strnlen_split s (λ k. h (rw e (ap suc k))) in
      rw e (ap (◌∷◌ c) rest.0, (ground arith, rest.1))
]

-- What a successful `ReadStr` says of the buffer: it returns a text that a NUL ends inside of it,
-- and stays inside of it.
pub record ReadsText (r r' : OscReader) (s : List ℕ) : Type 0 where
  pub terminated : drop r.pos r.bytes ≡ s ++ 0 ∷ drop (suc (length s)) (drop r.pos r.bytes)
  pub no_nul : NoNul s
  pub moved : r'.pos ≡ r.pos + osc_pad4 (length s + 1)
  pub inside : r'.pos ≤ length r.bytes
  pub same_bytes : r'.bytes ≡ r.bytes
  pub still_valid : r'.valid ≡ true

length-take-strnlen : (s : List ℕ) → length (take (strnlen s) s) ≡ strnlen s
length-take-strnlen s = omega (arith, length-take (strnlen s) s, strnlen_le s)

pub read_str_sound :
    (r r' : OscReader) (s : List ℕ)
    → length r.bytes < 2 ^ 63
    → r.pos ≤ length r.bytes
    → read_str r ≡ (some s, r')
    → ReadsText r r' s
unfolding read_str
read_str_sound r r' s small inside e = elim (Bool-cases r.valid) [
  | inr v ↦ ground arith
  | inl v ↦ elim (Bool-cases (strnlen text == length r.bytes - r.pos)) [
    | inl full ↦ ground arith
    | inr found ↦
        elim (Bool-cases (ltb (length r.bytes) (add_size r.pos (osc_pad4 (strnlen text + 1))))) [
          | inl out ↦ ground arith
          | inr fit ↦ fitting v found fit
        ]
  ]
]
  where
    text : List ℕ
    text = drop r.pos r.bytes

    fitting :
        r.valid ≡ true
        → (strnlen text == length r.bytes - r.pos) ≡ false
        → ltb (length r.bytes) (add_size r.pos (osc_pad4 (strnlen text + 1))) ≡ false
        → ReadsText r r' s
    fitting v found fit =
        subst (λ q. ReadsText r q s) moved_to
          (subst (λ t. ReadsText r advanced t) returned
            (record {
              terminated =
                  split.0
                  ∙ ap (λ k. take (strnlen text) text ++ 0 ∷ drop (suc k) text)
                      (sym (length-take-strnlen text));
              no_nul = split.1;
              moved = rw (length-take-strnlen text) (omega (arith, osc_pad4-lt (strnlen text + 1)));
              inside = in_range;
              same_bytes = refl;
              still_valid = v;
            }))
      where
        advanced : OscReader
        advanced = record r { pos = add_size r.pos (osc_pad4 (strnlen text + 1)) }

        outcome : read_str r ≡ (some (take (strnlen text) text), advanced)
        outcome = ground arith

        returned : take (strnlen text) text ≡ s
        returned = ground (arith, outcome)

        moved_to : advanced ≡ r'
        moved_to = ground (arith, outcome)

        split :
            (text ≡ take (strnlen text) text ++ 0 ∷ drop (suc (strnlen text)) text)
            × NoNul (take (strnlen text) text)
        split = strnlen_split text (ground (arith, length-drop r.pos r.bytes))

        in_range : add_size r.pos (osc_pad4 (strnlen text + 1)) ≤ length r.bytes
        in_range = ground arith

-- Whatever the input, a message that is reported as valid has an address and a typetag that a NUL
-- ends inside of the input, and its arguments are what follows their padding, inside of it too.
pub record ParsedFrom (bytes : List ℕ) (m : OscMessage) : Type 0 where
  pub address : List ℕ
  pub typetag : List ℕ
  pub is_address : m.address ≡ some address
  pub is_typetag : m.typetag ≡ some typetag
  pub no_nul : NoNul address × NoNul typetag
  pub tag_at : ℕ
  pub args_at : ℕ
  pub tag_place : tag_at ≡ osc_pad4 (length address + 1)
  pub args_place : args_at ≡ tag_at + osc_pad4 (length typetag + 1)
  pub address_ended : bytes ≡ address ++ 0 ∷ drop (suc (length address)) bytes
  pub typetag_ended :
      drop tag_at bytes ≡ typetag ++ 0 ∷ drop (suc (length typetag)) (drop tag_at bytes)
  pub inside : args_at ≤ length bytes
  pub arguments : m.arg_data ≡ drop args_at bytes

-- For every input below 2^63 bytes, a valid result of `OscParseMessage` is made of parts of the
-- input, as `ParsedFrom` states.
pub parse_message_sound :
    (bytes : List ℕ)
    → length bytes < 2 ^ 63
    → (parse_message bytes).valid ≡ true
    → ParsedFrom bytes (parse_message bytes)
unfolding parse_message reader
parse_message_sound bytes small ok = first (read_str (reader bytes)) refl
  where
    first :
        (q : Option (List ℕ) × OscReader)
        → read_str (reader bytes) ≡ q
        → ParsedFrom bytes (parse_message bytes)
    first (none, r) e = ground arith
    first (some a, r) e = second (read_str r) refl
      where
        one : ReadsText (reader bytes) r a
        one = read_str_sound (reader bytes) r a small (omega arith) e

        second :
            (q : Option (List ℕ) × OscReader)
            → read_str r ≡ q
            → ParsedFrom bytes (parse_message bytes)
        second (none, r') e' = ground arith
        second (some t, r') e' = subst (ParsedFrom bytes) (sym parsed) (record {
          address = a;
          typetag = t;
          is_address = refl;
          is_typetag = refl;
          no_nul = (one.no_nul, two.no_nul);
          tag_at = r.pos;
          args_at = r'.pos;
          tag_place = omega (arith, one.moved);
          args_place = two.moved;
          address_ended = one.terminated;
          typetag_ended = rw one.same_bytes at two.terminated;
          inside = omega (arith, two.inside, ap length one.same_bytes);
          arguments = refl;
        })
          where
            two : ReadsText r r' t
            two =
                read_str_sound r r' t (omega (arith, ap length one.same_bytes))
                  (omega (arith, one.inside, ap length one.same_bytes)) e'

            parsed : parse_message bytes ≡ record {
              address = some a;
              typetag = some t;
              arg_data = drop r'.pos bytes;
              valid = true;
            }
            parsed = rw (e, parse_message) (rw (e', parse_message) (rw two.still_valid refl))
