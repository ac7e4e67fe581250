-- ===== src/Captions/Publisher/Packet.antt =====
-- What is left of a long chat text, and the packet that a text becomes.
use open_vr_pair_driver.Base.{
  ℕ, zero, suc, ◌+◌, ◌%◌, ◌≤◌, ◌<◌, ◌≡◌, ◌≢◌, refl, sym, ap, ap₂, ◌∙◌, inl, inr, Bool, true, false,
  List, [], ◌∷◌, ◌++◌, length, take, get_or, leb, ltb, ◌==◌, if_true, if_false, arith, Bool-cases,
  codes, length-append, length-take, le→ltb, subst,
}
use open_vr_pair_driver.Osc.Packet.{osc_pad4}
use open_vr_pair_driver.Osc.Packet.Capacity.{osc_string, encode}
use open_vr_pair_driver.Osc.Reader.Encoded.{NoNul, osc_pad4_lem, length-osc_string}
use open_vr_pair_driver.Router.Driver.{until_nul}
use open_vr_pair_driver.Captions.Publisher.{
  pad4, write_osc_string, chatbox_address, typetag_of, encode_chatbox_packet, is_space,
  vrchat_limit, last_space, truncate_to_vrchat_limit,
}

-- What TruncateToVrchatLimit makes of a text.
pub data Truncated (text out : List ℕ) : Type 0 where
  whole : length text ≤ vrchat_limit → out ≡ text → Truncated text out
  at_space :
      (cut : ℕ)
      → vrchat_limit < length text
      → 0 < cut
      → cut ≤ vrchat_limit
      → is_space (get_or text cut 0) ≡ true
      → ((i : ℕ) → cut < i → i ≤ vrchat_limit → is_space (get_or text i 0) ≡ false)
      → out ≡ take cut text ++ codes "..."
      → Truncated text out
  in_word :
      vrchat_limit < length text
      → ((i : ℕ) → 0 < i → i ≤ vrchat_limit → is_space (get_or text i 0) ≡ false)
      → out ≡ take vrchat_limit text ++ codes "..."
      → Truncated text out

-- The loop stops at the last space up to `from`, or at 0.
record LastSpace (text : List ℕ) (from cut : ℕ) : Type 0 where
  within : cut ≤ from
  space : 0 < cut → is_space (get_or text cut 0) ≡ true
  none_after : (i : ℕ) → cut < i → i ≤ from → is_space (get_or text i 0) ≡ false

last_space-LastSpace : (text : List ℕ) (from : ℕ) → LastSpace text from (last_space text from)
unfolding last_space
last_space-LastSpace text zero = record {
  within = omega arith;
  space = λ h. absurd (omega arith);
  none_after = λ i above below. absurd (omega arith);
}
last_space-LastSpace text (suc from) = elim (Bool-cases (is_space (get_or text (suc from) 0))) [
  | inl space ↦
      subst (LastSpace text (suc from))
        (sym (if_true {b = is_space (get_or text (suc from) 0)} (last_space text from) space))
        (record {
          within = omega arith;
          space = λ h. space;
          none_after = λ i above below. absurd (omega arith);
        })
  | inr other ↦
      let before = last_space-LastSpace text from in
      subst (LastSpace text (suc from))
        (sym (if_false {b = is_space (get_or text (suc from) 0)} (suc from) other))
        (record {
          within = omega (arith, before.within);
          space = before.space;
          none_after = λ i above below. elim (Bool-cases (i == suc from)) [
            | inl last ↦
                let same : i ≡ suc from = ground arith in
                subst (λ k. is_space (get_or text k 0) ≡ false) (sym same) other
            | inr earlier ↦ before.none_after i above (ground (arith, earlier, below))
          ];
        })
]

-- A text of at most 144 bytes is kept as it is; of a longer one, the part before the last space at
-- or before byte 144 is kept, or its first 144 bytes if there is no space from byte 1 to byte 144,
-- and three dots follow.
pub truncate_to_vrchat_limit-Truncated :
    (text : List ℕ) → Truncated text (truncate_to_vrchat_limit text)
unfolding truncate_to_vrchat_limit
truncate_to_vrchat_limit-Truncated text = elim (Bool-cases (leb (length text) vrchat_limit)) [
  | inl short ↦ whole (ground (arith, short)) (if_true {b = leb (length text) vrchat_limit} _ short)
  | inr long ↦
      let last = last_space-LastSpace text vrchat_limit in
      let over : vrchat_limit < length text = ground (arith, long) in
      elim (Bool-cases (last_space text vrchat_limit == 0)) [
        | inl none_ ↦
            let start : last_space text vrchat_limit ≡ 0 = ground (arith, none_) in
            in_word over (λ i above. last.none_after i (omega (arith, above, start)))
              (if_false {b = leb (length text) vrchat_limit} _ long
                ∙ ap (λ k. take k text ++ codes "...")
                    (if_true {b = last_space text vrchat_limit == 0} _ none_))
        | inr found ↦
            let some_ : 0 < last_space text vrchat_limit = ground (arith, found) in
            at_space (last_space text vrchat_limit) over some_ last.within (last.space some_)
              last.none_after
              (if_false {b = leb (length text) vrchat_limit} _ long
                ∙ ap (λ k. take k text ++ codes "...")
                    (if_false {b = last_space text vrchat_limit == 0} _ found))
      ]
]

length-Truncated : (text out : List ℕ) → Truncated text out → length out ≤ vrchat_limit + 3
length-Truncated text out (whole h e) = rw e (omega (arith, h))
length-Truncated text out (at_space cut _ _ h _ _ e) =
    rw e (omega (arith, h, length-append (take cut text) (codes "..."), length-take cut text))
length-Truncated text out (in_word _ _ e) = rw e (
    omega
      (arith, length-append (take vrchat_limit text) (codes "..."), length-take vrchat_limit text))

not_nul : (c : ℕ) → (c == 0) ≡ false → c ≢ 0
not_nul c h e = absurd (ground (arith, h, e))

pub until_nul-NoNul : (s : List ℕ) → NoNul (until_nul s)
unfolding until_nul
until_nul-NoNul [] = tt
until_nul-NoNul (c ∷ s) = elim (Bool-cases (c == 0)) [
  | inl nul ↦ subst NoNul (sym (if_true {b = c == 0} (c ∷ until_nul s) nul)) tt
  | inr other ↦
      subst NoNul (sym (if_false {b = c == 0} {y = c ∷ until_nul s} [] other))
        (not_nul c other, until_nul-NoNul s)
]

length-until_nul : (s : List ℕ) → length (until_nul s) ≤ length s
unfolding until_nul
length-until_nul [] = omega arith
length-until_nul (c ∷ s) = ground (arith, length-until_nul s)

-- The text that is sent.
abbrev pub sent_text : List ℕ → List ℕ
sent_text text_in = until_nul (truncate_to_vrchat_limit text_in)

pub length-sent_text : (text_in : List ℕ) → length (sent_text text_in) ≤ 147
length-sent_text text_in = omega (
  arith,
  length-until_nul (truncate_to_vrchat_limit text_in),
  length-Truncated text_in (truncate_to_vrchat_limit text_in)
      (truncate_to_vrchat_limit-Truncated text_in),
)

abbrev pub packet_of : List ℕ → Bool → Bool → List ℕ
packet_of text_in send_immediate notify =
    encode_chatbox_packet 1024 (sent_text text_in) send_immediate notify

write_osc_string-osc_string : (s : List ℕ) → write_osc_string s ≡ osc_string s
unfolding write_osc_string pad4 osc_pad4
write_osc_string-osc_string s = refl

pad4-osc_pad4 : (n : ℕ) → pad4 n ≡ osc_pad4 n
unfolding pad4 osc_pad4
pad4-osc_pad4 n = refl

-- The packet is the encoding of the message, and how long it is.
pub record IsChatboxPacket (text_in typetag pkt : List ℕ) : Type 0 where
  pub encoded : pkt ≡ encode chatbox_address typetag (osc_string (sent_text text_in))
  pub size : length pkt ≡ 24 + osc_pad4 (length (sent_text text_in) + 1)
  pub bound : length pkt ≤ 172
  pub whole_words : length pkt % 4 ≡ 0

pub length-typetag_of :
    (send_immediate notify : Bool) → length (typetag_of send_immediate notify) ≡ 4
unfolding typetag_of
length-typetag_of send_immediate notify = refl

encode_small :
    (text typetag : List ℕ) (send_immediate notify : Bool)
    → length text ≤ 147
    → typetag_of send_immediate notify ≡ typetag
    → encode_chatbox_packet 1024 text send_immediate notify
      ≡ encode chatbox_address typetag (osc_string text)
unfolding encode_chatbox_packet
encode_small text typetag send_immediate notify h e =
    if_false {b = ltb 1024 total} [] small
    ∙ ap₂ (◌++◌) (write_osc_string-osc_string chatbox_address) (
        ap₂ (◌++◌)
          (write_osc_string-osc_string (typetag_of send_immediate notify) ∙ ap osc_string e)
          (write_osc_string-osc_string text))
  where
    total : ℕ
    total =
        pad4 (length chatbox_address + 1)
        + pad4 (length (typetag_of send_immediate notify) + 1)
        + pad4 (length text + 1)

    small : ltb 1024 total ≡ false
    small = le→ltb 1024 total (
        omega (
          arith,
          h,
          length-typetag_of send_immediate notify,
          pad4-osc_pad4 (length chatbox_address + 1),
          pad4-osc_pad4 (length (typetag_of send_immediate notify) + 1),
          pad4-osc_pad4 (length text + 1),
          osc_pad4_lem (length chatbox_address + 1) (omega arith),
          osc_pad4_lem (length (typetag_of send_immediate notify) + 1)
              (omega (arith, length-typetag_of send_immediate notify)),
          osc_pad4_lem (length text + 1) (omega (arith, h)),
        ))

padded_sixteen : osc_pad4 (length chatbox_address + 1) ≡ 16
unfolding osc_pad4
padded_sixteen = refl

padded_eight : osc_pad4 (4 + 1) ≡ 8
unfolding osc_pad4
padded_eight = refl

-- Whatever text is published, EncodeChatboxPacket does not fail: the packet is the OSC encoding of
-- the message, has a multiple of four bytes, and at most 172 of them.
pub packet_of-IsChatboxPacket :
    (text_in : List ℕ) (send_immediate notify : Bool)
    → IsChatboxPacket text_in
        (typetag_of send_immediate notify)
        (packet_of text_in send_immediate notify)
packet_of-IsChatboxPacket text_in send_immediate notify = record {
  encoded = same;
  size = size;
  bound = omega (arith, size, pad, length-sent_text text_in);
  whole_words = omega (arith, size, pad);
}
  where
    typetag : List ℕ
    typetag = typetag_of send_immediate notify

    same :
        packet_of text_in send_immediate notify
        ≡ encode chatbox_address typetag (osc_string (sent_text text_in))
    same =
        encode_small (sent_text text_in) typetag send_immediate notify (length-sent_text text_in)
          refl

    pad :
        (length (sent_text text_in) + 1 ≤ osc_pad4 (length (sent_text text_in) + 1))
        × (osc_pad4 (length (sent_text text_in) + 1) < length (sent_text text_in) + 1 + 4)
        × (osc_pad4 (length (sent_text text_in) + 1) % 4 ≡ 0)
    pad = osc_pad4_lem (length (sent_text text_in) + 1) (omega (arith, length-sent_text text_in))

    sixteen : length (osc_string chatbox_address) ≡ 16
    sixteen = length-osc_string chatbox_address (omega arith) ∙ padded_sixteen

    eight : length (osc_string typetag) ≡ 8
    eight =
        length-osc_string typetag (omega (arith, length-typetag_of send_immediate notify))
        ∙ ap (λ n. osc_pad4 (n + 1)) (length-typetag_of send_immediate notify)
        ∙ padded_eight

    size :
        length (packet_of text_in send_immediate notify)
        ≡ 24 + osc_pad4 (length (sent_text text_in) + 1)
    size =
        ap length same
        ∙ omega (
          arith,
          sixteen,
          eight,
          length-append (osc_string chatbox_address)
              (osc_string typetag ++ osc_string (sent_text text_in)),
          length-append (osc_string typetag) (osc_string (sent_text text_in)),
          length-osc_string (sent_text text_in) (omega (arith, length-sent_text text_in)),
        )
