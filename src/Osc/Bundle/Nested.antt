-- ===== src/Osc/Bundle/Nested.antt =====
-- OscDispatch on encoded packets: messages, and bundles of packets nested to any depth.
use open_vr_pair_driver.Base.{
  ℕ, zero, suc, ◌+◌, ◌-◌, ◌^◌, ◌≤◌, ◌<◌, ◌≡◌, refl, sym, ap, ap₂, ◌∙◌, true, some, List, [], ◌∷◌,
  ◌++◌, length, take, drop, arith, length-append, take-append, drop-append, drop-drop, length-drop,
  add_size, le→leb, le→ltb, lt→leb, subst,
}
use open_vr_pair_driver.Osc.Packet.Capacity.{osc_string, osc_int32, encode}
use open_vr_pair_driver.Osc.Reader.{reader, read_int32, parse_message}
use open_vr_pair_driver.Osc.Reader.Encoded.{
  NoNul, read_int32-osc_int32, parse_message-encode, osc_pad4_lem, length-osc_string,
}
use open_vr_pair_driver.Osc.Bundle.{
  Call, bundle_prefix, starts_with, call_of, dispatch_elements, dispatch, osc_dispatch,
}

-- What OSC 1.0 means by a packet.
mutual
  pub data Packet : Type 0 where
    message : List ℕ → List ℕ → List ℕ → Packet
    bundle : List ℕ → Packets → Packet

  pub data Packets : Type 0 where
    nil : Packets
    cons : Packet → Packets → Packets

-- Its bytes: a bundle is "#bundle", a time tag, and each element behind its size.
abbrev mutual
  pub encode_packet : Packet → List ℕ
  encode_packet (message address typetag args) = encode address typetag args
  encode_packet (bundle timetag elements) = bundle_prefix ++ (timetag ++ encode_elements elements)

  pub encode_elements : Packets → List ℕ
  encode_elements nil = []
  encode_elements (cons p ps) =
      osc_int32 (length (encode_packet p)) ++ (encode_packet p ++ encode_elements ps)

-- Its messages, from left to right.
abbrev mutual
  pub calls : Packet → List Call
  calls (message address typetag args) =
      record { address = address; typetag = typetag; args = args } ∷ []
  calls (bundle timetag elements) = calls_of elements

  pub calls_of : Packets → List Call
  calls_of nil = []
  calls_of (cons p ps) = calls p ++ calls_of ps

-- Addresses begin with '/', texts have no NUL and are below 2^32 - 4 bytes, and time tags have 8
-- bytes.
abbrev mutual
  pub IsPacket : Packet → Type 0
  IsPacket (message address typetag args) =
      ((rest : List ℕ) × (address ≡ b'/' ∷ rest))
      × NoNul address
      × NoNul typetag
      × (length address + 1 < 2 ^ 32 - 3)
      × (length typetag + 1 < 2 ^ 32 - 3)
  IsPacket (bundle timetag elements) = (length timetag ≡ 8) × ArePackets elements

  pub ArePackets : Packets → Type 0
  ArePackets nil = Unit {0}
  ArePackets (cons p ps) = IsPacket p × ArePackets ps

-- One round of the loop in front of an element of length `n`.
module _ (bytes element rest : List ℕ) (pos : ℕ) (small : length bytes < 2 ^ 31)
    (inside : pos ≤ length bytes)
    (front : drop pos bytes ≡ osc_int32 (length element) ++ (element ++ rest)) where
  after_element : drop (pos + 4 + length element) bytes ≡ rest
  after_element =
      sym (drop-drop (pos + 4) (length element) bytes)
      ∙ ap (drop (length element)) (sym (drop-drop pos 4 bytes) ∙ ap (drop 4) front)
      ∙ drop-append element rest (length element) refl

  sizes : length bytes ≡ pos + 4 + length element + length rest
  sizes = omega (arith, ap length front, length-drop pos bytes, length-append element rest)

  read_size : (read_int32 (reader (take 4 (drop pos bytes)))).0 ≡ length element
  unfolding reader
  read_size = rw front (
      ap (λ q. q.0)
        (read_int32-osc_int32 (reader (osc_int32 (length element))) (length element) [] refl
          (omega (arith, sizes)) (omega arith) refl))

  one_element :
      (sub : List ℕ → List Call) (k : ℕ)
      → dispatch_elements sub (suc k) bytes pos
        ≡ sub element ++ dispatch_elements sub k bytes (pos + 4 + length element)
  unfolding dispatch_elements
  one_element sub k =
      rw (read_size, dispatch_elements)
        (rw (start, next, dispatch_elements)
          (rw
            (
              le→leb (pos + 4) (length bytes) (omega (arith, sizes)),
              le→ltb (length bytes) (pos + 4 + length element) (omega (arith, sizes)),
            )
            (ap (λ e. sub e ++ dispatch_elements sub k bytes (pos + 4 + length element)) text)))
    where
      start : add_size pos 4 ≡ pos + 4
      start = omega arith

      next : add_size (pos + 4) (length element) ≡ pos + 4 + length element
      next = omega (arith, sizes)

      text : take (length element) (drop (pos + 4) bytes) ≡ element
      text =
          rw (← drop-drop pos 4 bytes) (rw front (take-append element rest (length element) refl))

slash_message :
    (f : ℕ) (name typetag args : List ℕ)
    → IsPacket (message (b'/' ∷ name) typetag args)
    → length (encode (b'/' ∷ name) typetag args) < 2 ^ 31
    → dispatch (suc f) (encode (b'/' ∷ name) typetag args)
      ≡ calls (message (b'/' ∷ name) typetag args)
unfolding dispatch starts_with call_of
slash_message f name typetag args w small =
    rw (le→ltb (length (encode (b'/' ∷ name) typetag args)) 8 long) (ap call_of parsed)
  where
    parsed : parse_message (encode (b'/' ∷ name) typetag args) ≡ record {
      address = some (b'/' ∷ name);
      typetag = some typetag;
      arg_data = args;
      valid = true;
    }
    parsed = parse_message-encode (b'/' ∷ name) typetag args w.1 w.2 w.3 w.4 (omega arith)

    long : 8 ≤ length (encode (b'/' ∷ name) typetag args)
    long = omega (
      arith,
      length-append (osc_string (b'/' ∷ name)) (osc_string typetag ++ args),
      length-append (osc_string typetag) args,
      length-osc_string (b'/' ∷ name) w.3,
      length-osc_string typetag w.4,
      osc_pad4_lem (length (b'/' ∷ name) + 1) w.3,
      osc_pad4_lem (length typetag + 1) w.4,
    )

message_call :
    (f : ℕ) (address typetag args name : List ℕ)
    → address ≡ b'/' ∷ name
    → IsPacket (message address typetag args)
    → length (encode address typetag args) < 2 ^ 31
    → dispatch (suc f) (encode address typetag args) ≡ calls (message address typetag args)
message_call f address typetag args name e =
    subst
      (λ a.
        IsPacket (message a typetag args)
        → length (encode a typetag args) < 2 ^ 31
        → dispatch (suc f) (encode a typetag args) ≡ calls (message a typetag args))
      (sym e) (slash_message f name typetag args)

no_more :
    (bytes : List ℕ) (pos : ℕ) (sub : List ℕ → List Call) (k : ℕ)
    → length bytes < 2 ^ 31
    → pos ≤ length bytes
    → drop pos bytes ≡ []
    → dispatch_elements sub (suc k) bytes pos ≡ []
unfolding dispatch_elements
no_more bytes pos sub k small inside front =
    rw
      (lt→leb (add_size pos 4) (length bytes)
        (omega (arith, ap length front, length-drop pos bytes)))
      refl

encoded_bundle :
    (f : ℕ) (timetag elements : List ℕ)
    → length timetag ≡ 8
    → (dispatch (suc f) (bundle_prefix ++ (timetag ++ elements))
        ≡ dispatch_elements
            (dispatch f)
            (length (bundle_prefix ++ (timetag ++ elements)))
            (bundle_prefix ++ (timetag ++ elements))
            16)
      × (drop 16 (bundle_prefix ++ (timetag ++ elements)) ≡ elements)
      × (length (bundle_prefix ++ (timetag ++ elements)) ≡ 16 + length elements)
unfolding dispatch starts_with
encoded_bundle f timetag elements eight = (
  rw (le→ltb (length bytes) 8 (omega (arith, size)), le→ltb (length bytes) 16 (omega (arith, size)))
      refl,
  drop-append timetag elements 8 (sym eight),
  size,
)
  where
    bytes : List ℕ
    bytes = bundle_prefix ++ (timetag ++ elements)

    size : length bytes ≡ 16 + length elements
    size = omega (arith, length-append timetag elements)

mutual
  dispatch_packet :
      (p : Packet) (f : ℕ)
      → IsPacket p
      → length (encode_packet p) < 2 ^ 31
      → length (encode_packet p) < f
      → dispatch f (encode_packet p) ≡ calls p
  dispatch_packet (message address typetag args) zero w small enough = absurd (omega arith)
  dispatch_packet (message address typetag args) (suc f) w small enough =
      message_call f address typetag args w.0.0 w.0.1 w small
  dispatch_packet (bundle timetag elements) zero w small enough = absurd (omega arith)
  dispatch_packet (bundle timetag elements) (suc f) w small enough =
      let b = encoded_bundle f timetag (encode_elements elements) w.0 in
      b.0
      ∙ dispatch_packets elements f (length (encode_packet (bundle timetag elements)))
          (encode_packet (bundle timetag elements)) 16 w.1 small (omega (arith, b.2)) b.1
          (omega (arith, b.2)) (omega (arith, b.2))

  dispatch_packets :
      (ps : Packets) (f k : ℕ) (bytes : List ℕ) (pos : ℕ)
      → ArePackets ps
      → length bytes < 2 ^ 31
      → pos ≤ length bytes
      → drop pos bytes ≡ encode_elements ps
      → length (encode_elements ps) < f
      → length (encode_elements ps) < k
      → dispatch_elements (dispatch f) k bytes pos ≡ calls_of ps
  dispatch_packets nil f zero bytes pos w small inside front enough rounds = absurd (omega arith)
  dispatch_packets nil f (suc k) bytes pos w small inside front enough rounds =
      no_more bytes pos (dispatch f) k small inside front
  dispatch_packets (cons p ps) f zero bytes pos w small inside front enough rounds =
      absurd (omega arith)
  dispatch_packets (cons p ps) f (suc k) bytes pos w small inside front enough rounds =
      let total = length-append (encode_packet p) (encode_elements ps) in
      let bound = sizes bytes (encode_packet p) (encode_elements ps) pos small inside front in
      one_element bytes (encode_packet p) (encode_elements ps) pos small inside front (dispatch f) k
      ∙ ap₂ ◌++◌ (dispatch_packet p f w.0 (omega (arith, bound)) (omega (arith, total))) (
          dispatch_packets ps f k bytes (pos + 4 + length (encode_packet p)) w.1 small
            (omega (arith, bound))
            (after_element bytes (encode_packet p) (encode_elements ps) pos small inside front)
            (omega (arith, total)) (omega (arith, total)))

-- Every packet, a message or a bundle nested to any depth, that is encoded in less than 2^31 bytes
-- is dispatched as exactly its messages, each once, with their address, typetag and arguments, from
-- left to right. (Addresses begin with '/', texts have no NUL, time tags have 8 bytes.)
pub osc_dispatch-encode_packet :
    (p : Packet)
    → IsPacket p
    → length (encode_packet p) < 2 ^ 31
    → osc_dispatch (encode_packet p) ≡ calls p
unfolding osc_dispatch
osc_dispatch-encode_packet p w small =
    dispatch_packet p (suc (length (encode_packet p))) w small (omega arith)
