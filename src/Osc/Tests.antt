-- ===== src/Osc/Tests.antt =====
-- Concrete OSC messages: "/tracking/eye" with an integer argument, bundles of it, and patterns.
use open_vr_pair_driver.Base.{
  ℕ, ◌≡◌, refl, true, false, some, List, [], ◌∷◌, ◌++◌, replicate, arith, codes, ◌↔◌,
}
use open_vr_pair_driver.Osc.Packet.{OscPacket, osc_pad4, begin, write_raw_args}
use open_vr_pair_driver.Osc.Packet.Capacity.{Fits, encode, osc_int32, osc_blob, message_written}
use open_vr_pair_driver.Osc.Reader.{OscReader, reader, parse_message}
use open_vr_pair_driver.Osc.Reader.Encoded.{NoNul, parse_message-encode}
use open_vr_pair_driver.Osc.Reader.Bounds.{ParsedFrom, parse_message_sound}
use open_vr_pair_driver.Osc.Bundle.{dispatch, osc_dispatch}
use open_vr_pair_driver.Osc.Bundle.Fuel.{dispatch-osc_dispatch}
use open_vr_pair_driver.Osc.Bundle.Nested.{
  Packet, message, bundle, nil, cons, IsPacket, encode_packet, calls, osc_dispatch-encode_packet,
}
use open_vr_pair_driver.Osc.Pattern.{osc_pattern_match}
use open_vr_pair_driver.Osc.Pattern.Tokens.{Token, star, lit, cls, range, AreTokens, spell, Matches}
use open_vr_pair_driver.Osc.Pattern.Glob.{osc_pattern_match-spell}

abbrev address : List ℕ
address = codes "/eye"

abbrev typetag : List ℕ
typetag = codes ",i"

abbrev args : List ℕ
args = osc_int32 258

-- A packet of 32 bytes with anything in it.
abbrev used_packet : OscPacket
used_packet = record { buf = replicate 32 7; pos = 9; ok = false }

abbrev packet_bytes : List ℕ
packet_bytes = encode address typetag args

message_written_example :
    Fits 32 packet_bytes (write_raw_args 32 (begin 32 used_packet address typetag) args)
message_written_example =
    message_written 32 used_packet address typetag args (omega arith) refl (omega arith)
      (omega arith) (omega arith)

NoNul-address : NoNul address
NoNul-address = ground arith

NoNul-typetag : NoNul typetag
NoNul-typetag = ground arith

parse_message-encode_example :
    parse_message packet_bytes
    ≡ record { address = some address; typetag = some typetag; arg_data = args; valid = true }
unfolding osc_pad4
parse_message-encode_example =
    parse_message-encode address typetag args NoNul-address NoNul-typetag (omega arith)
      (omega arith) (omega arith)

abbrev blob_reader : OscReader
blob_reader = reader (osc_blob (1 ∷ 2 ∷ 3 ∷ 4 ∷ 5 ∷ []) ++ 9 ∷ [])

packet_bytes_valid : (parse_message packet_bytes).valid ≡ true
packet_bytes_valid = rw parse_message-encode_example refl

parse_message_sound_example : ParsedFrom packet_bytes (parse_message packet_bytes)
unfolding osc_pad4
parse_message_sound_example = parse_message_sound packet_bytes (omega arith) packet_bytes_valid

abbrev eye : Packet
eye = message address typetag args

abbrev timetag : List ℕ
timetag = replicate 8 1

abbrev nested : Packet
nested = bundle timetag (cons eye (cons (bundle timetag (cons eye nil)) nil))

eye-IsPacket : IsPacket eye
eye-IsPacket = ((codes "eye", refl), NoNul-address, NoNul-typetag, omega arith, omega arith)

osc_dispatch-encode_packet_example : osc_dispatch (encode_packet nested) ≡ calls nested
unfolding osc_pad4
osc_dispatch-encode_packet_example =
    osc_dispatch-encode_packet nested (refl, (eye-IsPacket, ((refl, (eye-IsPacket, tt)), tt)))
      (omega arith)

dispatch-osc_dispatch_example :
    dispatch 1000 (encode_packet nested) ≡ osc_dispatch (encode_packet nested)
unfolding osc_pad4
dispatch-osc_dispatch_example =
    dispatch-osc_dispatch 1000 (encode_packet nested) (omega arith) (omega arith)

-- `/*[!a-c]`.
abbrev tokens : List Token
tokens = lit b'/' ∷ star ∷ cls true (range b'a' b'c' ∷ []) ∷ []

AreTokens-tokens : AreTokens tokens
AreTokens-tokens = ground arith

osc_pattern_match-spell_example :
    (osc_pattern_match (spell tokens) address ≡ true) ↔ Matches tokens address
osc_pattern_match-spell_example = osc_pattern_match-spell tokens address AreTokens-tokens
