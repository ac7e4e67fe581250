-- ===== src/Osc/Reader.antt =====
-- OscReader, OscMessage and OscParseMessage of modules/oscrouter/src/driver/OscWire.h. A buffer is
-- the list of its bytes, so `size_` is its length and a null pointer is not represented; a pointer
-- that a read returns is the list of the bytes that it points to. An `int32_t` is its bit pattern.
pub mod Encoded
pub mod Bounds
use open_vr_pair_driver.Base.{
  ℕ, suc, ◌+◌, ◌-◌, ◌*◌, ◌%◌, ◌^◌, Bool, true, false, Option, none, some, List, [], ◌∷◌, length,
  take, drop, get_or, ltb, leb, ◌==◌, ◌&&◌, if◌then◌else◌, add_size,
}
use open_vr_pair_driver.Osc.Packet.{osc_pad4}

pub record OscReader : Type 0 where
  pub bytes : List ℕ
  pub pos : ℕ
  pub valid : Bool

unfoldable pub reader : List ℕ → OscReader
reader bytes = record { bytes = bytes; pos = 0; valid = ltb 0 (length bytes) }

-- How many bytes stand before the first NUL, or in the whole list.
unfoldable pub strnlen : List ℕ → ℕ
strnlen [] = 0
strnlen (c ∷ s) = if c == 0 then 0 else suc (strnlen s)

invalid : OscReader → OscReader
invalid r = record r { valid = false }

unfoldable pub read_str : OscReader → Option (List ℕ) × OscReader
unfolding invalid
read_str r =
    let remaining = length r.bytes - r.pos in
    let start = drop r.pos r.bytes in
    let len = strnlen start in
    let advance = osc_pad4 (len + 1) in
    if r.valid
    then if len == remaining
      then (none, invalid r)
      else if ltb (length r.bytes) (add_size r.pos advance)
      then (none, invalid r)
      else (some (take len start), record r { pos = add_size r.pos advance })
    else (none, r)

-- `ReadBytes`: the bytes that it copies out, or none.
unfoldable pub read_bytes : OscReader → ℕ → Option (List ℕ) × OscReader
unfolding invalid
read_bytes r n =
    if r.valid
    then if ltb (length r.bytes) (add_size r.pos n)
      then (none, invalid r)
      else (some (take n (drop r.pos r.bytes)), record r { pos = add_size r.pos n })
    else (none, r)

-- The number that four bytes stand for, the most significant first. (`b` is an array of `uint8_t`.)
unfoldable pub from_big_endian : List ℕ → ℕ
from_big_endian b = byte 0 * 2 ^ 24 + byte 1 * 2 ^ 16 + byte 2 * 2 ^ 8 + byte 3
  where
    byte : ℕ → ℕ
    byte i = get_or b i 0 % 256

unfoldable pub read_int32 : OscReader → ℕ × OscReader
unfolding from_big_endian read_bytes
read_int32 r =
    let (b, r') = read_bytes r 4 in elim b [ none ↦ (0, r') | some bs ↦ (from_big_endian bs, r') ]

unfoldable pub read_float : OscReader → ℕ × OscReader
unfolding read_int32
read_float r = read_int32 r

-- The option is the returned pointer with `len_out` bytes behind it, and the number is `len_out`.
unfoldable pub read_blob : OscReader → Option (List ℕ) × ℕ × OscReader
unfolding invalid read_int32
read_blob r =
    let (raw, r') = read_int32 r in
    let next = add_size r'.pos (osc_pad4 raw) in
    if r'.valid && ltb raw (2 ^ 31)
    then if ltb (length r'.bytes) (add_size r'.pos raw)
      then (none, raw, invalid r')
      else if ltb (length r'.bytes) next
      then (none, raw, invalid (record r' { pos = next }))
      else (some (take raw (drop r'.pos r'.bytes)), raw, record r' { pos = next })
    else (none, 0, invalid r')

unfoldable pub at_end : OscReader → Bool
at_end r = leb (length r.bytes) r.pos

unfoldable pub remaining : OscReader → ℕ
remaining r = length r.bytes - r.pos

pub record OscMessage : Type 0 where
  pub address : Option (List ℕ)
  pub typetag : Option (List ℕ)
  pub arg_data : List ℕ
  pub valid : Bool

abbrev is_some : Option (List ℕ) → Bool
is_some none = false
is_some (some s) = true

unfoldable pub parse_message : List ℕ → OscMessage
parse_message bytes =
    let (address, r) = read_str (reader bytes) in
    let (typetag, r') = read_str r in
    if r'.valid && is_some address && is_some typetag
    then record { address = address; typetag = typetag; arg_data = drop r'.pos bytes; valid = true }
    else record { address = address; typetag = typetag; arg_data = []; valid = false }
