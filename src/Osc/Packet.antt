-- ===== src/Osc/Packet.antt =====
-- OscPacket of modules/oscrouter/src/driver/OscWire.h: a fixed buffer that one OSC message is
-- written into. A `float` is its 32-bit pattern, and so is an `int32_t`.
pub mod Capacity
use open_vr_pair_driver.Base.{
  ℕ, zero, suc, ◌+◌, ◌-◌, ◌*◌, ◌/◌, ◌%◌, ◌^◌, Bool, true, false, List, [], ◌∷◌, ◌++◌, length, take,
  drop, set, ltb, leb, if◌then◌else◌, add_size,
}

-- `(n + 3u) & ~3u`. The mask is the 32-bit constant 0xFFFFFFFC, which is widened with zeros, so it
-- clears the two lowest bits and also every bit from the 32nd up.
unfoldable pub osc_pad4 : ℕ → ℕ
osc_pad4 n = add_size n 3 % 2 ^ 32 / 4 * 4

-- The template's `N` is the number of bytes of `buf`.
pub record OscPacket : Type 0 where
  pub buf : List ℕ
  pub pos : ℕ
  pub ok : Bool

-- `memcpy(buf_ + pos, src, n)`.
unfoldable pub blit : List ℕ → ℕ → List ℕ → List ℕ
blit buf pos src = take pos buf ++ (src ++ drop (pos + length src) buf)

module _ (n : ℕ) where
  unfoldable pub append_byte : OscPacket → ℕ → OscPacket
  append_byte p b =
      if p.ok
      then if leb n p.pos
        then record p { ok = false }
        else record p { buf = set p.buf p.pos b; pos = p.pos + 1 }
      else p

  unfoldable pub append : OscPacket → List ℕ → OscPacket
  append p src =
      if p.ok
      then if ltb n (add_size p.pos (length src))
        then record p { ok = false }
        else record p { buf = blit p.buf p.pos src; pos = add_size p.pos (length src) }
      else p

  -- The padding loop, `rounds` more times.
  unfoldable pub append_zeros : ℕ → OscPacket → OscPacket
  append_zeros zero p = p
  append_zeros (suc rounds) p = append_zeros rounds (append_byte p 0)

  -- `strlen(s) + 1` bytes are appended, the NUL among them.
  unfoldable pub write_str : OscPacket → List ℕ → OscPacket
  write_str p s =
      let len = length s + 1 in append_zeros (osc_pad4 len - len) (append p (s ++ 0 ∷ []))

  unfoldable pub write_int32 : OscPacket → ℕ → OscPacket
  write_int32 p v =
      append p ((v / 2 ^ 24 % 256) ∷ (v / 2 ^ 16 % 256) ∷ (v / 2 ^ 8 % 256) ∷ (v % 256) ∷ [])

  unfoldable pub write_float : OscPacket → ℕ → OscPacket
  write_float p bits = write_int32 p bits

  unfoldable pub write_blob : OscPacket → List ℕ → OscPacket
  write_blob p bytes =
      let len = length bytes in
      append_zeros (osc_pad4 len - len) (append (write_int32 p (len % 2 ^ 32)) bytes)

  unfoldable pub write_raw_args : OscPacket → List ℕ → OscPacket
  write_raw_args p bytes = append p bytes

  unfoldable pub begin : OscPacket → List ℕ → List ℕ → OscPacket
  begin p address typetag = write_str (write_str (record p { pos = 0; ok = true }) address) typetag

-- `Data()` with `Size()`: what a caller may read.
unfoldable pub emitted : OscPacket → List ℕ
emitted p = take p.pos p.buf
