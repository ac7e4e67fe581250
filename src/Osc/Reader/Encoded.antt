-- ===== src/Osc/Reader/Encoded.antt =====
-- OscReader on what OscPacket writes.
use open_vr_pair_driver.Base.{
  ℕ, suc, ◌+◌, ◌-◌, ◌%◌, ◌^◌, ◌≤◌, ◌<◌, ◌≡◌, ◌≢◌, refl, sym, ap, ◌∙◌, true, some, List, [], ◌∷◌,
  ◌++◌, append_assoc, length, take, drop, replicate, arith, length-append, length-replicate,
  take-append, drop-append, length-drop, drop-drop, ne→==, ltb,
}
use open_vr_pair_driver.Osc.Packet.{osc_pad4}
use open_vr_pair_driver.Osc.Packet.Capacity.{osc_string, osc_int32, osc_blob, encode}
use open_vr_pair_driver.Osc.Reader.{
  OscReader, reader, strnlen, read_str, from_big_endian, read_int32, read_blob, parse_message,
}

-- A text with no NUL in it.
abbrev pub NoNul : List ℕ → Type 0
NoNul [] = Unit {0}
NoNul (c ∷ s) = (c ≢ 0) × NoNul s

strnlen-append : (s rest : List ℕ) → NoNul s → strnlen (s ++ 0 ∷ rest) ≡ length s
unfolding strnlen
strnlen-append [] rest h = refl
strnlen-append (c ∷ s) rest h = rw (ne→== c 0 h.0) (ap suc (strnlen-append s rest h.1))

-- The padded length is the next multiple of four, for every length that fits in 32 bits.
pub osc_pad4_lem :
    (n : ℕ) → n < 2 ^ 32 - 3 → (n ≤ osc_pad4 n) × (osc_pad4 n < n + 4) × (osc_pad4 n % 4 ≡ 0)
unfolding osc_pad4
osc_pad4_lem n h = omega arith

pub length-osc_string :
    (s : List ℕ) → length s + 1 < 2 ^ 32 - 3 → length (osc_string s) ≡ osc_pad4 (length s + 1)
length-osc_string s h = omega (
  arith,
  length-append s (0 ∷ replicate (osc_pad4 (length s + 1) - (length s + 1)) 0),
  length-replicate {A = ℕ} (osc_pad4 (length s + 1) - (length s + 1)) 0,
  osc_pad4_lem (length s + 1) h,
)

-- A reader in front of an encoded text.
pub read_str-osc_string :
    (r : OscReader) (s rest : List ℕ)
    → r.valid ≡ true
    → NoNul s
    → length s + 1 < 2 ^ 32 - 3
    → length r.bytes < 2 ^ 63
    → drop r.pos r.bytes ≡ osc_string s ++ rest
    → read_str r ≡ (some s, record r { pos = r.pos + osc_pad4 (length s + 1) })
unfolding read_str
read_str-osc_string r s rest v nonul short small e = ground (
  arith,
  found,
  text,
  total,
  length-drop r.pos r.bytes,
  osc_pad4_lem (length s + 1) short,
  length-append (osc_string s) rest,
  length-osc_string s short,
)
  where
    tail : List ℕ
    tail = replicate (osc_pad4 (length s + 1) - (length s + 1)) 0

    split : drop r.pos r.bytes ≡ s ++ (0 ∷ (tail ++ rest))
    split = e ∙ append_assoc s (0 ∷ tail) rest

    found : strnlen (drop r.pos r.bytes) ≡ length s
    found = rw split (strnlen-append s (tail ++ rest) nonul)

    text : take (length s) (drop r.pos r.bytes) ≡ s
    text = rw split (take-append s (0 ∷ (tail ++ rest)) (length s) refl)

    total : length (drop r.pos r.bytes) ≡ length (osc_string s ++ rest)
    total = ap length e

-- Parsing an encoded message gives back its address, its typetag and its argument bytes, for texts
-- with no NUL and below 2^32 - 4 bytes, and a message below 2^63 bytes.
pub parse_message-encode :
    (address typetag args : List ℕ)
    → NoNul address
    → NoNul typetag
    → length address + 1 < 2 ^ 32 - 3
    → length typetag + 1 < 2 ^ 32 - 3
    → length (encode address typetag args) < 2 ^ 63
    → parse_message (encode address typetag args)
      ≡ record { address = some address; typetag = some typetag; arg_data = args; valid = true }
unfolding parse_message reader
parse_message-encode a t args na nt sa st small =
    rw (first, parse_message) (rw (second, parse_message) (rw (nonempty, rest)))
  where
    bytes : List ℕ
    bytes = encode a t args

    nonempty : ltb 0 (length bytes) ≡ true
    nonempty = ground (
      arith,
      length-append a (0 ∷ replicate (osc_pad4 (length a + 1) - (length a + 1)) 0),
      length-append (osc_string a) (osc_string t ++ args),
    )

    r0 : OscReader
    r0 = reader bytes

    r1 : OscReader
    r1 = record r0 { pos = 0 + osc_pad4 (length a + 1) }

    first : read_str r0 ≡ (some a, r1)
    first = read_str-osc_string r0 a (osc_string t ++ args) nonempty na sa small refl

    after_address : drop r1.pos bytes ≡ osc_string t ++ args
    after_address =
        drop-append (osc_string a) (osc_string t ++ args) r1.pos
          (omega (arith, length-osc_string a sa))

    second : read_str r1 ≡ (some t, record r1 { pos = r1.pos + osc_pad4 (length t + 1) })
    second = read_str-osc_string r1 t args nonempty nt st small after_address

    rest : drop (r1.pos + osc_pad4 (length t + 1)) bytes ≡ args
    rest =
        sym (drop-drop r1.pos (osc_pad4 (length t + 1)) bytes)
        ∙ ap (drop (osc_pad4 (length t + 1))) after_address
        ∙ drop-append (osc_string t) args (osc_pad4 (length t + 1)) (sym (length-osc_string t st))

-- Four bytes in big-endian order give back the 32-bit number.
pub from_big_endian-osc_int32 : (w : ℕ) → w < 2 ^ 32 → from_big_endian (osc_int32 w) ≡ w
unfolding from_big_endian
from_big_endian-osc_int32 w h = omega arith

pub read_int32-osc_int32 :
    (r : OscReader) (w : ℕ) (rest : List ℕ)
    → r.valid ≡ true
    → w < 2 ^ 32
    → length r.bytes < 2 ^ 63
    → drop r.pos r.bytes ≡ osc_int32 w ++ rest
    → read_int32 r ≡ (w, record r { pos = r.pos + 4 })
unfolding read_int32
read_int32-osc_int32 r w rest v h small e =
    ground (arith, text, total, from_big_endian-osc_int32 w h, length-drop r.pos r.bytes)
  where
    text : take 4 (drop r.pos r.bytes) ≡ osc_int32 w
    text = rw e

    total : length (drop r.pos r.bytes) ≡ length (osc_int32 w ++ rest)
    total = ap length e

-- A reader in front of an encoded blob of less than 2^31 bytes returns the blob and its length, and
-- moves past the padding.
pub read_blob-osc_blob :
    (r : OscReader) (blob rest : List ℕ)
    → r.valid ≡ true
    → length blob < 2 ^ 31
    → length r.bytes < 2 ^ 63
    → drop r.pos r.bytes ≡ osc_blob blob ++ rest
    → read_blob r ≡ (some blob, length blob, record r { pos = r.pos + 4 + osc_pad4 (length blob) })
unfolding read_blob
read_blob-osc_blob r blob rest v short small e = ground (
  arith,
  size,
  text,
  total,
  length-drop r.pos r.bytes,
  length-drop 4 (drop r.pos r.bytes),
  drop-drop r.pos 4 r.bytes,
  osc_pad4_lem (length blob),
)
  where
    n : ℕ
    n = length blob

    pad : List ℕ
    pad = replicate (osc_pad4 n - n) 0

    same : n % 2 ^ 32 ≡ n
    same = omega arith

    body : drop r.pos r.bytes ≡ osc_int32 n ++ (blob ++ (pad ++ rest))
    body =
        e
        ∙ rw same
            (rw (append_assoc (osc_int32 n) (blob ++ pad) rest, append_assoc blob pad rest) refl)

    size : read_int32 r ≡ (n, record r { pos = r.pos + 4 })
    size = read_int32-osc_int32 r n (blob ++ (pad ++ rest)) v (omega arith) small body

    text : take n (drop (r.pos + 4) r.bytes) ≡ blob
    text = rw (← drop-drop r.pos 4 r.bytes) (rw body (take-append blob (pad ++ rest) n refl))

    total : length (drop r.pos r.bytes) ≡ 4 + (n + (osc_pad4 n - n) + length rest)
    total =
        ap length body
        ∙ omega (
          arith,
          length-append blob (pad ++ rest),
          length-append pad rest,
          length-replicate {A = ℕ} (osc_pad4 n - n) 0,
        )
