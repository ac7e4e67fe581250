-- ===== src/Captions/Publisher.antt =====
-- RouterPublisher of modules/captions/src/host/RouterPublisher.cpp: chat texts are written as OSC
-- packets to the publish pipe of the router. What Windows answers is an input; what the pipe's other
-- end receives is the output.
pub mod Packet
pub mod Received
pub mod Streams
pub mod Connects
pub mod History
use open_vr_pair_driver.Base.{
  ℕ, zero, suc, ◌+◌, ◌-◌, ◌*◌, ◌/◌, ◌%◌, ◌^◌, min, Bool, true, false, not, Option, none, some, List,
  [], ◌∷◌, ◌++◌, length, take, drop, get_or, replicate, ltb, leb, ◌==◌, ◌&&◌, ◌||◌, if◌then◌else◌,
  add_size, codes,
}
use open_vr_pair_driver.Router.Driver.{until_nul}

-- `(n + 3) & ~3u`, with the 32-bit mask widened with zeros.
unfoldable pub pad4 : ℕ → ℕ
pad4 n = add_size n 3 % 2 ^ 32 / 4 * 4

-- The bytes that `WriteOscString` puts out.
unfoldable pub write_osc_string : List ℕ → List ℕ
write_osc_string s = let len = length s + 1 in s ++ 0 ∷ replicate (pad4 len - len) 0

abbrev pub chatbox_address : List ℕ
chatbox_address = codes "/chatbox/input"

-- ",s%c%c".
unfoldable pub typetag_of : Bool → Bool → List ℕ
typetag_of send_immediate notify =
    44 ∷ 115 ∷ (if send_immediate then 84 else 70) ∷ (if notify then 84 else 70) ∷ []

-- `EncodeChatboxPacket`: the bytes that it writes, none where it returns 0.
unfoldable pub encode_chatbox_packet : ℕ → List ℕ → Bool → Bool → List ℕ
encode_chatbox_packet buf_size text send_immediate notify =
    let typetag = typetag_of send_immediate notify in
    let total =
      pad4 (length chatbox_address + 1) + pad4 (length typetag + 1) + pad4 (length text + 1) in
    if ltb buf_size total
    then []
    else write_osc_string chatbox_address ++ (write_osc_string typetag ++ write_osc_string text)

unfoldable pub is_space : ℕ → Bool
is_space c = c == 32 || c == 9 || c == 13 || c == 10

abbrev pub vrchat_limit : ℕ
vrchat_limit = 144

-- The loop that moves `cut` back.
unfoldable pub last_space : List ℕ → ℕ → ℕ
last_space text zero = zero
last_space text (suc cut) =
    if is_space (get_or text (suc cut) 0) then suc cut else last_space text cut

unfoldable pub truncate_to_vrchat_limit : List ℕ → List ℕ
truncate_to_vrchat_limit text =
    let cut = last_space text vrchat_limit in
    if leb (length text) vrchat_limit
    then text
    else take (if cut == 0 then vrchat_limit else cut) text ++ codes "..."

-- `pipe` is whether the handle is valid.
pub record RouterPublisher : Type 0 where
  pub pipe : Bool
  pub identified : Bool
  pub backoff_ms : ℕ

abbrev pub router_publisher : RouterPublisher
router_publisher = record { pipe = false; identified = false; backoff_ms = 500 }

abbrev pub max_backoff_ms : ℕ
max_backoff_ms = 15000

-- The answers of Windows that are still to come, and what has been written: `opens` says whether
-- CreateFileA succeeds, `writes` how many bytes WriteFile takes, or none where it fails; when the
-- answers have run out, the calls fail. `stream` is what was written since the pipe was last opened,
-- `earlier` the streams before it, the newest first.
pub record Pipe : Type 0 where
  pub opens : List Bool
  pub writes : List (Option ℕ)
  pub stream : List ℕ
  pub earlier : List (List ℕ)

-- The loop of `Write`: the answers left, the bytes written, and the result. (WriteFile takes no more
-- bytes than it is given.)
unfoldable pub write_loop : List (Option ℕ) → List ℕ → List (Option ℕ) × List ℕ × Bool
write_loop writes [] = (writes, [], true)
write_loop [] (b ∷ data_) = ([], [], false)
write_loop (none ∷ writes) (b ∷ data_) = (writes, [], false)
write_loop (some written ∷ writes) (b ∷ data_) =
    let (left, out, done) = write_loop writes (drop written (b ∷ data_)) in
    (left, take written (b ∷ data_) ++ out, done)

unfoldable pub write : Pipe → List ℕ → Pipe × Bool
write o bytes =
    let (left, out, done) = write_loop o.writes bytes in
    (record o { writes = left; stream = o.stream ++ out }, done)

unfoldable pub disconnect : RouterPublisher → RouterPublisher
disconnect p = record p { pipe = false; identified = false }

-- `CreateFileA`.
unfoldable pub create_file : Pipe → Pipe × Bool
create_file o = elim o.opens [
  | [] ↦ (o, false)
  | true ∷ opens ↦ (record o { opens = opens; stream = []; earlier = o.stream ∷ o.earlier }, true)
  | false ∷ opens ↦ (record o { opens = opens }, false)
]

-- `kSourceId`.
abbrev pub source_id : List ℕ
source_id = codes "translator" ++ replicate 22 0

unfoldable pub connect : RouterPublisher → Pipe → RouterPublisher × Pipe × Bool
connect p o =
    let (o', opened) = create_file o in
    let (o'', sent) = write o' source_id in
    if opened
    then if sent
      then (record p { pipe = true; identified = true; backoff_ms = 500 }, o'', true)
      else (disconnect p, o'', false)
    else (disconnect p, o', false)

unfoldable pub len_buf : ℕ → List ℕ
len_buf n = (n % 256) ∷ (n / 2 ^ 8 % 256) ∷ (n / 2 ^ 16 % 256) ∷ (n / 2 ^ 24 % 256) ∷ []

-- `Write(len_buf, 4) && Write(pkt, pkt_size)`.
unfoldable pub write_frame : Pipe → List ℕ → Pipe × Bool
write_frame o pkt =
    let (o', prefixed) = write o (len_buf (length pkt % 2 ^ 32)) in
    if prefixed then write o' pkt else (o', false)

unfoldable pub back_off : RouterPublisher → RouterPublisher
back_off p = record p { backoff_ms = min (p.backoff_ms * 2) max_backoff_ms }

-- One attempt: connected if need be, or none where that fails.
unfoldable pub connected : RouterPublisher → Pipe → RouterPublisher × Pipe × Bool
connected p o = if not p.pipe || not p.identified then connect p o else (p, o, true)

-- The loop of `PublishChatbox`, with the attempts that are left.
unfoldable pub attempts : ℕ → RouterPublisher → Pipe → List ℕ → RouterPublisher × Pipe × Bool
attempts zero p o pkt = (back_off p, o, false)
attempts (suc n) p o pkt =
    let (p', o', ready) = connected p o in
    let (o'', done) = write_frame o' pkt in
    let again = attempts n (disconnect p') o'' pkt in
    if ready
    then if length pkt == 0 then (p', o', false) else if done then (p', o'', true) else again
    else (back_off p', o', false)

unfoldable pub publish_chatbox :
    RouterPublisher → Pipe → List ℕ → Bool → Bool → RouterPublisher × Pipe × Bool
publish_chatbox p o text_in send_immediate notify =
    let text = truncate_to_vrchat_limit text_in in
    attempts 2 p o (encode_chatbox_packet 1024 (until_nul text) send_immediate notify)
