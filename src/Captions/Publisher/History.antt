-- ===== src/Captions/Publisher/History.antt =====
-- What stands in the publish pipe after every history of published texts.
use open_vr_pair_driver.Base.{ℕ, Bool, Option, List, [], ◌∷◌, ◌++◌}
use open_vr_pair_driver.Captions.Publisher.{RouterPublisher, Pipe, publish_chatbox}
use open_vr_pair_driver.Captions.Publisher.Packet.{packet_of}
use open_vr_pair_driver.Captions.Publisher.Streams.{Delivered}
use open_vr_pair_driver.Captions.Publisher.Connects.{one_if}

-- The packet counts as sent if the call says so.
abbrev Done : List (List ℕ) → List ℕ → RouterPublisher × Pipe × Bool → Type 0
Done sent pkt (p, o, ok) = Delivered p o (sent ++ one_if ok pkt)

-- A text with `sendImmediate` and `playNotification`.
pub record Chat : Type 0 where
  pub text : List ℕ
  pub send_immediate : Bool
  pub notify : Bool

abbrev pub call : RouterPublisher → Pipe → Chat → RouterPublisher × Pipe × Bool
call p o c = publish_chatbox p o c.text c.send_immediate c.notify

-- The state after a sequence of calls, and the packets of the calls that returned true.
abbrev pub after : RouterPublisher → Pipe → List Chat → RouterPublisher × Pipe
after p o [] = (p, o)
after p o (c ∷ cs) = let (p', o', ok) = call p o c in after p' o' cs

abbrev pub acknowledged : RouterPublisher → Pipe → List Chat → List (List ℕ)
acknowledged p o [] = []
acknowledged p o (c ∷ cs) =
    let (p', o', ok) = call p o c in
    one_if ok (packet_of c.text c.send_immediate c.notify) ++ acknowledged p' o' cs

-- A pipe that has not been opened yet.
abbrev pub unopened : List Bool → List (Option ℕ) → Pipe
unopened opens writes = record { opens = opens; writes = writes; stream = []; earlier = [] }
