-- ===== src/Captions/Publisher/Received.antt =====
-- A frame of the publisher as the router takes it from the publish pipe.
use open_vr_pair_driver.Base.{ℕ, ◌≡◌, Bool, true, some, List, [], ◌∷◌, ◌++◌, if◌then◌else◌}
use open_vr_pair_driver.Osc.Packet.Capacity.{osc_string}
use open_vr_pair_driver.Osc.Reader.{reader, read_str, parse_message}
use open_vr_pair_driver.Router.Queue.Fifo.{packets}
use open_vr_pair_driver.Router.Driver.{Router}
use open_vr_pair_driver.Captions.Publisher.{chatbox_address}
use open_vr_pair_driver.Captions.Publisher.Packet.{sent_text}

-- The router has the packet at the end of its queue, and reads the message out of it.
pub record Received (r r' : Router) (text_in typetag pkt : List ℕ) : Type 0 where
  pub queued : packets r'.queue ≡ packets r.queue ++ pkt ∷ []
  pub rest_same : r' ≡ record r { queue = r'.queue }
  pub message : parse_message pkt ≡ record {
    address = some chatbox_address;
    typetag = some typetag;
    arg_data = osc_string (sent_text text_in);
    valid = true;
  }
  pub argument : (read_str (reader (parse_message pkt).arg_data)).0 ≡ some (sent_text text_in)

letter : Bool → ℕ
letter b = if b then 84 else 70
