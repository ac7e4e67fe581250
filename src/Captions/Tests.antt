-- ===== src/Captions/Tests.antt =====
-- A text published over a pipe that breaks once.
use open_vr_pair_driver.Base.{
  ℕ, zero, suc, ◌+◌, ◌-◌, ◌*◌, ◌/◌, ◌%◌, ◌≡◌, refl, true, false, ◌||◌, Option, none, some, List, [],
  ◌∷◌, ◌++◌, replicate, ltb, if◌then◌else◌, arith, codes,
}
use open_vr_pair_driver.Router.Queue.{SendQueue, blank}
use open_vr_pair_driver.Router.Queue.Fifo
use open_vr_pair_driver.Router.Driver.{Router}
use open_vr_pair_driver.Captions.Publisher.{
  typetag_of, last_space, is_space, truncate_to_vrchat_limit,
}
use open_vr_pair_driver.Captions.Publisher.Packet.{
  IsChatboxPacket, packet_of, packet_of-IsChatboxPacket, Truncated,
  truncate_to_vrchat_limit-Truncated,
}
use open_vr_pair_driver.Captions.Publisher.Received.{Received}
use open_vr_pair_driver.Captions.Publisher.History.{Chat}
use open_vr_pair_driver.Captions.Gate.{Gate, idle}
use open_vr_pair_driver.Captions.Gate.Utterance.{
  Heard, samples, listens, long_enough, at_rest, listens-utterance,
}
use open_vr_pair_driver.Captions.Config.{
  CaptionsConfig, HostConfig, build_host_config_command, dispatch_control_message,
}
use open_vr_pair_driver.Captions.Config.Sent.{received, dispatch_control_message-build}
use open_vr_pair_driver.Captions.Poller.{Snapshot, Poller, tick, accept, read_file}

abbrev long_text : List ℕ
long_text = codes "a word and " ++ replicate 140 120

truncate_to_vrchat_limit-Truncated_example :
    Truncated long_text (truncate_to_vrchat_limit long_text)
truncate_to_vrchat_limit-Truncated_example = truncate_to_vrchat_limit-Truncated long_text

cut_at_the_word : truncate_to_vrchat_limit long_text ≡ codes "a word and..."
unfolding truncate_to_vrchat_limit last_space is_space
cut_at_the_word = refl

packet_of-IsChatboxPacket_example :
    IsChatboxPacket long_text (typetag_of true false) (packet_of long_text true false)
packet_of-IsChatboxPacket_example = packet_of-IsChatboxPacket long_text true false

abbrev queue : SendQueue
queue = record { slots = replicate 1024 blank; head = 0; tail = 0; count = 0 }

abbrev router : Router
router = record {
  table = [];
  queue = queue;
  dropped_count = 0;
  packets_sent = 0;
  bytes_sent = 0;
  stop = false;
  shmem_ready = false;
  shmem = none;
}

abbrev chats : List Chat
chats =
    record { text = codes "hello"; send_immediate = true; notify = false }
    ∷ record { text = long_text; send_immediate = true; notify = true }
    ∷ []

-- The first frame breaks after its length, is written whole on the second stream, and the second
-- text follows it there.
abbrev answers : List (Option ℕ)
answers = some 32 ∷ some 4 ∷ none ∷ some 30 ∷ some 2 ∷ some 4 ∷ some 32 ∷ some 4 ∷ some 40 ∷ []

-- Something was buffered before; then two loud frames of 900 samples with silence between them, and
-- 20 silent frames.
abbrev gate : Gate
gate = record {
  silence_count = 3;
  in_speech = false;
  ptt_was_held = false;
  speech_buf = 8 ∷ [];
  status = idle;
}

abbrev heard : List Heard
heard = (false, 0 ∷ []) ∷ (true, replicate 900 5) ∷ replicate 19 (false, 0 ∷ [])

listens-utterance_example :
    listens gate ((true, replicate 900 4) ∷ (heard ++ (false, []) ∷ []))
    ≡ (at_rest gate 20, long_enough (replicate 900 4 ++ samples heard))
listens-utterance_example =
    listens-utterance gate (replicate 900 4) [] heard refl (ground arith) (omega arith)

abbrev snapshot : Snapshot ℕ
snapshot = record {
  valid = true;
  stale = true;
  host_halted = false;
  last_exit_code = 0;
  last_exit_description = [];
  fields = some 7;
}

-- A poller that has not read for a minute, and a changed file that cannot be parsed.
abbrev poller : Poller ℕ
poller = record {
  has_path = true;
  last_read_attempt = 60000;
  last_successful_read = 1000;
  last_observed_mtime = 5;
  snapshot = snapshot;
}

taken_as_fresh : (tick ℕ poller 61000 6 none).snapshot.stale ≡ false
unfolding tick accept read_file
taken_as_fresh = refl

-- Decimal numbers of at most five digits, and reading them back.
digits : ℕ → ℕ → List ℕ → List ℕ
digits zero n acc = acc
digits (suc k) n acc =
    let acc' = (48 + n % 10) ∷ acc in
    let more = digits k (n / 10) acc' in if ltb n 10 then acc' else more

abbrev decimal : ℕ → List ℕ
unfolding digits
decimal n = digits 5 n []

value : ℕ → List ℕ → Option ℕ
value acc [] = some acc
value acc (c ∷ s) =
    let rest = value (acc * 10 + (c - 48)) s in if ltb c 48 || ltb 57 c then none else rest

abbrev stoi : List ℕ → Option ℕ
unfolding value
stoi s = value 0 s

abbrev captions_config : CaptionsConfig
captions_config = record {
  master_enabled = 1;
  mode = 1;
  notify_sound = 0;
  transcript_logging = 1;
  chatbox_port = 9000;
  source_lang = codes "en";
  target_lang = codes "de";
  chatbox_address = codes "/chatbox/input";
}

abbrev host_config : HostConfig
host_config = record {
  source_lang = codes "auto";
  target_lang = [];
  chatbox_address = [];
  chatbox_port = 1;
  transcript_logging = false;
  mode = 0;
}

dispatch_control_message-build_example :
    dispatch_control_message stoi host_config (build_host_config_command decimal captions_config)
    ≡ some (received captions_config)
unfolding digits value
dispatch_control_message-build_example =
    dispatch_control_message-build decimal stoi captions_config
      (ground arith, ground arith, ground arith) (refl, ground arith) (refl, ground arith)
      (ground arith) refl host_config
