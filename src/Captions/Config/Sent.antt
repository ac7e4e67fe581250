-- ===== src/Captions/Config/Sent.antt =====
-- The host has the configuration that the driver sends.
use open_vr_pair_driver.Base.{
  ℕ, suc, ◌%◌, ◌^◌, ◌≡◌, ◌≢◌, refl, ap, ◌∙◌, not, Option, none, some, List, [], ◌∷◌, ◌++◌, length,
  drop, ◌==◌, if_false, ◌>>=◌, codes, same_codes, arith, ne→==,
}
use open_vr_pair_driver.Captions.Config.{
  CaptionsConfig, build_host_config_command, HostConfig, split_at, strip_line_end, set_key,
  dispatch_pairs, dispatch_control_message,
}

-- A text without a comma and without a line end.
abbrev pub IsPlain : List ℕ → Type 0
IsPlain [] = Unit {0}
IsPlain (c ∷ s) = (c ≢ 44) × (c ≢ 10) × (c ≢ 13) × IsPlain s

abbrev IsKey : List ℕ → Type 0
IsKey [] = Unit {0}
IsKey (c ∷ s) = (c ≢ 61) × IsKey s

split_at-key : (key rest : List ℕ) → IsKey key → split_at 61 (key ++ 61 ∷ rest) ≡ some (key, rest)
unfolding split_at
split_at-key [] rest k = refl
split_at-key (c ∷ key) rest (other, k) =
    if_false {b = c == 61} _ (ne→== c 61 other) ∙ rw (split_at-key key rest k, split_at) refl

split_at-comma :
    (val rest : List ℕ) → IsPlain val → split_at 44 (val ++ 44 ∷ rest) ≡ some (val, rest)
unfolding split_at
split_at-comma [] rest p = refl
split_at-comma (c ∷ val) rest (other, _, _, p) =
    if_false {b = c == 44} _ (ne→== c 44 other) ∙ rw (split_at-comma val rest p, split_at) refl

no_comma : (val : List ℕ) → IsPlain val → split_at 44 (val ++ 10 ∷ []) ≡ none
unfolding split_at
no_comma [] p = refl
no_comma (c ∷ val) (other, _, _, p) =
    if_false {b = c == 44} _ (ne→== c 44 other) ∙ rw (no_comma val p, split_at) refl

strip_plain : (val : List ℕ) → IsPlain val → strip_line_end val ≡ val
unfolding strip_line_end
strip_plain [] p = refl
strip_plain (c ∷ val) (_, lf, cr, p) =
    ground (arith, strip_plain val p, ne→== c 10 lf, ne→== c 13 cr)

strip_line : (val : List ℕ) → IsPlain val → strip_line_end (val ++ 10 ∷ []) ≡ val
unfolding strip_line_end
strip_line [] p = refl
strip_line (c ∷ val) (_, lf, cr, p) = ground (arith, strip_line val p, ne→== c 10 lf, ne→== c 13 cr)

module _ (stoi : List ℕ → Option ℕ) where
  one_pair :
      (fuel : ℕ) (g : HostConfig) (key val rest : List ℕ)
      → IsKey key
      → IsPlain val
      → dispatch_pairs stoi (suc fuel) g (key ++ 61 ∷ (val ++ 44 ∷ rest))
        ≡ (set_key stoi g key val >>= λ g'. dispatch_pairs stoi fuel g' rest)
  unfolding dispatch_pairs
  one_pair fuel g key val rest k p =
      rw (split_at-key key (val ++ 44 ∷ rest) k, dispatch_pairs)
        (rw (split_at-comma val rest p, dispatch_pairs)
          (ap (λ v. set_key stoi g key v >>= λ g'. dispatch_pairs stoi fuel g' rest)
            (strip_plain val p)))

  last_pair :
      (fuel : ℕ) (g : HostConfig) (key val : List ℕ)
      → IsKey key
      → IsPlain val
      → dispatch_pairs stoi (suc fuel) g (key ++ 61 ∷ (val ++ 10 ∷ [])) ≡ set_key stoi g key val
  unfolding dispatch_pairs
  last_pair fuel g key val k p =
      rw (split_at-key key (val ++ 10 ∷ []) k, dispatch_pairs)
        (rw (no_comma val p, dispatch_pairs) (ap (set_key stoi g key) (strip_line val p)))

-- What std::to_string makes of a number is plain, and std::stoi reads the number back.
abbrev pub IsPrinted : (ℕ → List ℕ) → (List ℕ → Option ℕ) → ℕ → Type 0
IsPrinted text_of stoi n = (stoi (text_of n) ≡ some n) × IsPlain (text_of n)

-- What the host has of a configuration.
abbrev pub received : CaptionsConfig → HostConfig
received c = record {
  source_lang = c.source_lang;
  target_lang = c.target_lang;
  chatbox_address = c.chatbox_address;
  chatbox_port = c.chatbox_port % 2 ^ 16;
  transcript_logging = not (c.transcript_logging == 0);
  mode = c.mode;
}

module _ (text_of : ℕ → List ℕ) (stoi : List ℕ → Option ℕ) (c : CaptionsConfig)
    (texts : IsPlain c.source_lang × IsPlain c.target_lang × IsPlain c.chatbox_address)
    (mode : IsPrinted text_of stoi c.mode) (port : IsPrinted text_of stoi c.chatbox_port)
    (log : IsPlain (text_of c.transcript_logging))
    (off : same_codes (text_of c.transcript_logging) (codes "0")
      ≡ (c.transcript_logging == 0)) where
  line6 : List ℕ
  line6 = codes "log=" ++ (text_of c.transcript_logging ++ codes "\n")

  line5 : List ℕ
  line5 = codes "port=" ++ (text_of c.chatbox_port ++ 44 ∷ line6)

  line4 : List ℕ
  line4 = codes "addr=" ++ (c.chatbox_address ++ 44 ∷ line5)

  line3 : List ℕ
  line3 = codes "mode=" ++ (text_of c.mode ++ 44 ∷ line4)

  line2 : List ℕ
  line2 = codes "tgt=" ++ (c.target_lang ++ 44 ∷ line3)

  line1 : List ℕ
  line1 = codes "src=" ++ (c.source_lang ++ 44 ∷ line2)

  -- The configuration after three pairs, and after all.
  after_three : HostConfig → HostConfig
  after_three g = record g {
    source_lang = c.source_lang;
    target_lang = c.target_lang;
    mode = c.mode;
  }

  first_three :
      (n : ℕ) (g : HostConfig)
      → dispatch_pairs stoi (suc (suc (suc n))) g line1
        ≡ dispatch_pairs stoi n (after_three g) line4
  unfolding set_key line1 line2 line3 after_three
  first_three n g =
      one_pair stoi (suc (suc n)) g (codes "src") c.source_lang line2 (omega arith) texts.0
      ∙ one_pair stoi (suc n) (record g { source_lang = c.source_lang }) (codes "tgt") c.target_lang
          line3 (omega arith) texts.1
      ∙ one_pair stoi n (record g { source_lang = c.source_lang; target_lang = c.target_lang })
          (codes "mode") (text_of c.mode) line4 (omega arith) mode.1
      ∙ ap
          (λ o.
            (o >>= λ m.
            some (record g { source_lang = c.source_lang; target_lang = c.target_lang; mode = m }))
            >>= λ g'. dispatch_pairs stoi n g' line4)
          mode.0

  last_three :
      (n : ℕ) (g : HostConfig)
      → dispatch_pairs stoi (suc (suc (suc n))) (after_three g) line4 ≡ some (received c)
  unfolding set_key line4 line5 line6 after_three
  last_three n g =
      one_pair stoi (suc (suc n)) (after_three g) (codes "addr") c.chatbox_address line5
        (omega arith) texts.2
      ∙ one_pair stoi (suc n) (record (after_three g) { chatbox_address = c.chatbox_address })
          (codes "port") (text_of c.chatbox_port) line6 (omega arith) port.1
      ∙ ap
          (λ o.
            (o >>= λ m. some (record (after_three g) {
              chatbox_address = c.chatbox_address;
              chatbox_port = m % 2 ^ 16;
            }))
            >>= λ g'. dispatch_pairs stoi (suc n) g' line6)
          port.0
      ∙ last_pair stoi n
          (record (after_three g) {
            chatbox_address = c.chatbox_address;
            chatbox_port = c.chatbox_port % 2 ^ 16;
          })
          (codes "log") (text_of c.transcript_logging) (omega arith) log
      ∙ ap (λ b. some (record (received c) { transcript_logging = not b })) off

  -- The host takes from the driver's command exactly the languages, the address, the port, the mode
  -- and the logging of the configuration, whatever it had before, if no text has a comma or a line
  -- end in it.
  pub dispatch_control_message-build :
      (g : HostConfig)
      → dispatch_control_message stoi g (build_host_config_command text_of c) ≡ some (received c)
  unfolding dispatch_control_message build_host_config_command line1 line2 line3 line4 line5 line6
  dispatch_control_message-build g = first_three (suc (suc (suc rest))) g ∙ last_three rest g
    where
      rest : ℕ
      rest = length (drop 6 (build_host_config_command text_of c))
