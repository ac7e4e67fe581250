-- ===== src/Captions/Config.antt =====
-- The configuration on its way from the driver to the captions host: BuildHostConfigCommand of
-- modules/captions/src/driver/CaptionsDriverModule.cpp, and DispatchControlMessage of
-- modules/captions/src/host/main.cpp. `text_of` is std::to_string of an int, and `stoi` is std::stoi,
-- none where it throws.
pub mod Sent
use open_vr_pair_driver.Base.{
  ℕ, zero, suc, ◌%◌, ◌^◌, Bool, true, false, not, Option, none, some, List, [], ◌∷◌, ◌++◌, length,
  drop, ◌==◌, ◌&&◌, ◌||◌, if◌then◌else◌, ◌>>=◌, codes, has_prefix, same_codes,
}

-- The texts are the characters before the NUL of the arrays.
pub record CaptionsConfig : Type 0 where
  pub master_enabled : ℕ
  pub mode : ℕ
  pub notify_sound : ℕ
  pub transcript_logging : ℕ
  pub chatbox_port : ℕ
  pub source_lang : List ℕ
  pub target_lang : List ℕ
  pub chatbox_address : List ℕ

unfoldable pub build_host_config_command : (ℕ → List ℕ) → CaptionsConfig → List ℕ
build_host_config_command text_of c =
    codes "config:"
    ++ (codes "src="
        ++ (c.source_lang
            ++ (codes ",tgt="
                ++ (c.target_lang
                    ++ (codes ",mode="
                        ++ (text_of c.mode
                            ++ (codes ",addr="
                                ++ (c.chatbox_address
                                    ++ (codes ",port="
                                        ++ (text_of c.chatbox_port
                                            ++ (codes ",log="
                                                ++ (text_of c.transcript_logging
                                                    ++ codes "\n"))))))))))))

-- HostConfig, without the paths of the models.
pub record HostConfig : Type 0 where
  pub source_lang : List ℕ
  pub target_lang : List ℕ
  pub chatbox_address : List ℕ
  pub chatbox_port : ℕ
  pub transcript_logging : Bool
  pub mode : ℕ

-- The text before the first such character and the text behind it, or none where `find` fails.
unfoldable pub split_at : ℕ → List ℕ → Option (List ℕ × List ℕ)
split_at x [] = none
split_at x (c ∷ s) =
    let found : Option (List ℕ × List ℕ) = elim (split_at x s) [
      | none ↦ none
      | some (before, behind) ↦ some (c ∷ before, behind)
    ] in
    if c == x then some ([], s) else found

abbrev none_left : List ℕ → Bool
none_left [] = true
none_left (c ∷ s) = false

-- The loop of `pop_back` over the line ends.
unfoldable pub strip_line_end : List ℕ → List ℕ
strip_line_end [] = []
strip_line_end (c ∷ s) =
    let rest = strip_line_end s in if none_left rest && (c == 10 || c == 13) then [] else c ∷ rest

unfoldable pub set_key : (List ℕ → Option ℕ) → HostConfig → List ℕ → List ℕ → Option HostConfig
set_key stoi g key val =
    if same_codes key (codes "src")
    then some (record g { source_lang = val })
    else if same_codes key (codes "tgt")
    then some (record g { target_lang = val })
    else if same_codes key (codes "mode")
    then (stoi val >>= λ n. some (record g { mode = n }))
    else if same_codes key (codes "addr")
    then some (record g { chatbox_address = val })
    else if same_codes key (codes "port")
    then (stoi val >>= λ n. some (record g { chatbox_port = n % 2 ^ 16 }))
    else if same_codes key (codes "log")
    then some (record g { transcript_logging = not (same_codes val (codes "0")) })
    else some g

-- The loop over the pairs, from the position on; each round goes past a character.
unfoldable pub dispatch_pairs : (List ℕ → Option ℕ) → ℕ → HostConfig → List ℕ → Option HostConfig
dispatch_pairs stoi zero g body = some g
dispatch_pairs stoi (suc fuel) g body = elim (split_at 61 body) [
  | none ↦ some g
  | some (key, behind) ↦ elim (split_at 44 behind) [
    | none ↦ set_key stoi g key (strip_line_end behind)
    | some (val, rest) ↦
        set_key stoi g key (strip_line_end val) >>= λ g'. dispatch_pairs stoi fuel g' rest
  ]
]

unfoldable pub dispatch_control_message :
    (List ℕ → Option ℕ) → HostConfig → List ℕ → Option HostConfig
dispatch_control_message stoi g msg =
    if has_prefix (codes "config:") msg
    then dispatch_pairs stoi (length msg) g (drop 7 msg)
    else some g
