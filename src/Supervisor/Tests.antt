-- ===== src/Supervisor/Tests.antt =====
-- A supervisor that watches the process 7, and turns in which it crashes.
use open_vr_pair_driver.Base.{
  ◌+◌, ◌≡◌, refl, true, false, none, some, List, [], ◌∷◌, arith, codes, leb,
}
use open_vr_pair_driver.Supervisor.{
  Supervisor, SpawnAnswers, Turn, monitor_turn, monitor_loop, circuit_breaker_threshold, wait_ended,
}
use open_vr_pair_driver.Supervisor.Breaker.{
  IsValid, monitors, stops_now, restarts_now, history, history-IsValid,
}
use open_vr_pair_driver.Supervisor.Idle.{IsQuiet, failed_respawn_abandoned}
use open_vr_pair_driver.Supervisor.Turns.{IsPrompt, crashes}
use open_vr_pair_driver.Supervisor.Crashes.{crashes_accumulate}
use open_vr_pair_driver.Supervisor.Cleanup.{
  Probe, Process, cleanup_stale_host_if_wedged, terminate_stale, extract_image_name, behind_slash,
  lower_ascii, lower, same_text,
}

abbrev watching : Supervisor
watching = record {
  stop_requested = false;
  running = true;
  process_handle = some 7;
  attached_to_existing = false;
  consecutive_fast_exits = 3;
  halted = false;
  last_exit_code = 0;
  last_exit_description = [];
  ready_calls = 1;
  exited_calls = 0;
}

abbrev tripped : Supervisor
tripped = record watching {
  running = false;
  process_handle = none;
  consecutive_fast_exits = 5;
  halted = true;
}

abbrev creates : SpawnAnswers
creates = record {
  still_runs = false;
  can_connect = false;
  mutex_named = true;
  mutex_held = false;
  converts = true;
  created = some 8;
}

abbrev crash : Turn
crash = record {
  in_wait = [];
  in_sleep = [];
  pipe_answers = false;
  spawn_time = 5000;
  before_wait_ms = 10;
  exit_time = some 5900;
  exit_code = 1;
  description = [];
  after_wait_ms = 10;
  spawn_answers = creates;
}

-- A turn that the host lives through.
abbrev lives : Turn
lives = record crash { exit_time = none }

abbrev unlucky : Turn
unlucky = record crash { spawn_answers = record creates { created = none } }

watching-IsValid : IsValid watching
watching-IsValid = record { tripped = refl; within = omega arith; handle_runs = λ _. refl }

history-IsValid_example : IsValid (
    history watching
      (monitors 1000 (crash ∷ lives ∷ crash ∷ []) ∷ restarts_now creates ∷ stops_now ∷ []))
history-IsValid_example =
    history-IsValid watching
      (monitors 1000 (crash ∷ lives ∷ crash ∷ []) ∷ restarts_now creates ∷ stops_now ∷ [])
      watching-IsValid

crash-IsQuiet : IsQuiet crash
crash-IsQuiet = record { no_wait_calls = refl; no_sleep_calls = refl; no_other_host = refl }

unlucky-IsQuiet : IsQuiet unlucky
unlucky-IsQuiet = record { no_wait_calls = refl; no_sleep_calls = refl; no_other_host = refl }

failed_respawn_abandoned_example :
    let m = monitor_turn watching 1000 unlucky in
    (m.supervisor.process_handle ≡ none)
    × (m.supervisor.running ≡ false)
    × (monitor_loop m.supervisor m.backoff_ms (crash ∷ []) ≡ (m.supervisor, m.backoff_ms))
unfolding wait_ended
failed_respawn_abandoned_example =
    failed_respawn_abandoned watching 1000 unlucky (crash ∷ []) refl refl refl refl refl
      (omega arith) refl (unlucky-IsQuiet, (crash-IsQuiet, tt))

crash-IsPrompt : IsPrompt crash
crash-IsPrompt = record {
  quiet = crash-IsQuiet;
  converts = refl;
  created = refl;
  prompt = omega arith;
}

lives-IsPrompt : IsPrompt lives
lives-IsPrompt = record {
  quiet = record { no_wait_calls = refl; no_sleep_calls = refl; no_other_host = refl };
  converts = refl;
  created = refl;
  prompt = omega arith;
}

abbrev long_lived : List Turn
long_lived = crash ∷ lives ∷ lives ∷ crash ∷ []

crashes_accumulate_example :
    (monitor_loop watching 1000 long_lived).0.halted
    ≡ leb circuit_breaker_threshold (3 + crashes long_lived)
crashes_accumulate_example =
    crashes_accumulate watching long_lived refl refl refl (omega arith)
      (crash-IsPrompt, (lives-IsPrompt, (lives-IsPrompt, (crash-IsPrompt, tt))))

two_crashes : crashes long_lived ≡ 2
unfolding wait_ended
two_crashes = refl

abbrev host_process : Process
host_process = record { pid = 9; image = codes "Host.exe"; opens = true; terminates = true }

-- Another image, whose name differs from the host's in a character outside ASCII.
abbrev other_process : Process
other_process = record host_process { pid = 10; image = 104 ∷ 246 ∷ codes "ost.exe" }

abbrev wedged : Probe
wedged = record {
  mutex_named = true;
  mutex_held = true;
  pipe_answers = false;
  own_pid = 4;
  snapshot = some (host_process ∷ other_process ∷ record host_process { pid = 4 } ∷ []);
}

killed_both :
    cleanup_stale_host_if_wedged (codes "C:/x/host.EXE") wedged ≡ host_process ∷ other_process ∷ []
unfolding cleanup_stale_host_if_wedged terminate_stale extract_image_name behind_slash lower_ascii
    lower same_text
killed_both = refl
