-- ===== src/Supervisor/Turns.antt =====
-- One turn of a monitor whose host exits or lives on.
use open_vr_pair_driver.Base.{
  ℕ, ◌+◌, ◌≤◌, ◌<◌, ◌≡◌, refl, Bool, true, false, not, Option, none, some, List, [], ◌∷◌, ◌==◌,
  ◌&&◌, ◌||◌, if◌then◌else◌, arith,
}
use open_vr_pair_driver.Supervisor.{
  Supervisor, SpawnAnswers, is_valid, Turn, Monitor, on_host_ready, on_host_exited, spawn, perform,
  wait_ended, uptime_ms, respawn, count_exit, record_exit, host_exited, watch_process, monitor_turn,
  is_clean_singleton_exit, circuit_breaker_threshold, backoff_start_ms,
}
use open_vr_pair_driver.Supervisor.Idle.{IsQuiet}

-- A turn in which the host exits or lives on, no other thread acts, and every respawn creates a
-- process. The calls around the wait take less than a second.
pub record IsPrompt (t : Turn) : Type 0 where
  pub quiet : IsQuiet t
  pub converts : t.spawn_answers.converts ≡ true
  pub created : is_valid t.spawn_answers.created ≡ true
  pub prompt : t.before_wait_ms + t.after_wait_ms < 1000

abbrev pub ArePrompt : List Turn → Type 0
ArePrompt [] = Unit {0}
ArePrompt (t ∷ ts) = IsPrompt t × ArePrompt ts

-- The process exits before the turn's timeout of one second, with no singleton code.
abbrev pub crashed : Turn → Bool
crashed t = wait_ended backoff_start_ms t && not (t.exit_code == 3 || t.exit_code == 4)

abbrev pub crashes : List Turn → ℕ
crashes [] = 0
crashes (t ∷ ts) = (if crashed t then 1 else 0) + crashes ts

-- A process whose exit ends the wait is never seen to have run for two seconds, however long it had
-- run before the turn.
uptime_fast :
    (t : Turn)
    → wait_ended backoff_start_ms t ≡ true
    → t.before_wait_ms + t.after_wait_ms < 1000
    → uptime_ms t < 2000
unfolding wait_ended uptime_ms
uptime_fast t ended prompt = from t.exit_time refl
  where
    from : (o : Option ℕ) → t.exit_time ≡ o → uptime_ms t < 2000
    from none e = ground (arith, e, ended)
    from (some n) e = ground (arith, e, ended, prompt)

-- The monitor watches a process.
pub record IsWatching (s : Supervisor) : Type 0 where
  pub stop : s.stop_requested ≡ false
  pub open_ : s.halted ≡ false
  pub tracked : is_valid s.process_handle ≡ true

pub record Lives (n : ℕ) (m : Monitor) : Type 0 where
  pub watching : IsWatching m.supervisor
  pub counted : m.supervisor.consecutive_fast_exits ≡ n
  pub same_backoff : m.backoff_ms ≡ backoff_start_ms
  pub continues : m.continues ≡ true

pub turn-Lives :
    (s : Supervisor) (t : Turn)
    → IsWatching s
    → IsPrompt t
    → wait_ended backoff_start_ms t ≡ false
    → Lives s.consecutive_fast_exits (monitor_turn s backoff_start_ms t)
unfolding monitor_turn watch_process on_host_ready perform
turn-Lives s t w c alive = ground (arith, w.stop, w.open_, w.tracked, c.quiet.no_wait_calls, alive)

exit_turn :
    (s : Supervisor) (t : Turn)
    → IsWatching s
    → IsPrompt t
    → wait_ended backoff_start_ms t ≡ true
    → monitor_turn s backoff_start_ms t ≡ host_exited (on_host_ready s) backoff_start_ms t
unfolding monitor_turn watch_process on_host_ready perform
exit_turn s t w c ended = ground (arith, w.stop, w.open_, w.tracked, c.quiet.no_wait_calls, ended)

count_exit_few :
    (s : Supervisor) (code uptime : ℕ)
    → is_clean_singleton_exit code ≡ false
    → uptime < 2000
    → s.consecutive_fast_exits + 1 < circuit_breaker_threshold
    → count_exit s code uptime
      ≡ (record s { consecutive_fast_exits = s.consecutive_fast_exits + 1 }, false)
unfolding count_exit
count_exit_few s code uptime crash fast few = ground (arith, crash, fast, few)

respawn_new :
    (s : Supervisor) (b d : ℕ) (a : SpawnAnswers)
    → s.process_handle ≡ none
    → a.can_connect ≡ false
    → a.converts ≡ true
    → is_valid a.created ≡ true
    → respawn s b d a ≡ record {
      supervisor = record s {
        process_handle = a.created;
        attached_to_existing = false;
        running = true;
        ready_calls = s.ready_calls + 1;
      };
      backoff_ms = backoff_start_ms;
      delay_ms = d;
      continues = true;
    }
unfolding respawn spawn on_host_ready
respawn_new s b d a gone alone converts created = ground (arith, gone, alone, converts, created)

host_exited_few :
    (s : Supervisor) (t : Turn)
    → s.stop_requested ≡ false
    → IsPrompt t
    → wait_ended backoff_start_ms t ≡ true
    → is_clean_singleton_exit t.exit_code ≡ false
    → s.consecutive_fast_exits + 1 < circuit_breaker_threshold
    → host_exited s backoff_start_ms t
      ≡ respawn
          (record (record_exit s t) { consecutive_fast_exits = s.consecutive_fast_exits + 1 })
          backoff_start_ms
          backoff_start_ms
          t.spawn_answers
unfolding host_exited record_exit on_host_exited perform
host_exited_few s t stop c ended crash few =
    rw
      (
        count_exit_few (record_exit s t) t.exit_code (uptime_ms t) crash
            (uptime_fast t ended c.prompt) few,
        host_exited,
      )
      (ground (arith, stop, crash, c.quiet.no_sleep_calls))

-- An exit with a singleton code is not counted, and respawned at once.
host_exited_singleton :
    (s : Supervisor) (t : Turn)
    → s.stop_requested ≡ false
    → is_clean_singleton_exit t.exit_code ≡ true
    → host_exited s backoff_start_ms t
      ≡ respawn (record_exit s t) backoff_start_ms 0 t.spawn_answers
unfolding host_exited record_exit on_host_exited count_exit
host_exited_singleton s t stop clean = ground (arith, stop, clean)

pub exit-Lives :
    (s : Supervisor) (t : Turn)
    → IsWatching s
    → IsPrompt t
    → wait_ended backoff_start_ms t ≡ true
    → is_clean_singleton_exit t.exit_code ≡ false
    → s.consecutive_fast_exits + 1 < circuit_breaker_threshold
    → Lives (s.consecutive_fast_exits + 1) (monitor_turn s backoff_start_ms t)
unfolding on_host_ready record_exit on_host_exited
exit-Lives s t w c ended crash few = rw (exit_turn s t w c ended) (
    rw (host_exited_few (on_host_ready s) t w.stop c ended crash few) (
      rw
        (respawn_new
          (record (record_exit (on_host_ready s) t) {
            consecutive_fast_exits = s.consecutive_fast_exits + 1;
          })
          backoff_start_ms backoff_start_ms t.spawn_answers refl c.quiet.no_other_host c.converts
          c.created)
        (record {
          watching = record { stop = w.stop; open_ = w.open_; tracked = c.created };
          counted = refl;
          same_backoff = refl;
          continues = refl;
        })))

pub singleton-Lives :
    (s : Supervisor) (t : Turn)
    → IsWatching s
    → IsPrompt t
    → wait_ended backoff_start_ms t ≡ true
    → is_clean_singleton_exit t.exit_code ≡ true
    → Lives s.consecutive_fast_exits (monitor_turn s backoff_start_ms t)
unfolding on_host_ready record_exit on_host_exited
singleton-Lives s t w c ended clean = rw (exit_turn s t w c ended) (
    rw (host_exited_singleton (on_host_ready s) t w.stop clean) (
      rw
        (respawn_new (record_exit (on_host_ready s) t) backoff_start_ms 0 t.spawn_answers refl
          c.quiet.no_other_host c.converts c.created)
        (record {
          watching = record { stop = w.stop; open_ = w.open_; tracked = c.created };
          counted = refl;
          same_backoff = refl;
          continues = refl;
        })))

pub singleton_lem : (code : ℕ) → is_clean_singleton_exit code ≡ (code == 3 || code == 4)
unfolding is_clean_singleton_exit
singleton_lem code = refl

pub gives_up :
    (s : Supervisor) (t : Turn)
    → IsWatching s
    → IsPrompt t
    → wait_ended backoff_start_ms t ≡ true
    → is_clean_singleton_exit t.exit_code ≡ false
    → circuit_breaker_threshold ≤ s.consecutive_fast_exits + 1
    → let m = monitor_turn s backoff_start_ms t in
      (m.supervisor.halted ≡ true) × (m.supervisor.stop_requested ≡ false) × (m.continues ≡ true)
unfolding monitor_turn watch_process on_host_ready on_host_exited perform record_exit count_exit
    host_exited
gives_up s t w c ended crash many = ground (
  arith,
  w.stop,
  w.open_,
  w.tracked,
  crash,
  uptime_fast t ended c.prompt,
  c.quiet.no_wait_calls,
  c.quiet.no_sleep_calls,
  ended,
  many,
)
