-- ===== src/Supervisor.antt =====
-- HostSupervisorBase of core/src/common/HostSupervisorBase.h and HostSupervisorBase.cpp, which spawns
-- a host process, watches it from a monitor thread, and restarts it. Each call of the operating
-- system is a field of the record of answers that the operation is given. Log lines are left out,
-- and the job object, which no answer depends on.
pub mod Breaker
pub mod Backoff
pub mod Idle
pub mod Turns
pub mod Crashes
pub mod Cleanup
mod Tests
use open_vr_pair_driver.Base.{
  ℕ, zero, suc, ◌+◌, ◌-◌, ◌*◌, ◌%◌, ◌^◌, Bool, true, false, not, Option, none, some, List, [], ◌∷◌,
  ltb, leb, ◌==◌, ◌&&◌, ◌||◌, if◌then◌else◌,
}

-- A handle of a process; `none` is INVALID_HANDLE_VALUE.
abbrev pub Handle : Type 0
Handle = Option ℕ

-- `ready_calls` and `exited_calls` count the calls of the subclass's OnHostReady and OnHostExited.
pub record Supervisor : Type 0 where
  pub stop_requested : Bool
  pub running : Bool
  pub process_handle : Handle
  pub attached_to_existing : Bool
  pub consecutive_fast_exits : ℕ
  pub halted : Bool
  pub last_exit_code : ℕ
  pub last_exit_description : List ℕ
  pub ready_calls : ℕ
  pub exited_calls : ℕ

-- What Spawn finds: whether a tracked process still runs, whether the host's pipe answers, the
-- subclass's mutex, whether the path converts to UTF-16, and what CreateProcessW returns.
pub record SpawnAnswers : Type 0 where
  pub still_runs : Bool
  pub can_connect : Bool
  pub mutex_named : Bool
  pub mutex_held : Bool
  pub converts : Bool
  pub created : Handle

unfoldable pub on_host_ready : Supervisor → Supervisor
on_host_ready s = record s { ready_calls = s.ready_calls + 1 }

unfoldable pub on_host_exited : Supervisor → Supervisor
on_host_exited s = record s { exited_calls = s.exited_calls + 1 }

abbrev pub is_valid : Handle → Bool
is_valid none = false
is_valid (some _) = true

abbrev fast_exit_threshold_ms : ℕ
fast_exit_threshold_ms = 2000

abbrev pub circuit_breaker_threshold : ℕ
circuit_breaker_threshold = 5

abbrev pub backoff_start_ms : ℕ
backoff_start_ms = 1000

abbrev pub backoff_max_ms : ℕ
backoff_max_ms = 30000

unfoldable pub spawn : Supervisor → SpawnAnswers → Supervisor × Bool
spawn s a =
    if is_valid s.process_handle && a.still_runs
    then (s, true)
    else if a.can_connect && (not a.mutex_named || a.mutex_held)
    then (on_host_ready (record s { attached_to_existing = true; running = true }), true)
    else if a.converts && is_valid a.created
    then (
      on_host_ready
          (record s { process_handle = a.created; attached_to_existing = false; running = true }),
      true,
    )
    else (s, false)

unfoldable pub kill : Supervisor → Supervisor
kill s =
    if is_valid s.process_handle
    then record s { process_handle = none; attached_to_existing = false; running = false }
    else s

-- `Start`, and whether the monitor thread is started. `path_empty` is `host_exe_path_.empty()`.
unfoldable pub start : Supervisor → Bool → SpawnAnswers → Supervisor × Bool
start s path_empty a =
    let s' : Supervisor = record s {
      stop_requested = false;
      halted = false;
      consecutive_fast_exits = 0;
      attached_to_existing = false;
    } in
    if path_empty then (s, false) else spawn s' a

unfoldable pub stop : Supervisor → Supervisor
stop s =
    let s' : Supervisor = kill (record s { stop_requested = true }) in
    record s' { halted = false; consecutive_fast_exits = 0 }

unfoldable pub restart : Supervisor → SpawnAnswers → Supervisor
restart s a =
    let s' : Supervisor =
      kill (on_host_exited (record s { halted = false; consecutive_fast_exits = 0 })) in
    if s'.stop_requested then s' else (spawn s' a).0

unfoldable pub is_clean_singleton_exit : ℕ → Bool
is_clean_singleton_exit code = code == 3 || code == 4

-- What other threads can do to the supervisor while the monitor waits or sleeps. (`stops` is `Stop`
-- as far as the monitor sees it, before it is joined.)
pub data Call : Type 0 where
  restarts : SpawnAnswers → Call
  stops : Call

unfoldable pub perform : Supervisor → List Call → Supervisor
perform s [] = s
perform s (restarts a ∷ cs) = perform (restart s a) cs
perform s (stops ∷ cs) = perform (kill (record s { stop_requested = true })) cs

-- What one turn of the monitor's loop finds: the calls of other threads in its wait and in its
-- sleep, whether the pipe answers, the time at which the turn takes `spawn_time`, how long the calls
-- between that and the wait take, the time at which the process exits, if it does, its exit code with
-- its description, how long the calls from the end of the wait to `now` take, and what Spawn finds.
-- Times are milliseconds of the steady clock.
pub record Turn : Type 0 where
  pub in_wait : List Call
  pub in_sleep : List Call
  pub pipe_answers : Bool
  pub spawn_time : ℕ
  pub before_wait_ms : ℕ
  pub exit_time : Option ℕ
  pub exit_code : ℕ
  pub description : List ℕ
  pub after_wait_ms : ℕ
  pub spawn_answers : SpawnAnswers

-- How long a turn waits for the process.
abbrev pub wait_ms : ℕ → ℕ
wait_ms backoff = if ltb 1000 backoff then backoff else 1000

-- Whether `WaitForSingleObject` returns WAIT_OBJECT_0: the process exits before the timeout.
unfoldable pub wait_ended : ℕ → Turn → Bool
wait_ended backoff t = elim t.exit_time [
  | none ↦ false
  | some e ↦ leb e (t.spawn_time + t.before_wait_ms + wait_ms backoff)
]

-- `now - spawn_time` after the wait has ended with the process, which may have exited before it.
unfoldable pub uptime_ms : Turn → ℕ
uptime_ms t =
    let start = t.spawn_time + t.before_wait_ms in
    elim t.exit_time [
      | none ↦ 0
      | some e ↦ (if ltb e start then start else e) + t.after_wait_ms - t.spawn_time
    ]

-- What a turn leaves: the supervisor, the backoff, the milliseconds it slept before it respawned,
-- and whether the loop goes on.
pub record Monitor : Type 0 where
  pub supervisor : Supervisor
  pub backoff_ms : ℕ
  pub delay_ms : ℕ
  pub continues : Bool

abbrev next_backoff : ℕ → Bool → ℕ
next_backoff backoff true = backoff_start_ms
next_backoff backoff false =
    if ltb (backoff * 2) backoff_max_ms then backoff * 2 else backoff_max_ms

-- A spawn of the monitor, after a sleep of `delay` milliseconds.
unfoldable pub respawn : Supervisor → ℕ → ℕ → SpawnAnswers → Monitor
respawn s backoff delay a =
    let (s', done) = spawn s a in
    record {
      supervisor = s';
      backoff_ms = next_backoff backoff done;
      delay_ms = delay;
      continues = true;
    }

-- The host was attached to, or no host is known.
unfoldable pub watch_attached : Supervisor → ℕ → Turn → Monitor
watch_attached s backoff t =
    let gone : Supervisor =
      perform (on_host_exited (record s { running = false; attached_to_existing = false }))
        t.in_sleep in
    let idle : Supervisor → Monitor =
      λ s'. record { supervisor = s'; backoff_ms = backoff; delay_ms = 0; continues = true } in
    if s.attached_to_existing
    then if not t.pipe_answers
      then if gone.stop_requested
        then record {
          supervisor = gone;
          backoff_ms = backoff;
          delay_ms = backoff;
          continues = true;
        }
        else respawn gone backoff backoff t.spawn_answers
      else idle (perform (on_host_ready s) t.in_sleep)
    else idle (perform s t.in_sleep)

-- The fast-exit counter and the circuit breaker, and whether the breaker trips.
unfoldable pub count_exit : Supervisor → ℕ → ℕ → Supervisor × Bool
count_exit s code uptime =
    let n = if ltb uptime fast_exit_threshold_ms then s.consecutive_fast_exits + 1 else 0 in
    if is_clean_singleton_exit code
    then (s, false)
    else if leb circuit_breaker_threshold n
    then (record s { consecutive_fast_exits = n; halted = true }, true)
    else (record s { consecutive_fast_exits = n }, false)

-- The process has exited: its handle is closed, and its exit code recorded.
unfoldable pub record_exit : Supervisor → Turn → Supervisor
record_exit s t = record (on_host_exited (record s { process_handle = none; running = false })) {
  last_exit_code = t.exit_code;
  last_exit_description = t.description;
}

-- The process has exited. `s` is the supervisor after the wait.
unfoldable pub host_exited : Supervisor → ℕ → Turn → Monitor
host_exited s backoff t =
    let (counted, should_halt) = count_exit (record_exit s t) t.exit_code (uptime_ms t) in
    let delay = if is_clean_singleton_exit t.exit_code then 0 else backoff in
    let slept = if ltb 0 delay then perform counted t.in_sleep else counted in
    if should_halt
    then record { supervisor = counted; backoff_ms = backoff; delay_ms = 0; continues = true }
    else if slept.stop_requested
    then record { supervisor = slept; backoff_ms = backoff; delay_ms = delay; continues = false }
    else respawn slept backoff delay t.spawn_answers

-- A turn with a process handle: OnHostReady, the wait, and what follows it.
unfoldable pub watch_process : Supervisor → ℕ → Turn → Monitor
watch_process s backoff t =
    let s' = perform (on_host_ready s) t.in_wait in
    if s'.stop_requested
    then record { supervisor = s'; backoff_ms = backoff; delay_ms = 0; continues = false }
    else if wait_ended backoff t
    then if is_valid s'.process_handle then host_exited s' backoff t else record {
      supervisor = record s' { running = false };
      backoff_ms = backoff;
      delay_ms = 0;
      continues = true;
    }
    else record { supervisor = s'; backoff_ms = backoff; delay_ms = 0; continues = true }

-- One turn of MonitorLoop.
unfoldable pub monitor_turn : Supervisor → ℕ → Turn → Monitor
monitor_turn s backoff t =
    if s.stop_requested
    then record { supervisor = s; backoff_ms = backoff; delay_ms = 0; continues = false }
    else if s.halted
    then record {
      supervisor = perform s t.in_sleep;
      backoff_ms = backoff;
      delay_ms = 0;
      continues = true;
    }
    else if is_valid s.process_handle
    then watch_process s backoff t
    else watch_attached s backoff t

unfoldable pub monitor_loop : Supervisor → ℕ → List Turn → Supervisor × ℕ
monitor_loop s backoff [] = (s, backoff)
monitor_loop s backoff (t ∷ ts) =
    let m = monitor_turn s backoff t in
    let rest = monitor_loop m.supervisor m.backoff_ms ts in
    if m.continues then rest else (m.supervisor, m.backoff_ms)
