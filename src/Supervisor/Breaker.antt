-- ===== src/Supervisor/Breaker.antt =====
-- The circuit breaker and the backoff, over every history of calls and monitor turns.
use open_vr_pair_driver.Base.{
  ℕ, ◌≤◌, ◌≡◌, refl, Bool, true, false, List, [], ◌∷◌, leb, if◌then◌else◌, arith, inl, inr,
  Bool-cases, ◌∙◌,
}
use open_vr_pair_driver.Supervisor.{
  Supervisor, SpawnAnswers, is_valid, Call, restarts, stops, Turn, on_host_ready, on_host_exited,
  spawn, kill, start, stop, restart, perform, respawn, watch_attached, count_exit, record_exit,
  uptime_ms, host_exited, watch_process, monitor_turn, monitor_loop, circuit_breaker_threshold,
}

-- The breaker has tripped exactly when five fast exits are counted, and no more are counted then;
-- and a process that has a handle counts as running.
pub record IsValid (s : Supervisor) : Type 0 where
  pub tripped : s.halted ≡ leb circuit_breaker_threshold s.consecutive_fast_exits
  pub within : s.consecutive_fast_exits ≤ circuit_breaker_threshold
  pub handle_runs : is_valid s.process_handle ≡ true → s.running ≡ true

spawn-IsValid : (s : Supervisor) (a : SpawnAnswers) → IsValid s → IsValid (spawn s a).0
unfolding spawn on_host_ready
spawn-IsValid s a v = ground (arith, v.tripped, v.within, v.handle_runs)

kill-IsValid : (s : Supervisor) → IsValid s → IsValid (kill s)
unfolding kill
kill-IsValid s v = ground (arith, v.tripped, v.within, v.handle_runs)

spawn-halted : (s : Supervisor) (a : SpawnAnswers) → (spawn s a).0.halted ≡ s.halted
unfolding spawn on_host_ready
spawn-halted s a = ground arith

kill-halted : (s : Supervisor) → (kill s).halted ≡ s.halted
unfolding kill
kill-halted s = ground arith

if-both : {A : Type 0} (P : A → Type 0) (b : Bool) {x y : A} → P x → P y → P (if b then x else y)
if-both P true p q = p
if-both P false p q = q

-- Valid, and the breaker has not tripped.
abbrev IsOpen : Supervisor → Type 0
IsOpen s = IsValid s × (s.halted ≡ false)

spawn-IsOpen : (s : Supervisor) (a : SpawnAnswers) → IsOpen s → IsOpen (spawn s a).0
spawn-IsOpen s a (v, o) = (spawn-IsValid s a v, spawn-halted s a ∙ o)

kill-IsOpen : (s : Supervisor) → IsOpen s → IsOpen (kill s)
kill-IsOpen s (v, o) = (kill-IsValid s v, kill-halted s ∙ o)

cleared-IsOpen :
    (s : Supervisor)
    → IsValid s
    → IsOpen (on_host_exited (record s { halted = false; consecutive_fast_exits = 0 }))
unfolding on_host_exited
cleared-IsOpen s v =
    (record { tripped = refl; within = omega arith; handle_runs = v.handle_runs }, refl)

restart-IsOpen : (s : Supervisor) (a : SpawnAnswers) → IsValid s → IsOpen (restart s a)
unfolding restart
restart-IsOpen s a v =
    let killed =
      kill-IsOpen (on_host_exited (record s { halted = false; consecutive_fast_exits = 0 }))
        (cleared-IsOpen s v) in
    if-both IsOpen _ killed (spawn-IsOpen _ a killed)

stopping-IsOpen : (s : Supervisor) → IsOpen s → IsOpen (kill (record s { stop_requested = true }))
stopping-IsOpen s (v, o) =
    kill-IsOpen (record s { stop_requested = true })
      (record { tripped = v.tripped; within = v.within; handle_runs = v.handle_runs }, o)

stopping-IsValid :
    (s : Supervisor) → IsValid s → IsValid (kill (record s { stop_requested = true }))
stopping-IsValid s v =
    kill-IsValid (record s { stop_requested = true })
      (record { tripped = v.tripped; within = v.within; handle_runs = v.handle_runs })

perform-IsValid : (s : Supervisor) (cs : List Call) → IsValid s → IsValid (perform s cs)
unfolding perform
perform-IsValid s [] v = v
perform-IsValid s (restarts a ∷ cs) v = perform-IsValid (restart s a) cs (restart-IsOpen s a v).0
perform-IsValid s (stops ∷ cs) v = perform-IsValid _ cs (stopping-IsValid s v)

perform-IsOpen : (s : Supervisor) (cs : List Call) → IsOpen s → IsOpen (perform s cs)
unfolding perform
perform-IsOpen s [] v = v
perform-IsOpen s (restarts a ∷ cs) v = perform-IsOpen (restart s a) cs (restart-IsOpen s a v.0)
perform-IsOpen s (stops ∷ cs) v = perform-IsOpen _ cs (stopping-IsOpen s v)

count_exit-IsValid :
    (s : Supervisor) (code uptime : ℕ) → IsOpen s → IsValid (count_exit s code uptime).0
unfolding count_exit
count_exit-IsValid s code uptime (v, o) = ground (arith, v.tripped, v.within, v.handle_runs, o)

respawn-IsValid :
    (s : Supervisor) (b d : ℕ) (a : SpawnAnswers) → IsValid s → IsValid (respawn s b d a).supervisor
unfolding respawn
respawn-IsValid s b d a v = spawn-IsValid s a v

record_exit-IsOpen : (s : Supervisor) (t : Turn) → IsOpen s → IsOpen (record_exit s t)
unfolding record_exit on_host_exited
record_exit-IsOpen s t (v, o) =
    (record { tripped = v.tripped; within = v.within; handle_runs = λ h. ground (arith, h) }, o)

host_exited-IsValid :
    (s : Supervisor) (b : ℕ) (t : Turn) → IsOpen s → IsValid (host_exited s b t).supervisor
unfolding host_exited
host_exited-IsValid s b t v =
    let counted = count_exit-IsValid _ t.exit_code (uptime_ms t) (record_exit-IsOpen s t v) in
    let slept = perform-IsValid _ t.in_sleep counted in
    ground (
      arith,
      counted,
      slept,
      respawn-IsValid _ b 0 t.spawn_answers counted,
      respawn-IsValid _ b b t.spawn_answers slept,
      respawn-IsValid _ b b t.spawn_answers counted,
    )

ready-IsOpen : (s : Supervisor) → IsOpen s → IsOpen (on_host_ready s)
unfolding on_host_ready
ready-IsOpen s (v, o) =
    (record { tripped = v.tripped; within = v.within; handle_runs = v.handle_runs }, o)

watch_process-IsValid :
    (s : Supervisor) (b : ℕ) (t : Turn) → IsOpen s → IsValid (watch_process s b t).supervisor
unfolding watch_process
watch_process-IsValid s b t v =
    let waited = perform-IsOpen (on_host_ready s) t.in_wait (ready-IsOpen s v) in
    ground (arith, waited, host_exited-IsValid _ b t waited)

detached-IsValid :
    (s : Supervisor)
    → is_valid s.process_handle ≡ false
    → IsValid s
    → IsValid (on_host_exited (record s { running = false; attached_to_existing = false }))
unfolding on_host_exited
detached-IsValid s gone v = record {
  tripped = v.tripped;
  within = v.within;
  handle_runs = λ h. ground (arith, gone, h);
}

watch_attached-IsValid :
    (s : Supervisor) (b : ℕ) (t : Turn)
    → IsOpen s
    → is_valid s.process_handle ≡ false
    → IsValid (watch_attached s b t).supervisor
unfolding watch_attached
watch_attached-IsValid s b t v gone =
    let left = perform-IsValid _ t.in_sleep (detached-IsValid s gone v.0) in
    ground (
      arith,
      left,
      respawn-IsValid _ b b t.spawn_answers left,
      perform-IsValid _ t.in_sleep (ready-IsOpen s v).0,
      perform-IsValid _ t.in_sleep v.0,
    )

-- A turn of the monitor, with whatever it finds and whatever other threads do in it, keeps the
-- supervisor valid.
monitor_turn-IsValid :
    (s : Supervisor) (b : ℕ) (t : Turn) → IsValid s → IsValid (monitor_turn s b t).supervisor
unfolding monitor_turn
monitor_turn-IsValid s b t v = elim (Bool-cases s.halted) [
  | inl closed ↦ ground (arith, closed, v, perform-IsValid s t.in_sleep v)
  | inr open_ ↦ elim (Bool-cases (is_valid s.process_handle)) [
    | inl tracked ↦ ground (arith, open_, tracked, v, watch_process-IsValid s b t (v, open_))
    | inr gone ↦ ground (arith, open_, gone, v, watch_attached-IsValid s b t (v, open_) gone)
  ]
]

-- What the threads of the program do to a supervisor.
pub data Event : Type 0 where
  starts : Bool → SpawnAnswers → Event
  restarts_now : SpawnAnswers → Event
  stops_now : Event
  monitors : ℕ → List Turn → Event

abbrev pub event_step : Supervisor → Event → Supervisor
event_step s (starts path_empty a) = (start s path_empty a).0
event_step s (restarts_now a) = restart s a
event_step s stops_now = stop s
event_step s (monitors b ts) = (monitor_loop s b ts).0

abbrev pub history : Supervisor → List Event → Supervisor
history s [] = s
history s (e ∷ es) = history (event_step s e) es

monitor_loop-IsValid :
    (s : Supervisor) (b : ℕ) (ts : List Turn) → IsValid s → IsValid (monitor_loop s b ts).0
unfolding monitor_loop
monitor_loop-IsValid s b [] v = v
monitor_loop-IsValid s b (t ∷ ts) v =
    let after = monitor_turn-IsValid s b t v in
    ground (
      arith,
      after,
      monitor_loop-IsValid (monitor_turn s b t).supervisor (monitor_turn s b t).backoff_ms ts after,
    )

begun-IsValid :
    (s : Supervisor)
    → IsValid s
    → IsValid (record s {
      stop_requested = false;
      halted = false;
      consecutive_fast_exits = 0;
      attached_to_existing = false;
    })
begun-IsValid s v = record { tripped = refl; within = omega arith; handle_runs = v.handle_runs }

start-IsValid :
    (s : Supervisor) (path_empty : Bool) (a : SpawnAnswers)
    → IsValid s
    → IsValid (start s path_empty a).0
unfolding start
start-IsValid s path_empty a v = ground (arith, v, spawn-IsValid _ a (begun-IsValid s v))

stop-IsValid : (s : Supervisor) → IsValid s → IsValid (stop s)
unfolding stop
stop-IsValid s v =
    let after = stopping-IsValid s v in
    record { tripped = refl; within = omega arith; handle_runs = after.handle_runs }

event_step-IsValid : (s : Supervisor) (e : Event) → IsValid s → IsValid (event_step s e)
event_step-IsValid s (starts path_empty a) v = start-IsValid s path_empty a v
event_step-IsValid s (restarts_now a) v = (restart-IsOpen s a v).0
event_step-IsValid s stops_now v = stop-IsValid s v
event_step-IsValid s (monitors b ts) v = monitor_loop-IsValid s b ts v

-- From a valid supervisor, after every sequence of starts, stops, restarts and runs of the monitor
-- (with what other threads do in its waits and sleeps): respawning is halted exactly when five fast
-- exits are counted, never more are counted, and a supervisor with a process reports that it runs.
pub history-IsValid : (s : Supervisor) (es : List Event) → IsValid s → IsValid (history s es)
history-IsValid s [] v = v
history-IsValid s (e ∷ es) v = history-IsValid (event_step s e) es (event_step-IsValid s e v)
