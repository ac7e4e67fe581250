-- ===== src/Supervisor/Backoff.antt =====
-- The bounds of the monitor's backoff.
use open_vr_pair_driver.Base.{ℕ, ◌≤◌, ◌≡◌, false, List, [], ◌∷◌, arith, inl, inr, Bool-cases}
use open_vr_pair_driver.Supervisor.{
  Supervisor, SpawnAnswers, Turn, Monitor, on_host_ready, on_host_exited, spawn, perform, respawn,
  watch_attached, count_exit, record_exit, uptime_ms, host_exited, watch_process, monitor_turn,
  monitor_loop, backoff_start_ms, backoff_max_ms,
}

abbrev pub IsBackoff : ℕ → Type 0
IsBackoff b = (backoff_start_ms ≤ b) × (b ≤ backoff_max_ms)

abbrev KeepsBackoff : ℕ → Monitor → Type 0
KeepsBackoff b m = IsBackoff m.backoff_ms × (m.delay_ms ≤ b)

respawn-IsBackoff :
    (s : Supervisor) (b d : ℕ) (a : SpawnAnswers)
    → IsBackoff b
    → IsBackoff (respawn s b d a).backoff_ms × ((respawn s b d a).delay_ms ≡ d)
unfolding respawn
respawn-IsBackoff s b d a (low, high) = elim (Bool-cases (spawn s a).1) [
  | inl done ↦ ground (arith, done)
  | inr failed ↦ ground (arith, failed)
]

watch_attached-IsBackoff :
    (s : Supervisor) (b : ℕ) (t : Turn) → IsBackoff b → KeepsBackoff b (watch_attached s b t)
unfolding watch_attached
watch_attached-IsBackoff s b t (low, high) = ground (
  arith,
  respawn-IsBackoff
      (perform (on_host_exited (record s { running = false; attached_to_existing = false }))
        t.in_sleep)
      b b t.spawn_answers (low, high),
)

host_exited-IsBackoff :
    (s : Supervisor) (b : ℕ) (t : Turn) → IsBackoff b → KeepsBackoff b (host_exited s b t)
unfolding host_exited
host_exited-IsBackoff s b t h =
    let counted = (count_exit (record_exit s t) t.exit_code (uptime_ms t)).0 in
    let slept = perform counted t.in_sleep in
    ground (
      arith,
      h.0,
      h.1,
      respawn-IsBackoff counted b 0 t.spawn_answers h,
      respawn-IsBackoff slept b b t.spawn_answers h,
    )

watch_process-IsBackoff :
    (s : Supervisor) (b : ℕ) (t : Turn) → IsBackoff b → KeepsBackoff b (watch_process s b t)
unfolding watch_process
watch_process-IsBackoff s b t h =
    ground (arith, h.0, h.1, host_exited-IsBackoff (perform (on_host_ready s) t.in_wait) b t h)

monitor_turn-IsBackoff :
    (s : Supervisor) (b : ℕ) (t : Turn) → IsBackoff b → KeepsBackoff b (monitor_turn s b t)
unfolding monitor_turn
monitor_turn-IsBackoff s b t h =
    ground (arith, h.0, h.1, watch_process-IsBackoff s b t h, watch_attached-IsBackoff s b t h)

-- Whatever the monitor finds and other threads do, its backoff stays between one and thirty seconds.
pub monitor_loop-IsBackoff :
    (s : Supervisor) (b : ℕ) (ts : List Turn) → IsBackoff b → IsBackoff (monitor_loop s b ts).1
unfolding monitor_loop
monitor_loop-IsBackoff s b [] h = h
monitor_loop-IsBackoff s b (t ∷ ts) h =
    let after = monitor_turn-IsBackoff s b t h in
    ground (
      arith,
      after.0,
      monitor_loop-IsBackoff (monitor_turn s b t).supervisor (monitor_turn s b t).backoff_ms ts
          after.0,
    )
