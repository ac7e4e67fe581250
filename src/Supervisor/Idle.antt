-- ===== src/Supervisor/Idle.antt =====
-- When the monitor, left to itself, does nothing more.
use open_vr_pair_driver.Base.{
  ℕ, ◌+◌, ◌<◌, ◌≡◌, ◌⊎◌, refl, true, false, none, List, [], ◌∷◌, arith, inr, ◌∙◌, subst, sym,
}
use open_vr_pair_driver.Supervisor.{
  Supervisor, SpawnAnswers, is_valid, Turn, on_host_ready, on_host_exited, spawn, perform, respawn,
  watch_attached, count_exit, record_exit, uptime_ms, wait_ended, host_exited, watch_process,
  monitor_turn, monitor_loop, circuit_breaker_threshold,
}

-- No other thread acts in the turn, and no other host answers on the pipe.
pub record IsQuiet (t : Turn) : Type 0 where
  pub no_wait_calls : t.in_wait ≡ []
  pub no_sleep_calls : t.in_sleep ≡ []
  pub no_other_host : t.spawn_answers.can_connect ≡ false

abbrev pub AreQuiet : List Turn → Type 0
AreQuiet [] = Unit {0}
AreQuiet (t ∷ ts) = IsQuiet t × AreQuiet ts

-- The monitor does nothing for this supervisor.
abbrev IsIdle : Supervisor → Type 0
IsIdle s = (s.halted ≡ true) ⊎ ((s.process_handle ≡ none) × (s.attached_to_existing ≡ false))

idle_turn :
    (s : Supervisor) (b : ℕ) (t : Turn)
    → IsIdle s
    → s.stop_requested ≡ false
    → IsQuiet t
    → monitor_turn s b t ≡ record { supervisor = s; backoff_ms = b; delay_ms = 0; continues = true }
unfolding monitor_turn watch_attached perform
idle_turn s b t idle stop q = ground (arith, idle, stop, q.no_sleep_calls)

-- A supervisor that is halted, or has no process and is attached to no host, stays exactly as it is
-- through every run of the monitor in which no other thread acts: the monitor never spawns for it.
pub idle_forever :
    (s : Supervisor) (b : ℕ) (ts : List Turn)
    → (s.halted ≡ true) ⊎ ((s.process_handle ≡ none) × (s.attached_to_existing ≡ false))
    → s.stop_requested ≡ false
    → AreQuiet ts
    → monitor_loop s b ts ≡ (s, b)
unfolding monitor_loop
idle_forever s b [] idle stop q = refl
idle_forever s b (t ∷ ts) idle stop (q, qs) =
    rw (idle_turn s b t idle stop q, monitor_loop) (idle_forever s b ts idle stop qs)

respawn_nothing :
    (s : Supervisor) (b d : ℕ) (a : SpawnAnswers)
    → s.process_handle ≡ none
    → a.can_connect ≡ false
    → a.created ≡ none
    → (respawn s b d a).supervisor ≡ s
unfolding respawn spawn
respawn_nothing s b d a gone alone failed = ground (arith, gone, alone, failed)

-- The supervisor `s'` after an exit of `s` that does not trip the breaker.
record IsDown (s s' : Supervisor) : Type 0 where
  gone : s'.process_handle ≡ none
  not_running : s'.running ≡ false
  same_attached : s'.attached_to_existing ≡ s.attached_to_existing
  same_stop : s'.stop_requested ≡ s.stop_requested

record_exit-IsDown : (s : Supervisor) (t : Turn) → IsDown s (record_exit s t)
unfolding record_exit on_host_exited
record_exit-IsDown s t = record {
  gone = refl;
  not_running = refl;
  same_attached = refl;
  same_stop = refl;
}

record_exit_count :
    (s : Supervisor) (t : Turn)
    → (record_exit s t).consecutive_fast_exits ≡ s.consecutive_fast_exits
unfolding record_exit on_host_exited
record_exit_count s t = refl

count_exit-IsDown :
    (s s' : Supervisor) (code uptime : ℕ)
    → s'.consecutive_fast_exits + 1 < circuit_breaker_threshold
    → IsDown s s'
    → IsDown s (count_exit s' code uptime).0 × ((count_exit s' code uptime).1 ≡ false)
unfolding count_exit
count_exit-IsDown s s' code uptime few d =
    ground (arith, few, d.gone, d.not_running, d.same_attached, d.same_stop)

host_exited-IsDown :
    (s : Supervisor) (b : ℕ) (t : Turn)
    → s.stop_requested ≡ false
    → s.consecutive_fast_exits + 1 < circuit_breaker_threshold
    → t.spawn_answers.created ≡ none
    → IsQuiet t
    → IsDown s (host_exited s b t).supervisor
unfolding host_exited perform
host_exited-IsDown s b t stop few failed q =
    ground (arith, stop, q.no_sleep_calls, down.1, down.0, down.0.same_stop, stays 0, stays b)
  where
    counted : Supervisor
    counted = (count_exit (record_exit s t) t.exit_code (uptime_ms t)).0

    down : IsDown s counted × ((count_exit (record_exit s t) t.exit_code (uptime_ms t)).1 ≡ false)
    down =
        count_exit-IsDown s (record_exit s t) t.exit_code (uptime_ms t)
          (subst (λ k. k + 1 < circuit_breaker_threshold) (sym (record_exit_count s t)) few)
          (record_exit-IsDown s t)

    stays : (d : ℕ) → (respawn counted b d t.spawn_answers).supervisor ≡ counted
    stays d = respawn_nothing counted b d t.spawn_answers down.0.gone q.no_other_host failed

exit_turn :
    (s : Supervisor) (b : ℕ) (t : Turn)
    → s.stop_requested ≡ false
    → s.halted ≡ false
    → is_valid s.process_handle ≡ true
    → wait_ended b t ≡ true
    → IsQuiet t
    → monitor_turn s b t ≡ host_exited (on_host_ready s) b t
unfolding monitor_turn watch_process on_host_ready perform
exit_turn s b t stop open_ tracked ended q =
    ground (arith, stop, open_, tracked, q.no_wait_calls, ended)

-- When the tracked host has exited, the breaker does not trip, and the respawn fails, the
-- supervisor is left without a process, and no run of the monitor in which no other thread acts
-- spawns one again: the failed respawn is not tried a second time.
pub failed_respawn_abandoned :
    (s : Supervisor) (b : ℕ) (t : Turn) (ts : List Turn)
    → s.stop_requested ≡ false
    → s.halted ≡ false
    → s.attached_to_existing ≡ false
    → is_valid s.process_handle ≡ true
    → wait_ended b t ≡ true
    → s.consecutive_fast_exits + 1 < circuit_breaker_threshold
    → t.spawn_answers.created ≡ none
    → AreQuiet (t ∷ ts)
    → let m = monitor_turn s b t in
      (m.supervisor.process_handle ≡ none)
      × (m.supervisor.running ≡ false)
      × (monitor_loop m.supervisor m.backoff_ms ts ≡ (m.supervisor, m.backoff_ms))
unfolding on_host_ready
failed_respawn_abandoned s b t ts stop open_ alone tracked ended few failed (q, qs) =
    let d = left_down in
    (
      d.gone,
      d.not_running,
      idle_forever (monitor_turn s b t).supervisor (monitor_turn s b t).backoff_ms ts
          (inr (d.gone, d.same_attached ∙ alone)) (d.same_stop ∙ stop) qs,
    )
  where
    left_down : IsDown (on_host_ready s) (monitor_turn s b t).supervisor
    left_down =
        rw (exit_turn s b t stop open_ tracked ended q)
          (host_exited-IsDown (on_host_ready s) b t stop few failed q)
