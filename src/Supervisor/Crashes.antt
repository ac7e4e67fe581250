-- ===== src/Supervisor/Crashes.antt =====
-- The monitor of a host that crashes again and again.
use open_vr_pair_driver.Base.{
  ℕ, ◌+◌, ◌<◌, ◌≡◌, true, false, List, [], ◌∷◌, ltb, leb, arith, inl, inr, Bool-cases, ◌∙◌, subst,
  sym, ap,
}
use open_vr_pair_driver.Supervisor.{
  Supervisor, is_valid, Turn, Monitor, wait_ended, monitor_turn, monitor_loop,
  is_clean_singleton_exit, circuit_breaker_threshold, backoff_start_ms,
}
use open_vr_pair_driver.Supervisor.Idle.{AreQuiet, idle_forever}
use open_vr_pair_driver.Supervisor.Turns.{
  ArePrompt, crashed, crashes, IsWatching, Lives, turn-Lives, exit-Lives, singleton-Lives, gives_up,
  singleton_lem,
}

ArePrompt-AreQuiet : (ts : List Turn) → ArePrompt ts → AreQuiet ts
ArePrompt-AreQuiet [] c = tt
ArePrompt-AreQuiet (t ∷ ts) (c, cs) = (c.quiet, ArePrompt-AreQuiet ts cs)

go_on :
    (ts : List Turn) (m : Monitor) {n : ℕ}
    → Lives n m
    → (monitor_loop m.supervisor backoff_start_ms ts).0.halted
      ≡ leb circuit_breaker_threshold (m.supervisor.consecutive_fast_exits + crashes ts)
    → (monitor_loop m.supervisor backoff_start_ms ts).0.halted
      ≡ leb circuit_breaker_threshold (n + crashes ts)
go_on ts m l e = e ∙ ap (λ k. leb circuit_breaker_threshold (k + crashes ts)) l.counted

-- A turn that counts no crash.
lived :
    (s : Supervisor) (t : Turn) (ts : List Turn)
    → crashed t ≡ false
    → Lives s.consecutive_fast_exits (monitor_turn s backoff_start_ms t)
    → (Lives s.consecutive_fast_exits (monitor_turn s backoff_start_ms t)
        → (monitor_loop (monitor_turn s backoff_start_ms t).supervisor backoff_start_ms ts).0.halted
          ≡ leb circuit_breaker_threshold
              ((monitor_turn s backoff_start_ms t).supervisor.consecutive_fast_exits + crashes ts))
    → (monitor_loop s backoff_start_ms (t ∷ ts)).0.halted
      ≡ leb circuit_breaker_threshold (s.consecutive_fast_exits + crashes (t ∷ ts))
unfolding monitor_loop
lived s t ts none_ l rest = ground (
  arith,
  none_,
  l.continues,
  l.same_backoff,
  go_on ts (monitor_turn s backoff_start_ms t) l (rest l),
)

-- The monitor watching a host with the first backoff, every respawn creating a process, no other
-- thread acting, no other host on the pipe, and the calls around each wait taking less than a second:
-- respawning is halted exactly when the exits counted before and those of these turns, but the ones
-- with a singleton code, are five or more, whenever each process exits: also one that has lived
-- through any number of turns before it exits counts as a fast exit.
pub crashes_accumulate :
    (s : Supervisor) (ts : List Turn)
    → s.stop_requested ≡ false
    → s.halted ≡ false
    → is_valid s.process_handle ≡ true
    → s.consecutive_fast_exits < circuit_breaker_threshold
    → ArePrompt ts
    → (monitor_loop s backoff_start_ms ts).0.halted
      ≡ leb circuit_breaker_threshold (s.consecutive_fast_exits + crashes ts)
unfolding monitor_loop
crashes_accumulate s [] stop open_ tracked few c = ground (arith, open_, few)
crashes_accumulate s (t ∷ ts) stop open_ tracked few (c, cs) =
    elim (Bool-cases (wait_ended backoff_start_ms t)) [
      | inr alive ↦ lived s t ts (ground (arith, alive)) (turn-Lives s t w c alive) (λ l.
          crashes_accumulate after.supervisor ts l.watching.stop l.watching.open_ l.watching.tracked
            (subst (λ k. k < circuit_breaker_threshold) (sym l.counted) few) cs)
      | inl ended ↦ elim (Bool-cases (is_clean_singleton_exit t.exit_code)) [
        | inl clean ↦
            lived s t ts (ground (arith, ended, singleton_lem t.exit_code, clean))
              (singleton-Lives s t w c ended clean)
              (λ l.
                crashes_accumulate after.supervisor ts l.watching.stop l.watching.open_
                  l.watching.tracked
                  (subst (λ k. k < circuit_breaker_threshold) (sym l.counted) few) cs)
        | inr crash ↦
            let counts : crashed t ≡ true =
              ground (arith, ended, singleton_lem t.exit_code, crash) in
            elim (Bool-cases (ltb (s.consecutive_fast_exits + 1) circuit_breaker_threshold)) [
              | inl again ↦
                  let more : s.consecutive_fast_exits + 1 < circuit_breaker_threshold =
                    ground (arith, again) in
                  let l = exit-Lives s t w c ended crash more in
                  ground (
                    arith,
                    counts,
                    l.continues,
                    l.same_backoff,
                    go_on ts after l (
                        crashes_accumulate after.supervisor ts l.watching.stop l.watching.open_
                          l.watching.tracked
                          (subst (λ k. k < circuit_breaker_threshold) (sym l.counted) more) cs),
                  )
              | inr last ↦
                  let g = gives_up s t w c ended crash (ground (arith, last)) in
                  ground (
                    arith,
                    counts,
                    last,
                    g.0,
                    g.2,
                    idle_forever after.supervisor after.backoff_ms ts (inl g.0) g.1
                        (ArePrompt-AreQuiet ts cs),
                  )
            ]
      ]
    ]
  where
    w : IsWatching s
    w = record { stop = stop; open_ = open_; tracked = tracked }

    after : Monitor
    after = monitor_turn s backoff_start_ms t
