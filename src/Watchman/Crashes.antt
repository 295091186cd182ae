-- ===== src/Watchman/Crashes.antt =====
-- Runs of crashes: when the supervisor gives up, and what a restart keeps.
use knarr.Prelude.{
  ℕ, ◌+◌, ◌≤◌, ◌<◌, ◌≡◌, refl, ap, true, none, some, List, [], ◌∷◌, arith, ltb, leb, length, All,
  Bool-cases, inl, inr,
}
use knarr.Watchman.Defs.{Settings, Supervisor, start, spawn, backoff, begin_restart, next_count}
use knarr.Watchman.Reach.{begin_restart-over, begin_restart-within}

-- `_monitor_loop` over processes that crash after the given uptimes, one after the other
unfoldable pub crash_run : Settings → List ℕ → Supervisor → Supervisor
crash_run c [] s = s
crash_run c (uptime ∷ uptimes) s =
    let now = s.start_time + uptime in
    let (s', slept) = begin_restart c now s in
    elim slept [ none ↦ s' | some d ↦ crash_run c uptimes (spawn (now + d) s') ]

crash_run-running :
    (c : Settings) (uptimes : List ℕ) (s : Supervisor)
    → All (λ uptime. uptime < c.backoff_reset_uptime) uptimes
    → s.running ≡ true
    → s.restart_count ≤ c.max_restarts
    → (crash_run c uptimes s).running ≡ leb (s.restart_count + length uptimes) c.max_restarts
unfolding crash_run
crash_run-running c [] s short e h = ground arith
crash_run-running c (uptime ∷ uptimes) s short e h =
    let now = s.start_time + uptime in
    let next : next_count c now s ≡ s.restart_count + 1 =
      unfold next_count in ground (arith, short.0) in
    elim (Bool-cases (ltb c.max_restarts (next_count c now s))) [
      | inl over ↦
          rw (begin_restart-over c now s over, crash_run)
            (ground (arith, next, ap (λ r. r.0.running) (begin_restart-over c now s over)))
      | inr within ↦
          let count = next_count c now s in
          let s' : Supervisor =
            spawn (now + backoff c count) (record s { restart_count = count }) in
          let ih =
            crash_run-running c uptimes s' short.1 (unfold spawn in e)
              (unfold spawn in ground arith) in
          let count' : s'.restart_count ≡ count = unfold spawn in refl in
          rw (begin_restart-within c now s within, crash_run)
            (ground (
              arith,
              ih,
              next,
              count',
              ap (λ r. (crash_run c uptimes (spawn (now + backoff c count) r.0)).running)
                  (begin_restart-within c now s within),
            ))
    ]

-- When each process crashes before the uptime that resets the backoff, the supervisor runs on
-- exactly while there have been no more crashes than max_restarts.
pub crash_run-gives_up :
    (c : Settings) (now : ℕ) (uptimes : List ℕ)
    → All (λ uptime. uptime < c.backoff_reset_uptime) uptimes
    → (crash_run c uptimes (start now)).running ≡ leb (length uptimes) c.max_restarts
unfolding start spawn
crash_run-gives_up c now uptimes short =
    ground (arith, crash_run-running c uptimes (start now) short refl (ground arith))
