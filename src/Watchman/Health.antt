-- ===== src/Watchman/Health.antt =====
-- The failures of the health probe across a restart.
use knarr.Prelude.{ℕ, ◌+◌, ◌≤◌, ◌≡◌, false, some, arith}
use knarr.Watchman.Defs.{
  Settings, Supervisor, alive, exited, spawn, begin_restart, after_probe, kill,
}

-- A restart does not reset the failures of the health probe: a process that was killed for as many
-- failures as the threshold is started anew, where the supervisor does not give up, and if the
-- next probe fails, that kills the new process.
pub restart-kills_again :
    (c : Settings) (now later d : ℕ) (s : Supervisor)
    → s.proc ≡ some alive
    → c.health_fail_threshold ≤ s.consecutive_health_fails + 1
    → (begin_restart c now (after_probe c false s)).1 ≡ some d
    → let killed = after_probe c false s in
      let restarted = spawn later (begin_restart c now killed).0 in
      (killed.proc ≡ some exited)
      × (restarted.proc ≡ some alive)
      × (restarted.consecutive_health_fails ≡ s.consecutive_health_fails + 1)
      × ((after_probe c false restarted).proc ≡ some exited)
unfolding after_probe kill spawn begin_restart
restart-kills_again c now later d s e h begins = ground arith
