-- ===== src/Watchman/Tests.antt =====
-- A supervisor that gives up after two restarts, and the theorems at it.
use knarr.Prelude.{
  ℕ, ◌+◌, ◌<◌, ◌≡◌, refl, true, false, some, List, [], ◌∷◌, All, arith, leb, length,
}
use knarr.Watchman.Defs
use knarr.Watchman.Defs.{
  Settings, Supervisor, World, Reachable, started, later, alive, exited, watching, crashes,
  node_exits, after_crash, after_probe, spawn, begin_restart, start,
}
use knarr.Watchman.Reach.{IsSound, Reachable-IsSound}
use knarr.Watchman.Crashes.{crash_run, crash_run-gives_up}
use knarr.Watchman.Health.{restart-kills_again}

abbrev settings : Settings
settings = record {
  max_restarts = 2;
  initial_backoff = 2;
  max_backoff = 120;
  backoff_reset_uptime = 300;
  health_fail_threshold = 3;
}

abbrev crashed : Supervisor
crashed = record (start 10) { proc = some exited }

start-alive : (start 10).proc ≡ some alive
start-alive = unfold start in unfold spawn in refl

start-serves : (start 10).shutdown_requested ≡ false
start-serves = unfold start in unfold spawn in refl

crashed-Reachable : Reachable settings (after_crash settings 15 crashed)
crashed-Reachable =
    later (later (started 10) (node_exits start-alive)) (crashes 15 refl start-serves)

Reachable-IsSound_example :
    IsSound settings
      (after_crash settings 15 crashed).supervisor
      (after_crash settings 15 crashed).monitor
Reachable-IsSound_example =
    Reachable-IsSound settings (after_crash settings 15 crashed) crashed-Reachable

abbrev uptimes : List ℕ
uptimes = 5 ∷ 0 ∷ 299 ∷ []

uptimes-All : All (λ uptime. uptime < 300) uptimes
uptimes-All = (omega arith, (omega arith, (omega arith, tt)))

crash_run-gives_up_example :
    (crash_run settings uptimes (start 10)).running ≡ leb (length uptimes) 2
crash_run-gives_up_example = crash_run-gives_up settings 10 uptimes uptimes-All

abbrev ailing : Supervisor
ailing = record {
  proc = some alive;
  start_time = 10;
  restart_count = 0;
  consecutive_health_fails = 2;
  running = true;
  shutdown_requested = false;
}

begins : (begin_restart settings 60 (after_probe settings false ailing)).1 ≡ some 2
unfolding begin_restart Defs.next_count Defs.backoff after_probe Defs.kill
begins = refl

restart-kills_again_example :
    let killed = after_probe settings false ailing in
    let restarted = spawn 70 (begin_restart settings 60 killed).0 in
    (killed.proc ≡ some exited)
    × (restarted.proc ≡ some alive)
    × (restarted.consecutive_health_fails ≡ 2 + 1)
    × ((after_probe settings false restarted).proc ≡ some exited)
restart-kills_again_example = restart-kills_again settings 60 70 2 ailing refl (omega arith) begins
