-- ===== src/Watchman/Defs.antt =====
-- `class Supervisor` of src/knarr/watchman/supervisor.py: the state that its loops share, what each
-- loop does to it between two awaits, and the steps of all of them together. Times are natural
-- numbers in a fixed unit.
use knarr.Prelude.{
  ℕ, ◌+◌, ◌-◌, ◌*◌, ◌^◌, min, ◌≡◌, Bool, true, false, Option, none, some, ltb, leb, if◌then◌else◌,
}

-- the settings that are read
pub record Settings : Type 0 where
  pub max_restarts : ℕ
  pub initial_backoff : ℕ
  pub max_backoff : ℕ
  pub backoff_reset_uptime : ℕ
  pub health_fail_threshold : ℕ

-- the node's process: `returncode` is None, or it is not
pub data Proc : Type 0 where
  alive exited : Proc

pub record Supervisor : Type 0 where
  pub proc : Option Proc
  pub start_time : ℕ
  pub restart_count : ℕ
  pub consecutive_health_fails : ℕ
  pub running : Bool
  pub shutdown_requested : Bool

unfoldable pub spawn : ℕ → Supervisor → Supervisor
spawn now s = record s { proc = some alive; start_time = now }

-- `run`, up to its loops
unfoldable pub start : ℕ → Supervisor
start now = spawn now (record {
  proc = none;
  start_time = 0;
  restart_count = 0;
  consecutive_health_fails = 0;
  running = true;
  shutdown_requested = false;
})

unfoldable pub backoff : Settings → ℕ → ℕ
backoff c restart_count = min (c.initial_backoff * 2 ^ (restart_count - 1)) c.max_backoff

-- the count that `_restart` goes on from: an uptime that is long enough resets it
unfoldable pub next_count : Settings → ℕ → Supervisor → ℕ
next_count c now s =
    (if leb c.backoff_reset_uptime (now - s.start_time) then 0 else s.restart_count) + 1

-- `_restart` up to its sleep, and how long it sleeps; `none` when it gives up
unfoldable pub begin_restart : Settings → ℕ → Supervisor → Supervisor × Option ℕ
begin_restart c now s =
    let count = next_count c now s in
    if ltb c.max_restarts count
    then (record s { restart_count = count; running = false }, none)
    else (record s { restart_count = count }, some (backoff c count))

-- `kill`; the process has exited at once
unfoldable pub kill : Supervisor → Supervisor
kill s = elim s.proc [ none ↦ s | some exited ↦ s | some alive ↦ record s { proc = some exited } ]

-- `_health_loop` after a probe
unfoldable pub after_probe : Settings → Bool → Supervisor → Supervisor
after_probe c healthy s =
    if healthy
    then record s { consecutive_health_fails = 0 }
    else (let fails = s.consecutive_health_fails + 1 in
        let s' : Supervisor = record s { consecutive_health_fails = fails } in
        if leb c.health_fail_threshold fails then kill s' else s')

-- `stop`, up to its wait for the process
unfoldable pub request_stop : Supervisor → Supervisor
request_stop s = record s { shutdown_requested = true; running = false }

-- where `_monitor_loop` is: waiting for the process, asleep in `_restart`, or at its end
pub data Monitor : Type 0 where
  watching : Monitor
  backing_off : ℕ → Monitor
  ended : Monitor

pub record World : Type 0 where
  pub supervisor : Supervisor
  pub monitor : Monitor

-- the monitor after the first part of `_restart`
abbrev pub world_of : Supervisor × Option ℕ → World
world_of (s, slept) = record {
  supervisor = s;
  monitor = elim slept [ none ↦ ended | some d ↦ backing_off d ];
}

-- `_monitor_loop` when the process has exited and no shutdown was requested
unfoldable pub after_crash : Settings → ℕ → Supervisor → World
after_crash c now s = world_of (begin_restart c now s)

-- The steps of the loops, of the process and of the calls from outside, one between two awaits.
-- `upgrades` is the spawn of `cmd_upgrade`.
pub data Step (c : Settings) (s : Supervisor) : Monitor → World → Type 0 where
  node_exits :
      {m : Monitor}
      → s.proc ≡ some alive
      → Step c s m (record { supervisor = record s { proc = some exited }; monitor = m })
  crashes :
      (now : ℕ)
      → s.proc ≡ some exited
      → s.shutdown_requested ≡ false
      → Step c s watching (after_crash c now s)
  wakes :
      (now d : ℕ)
      → Step c s (backing_off d) (record { supervisor = spawn now s; monitor = watching })
  ends : s.running ≡ false → Step c s watching (record { supervisor = s; monitor = ended })
  probes :
      {m : Monitor} (healthy : Bool)
      → Step c s m (record { supervisor = after_probe c healthy s; monitor = m })
  stops : {m : Monitor} → Step c s m (record { supervisor = request_stop s; monitor = m })
  upgrades : {m : Monitor} (now : ℕ) → Step c s m (record { supervisor = spawn now s; monitor = m })

-- the states that `run` comes to
pub data Reachable (c : Settings) : World → Type 0 where
  started : (now : ℕ) → Reachable c (record { supervisor = start now; monitor = watching })
  later : {w w' : World} → Reachable c w → Step c w.supervisor w.monitor w' → Reachable c w'
