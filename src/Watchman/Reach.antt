-- ===== src/Watchman/Reach.antt =====
-- What holds of the supervisor in every state that it comes to.
use knarr.Prelude.{
  ℕ, ◌+◌, ◌≤◌, ◌≡◌, ◌⊎◌, inl, inr, refl, sym, Bool, true, false, Option, none, some, arith, ltb,
  Bool-cases,
}
use mathlib.Core.Path.{subst}
use knarr.Watchman.Defs.{
  Settings, Supervisor, Monitor, watching, backing_off, ended, World, Step, node_exits, crashes,
  wakes, ends, probes, stops, upgrades, Reachable, started, later, start, spawn, backoff, kill,
  alive, exited, after_probe, request_stop, after_crash, world_of, begin_restart, next_count,
}

-- how far the count of restarts is where the monitor is, and how long it sleeps
abbrev pub Paced : Settings → ℕ → Monitor → Type 0
Paced c count watching = count ≤ c.max_restarts
Paced c count (backing_off d) =
    (1 ≤ count) × (count ≤ c.max_restarts) × (d ≡ backoff c count) × (d ≤ c.max_backoff)
Paced c count ended = count ≤ c.max_restarts + 1

-- a process was started, the restarts are paced, and the loops run on unless the supervisor was
-- stopped or has used up its restarts
abbrev pub IsSound : Settings → Supervisor → Monitor → Type 0
IsSound c s m =
    ((s.proc ≡ some alive) ⊎ (s.proc ≡ some exited))
    × Paced c s.restart_count m
    × ((s.running ≡ true)
        ⊎ ((s.shutdown_requested ≡ true) ⊎ (s.restart_count ≡ c.max_restarts + 1)))

after_probe-proc :
    (c : Settings) (healthy : Bool) (s : Supervisor)
    → (s.proc ≡ some alive) ⊎ (s.proc ≡ some exited)
    → let s' = after_probe c healthy s in
      ((s'.proc ≡ some alive) ⊎ (s'.proc ≡ some exited))
      × (s'.restart_count ≡ s.restart_count)
      × (s'.running ≡ s.running)
      × (s'.shutdown_requested ≡ s.shutdown_requested)
unfolding after_probe kill
after_probe-proc c healthy s h = ground arith

next_count_within :
    (c : Settings) (now : ℕ) (s : Supervisor)
    → s.restart_count ≤ c.max_restarts
    → (1 ≤ next_count c now s) × (next_count c now s ≤ c.max_restarts + 1)
unfolding next_count
next_count_within c now s h = ground arith

backoff_max : (c : Settings) (count : ℕ) → backoff c count ≤ c.max_backoff
unfolding backoff
backoff_max c count = omega arith

-- the two ways in which a restart begins
pub begin_restart-over :
    (c : Settings) (now : ℕ) (s : Supervisor)
    → ltb c.max_restarts (next_count c now s) ≡ true
    → begin_restart c now s
      ≡ (record s { restart_count = next_count c now s; running = false }, none)
unfolding begin_restart
begin_restart-over c now s over = rw (over, begin_restart) refl

pub begin_restart-within :
    (c : Settings) (now : ℕ) (s : Supervisor)
    → ltb c.max_restarts (next_count c now s) ≡ false
    → begin_restart c now s
      ≡ (record s { restart_count = next_count c now s }, some (backoff c (next_count c now s)))
unfolding begin_restart
begin_restart-within c now s within = rw (within, begin_restart) refl

after_crash-IsSound :
    (c : Settings) (now : ℕ) (s : Supervisor)
    → IsSound c s watching
    → let w = after_crash c now s in IsSound c w.supervisor w.monitor
unfolding after_crash
after_crash-IsSound c now s v =
    let h = next_count_within c now s v.1 in
    let count = next_count c now s in
    let Sound : Supervisor × Option ℕ → Type 0 =
      λ r. IsSound c (world_of r).supervisor (world_of r).monitor in
    elim (Bool-cases (ltb c.max_restarts count)) [
      | inl over ↦
          subst Sound (sym (begin_restart-over c now s over)) (v.0, h.1, inr (inr (ground arith)))
      | inr within ↦
          subst Sound (sym (begin_restart-within c now s within))
            (v.0, (h.0, ground arith, refl, backoff_max c count), ground (arith, v))
    ]

Step-IsSound :
    (c : Settings) (s : Supervisor) (m : Monitor) (w : World)
    → IsSound c s m
    → Step c s m w
    → IsSound c w.supervisor w.monitor
unfolding spawn request_stop
Step-IsSound c s m w v (node_exits e) = (inr refl, v.1, v.2)
Step-IsSound c s m w v (crashes now e f) = after_crash-IsSound c now s v
Step-IsSound c s m w v (wakes now d) = (inl refl, v.1.1, v.2)
Step-IsSound c s m w v (ends e) = (v.0, ground (arith, v), v.2)
Step-IsSound c s m w v (probes healthy) =
    let p = after_probe-proc c healthy s v.0 in rw (p.1, p.2, p.3) (p.0, v.1, v.2)
Step-IsSound c s m w v stops = (v.0, v.1, inr (inl refl))
Step-IsSound c s m w v (upgrades now) = (inl refl, v.1, v.2)

start-IsSound : (c : Settings) (now : ℕ) → IsSound c (start now) watching
unfolding start spawn
start-IsSound c now = (inl refl, omega arith, inl refl)

-- In every state that the supervisor comes to, a process has been started; the restarts are at
-- most max_restarts while the monitor watches or sleeps, and at most one more once it has ended; a
-- sleep is for the backoff of the present count, at most max_backoff; and the loops run on unless a
-- shutdown was requested or the count of the restarts is past max_restarts.
pub Reachable-IsSound :
    (c : Settings) (w : World) → Reachable c w → IsSound c w.supervisor w.monitor
Reachable-IsSound c w (started now) = start-IsSound c now
Reachable-IsSound c w' (later {w = w} r st) =
    Step-IsSound c w.supervisor w.monitor w' (Reachable-IsSound c w r) st
