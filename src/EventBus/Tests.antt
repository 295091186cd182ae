-- ===== src/EventBus/Tests.antt =====
-- A bus with the smallest ring, and the theorems at it.
use knarr.Prelude.{
  ℕ, ◌-◌, ◌≡◌, refl, true, false, none, some, List, [], ◌∷◌, ◌++◌, arith, Text, text_eq, length,
  keep, drop, max, not, ◌==◌,
}
use knarr.EventBus.Glob.{fnmatch}
use knarr.EventBus.Defs
use knarr.EventBus.Defs.{EventBus, Event, Entry, Subscriber, Stamp, finite, nonfinite, init}
use knarr.EventBus.Subscriber.{poll, next_pass}
use knarr.EventBus.Ring.{Holds}
use knarr.EventBus.Polling.{head?, tail, wanted, poll-history, next_pass-poll}
use knarr.EventBus.Deferred.{
  IsSorted, IsUnique, is_ready, is_waiting, events, has_id, tick-history, cancel-exact,
}
use knarr.EventBus.Commands.{Command, step, run, fired, history}
use knarr.EventBus.History.{IsValid, run-poll}

program : Unit {0}
unfolding init run step history fired Defs.emit Defs.tick Defs.cancel Defs.classify
    Defs.is_nonfinite Defs.finite_time Defs.is_past Defs.is_empty_range Defs.fire Defs.write_to_ring
    Defs.store Defs.log_metrics Defs.over_half_full Defs.wake_subscribers Defs.insert_deferred
    Defs.split_ready Defs.fire_all Defs.remove_entry Defs.slot Defs.overwritten Defs.matches
    Defs.matches_any Defs.subscribe fnmatch text_eq
program = tt

-- "a.b" against "a.*", "[!x-z]?b" and "b"
glob_star : fnmatch (b'a' ∷ b'.' ∷ b'b' ∷ []) (b'a' ∷ b'.' ∷ b'*' ∷ []) ≡ true
unfolding fnmatch
glob_star = refl

glob_set :
    fnmatch (b'a' ∷ b'.' ∷ b'b' ∷ []) (b'[' ∷ b'!' ∷ b'x' ∷ b'-' ∷ b'z' ∷ b']' ∷ b'?' ∷ b'b' ∷ [])
    ≡ true
unfolding fnmatch
glob_set = refl

glob_miss : fnmatch (b'a' ∷ b'.' ∷ b'b' ∷ []) (b'b' ∷ []) ≡ false
unfolding fnmatch
glob_miss = refl

abbrev topic : Text
topic = b'a' ∷ b'.' ∷ b'b' ∷ []

abbrev reader : Subscriber
reader = record {
  identity = 1;
  patterns = (b'a' ∷ b'.' ∷ b'*' ∷ []) ∷ [];
  cursor = 0;
  wake = false;
}

-- One event at once, one for time 50, one for time 20 that is cancelled, a tick at 60.
abbrev calls : List (Command ℕ)
calls =
    Command.subscribe 1 reader.patterns
    ∷ Command.emit 10 1 101 topic none none 7
    ∷ Command.emit 10 1 102 topic (some (finite 50)) none 8
    ∷ Command.emit 10 1 103 topic (some (finite 20)) (some (finite 90)) 9
    ∷ Command.emit 10 1 104 topic (some nonfinite) none 9
    ∷ Command.cancel 103
    ∷ Command.tick 60 2
    ∷ []

bus : EventBus ℕ
bus = run calls (init 16)

bus_history : List (Event ℕ)
bus_history = history calls (init 16)

fires_two : length bus_history ≡ 2
unfolding program bus_history
fires_two = refl

bus_run :
    IsValid bus_history bus
    × ((poll bus reader).0 ≡ keep (wanted reader) (drop (max 0 (bus.head - bus.size)) bus_history))
    × ((poll bus reader).1.cursor ≡ bus.head)
unfolding bus bus_history
bus_run = run-poll 16 calls reader (omega arith)

run-poll_example :
    IsValid (history calls (init 16)) (run calls (init 16))
    × ((poll (run calls (init 16)) reader).0
        ≡ keep (wanted reader) (
            drop
              (max 0 ((run calls (init 16)).head - (run calls (init 16)).size))
              (history calls (init 16))))
    × ((poll (run calls (init 16)) reader).1.cursor ≡ (run calls (init 16)).head)
run-poll_example = run-poll 16 calls reader (omega arith)

poll-history_example : poll bus reader ≡ (
  keep (wanted reader) (drop (max 0 (bus.head - bus.size)) bus_history),
  record reader { cursor = bus.head; wake = false },
)
poll-history_example = poll-history bus_history bus reader bus_run.0.holds (omega arith)

next_pass-poll_example :
    let (found, s') = next_pass bus reader in
    (found ≡ head? (poll bus reader).0) × ((poll bus s').0 ≡ tail (poll bus reader).0)
next_pass-poll_example = next_pass-poll bus_history bus reader bus_run.0.holds (omega arith)

-- the bus before the tick, with one deferred event
abbrev one_call : List (Command ℕ)
one_call = Command.emit 10 1 102 topic (some (finite 50)) none 8 ∷ []

waiting_history : List (Event ℕ)
waiting_history = history one_call (init 16)

waiting_bus : EventBus ℕ
waiting_bus = run one_call (init 16)

waiting_bus-IsValid : IsValid (waiting_history) waiting_bus
unfolding waiting_bus waiting_history
waiting_bus-IsValid = (run-poll 16 one_call reader (omega arith)).0

tick-history_example :
    let (count, b') = Defs.tick 60 2 waiting_bus in
    let ready = keep (is_ready 60) waiting_bus.deferred in
    Holds (waiting_history ++ events ready) b'
    × IsSorted ready
    × (count ≡ length ready)
    × (b'.deferred ≡ keep (is_waiting 60) waiting_bus.deferred)
    × IsSorted b'.deferred
tick-history_example =
    tick-history 60 2 _ waiting_bus waiting_bus-IsValid.holds waiting_bus-IsValid.sorted

waiting_bus-IsUnique : IsUnique waiting_bus.deferred
unfolding program waiting_bus
waiting_bus-IsUnique = (tt, tt)

cancel-exact_example :
    let (found, b') = Defs.cancel 102 waiting_bus in
    (found ≡ has_id 102 waiting_bus.deferred)
    × (b'.deferred ≡ keep (λ e. not (e.event_id == 102)) waiting_bus.deferred)
    × (b'.ring ≡ waiting_bus.ring)
    × (b'.head ≡ waiting_bus.head)
cancel-exact_example = cancel-exact 102 waiting_bus waiting_bus-IsUnique
