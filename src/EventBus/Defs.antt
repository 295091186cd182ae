-- ===== src/EventBus/Defs.antt =====
-- `class EventBus` and the fields of `class Subscriber`. Times are counted in ticks of the clock;
-- the only other values that a caller can pass, NaN and the infinities, are `nonfinite`. The
-- random part of an event id is an argument. `fields` is whatever the caller adds to the event,
-- and does not overwrite the bus's own keys.
use knarr.Prelude.{
  ℕ, ◌+◌, ◌-◌, ◌*◌, ◌%◌, min, max, Bool, true, false, ◌&&◌, ◌||◌, Option, none, some, List, [], ◌∷◌,
  ◌++◌, map, Text, text_eq, ltb, leb, ◌==◌, if◌then◌else◌, length, get_elem?, set, replicate, keep,
  not,
}
use knarr.EventBus.Glob.{fnmatch}

pub data Stamp : Type 0 where
  finite : ℕ → Stamp
  nonfinite : Stamp

pub record Event (A : Type 0) : Type 0 where
  pub event : Text
  pub event_id : ℕ
  pub ts : ℕ
  pub valid_from : Option Stamp
  pub valid_until : Option Stamp
  pub fields : A

pub record Entry (A : Type 0) : Type 0 where
  pub event_id : ℕ
  pub event : Event A
  pub valid_from : ℕ
  pub valid_until : Option ℕ
  pub created_at : ℕ

-- `identity` stands for the object itself, by which `unsubscribe` compares.
pub record Subscriber : Type 0 where
  pub identity : ℕ
  pub patterns : List Text
  pub cursor : ℕ
  pub wake : Bool

pub record EventBus (A : Type 0) : Type 0 where
  pub ring : List (Option (Event A))
  pub size : ℕ
  pub head : ℕ
  pub subs : List Subscriber
  pub deferred : List (Entry A)
  pub events_dropped_count : ℕ
  pub last_metrics_log : ℕ

-- `EventBus.__init__`
unfoldable pub init : {A : Type 0} → ℕ → EventBus A
init requested =
    let n = max 16 (min 65536 requested) in
    record {
      ring = replicate n none;
      size = n;
      head = 0;
      subs = [];
      deferred = [];
      events_dropped_count = 0;
      last_metrics_log = 0;
    }

-- the loop of `Subscriber._matches`
unfoldable pub matches_any : List Text → Text → Bool
matches_any [] event_type = false
matches_any (p ∷ ps) event_type =
    (text_eq p event_type || fnmatch event_type p) || matches_any ps event_type

unfoldable pub matches : Subscriber → Text → Bool
matches s event_type = matches_any s.patterns event_type

module _ {A : Type 0} where
  -- `subscribe`; the new object's identity is an argument
  unfoldable pub subscribe : ℕ → List Text → EventBus A → Subscriber × EventBus A
  subscribe identity patterns b =
      let s : Subscriber = record {
        identity = identity;
        patterns = patterns;
        cursor = b.head;
        wake = false;
      } in
      (s, record b { subs = b.subs ++ s ∷ [] })

  unfoldable pub unsubscribe : Subscriber → EventBus A → EventBus A
  unsubscribe sub b = record b { subs = keep (λ s. not (s.identity == sub.identity)) b.subs }

  -- `ring_fill_pct > 50.0`
  unfoldable pub over_half_full : EventBus A → Bool
  over_half_full b = ltb b.size (2 * min b.head b.size)

  -- what a slot holds; every index that the bus computes is a remainder by the size
  unfoldable pub slot : List (Option (Event A)) → ℕ → Option (Event A)
  slot ring i = elim (get_elem? ring i) [ none ↦ none | some o ↦ o ]

  unfoldable pub overwritten : Option (Event A) → ℕ
  overwritten none = 0
  overwritten (some _) = 1

  -- `_write_to_ring`, under the lock
  unfoldable pub store : Event A → EventBus A → EventBus A
  store ev b = record b {
    ring = set b.ring (b.head % b.size) (some ev);
    head = b.head + 1;
    events_dropped_count = b.events_dropped_count + overwritten (slot b.ring (b.head % b.size));
  }

  -- the metrics line of `_write_to_ring`; `mono` is the monotonic clock
  unfoldable pub log_metrics : ℕ → EventBus A → EventBus A
  log_metrics mono b =
      if over_half_full b && leb 60 (mono - b.last_metrics_log)
      then record b { last_metrics_log = mono }
      else b

  unfoldable pub write_to_ring : ℕ → Event A → EventBus A → EventBus A
  write_to_ring mono ev b = log_metrics mono (store ev b)

  unfoldable pub wake_subscribers : Text → EventBus A → EventBus A
  wake_subscribers event_type b = record b {
    subs = map (λ s. if matches s event_type then record s { wake = true } else s) b.subs;
  }

  -- the immediate path of `emit`, and what `tick` does with each ready entry
  unfoldable pub fire : ℕ → Event A → EventBus A → EventBus A
  fire mono ev b = wake_subscribers ev.event (write_to_ring mono ev b)

  -- the sorted insertion of `emit`
  unfoldable pub insert_deferred : Entry A → List (Entry A) → List (Entry A)
  insert_deferred entry [] = entry ∷ []
  insert_deferred entry (existing ∷ rest) =
      if ltb entry.valid_from existing.valid_from
      then entry ∷ existing ∷ rest
      else existing ∷ insert_deferred entry rest

-- the guards of `emit`
unfoldable pub is_nonfinite : Option Stamp → Bool
is_nonfinite none = false
is_nonfinite (some (finite t)) = false
is_nonfinite (some nonfinite) = true

unfoldable pub finite_time : Option Stamp → Option ℕ
finite_time none = none
finite_time (some (finite t)) = some t
finite_time (some nonfinite) = none

unfoldable pub is_past : Option ℕ → ℕ → Bool
is_past none now = false
is_past (some t) now = ltb t now

unfoldable pub is_empty_range : Option ℕ → Option ℕ → Bool
is_empty_range none valid_until = false
is_empty_range (some f) none = false
is_empty_range (some f) (some u) = leb u f

-- What `emit` does with an event.
pub data Outcome : Type 0 where
  invalid expired empty_range immediate : Outcome
  deferred : ℕ → Outcome

unfoldable pub classify : ℕ → Option Stamp → Option Stamp → Outcome
classify now valid_from valid_until =
    if is_nonfinite valid_from || is_nonfinite valid_until
    then invalid
    else if is_past (finite_time valid_until) now
    then expired
    else if is_empty_range (finite_time valid_from) (finite_time valid_until)
    then empty_range
    else elim (finite_time valid_from) [
      | none ↦ immediate
      | some f ↦ if ltb now f then deferred f else immediate
    ]

module _ {A : Type 0} where
  -- `emit` returns the event's id on every path; `now` is the wall clock.
  unfoldable pub emit :
      ℕ → ℕ → ℕ → Text → Option Stamp → Option Stamp → A → EventBus A → ℕ × EventBus A
  emit now mono id event_type valid_from valid_until fields b =
      let ev : Event A = record {
        event = event_type;
        event_id = id;
        ts = now;
        valid_from = valid_from;
        valid_until = valid_until;
        fields = fields;
      } in
      elim (classify now valid_from valid_until) [
        | immediate ↦ (id, fire mono ev b)
        | deferred f ↦ (
          id,
          record b {
            deferred =
                insert_deferred
                  (record {
                    event_id = id;
                    event = ev;
                    valid_from = f;
                    valid_until = finite_time valid_until;
                    created_at = now;
                  })
                  b.deferred;
          },
        )
        | _ ↦ (id, b)
      ]

  -- the loop of `tick` under the lock: the entries to fire, and those that stay
  unfoldable pub split_ready : ℕ → List (Entry A) → List (Entry A) × List (Entry A)
  split_ready now [] = ([], [])
  split_ready now (entry ∷ rest) =
      let (ready, remaining) = split_ready now rest in
      if is_past entry.valid_until now
      then (ready, remaining)
      else if leb entry.valid_from now
      then (entry ∷ ready, remaining)
      else (ready, entry ∷ remaining)

  unfoldable pub fire_all : ℕ → List (Entry A) → EventBus A → EventBus A
  fire_all mono [] b = b
  fire_all mono (entry ∷ rest) b = fire_all mono rest (fire mono entry.event b)

  unfoldable pub tick : ℕ → ℕ → EventBus A → ℕ × EventBus A
  tick now mono b =
      let (ready, remaining) = split_ready now b.deferred in
      (length ready, fire_all mono ready (record b { deferred = remaining }))

  -- the loop of `cancel`: `none` if no entry has the id
  unfoldable pub remove_entry : ℕ → List (Entry A) → Option (List (Entry A))
  remove_entry id [] = none
  remove_entry id (entry ∷ rest) =
      let later : Option (List (Entry A)) = elim (remove_entry id rest) [
        | none ↦ none
        | some rest' ↦ some (entry ∷ rest')
      ] in
      if entry.event_id == id then some rest else later

  unfoldable pub cancel : ℕ → EventBus A → Bool × EventBus A
  cancel id b = elim (remove_entry id b.deferred) [
    | none ↦ (false, b)
    | some rest ↦ (true, record b { deferred = rest })
  ]

  -- `subscribers_behind_count`; a cursor is behind if the ring has lost the event that it points at
  unfoldable pub subscribers_behind_count : EventBus A → ℕ
  subscribers_behind_count b = length (keep (λ s. ltb s.cursor (b.head - b.size)) b.subs)

  unfoldable pub deferred_queue_depth : EventBus A → ℕ
  deferred_queue_depth b = length b.deferred
