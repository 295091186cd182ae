-- ===== src/EventBus/Commands.antt =====
-- The calls on the bus and its subscribers as data, so that a run of a program is a list of them.
use knarr.Prelude.{ℕ, Option, List, [], ◌∷◌, ◌++◌, map, Text, ◌==◌, if◌then◌else◌, keep}
use knarr.EventBus.Defs.{
  EventBus, Event, Entry, Subscriber, Stamp, Outcome, invalid, expired, empty_range, immediate,
  deferred, classify,
}
use knarr.EventBus.Defs
use knarr.EventBus.Subscriber.{poll as poll_events, next_pass}
use knarr.EventBus.Deferred.{is_ready, events}

pub data Command (A : Type 0) : Type 0 where
  emit : ℕ → ℕ → ℕ → Text → Option Stamp → Option Stamp → A → Command A
  tick : ℕ → ℕ → Command A
  cancel : ℕ → Command A
  subscribe : ℕ → List Text → Command A
  unsubscribe poll next : Subscriber → Command A

module _ {A : Type 0} where
  -- A read by a subscribed object moves that object in the list of the bus.
  unfoldable pub update_sub : ℕ → (Subscriber → Subscriber) → EventBus A → EventBus A
  update_sub identity f b = record b {
    subs = map (λ s. if s.identity == identity then f s else s) b.subs;
  }

  unfoldable pub step : Command A → EventBus A → EventBus A
  step (Command.emit now mono id event_type from until fields) b =
      (Defs.emit now mono id event_type from until fields b).1
  step (Command.tick now mono) b = (Defs.tick now mono b).1
  step (Command.cancel id) b = (Defs.cancel id b).1
  step (Command.subscribe identity patterns) b = (Defs.subscribe identity patterns b).1
  step (Command.unsubscribe s) b = Defs.unsubscribe s b
  step (Command.poll s) b = update_sub s.identity (λ t. (poll_events b t).1) b
  step (Command.next s) b = update_sub s.identity (λ t. (next_pass b t).1) b

  unfoldable pub run : List (Command A) → EventBus A → EventBus A
  run [] b = b
  run (c ∷ cs) b = run cs (step c b)

  -- The specification: the events that a call adds to the history.
  unfoldable pub fired : Command A → EventBus A → List (Event A)
  fired (Command.emit now mono id event_type from until fields) b = elim (classify now from until) [
    | immediate ↦
        (record {
          event = event_type;
          event_id = id;
          ts = now;
          valid_from = from;
          valid_until = until;
          fields = fields;
        })
        ∷ []
    | _ ↦ []
  ]
  fired (Command.tick now mono) b = events (keep (is_ready now) b.deferred)
  fired _ b = []

  unfoldable pub history : List (Command A) → EventBus A → List (Event A)
  history [] b = []
  history (c ∷ cs) b = fired c b ++ history cs (step c b)
