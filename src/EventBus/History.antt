-- ===== src/EventBus/History.antt =====
-- Any sequence of calls on a new bus: the ring is a window on the history of what was fired.
use knarr.Prelude.{
  ℕ, ◌-◌, ◌≤◌, ◌≡◌, refl, ◌⊎◌, inl, inr, Option, some, List, [], ◌∷◌, ◌++◌, append_assoc,
  append-nil, arith, keep, All, Text, Option-cases, ap, drop, max,
}
use knarr.EventBus.Defs
use knarr.EventBus.Defs.{
  EventBus, Event, Entry, Subscriber, Stamp, Outcome, invalid, expired, empty_range, immediate,
  deferred, classify, init, fire, insert_deferred, remove_entry,
}
use knarr.EventBus.Subscriber.{poll}
use knarr.EventBus.Ring.{
  Holds, init-Holds, fire-Holds, fire-deferred, set_deferred-Holds, set_subs-Holds,
}
use knarr.EventBus.Deferred.{NotBefore, IsSorted, insert_deferred-IsSorted, tick-history}
use knarr.EventBus.Polling.{wanted, poll-history}
use knarr.EventBus.Commands.{Command, update_sub, step, run, fired, history}

Outcome-cases :
    (o : Outcome)
    → (o ≡ immediate)
      ⊎ ((f : ℕ) × (o ≡ deferred f))
      ⊎ (o ≡ invalid)
      ⊎ (o ≡ expired)
      ⊎ (o ≡ empty_range)
Outcome-cases invalid = inr (inr (inl refl))
Outcome-cases expired = inr (inr (inr (inl refl)))
Outcome-cases empty_range = inr (inr (inr (inr refl)))
Outcome-cases immediate = inl refl
Outcome-cases (deferred f) = inr (inl (f, refl))

module _ {A : Type 0} where
  pub record IsValid (h : List (Event A)) (b : EventBus A) : Type 0 where
    pub holds : Holds h b
    pub sorted : IsSorted b.deferred

  pub init-IsValid : (requested : ℕ) → IsValid [] (init {A = A} requested)
  unfolding init
  init-IsValid requested = record { holds = init-Holds requested; sorted = tt }

  All-remove :
      (P : Entry A → Type 0) (id : ℕ) (es : List (Entry A)) {rest : List (Entry A)}
      → All P es
      → remove_entry id es ≡ some rest
      → All P rest
  unfolding remove_entry
  All-remove P id [] h e = cc
  All-remove P id (x ∷ es) h e = elim (Option-cases (remove_entry id es)) [
    | inl miss ↦ ground arith
    | inr (rest', hit) ↦ ground (arith, All-remove P id es {rest = rest'} h.1 hit)
  ]

  remove_entry-IsSorted :
      (id : ℕ) (es : List (Entry A)) {rest : List (Entry A)}
      → IsSorted es
      → remove_entry id es ≡ some rest
      → IsSorted rest
  unfolding remove_entry
  remove_entry-IsSorted id [] h e = cc
  remove_entry-IsSorted id (x ∷ es) h e = elim (Option-cases (remove_entry id es)) [
    | inl miss ↦ ground arith
    | inr (rest', hit) ↦ ground (
      arith,
      All-remove (NotBefore x) id es {rest = rest'} h.0 hit,
      remove_entry-IsSorted id es {rest = rest'} h.1 hit,
    )
  ]

  set_deferred-IsValid :
      (h : List (Event A)) (b : EventBus A) (es : List (Entry A))
      → IsValid h b
      → IsSorted es
      → IsValid h (record b { deferred = es })
  set_deferred-IsValid h b es v s = record { holds = set_deferred-Holds h b es v.holds; sorted = s }

  set_subs-IsValid :
      (h : List (Event A)) (b : EventBus A) (subs : List Subscriber)
      → IsValid h b
      → IsValid h (record b { subs = subs })
  set_subs-IsValid h b subs v = record {
    holds = set_subs-Holds h b subs v.holds;
    sorted = v.sorted;
  }

  fire-IsValid :
      (mono : ℕ) (ev : Event A) (h : List (Event A)) (b : EventBus A)
      → IsValid h b
      → IsValid (h ++ ev ∷ []) (fire mono ev b)
  fire-IsValid mono ev h b v = record {
    holds = fire-Holds mono ev h b v.holds;
    sorted = rw (fire-deferred mono ev b) v.sorted;
  }

  cancel-IsValid :
      (id : ℕ) (h : List (Event A)) (b : EventBus A) → IsValid h b → IsValid h (Defs.cancel id b).1
  unfolding Defs.cancel
  cancel-IsValid id h b v = elim (Option-cases (remove_entry id b.deferred)) [
    | inl miss ↦ rw (miss, Defs.cancel) v
    | inr (rest, hit) ↦
        rw (hit, Defs.cancel)
          (set_deferred-IsValid h b rest v (remove_entry-IsSorted id b.deferred v.sorted hit))
  ]

  emit-IsValid :
      (now mono id : ℕ) (event_type : Text) (from until : Option Stamp) (fields : A)
      (h : List (Event A)) (b : EventBus A)
      → IsValid h b
      → IsValid
          (h ++ fired (Command.emit now mono id event_type from until fields) b)
          (Defs.emit now mono id event_type from until fields b).1
  unfolding Defs.emit fired
  emit-IsValid now mono id event_type from until fields h b v =
      elim (Outcome-cases (classify now from until)) [
        | inl e ↦ rw (e, Defs.emit, fired) (fire-IsValid mono _ h b v)
        | inr (inl (f, e)) ↦
            rw (e, Defs.emit, fired, append-nil)
              (set_deferred-IsValid h b _ v (insert_deferred-IsSorted _ b.deferred v.sorted))
        | inr (inr (inl e)) ↦ rw (e, Defs.emit, fired, append-nil) v
        | inr (inr (inr (inl e))) ↦ rw (e, Defs.emit, fired, append-nil) v
        | inr (inr (inr (inr e))) ↦ rw (e, Defs.emit, fired, append-nil) v
      ]

  -- Every call keeps the invariant and appends what it fires to the history.
  pub step-IsValid :
      (c : Command A) (h : List (Event A)) (b : EventBus A)
      → IsValid h b
      → IsValid (h ++ fired c b) (step c b)
  unfolding step fired
  step-IsValid (Command.emit now mono id event_type from until fields) h b v =
      emit-IsValid now mono id event_type from until fields h b v
  step-IsValid (Command.tick now mono) h b v =
      let t = tick-history now mono h b v.holds v.sorted in record { holds = t.0; sorted = t.4 }
  step-IsValid (Command.cancel id) h b v = rw append-nil (cancel-IsValid id h b v)
  step-IsValid (Command.subscribe identity patterns) h b v =
      unfold Defs.subscribe in rw append-nil (set_subs-IsValid h b _ v)
  step-IsValid (Command.unsubscribe s) h b v =
      unfold Defs.unsubscribe in rw append-nil (set_subs-IsValid h b _ v)
  step-IsValid (Command.poll s) h b v =
      unfold update_sub in rw append-nil (set_subs-IsValid h b _ v)
  step-IsValid (Command.next s) h b v =
      unfold update_sub in rw append-nil (set_subs-IsValid h b _ v)

  run-IsValid :
      (cs : List (Command A)) (h : List (Event A)) (b : EventBus A)
      → IsValid h b
      → IsValid (h ++ history cs b) (run cs b)
  unfolding run history
  run-IsValid [] h b v = rw append-nil v
  run-IsValid (c ∷ cs) h b v =
      rw (← append_assoc h (fired c b) (history cs (step c b)))
        (run-IsValid cs (h ++ fired c b) (step c b) (step-IsValid c h b v))

  -- After any sequence of calls on a new bus, the ring holds the last events of the history, the
  -- drop counter says how many it has lost, the deferred events are in the order of their times,
  -- and a subscriber that is not past the head polls exactly the matching events that it has not
  -- read and that the ring still holds, in order.
  pub run-poll :
      (requested : ℕ) (cs : List (Command A)) (s : Subscriber)
      → s.cursor ≤ (run cs (init requested)).head
      → let b = run cs (init requested) in
        let h = history cs (init requested) in
        IsValid h b
        × ((poll b s).0 ≡ keep (wanted s) (drop (max s.cursor (b.head - b.size)) h))
        × ((poll b s).1.cursor ≡ b.head)
  run-poll requested cs s le =
      let v = run-IsValid cs [] (init requested) (init-IsValid requested) in
      let e = poll-history (history cs (init requested)) (run cs (init requested)) s v.holds le in
      (v, ap (λ p. p.0) e, ap (λ p. p.1.cursor) e)
