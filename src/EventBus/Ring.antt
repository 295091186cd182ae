-- ===== src/EventBus/Ring.antt =====
-- The ring against the history of all events ever written: a slot holds the newest event whose
-- number has the slot's remainder.
use knarr.Prelude.{
  ℕ, ◌+◌, ◌-◌, ◌%◌, ◌≤◌, ◌<◌, ◌≡◌, ◌≢◌, refl, sym, inl, inr, Option, none, some, List, [], ◌∷◌,
  ◌++◌, arith, ltb, leb, length, get_elem?, set, length-append, length-set, get_elem?_lt, ◌==◌,
  get_elem?-set_self, get_elem?-set_ne, get_elem?_append_left, get_elem?_append_last,
  get_elem?-replicate, length-replicate, Bool-cases, ◌&&◌,
}
use native.Mathlib.Nat.{mod-lt, mod-eq_of_lt, mod-eq-sub-mod}
use knarr.EventBus.Defs.{
  EventBus, Event, Entry, Subscriber, init, store, write_to_ring, wake_subscribers, log_metrics,
  overwritten, fire, slot, over_half_full,
}

-- Two numbers that differ by less than the size have different remainders.
pub mod-ne : (i j n : ℕ) → i < j → j < i + n → i % n ≢ j % n
mod-ne i j n h k = λ e. grind arith

module _ {A : Type 0} where
  -- Event number `i` is in its slot as long as it is among the last `size`; slots that were never
  -- written are empty; the drop counter counts the events that are no longer in the ring.
  pub record Holds (h : List (Event A)) (b : EventBus A) : Type 0 where
    pub positive : 0 < b.size
    pub ring_length : length b.ring ≡ b.size
    pub written : b.head ≡ length h
    pub kept : (i : ℕ) → i < b.head → b.head ≤ i + b.size → slot b.ring (i % b.size) ≡ get_elem? h i
    pub unused : (i : ℕ) → b.head ≤ i → i < b.size → slot b.ring i ≡ none
    pub dropped : b.events_dropped_count ≡ b.head - b.size

  pub init-Holds : (requested : ℕ) → Holds [] (init {A = A} requested)
  unfolding init slot
  init-Holds requested = record {
    positive = omega arith;
    ring_length = length-replicate _ _;
    written = refl;
    kept = λ i p q. absurd (omega arith);
    unused = λ i p q. rw (get_elem?-replicate _ _ i q, slot);
    dropped = omega arith;
  }

  slot-set_self :
      (ring : List (Option (Event A))) (i : ℕ) (ev : Event A)
      → i < length ring
      → slot (set ring i (some ev)) i ≡ some ev
  unfolding slot
  slot-set_self ring i ev h = rw (get_elem?-set_self ring i (some ev) h, slot)

  slot-set_ne :
      (ring : List (Option (Event A))) (i j : ℕ) (o : Option (Event A))
      → i ≢ j
      → slot (set ring i o) j ≡ slot ring j
  unfolding slot
  slot-set_ne ring i j o h = rw (get_elem?-set_ne ring i j o h, slot)

  -- Whether the slot about to be written is taken says whether the ring is full.
  overwritten_lem :
      (h : List (Event A)) (b : EventBus A)
      → Holds h b
      → b.events_dropped_count + overwritten (slot b.ring (b.head % b.size)) ≡ b.head + 1 - b.size
  unfolding overwritten
  overwritten_lem h b v = elim (Bool-cases (ltb b.head b.size)) [
    | inl room ↦
        let e : b.head % b.size ≡ b.head = mod-eq_of_lt (ground arith) in
        rw (e, v.unused b.head (omega arith) (ground arith), overwritten)
          (ground (arith, v.dropped))
    | inr full ↦
        let oldest = b.head - b.size in
        let le : b.size ≤ b.head = ground arith in
        let e : b.head % b.size ≡ oldest % b.size = mod-eq-sub-mod le in
        let in_h : oldest < length h = omega (arith, v.written, v.positive) in
        let (x, found) = get_elem?_lt h oldest in_h in
        rw (e, v.kept oldest (omega (arith, v.positive)) (omega arith), found, overwritten)
          (omega (arith, v.dropped))
  ]

  module _ (h : List (Event A)) (b : EventBus A) (ev : Event A) (v : Holds h b) where
    kept_after :
        (i : ℕ)
        → i < b.head + 1
        → b.head + 1 ≤ i + b.size
        → slot (set b.ring (b.head % b.size) (some ev)) (i % b.size) ≡ get_elem? (h ++ ev ∷ []) i
    kept_after i p q = elim (Bool-cases (i == b.head)) [
      | inl last ↦
          let e : i ≡ length h = ground (arith, v.written) in
          let f : b.head ≡ length h = v.written in
          let small : b.head % b.size < length b.ring =
            rw v.ring_length (mod-lt b.head v.positive) in
          rw
            (e, ← f, slot-set_self b.ring (b.head % b.size) ev small, f, get_elem?_append_last h ev)
      | inr other ↦
          let lt : i < b.head = ground arith in
          rw (
            slot-set_ne b.ring (b.head % b.size) (i % b.size) (some ev)
                (λ e. mod-ne i b.head b.size lt (omega arith) (sym e)),
            v.kept i lt (omega arith),
            get_elem?_append_left h (ev ∷ []) i (omega (arith, v.written)),
          )
    ]

    unused_after :
        (i : ℕ)
        → b.head + 1 ≤ i
        → i < b.size
        → slot (set b.ring (b.head % b.size) (some ev)) i ≡ none
    unused_after i p q =
        let e : b.head % b.size ≡ b.head = mod-eq_of_lt (omega arith) in
        rw (e, slot-set_ne b.ring b.head i (some ev) (omega arith)) (v.unused i (omega arith) q)

    store-Holds : Holds (h ++ ev ∷ []) (store ev b)
    unfolding store
    store-Holds = record {
      positive = v.positive;
      ring_length = rw length-set v.ring_length;
      written = omega (arith, v.written, length-append h (ev ∷ []));
      kept = kept_after;
      unused = unused_after;
      dropped = overwritten_lem h b v;
    }

  log_metrics-Holds :
      (mono : ℕ) (h : List (Event A)) (b : EventBus A) → Holds h b → Holds h (log_metrics mono b)
  unfolding log_metrics
  log_metrics-Holds mono h b v =
      elim (Bool-cases (over_half_full b && leb 60 (mono - b.last_metrics_log))) [
        | inl due ↦ rw due (record {
          positive = v.positive;
          ring_length = v.ring_length;
          written = v.written;
          kept = v.kept;
          unused = v.unused;
          dropped = v.dropped;
        })
        | inr waiting ↦ rw waiting v
      ]

  -- Firing an event appends it to the history, whoever is woken.
  pub fire-Holds :
      (mono : ℕ) (ev : Event A) (h : List (Event A)) (b : EventBus A)
      → Holds h b
      → Holds (h ++ ev ∷ []) (fire mono ev b)
  unfolding fire write_to_ring wake_subscribers
  fire-Holds mono ev h b v =
      let w = log_metrics-Holds mono (h ++ ev ∷ []) (store ev b) (store-Holds h b ev v) in
      record {
        positive = w.positive;
        ring_length = w.ring_length;
        written = w.written;
        kept = w.kept;
        unused = w.unused;
        dropped = w.dropped;
      }

  -- Firing leaves the deferred store alone and moves the head by one.
  pub fire-deferred :
      (mono : ℕ) (ev : Event A) (b : EventBus A) → (fire mono ev b).deferred ≡ b.deferred
  unfolding fire write_to_ring wake_subscribers log_metrics store
  fire-deferred mono ev b = ground arith

  pub fire-head : (mono : ℕ) (ev : Event A) (b : EventBus A) → (fire mono ev b).head ≡ b.head + 1
  unfolding fire write_to_ring wake_subscribers log_metrics store
  fire-head mono ev b = ground arith

  pub set_deferred-Holds :
      (h : List (Event A)) (b : EventBus A) (es : List (Entry A))
      → Holds h b
      → Holds h (record b { deferred = es })
  set_deferred-Holds h b es v = record {
    positive = v.positive;
    ring_length = v.ring_length;
    written = v.written;
    kept = v.kept;
    unused = v.unused;
    dropped = v.dropped;
  }

  pub set_subs-Holds :
      (h : List (Event A)) (b : EventBus A) (subs : List Subscriber)
      → Holds h b
      → Holds h (record b { subs = subs })
  set_subs-Holds h b subs v = record {
    positive = v.positive;
    ring_length = v.ring_length;
    written = v.written;
    kept = v.kept;
    unused = v.unused;
    dropped = v.dropped;
  }
