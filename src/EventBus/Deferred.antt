-- ===== src/EventBus/Deferred.antt =====
-- The deferred events: the order of the store, what a tick fires, and cancelling.
use knarr.Prelude.{
  ℕ, ◌≤◌, ◌≡◌, ◌≢◌, refl, sym, ap, ◌∙◌, inl, inr, Bool, true, false, not, ◌&&◌, none, some, List,
  [], ◌∷◌, ◌++◌, map, arith, ltb, leb, ◌==◌, if◌then◌else◌, length, keep, All, All-keep, Bool-cases,
  append_assoc, append-nil,
}
use knarr.EventBus.Defs.{
  EventBus, Event, Entry, is_past, insert_deferred, split_ready, fire, fire_all, tick, remove_entry,
  cancel,
}
use knarr.EventBus.Ring.{Holds, fire-Holds, fire-deferred, set_deferred-Holds}

module _ {A : Type 0} where
  abbrev pub NotBefore : Entry A → Entry A → Type 0
  NotBefore e x = e.valid_from ≤ x.valid_from

  abbrev pub IsSorted : List (Entry A) → Type 0
  IsSorted [] = Unit
  IsSorted (e ∷ es) = All (NotBefore e) es × IsSorted es

  All-NotBefore_trans :
      (d e : Entry A) (es : List (Entry A))
      → d.valid_from ≤ e.valid_from
      → All (NotBefore e) es
      → All (NotBefore d) es
  All-NotBefore_trans d e [] le h = tt
  All-NotBefore_trans d e (x ∷ es) le h = (omega (arith, h.0), All-NotBefore_trans d e es le h.1)

  All-insert :
      (P : Entry A → Type 0) (e : Entry A) (es : List (Entry A))
      → P e
      → All P es
      → All P (insert_deferred e es)
  unfolding insert_deferred
  All-insert P e [] p h = (p, tt)
  All-insert P e (x ∷ es) p h = ground (arith, All-insert P e es p h.1)

  -- `emit` keeps the store sorted by the time at which the events become valid.
  pub insert_deferred-IsSorted :
      (e : Entry A) (es : List (Entry A)) → IsSorted es → IsSorted (insert_deferred e es)
  unfolding insert_deferred
  insert_deferred-IsSorted e [] h = (tt, tt)
  insert_deferred-IsSorted e (x ∷ es) h = elim (Bool-cases (ltb e.valid_from x.valid_from)) [
    | inl before ↦ rw before ((ground arith, All-NotBefore_trans e x es (ground arith) h.0), h)
    | inr after ↦
        rw after
          (All-insert (NotBefore x) e es (ground arith) h.0, insert_deferred-IsSorted e es h.1)
  ]

  keep-IsSorted : (p : Entry A → Bool) (es : List (Entry A)) → IsSorted es → IsSorted (keep p es)
  keep-IsSorted p [] h = tt
  keep-IsSorted p (e ∷ es) h = elim (Bool-cases (p e)) [
    | inl kept ↦ rw kept (All-keep (NotBefore e) p es h.0, keep-IsSorted p es h.1)
    | inr dropped ↦ rw dropped (keep-IsSorted p es h.1)
  ]

  -- An entry that a tick at `now` fires, and one that it leaves in the store.
  abbrev pub is_ready : ℕ → Entry A → Bool
  is_ready now e = not (is_past e.valid_until now) && leb e.valid_from now

  abbrev pub is_waiting : ℕ → Entry A → Bool
  is_waiting now e = not (is_past e.valid_until now) && ltb now e.valid_from

  split_ready_lem :
      (now : ℕ) (es : List (Entry A))
      → split_ready now es ≡ (keep (is_ready now) es, keep (is_waiting now) es)
  unfolding split_ready
  split_ready_lem now [] = refl
  split_ready_lem now (e ∷ es) = ground (arith, split_ready_lem now es)

  abbrev pub events : List (Entry A) → List (Event A)
  events = map (λ e. e.event)

  pub fire_all-Holds :
      (mono : ℕ) (es : List (Entry A)) (h : List (Event A)) (b : EventBus A)
      → Holds h b
      → Holds (h ++ events es) (fire_all mono es b)
  unfolding fire_all
  fire_all-Holds mono [] h b v = rw append-nil v
  fire_all-Holds mono (e ∷ es) h b v = rw (← append_assoc h (e.event ∷ []) (events es)) (
      fire_all-Holds mono es (h ++ e.event ∷ []) (fire mono e.event b)
        (fire-Holds mono e.event h b v))

  pub fire_all-deferred :
      (mono : ℕ) (es : List (Entry A)) (b : EventBus A) → (fire_all mono es b).deferred ≡ b.deferred
  unfolding fire_all
  fire_all-deferred mono [] b = refl
  fire_all-deferred mono (e ∷ es) b =
      fire_all-deferred mono es (fire mono e.event b) ∙ fire-deferred mono e.event b

  -- A tick fires exactly the entries that are due and not expired, in the order of their times,
  -- by appending their events to the history; it reports their number, and leaves exactly the
  -- entries that are neither expired nor due. For a bus that holds the history `h`.
  pub tick-history :
      (now mono : ℕ) (h : List (Event A)) (b : EventBus A)
      → Holds h b
      → IsSorted b.deferred
      → let (count, b') = tick now mono b in
        let ready = keep (is_ready now) b.deferred in
        Holds (h ++ events ready) b'
        × IsSorted ready
        × (count ≡ length ready)
        × (b'.deferred ≡ keep (is_waiting now) b.deferred)
        × IsSorted b'.deferred
  unfolding tick
  tick-history now mono h b v sorted =
      let ready = keep (is_ready now) b.deferred in
      let waiting = keep (is_waiting now) b.deferred in
      let start : EventBus A = record b { deferred = waiting } in
      let left : (fire_all mono ready start).deferred ≡ waiting =
        fire_all-deferred mono ready start in
      rw (split_ready_lem now b.deferred) (
        fire_all-Holds mono ready h start (set_deferred-Holds h b waiting v),
        keep-IsSorted (is_ready now) b.deferred sorted,
        refl,
        left,
        rw left (keep-IsSorted (is_waiting now) b.deferred sorted),
      )

  abbrev pub HasOtherId : ℕ → Entry A → Type 0
  HasOtherId id e = e.event_id ≢ id

  abbrev pub IsUnique : List (Entry A) → Type 0
  IsUnique [] = Unit
  IsUnique (e ∷ es) = All (HasOtherId e.event_id) es × IsUnique es

  abbrev pub has_id : ℕ → List (Entry A) → Bool
  has_id id [] = false
  has_id id (e ∷ es) = if e.event_id == id then true else has_id id es

  keep-All :
      (id : ℕ) (es : List (Entry A))
      → All (HasOtherId id) es
      → keep (λ e. not (e.event_id == id)) es ≡ es
  keep-All id [] h = refl
  keep-All id (e ∷ es) h = ground (arith, keep-All id es h.1)

  remove_entry_lem :
      (id : ℕ) (es : List (Entry A))
      → IsUnique es
      → remove_entry id es
        ≡ (if has_id id es then some (keep (λ e. not (e.event_id == id)) es) else none)
  unfolding remove_entry
  remove_entry_lem id [] u = refl
  remove_entry_lem id (e ∷ es) u = elim (Bool-cases (e.event_id == id)) [
    | inl here ↦
        let same : e.event_id ≡ id = ground arith in
        rw here (ap some (sym (keep-All id es (rw same at u.0))))
    | inr there ↦ ground (arith, remove_entry_lem id es u.1)
  ]

  has_id-false :
      (id : ℕ) (es : List (Entry A))
      → has_id id es ≡ false
      → keep (λ e. not (e.event_id == id)) es ≡ es
  has_id-false id [] h = refl
  has_id-false id (e ∷ es) h = ground (arith, has_id-false id es)

  -- `cancel` reports whether an entry has the id, and then removes it and no other entry: no
  -- entry with the id stays, if the ids in the store are unique.
  pub cancel-exact :
      (id : ℕ) (b : EventBus A)
      → IsUnique b.deferred
      → let (found, b') = cancel id b in
        (found ≡ has_id id b.deferred)
        × (b'.deferred ≡ keep (λ e. not (e.event_id == id)) b.deferred)
        × (b'.ring ≡ b.ring)
        × (b'.head ≡ b.head)
  unfolding cancel
  cancel-exact id b unique = elim (Bool-cases (has_id id b.deferred)) [
    | inl present ↦
        rw (remove_entry_lem id b.deferred unique, present, cancel) (refl, refl, refl, refl)
    | inr absent ↦
        rw (remove_entry_lem id b.deferred unique, absent, cancel)
          (refl, sym (has_id-false id b.deferred absent), refl, refl)
  ]
