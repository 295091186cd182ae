-- ===== src/EventBus/Polling.antt =====
-- What a subscriber reads, in terms of the history of all events.
use knarr.Prelude.{
  ℕ, zero, suc, ◌+◌, ◌-◌, ◌≤◌, ◌<◌, ◌≡◌, refl, ◌∙◌, inl, inr, Bool, false, Option, none, some, List,
  [], ◌∷◌, ◌++◌, append-nil, append_assoc, arith, if◌then◌else◌, get_elem?, drop, drop-cons,
  drop_of_length-le, get_elem?_lt, keep, max, Bool-cases, lt→ltb,
}
use native.Mathlib.Numerals.{add-one}
use knarr.EventBus.Defs.{EventBus, Event, Subscriber, matches}
use knarr.EventBus.Subscriber.{catch_up, read_match, poll_loop, poll, next_loop, next_pass}
use knarr.EventBus.Ring.{Holds}

module _ {A : Type 0} where
  abbrev pub head? : List (Event A) → Option (Event A)
  head? [] = none
  head? (e ∷ es) = some e

  abbrev pub tail : List (Event A) → List (Event A)
  tail [] = []
  tail (e ∷ es) = es

  abbrev pub wanted : Subscriber → Event A → Bool
  wanted s ev = matches s ev.event

  module _ (h : List (Event A)) (b : EventBus A) (s : Subscriber) (v : Holds h b) where
    read_match_lem :
        (c : ℕ) (ev : Event A)
        → c < b.head
        → b.head ≤ c + b.size
        → get_elem? h c ≡ some ev
        → read_match b s c ≡ (if matches s ev.event then some ev else none)
    unfolding read_match
    read_match_lem c ev p q e = rw (v.kept c p q ∙ e, read_match)

    keep-drop :
        (c : ℕ) (ev : Event A)
        → get_elem? h c ≡ some ev
        → keep (wanted s) (drop c h) ≡ (
            if matches s ev.event
            then ev ∷ keep (wanted s) (drop (c + 1) h)
            else keep (wanted s) (drop (c + 1) h))
    keep-drop c ev e = rw (drop-cons c h ev e, add-one)

    -- The loop appends the matching events from its cursor on, and ends at the head.
    poll_loop_lem :
        (n c : ℕ) (results : List (Event A))
        → c + n ≡ b.head
        → b.head ≤ c + b.size
        → poll_loop n b s c results ≡ (results ++ keep (wanted s) (drop c h), b.head)
    unfolding poll_loop
    poll_loop_lem zero c results e q =
        let f : c ≡ b.head = omega (arith, e) in
        rw (drop_of_length-le c h (omega (arith, e, v.written)), append-nil, f)
    poll_loop_lem (suc n) c results e q =
        let p : c < b.head = omega (arith, e) in
        let (ev, found) = get_elem?_lt h c (omega (arith, v.written)) in
        elim (Bool-cases (matches s ev.event)) [
          | inl hit ↦ rw (
            lt→ltb c b.head p,
            read_match_lem c ev p q found,
            hit,
            poll_loop_lem n (c + 1) (results ++ ev ∷ []) (omega (arith, e)) (omega (arith, q)),
            keep-drop c ev found,
            hit,
            append_assoc,
          )
          | inr miss ↦ rw (
            lt→ltb c b.head p,
            read_match_lem c ev p q found,
            miss,
            poll_loop_lem n (c + 1) results (omega (arith, e)) (omega (arith, q)),
            keep-drop c ev found,
            miss,
          )
        ]

    -- `next` stops at the first event that `poll` would return, with the rest still to be read.
    next_loop_lem :
        (n c : ℕ)
        → c + n ≡ b.head
        → b.head ≤ c + b.size
        → let (found, c') = next_loop n b s c in
          (found ≡ head? (keep (wanted s) (drop c h)))
          × (keep (wanted s) (drop c' h) ≡ tail (keep (wanted s) (drop c h)))
          × (c ≤ c')
          × (c' ≤ b.head)
    unfolding next_loop
    next_loop_lem zero c e q =
        rw (drop_of_length-le c h (omega (arith, e, v.written)))
          (refl, refl, omega arith, omega (arith, e))
    next_loop_lem (suc n) c e q =
        let p : c < b.head = omega (arith, e) in
        let (ev, found) = get_elem?_lt h c (omega (arith, v.written)) in
        elim (Bool-cases (matches s ev.event)) [
          | inl hit ↦
              rw (lt→ltb c b.head p, read_match_lem c ev p q found, hit, keep-drop c ev found, hit)
                (refl, refl, omega arith, omega arith)
          | inr miss ↦
              let ih = next_loop_lem n (c + 1) (omega (arith, e)) (omega (arith, q)) in
              rw
                (lt→ltb c b.head p, read_match_lem c ev p q found, miss, keep-drop c ev found, miss)
                (ih.0, ih.1, omega (arith, ih.2), ih.3)
        ]

  module _ (h : List (Event A)) (b : EventBus A) (s : Subscriber) (v : Holds h b) where
    abbrev first_unread : ℕ
    first_unread = max s.cursor (b.head - b.size)

    catch_up_lem : catch_up b s ≡ first_unread
    unfolding catch_up
    catch_up_lem = ground arith

    -- `poll` returns, in order, the matching events that the subscriber has not read, less those
    -- that the ring has lost, and leaves the cursor at the head: for a bus that holds the history
    -- `h` and a cursor that is not past the head.
    pub poll-history :
        s.cursor ≤ b.head
        → poll b s ≡ (
          keep (wanted s) (drop (max s.cursor (b.head - b.size)) h),
          record s { cursor = b.head; wake = false },
        )
    unfolding poll
    poll-history le = rw (
      catch_up_lem,
      poll_loop_lem h b s v (b.head - first_unread) first_unread [] (omega arith) (omega arith),
    )

  module _ (h : List (Event A)) (b : EventBus A) (s : Subscriber) (v : Holds h b) where
    -- a subscriber with the same patterns that stands further on
    poll-suffix :
        (c : ℕ) (wake : Bool)
        → c ≤ b.head
        → b.head ≤ c + b.size
        → (poll b (record s { cursor = c; wake = wake })).0 ≡ keep (wanted s) (drop c h)
    unfolding matches
    poll-suffix c wake le q =
        let e : max c (b.head - b.size) ≡ c = omega arith in
        rw (poll-history h b (record s { cursor = c; wake = wake }) v le, e)

    -- `next` returns the first event that `poll` would return, none if there is none, and what
    -- `poll` returns afterwards is the rest: under the conditions of `poll-history`.
    pub next_pass-poll :
        s.cursor ≤ b.head
        → let (found, s') = next_pass b s in
          (found ≡ head? (poll b s).0) × ((poll b s').0 ≡ tail (poll b s).0)
    unfolding next_pass
    next_pass-poll le =
        let start = max s.cursor (b.head - b.size) in
        let spec = next_loop_lem h b s v (b.head - start) start (omega arith) (omega arith) in
        rw (catch_up_lem h b s v, poll-history h b s v le)
          (spec.0, poll-suffix _ _ spec.3 (omega (arith, spec.2)) ∙ spec.1)
