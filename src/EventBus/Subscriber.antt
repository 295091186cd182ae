-- ===== src/EventBus/Subscriber.antt =====
-- `class Subscriber`: `poll`, and one pass of the loop of `next`.
use knarr.Prelude.{
  ℕ, zero, suc, ◌+◌, ◌-◌, ◌%◌, Bool, false, Option, none, some, List, [], ◌∷◌, ◌++◌, ltb,
  if◌then◌else◌,
}
use knarr.EventBus.Defs.{EventBus, Event, Subscriber, matches, slot}

module _ {A : Type 0} where
  -- A subscriber that fell behind skips to the oldest event in the ring.
  unfoldable pub catch_up : EventBus A → Subscriber → ℕ
  catch_up b s = let oldest = b.head - b.size in if ltb s.cursor oldest then oldest else s.cursor

  -- `event and self._matches(event["event"])` at a cursor
  unfoldable pub read_match : EventBus A → Subscriber → ℕ → Option (Event A)
  read_match b s cursor = elim (slot b.ring (cursor % b.size)) [
    | none ↦ none
    | some ev ↦ if matches s ev.event then some ev else none
  ]

  -- the loop of `poll`: the results and the cursor; the fuel is the number of rounds left
  unfoldable pub poll_loop : ℕ → EventBus A → Subscriber → ℕ → List (Event A) → List (Event A) × ℕ
  poll_loop zero b s cursor results = (results, cursor)
  poll_loop (suc n) b s cursor results =
      let found : List (Event A) = elim (read_match b s cursor) [
        | none ↦ results
        | some ev ↦ results ++ ev ∷ []
      ] in
      let next_round = poll_loop n b s (cursor + 1) found in
      if ltb cursor b.head then next_round else (results, cursor)

  unfoldable pub poll : EventBus A → Subscriber → List (Event A) × Subscriber
  poll b s =
      let start = catch_up b s in
      let (results, cursor) = poll_loop (b.head - start) b s start [] in
      (results, record s { cursor = cursor; wake = false })

  -- the inner loop of `next`: it stops at the first match
  unfoldable pub next_loop : ℕ → EventBus A → Subscriber → ℕ → Option (Event A) × ℕ
  next_loop zero b s cursor = (none, cursor)
  next_loop (suc n) b s cursor =
      let next_round = next_loop n b s (cursor + 1) in
      let step : Option (Event A) × ℕ = elim (read_match b s cursor) [
        | none ↦ next_round
        | some ev ↦ (some ev, cursor + 1)
      ] in
      if ltb cursor b.head then step else (none, cursor)

  -- the wake flag is cleared before the task waits
  unfoldable pub wake_after : Option (Event A) → Bool → Bool
  wake_after none wake = false
  wake_after (some ev) wake = wake

  -- One pass of `next`: an event, or none, and the task waits.
  unfoldable pub next_pass : EventBus A → Subscriber → Option (Event A) × Subscriber
  next_pass b s =
      let start = catch_up b s in
      let (found, cursor) = next_loop (b.head - start) b s start in
      (found, record s { cursor = cursor; wake = wake_after found s.wake })
