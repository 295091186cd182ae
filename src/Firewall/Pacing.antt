-- ===== src/Firewall/Pacing.antt =====
-- What the history buffer keeps, what the sliding window counts, and how a warned peer is paced.
use mathlib.Core.List.{Perm, perm_middle}
use mathlib.Core.List.Perm
use knarr.Prelude.{
  ℕ, zero, suc, max, ◌+◌, ◌-◌, ◌≤◌, ◌<◌, ◌≡◌, refl, Bool, true, some, List, [], ◌∷◌, ◌++◌, Text,
  text_eq, text_eq_iff, leb, if◌then◌else◌, keep, length, drop, arith, All, Bool-cases, inl, inr,
}
use knarr.Prelude.Dict.{Dict, lookup, insert, lookup-insert}
use knarr.Firewall.Defs.{
  HistoryBuffer, Item, add, Window, expire, sum_weights, total, Warning, OutboundManager,
  on_outbound, must_wait, forget_block, forget_warning, may_send, drain,
}

-- the times do not go down
abbrev pub InOrder : Window → Type 0
InOrder [] = Unit
InOrder ((t, weight) ∷ events) = All (λ e. t ≤ e.0) events × InOrder events

keep-late :
    (cutoff t : ℕ) (events : Window)
    → cutoff ≤ t
    → All (λ e. t ≤ e.0) events
    → keep (λ e. leb cutoff e.0) events ≡ events
keep-late cutoff t [] h late = refl
keep-late cutoff t ((u, w) ∷ events) h late = ground (arith, keep-late cutoff t events h late.1)

expire-keep :
    (cutoff : ℕ) (events : Window)
    → InOrder events
    → expire cutoff events ≡ keep (λ e. leb cutoff e.0) events
unfolding expire
expire-keep cutoff [] v = refl
expire-keep cutoff ((t, w) ∷ events) v =
    ground (arith, expire-keep cutoff events v.1, keep-late cutoff t events)

-- Where the times of the events do not go down, the window keeps exactly the events that are not
-- older than its length, and the total is the sum of their weights.
pub total-window :
    (now window_seconds : ℕ) (events : Window)
    → InOrder events
    → let recent = keep (λ e. leb (now - window_seconds) e.0) events in
      total now window_seconds events ≡ (recent, sum_weights recent)
unfolding total
total-window now window_seconds events v = rw (expire-keep (now - window_seconds) events v) refl

length-drop_ge : {A : Type 0} (n : ℕ) (xs : List A) → length (drop n xs) + n ≤ max (length xs) n
length-drop_ge zero xs = omega arith
length-drop_ge (suc n) [] = omega arith
length-drop_ge (suc n) (x ∷ xs) = ground (arith, length-drop_ge n xs)

-- After an entry was added the buffer has at most as many entries as its cap, which stays with the
-- time to live.
pub add-cap :
    (key : Text) (item : Item) (h : HistoryBuffer)
    → let h' = add key item h in
      (length h'.entries ≤ h.max_size) × (h'.max_size ≡ h.max_size) × (h'.ttl ≡ h.ttl)
unfolding add
add-cap key item h =
    let entries = insert key item h.entries in
    (omega (arith, length-drop_ge (length entries - h.max_size) entries), refl, refl)

module _ {M : Type 0} where
  -- A message that is sent to a peer whose warning is in force comes no sooner after the last one
  -- than the warning's delay, and its time is noted.
  pub on_outbound-spaced :
      (is_heartbeat : M → Bool) (now last_send : ℕ) (msg : M) (peer_id : Text) (w : Warning)
      (o : OutboundManager M)
      → lookup peer_id o.warn_list ≡ some w
      → now ≤ w.expires_at
      → lookup peer_id o.sent_buffer ≡ some last_send
      → last_send ≤ now
      → (on_outbound is_heartbeat now msg peer_id o).1 ≡ true
      → (last_send + w.delay_ms ≤ now)
        × (lookup peer_id (on_outbound is_heartbeat now msg peer_id o).0.sent_buffer ≡ some now)
  unfolding on_outbound must_wait forget_block forget_warning
  on_outbound-spaced is_heartbeat now last_send msg peer_id w o warned in_force known before sent =
      ground (arith, lookup-insert peer_id peer_id now o.sent_buffer, text_eq_iff peer_id peer_id)

  -- how many of the messages are for a peer
  abbrev pub sent_to : Text → List (M × Text) → ℕ
  sent_to peer_id [] = 0
  sent_to peer_id ((msg, p) ∷ sent) =
      if text_eq p peer_id then suc (sent_to peer_id sent) else sent_to peer_id sent

  module _ (now : ℕ) (known : Text → Bool) (warn_list : Dict Warning) where
    drain-too_soon :
        (peer_id : Text) (w : Warning) (queue : List (M × Text)) (sends : Dict ℕ) (last_send : ℕ)
        → lookup peer_id warn_list ≡ some w
        → now ≤ w.expires_at
        → lookup peer_id sends ≡ some last_send
        → now - last_send < w.delay_ms
        → sent_to peer_id (drain now known warn_list queue sends).sent ≡ 0
    unfolding drain may_send
    drain-too_soon peer_id w [] sends last_send warned in_force noted soon = refl
    drain-too_soon peer_id w ((msg, p) ∷ queue) sends last_send warned in_force noted soon =
        ground (
          arith,
          drain-too_soon peer_id w queue sends last_send warned in_force noted soon,
          drain-too_soon peer_id w queue (insert p now sends) last_send warned in_force,
          lookup-insert p peer_id now sends,
          text_eq_iff p peer_id,
        )

    -- A pass over the queue sends at most one message to a peer whose warning is in force and asks
    -- for a delay.
    pub drain-once :
        (peer_id : Text) (w : Warning) (queue : List (M × Text)) (sends : Dict ℕ)
        → lookup peer_id warn_list ≡ some w
        → now ≤ w.expires_at
        → 1 ≤ w.delay_ms
        → sent_to peer_id (drain now known warn_list queue sends).sent ≤ 1
    unfolding drain
    drain-once peer_id w [] sends warned in_force delayed = ground arith
    drain-once peer_id w ((msg, p) ∷ queue) sends warned in_force delayed = ground (
      arith,
      drain-once peer_id w queue sends warned in_force delayed,
      drain-once peer_id w queue (insert p now sends) warned in_force delayed,
      drain-too_soon peer_id w queue (insert p now sends) now warned in_force,
      lookup-insert p peer_id now sends,
      text_eq_iff p peer_id,
    )

    -- A pass over the queue sends or keeps each message to a known peer, once, and no other one.
    pub drain-perm :
        (queue : List (M × Text)) (sends : Dict ℕ)
        → let d = drain now known warn_list queue sends in
          Perm (d.sent ++ d.remaining) (keep (λ m. known m.1) queue)
    unfolding drain
    drain-perm [] sends = Perm.refl _
    drain-perm ((msg, p) ∷ queue) sends = elim (Bool-cases (known p)) [
      | inr unknown ↦ rw (unknown, drain) (drain-perm queue sends)
      | inl fine ↦ elim (Bool-cases (may_send now p warn_list sends)) [
        | inl go ↦ rw (fine, go, drain) (Perm.cons (msg, p) (drain-perm queue (insert p now sends)))
        | inr wait ↦
            let d = drain now known warn_list queue sends in
            rw (fine, wait, drain)
              (Perm.trans (perm_middle d.sent d.remaining)
                (Perm.cons (msg, p) (drain-perm queue sends)))
      ]
    ]
