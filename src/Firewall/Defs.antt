-- ===== src/Firewall/Defs.antt =====
-- `class HistoryBuffer`, `class SlidingWindow` and `class OutboundManager` of
-- plugins/01-firewall/handler.py. Times are natural numbers of milliseconds; a delay below zero acts
-- as zero does. A message is any value; whether it is a Heartbeat is a parameter. A call is one step:
-- no other call comes between the sends that it awaits.
use knarr.Prelude.{
  ℕ, ◌+◌, ◌-◌, Bool, true, false, not, ◌&&◌, ◌||◌, none, some, List, [], ◌∷◌, ◌++◌, Text, ltb, leb,
  ◌==◌, if◌then◌else◌, keep, length, drop,
}
use knarr.Prelude.Dict.{Dict, lookup, insert, erase}

-- `HistoryBuffer._entries`: what is read of an item is when it was last seen and how often
pub record Item : Type 0 where
  pub last_seen : ℕ
  pub duplicate_count : ℕ

pub record HistoryBuffer : Type 0 where
  pub entries : Dict Item
  pub ttl : ℕ
  pub max_size : ℕ

unfoldable pub contains : ℕ → Text → HistoryBuffer → HistoryBuffer × Bool
contains now key h = elim (lookup key h.entries) [
  | none ↦ (h, false)
  | some item ↦
      if ltb h.ttl (now - item.last_seen)
      then (record h { entries = erase key h.entries }, false)
      else (h, true)
]

-- `add`, whose loop deletes the first entries until the cap is met
unfoldable pub add : Text → Item → HistoryBuffer → HistoryBuffer
add key item h =
    let entries = insert key item h.entries in
    record h { entries = drop (length entries - h.max_size) entries }

unfoldable pub refresh : ℕ → Text → HistoryBuffer → HistoryBuffer
refresh now key h = elim (lookup key h.entries) [
  | none ↦ h
  | some item ↦ record h {
    entries =
        insert key (record { last_seen = now; duplicate_count = item.duplicate_count + 1 })
          h.entries;
  }
]

unfoldable pub sweep : ℕ → HistoryBuffer → HistoryBuffer
sweep now h = record h { entries = keep (λ e. leb now (e.1.last_seen + h.ttl)) h.entries }

-- the (time, weight) pairs of a `SlidingWindow`
abbrev pub Window : Type 0
Window = List (ℕ × ℕ)

unfoldable pub add_event : ℕ → ℕ → Window → Window
add_event now weight events = events ++ (now, weight) ∷ []

-- the loop of `total`
unfoldable pub expire : ℕ → Window → Window
expire cutoff [] = []
expire cutoff ((t, weight) ∷ events) =
    if ltb t cutoff then expire cutoff events else (t, weight) ∷ events

unfoldable pub sum_weights : Window → ℕ
sum_weights [] = 0
sum_weights ((t, weight) ∷ events) = weight + sum_weights events

-- the window after the call, and the total
unfoldable pub total : ℕ → ℕ → Window → Window × ℕ
total now window_seconds events =
    let rest = expire (now - window_seconds) events in (rest, sum_weights rest)

pub record Warning : Type 0 where
  pub expires_at : ℕ
  pub delay_ms : ℕ

pub record OutboundManager (M : Type 0) : Type 0 where
  pub warn_list : Dict Warning
  pub block_list : Dict ℕ
  pub penalty_queue : List (M × Text)
  pub sent_buffer : Dict ℕ

-- whether `drain_penalty_queue` sends to a peer, at the given sends; no send counts as one at 0
unfoldable pub may_send : ℕ → Text → Dict Warning → Dict ℕ → Bool
may_send now peer_id warn_list sent_buffer = elim (lookup peer_id warn_list) [
  | none ↦ true
  | some w ↦
      (ltb w.expires_at now || (w.delay_ms == 0))
      || leb w.delay_ms
          (elim (lookup peer_id sent_buffer) [ none ↦ now | some last_send ↦ now - last_send ])
]

-- the loop: what is sent, what remains, and the sends
pub record Drained (M : Type 0) : Type 0 where
  pub sent : List (M × Text)
  pub remaining : List (M × Text)
  pub sent_buffer : Dict ℕ

module _ {M : Type 0} where
  unfoldable pub set_warn : ℕ → Text → ℕ → ℕ → OutboundManager M → OutboundManager M
  set_warn now peer_id delay_ms ttl o =
      if delay_ms == 0 then record o { warn_list = erase peer_id o.warn_list } else record o {
        warn_list =
            insert peer_id (record { expires_at = now + ttl; delay_ms = delay_ms }) o.warn_list;
      }

  unfoldable pub set_block : ℕ → Text → ℕ → OutboundManager M → OutboundManager M
  set_block now peer_id ttl o = record o { block_list = insert peer_id (now + ttl) o.block_list }

  -- a block that is over is forgotten
  unfoldable pub forget_block : ℕ → Text → OutboundManager M → OutboundManager M
  forget_block now peer_id o = elim (lookup peer_id o.block_list) [
    | none ↦ o
    | some until ↦ if ltb now until then o else record o { block_list = erase peer_id o.block_list }
  ]

  unfoldable pub is_blocked : ℕ → Text → OutboundManager M → Bool
  is_blocked now peer_id o = elim (lookup peer_id o.block_list) [
    | none ↦ false
    | some until ↦ ltb now until
  ]

  -- whether a warning that is in force asks to wait
  unfoldable pub must_wait : ℕ → Text → OutboundManager M → Bool
  must_wait now peer_id o = elim (lookup peer_id o.warn_list) [
    | none ↦ false
    | some w ↦
        not (ltb w.expires_at now)
        && (ltb 0 w.delay_ms && (elim (lookup peer_id o.sent_buffer) [
          | none ↦ false
          | some last_send ↦ ltb (now - last_send) w.delay_ms
        ]))
  ]

  unfoldable pub forget_warning : ℕ → Text → OutboundManager M → OutboundManager M
  forget_warning now peer_id o = elim (lookup peer_id o.warn_list) [
    | none ↦ o
    | some w ↦
        if ltb w.expires_at now then record o { warn_list = erase peer_id o.warn_list } else o
  ]

  -- the manager, and whether the message was sent
  unfoldable pub on_outbound :
      (M → Bool) → ℕ → M → Text → OutboundManager M → OutboundManager M × Bool
  on_outbound is_heartbeat now msg peer_id o =
      if is_blocked now peer_id o && not (is_heartbeat msg)
      then (o, false)
      else (let o' = forget_warning now peer_id (forget_block now peer_id o) in
          if must_wait now peer_id o
          then (record o' { penalty_queue = o'.penalty_queue ++ (msg, peer_id) ∷ [] }, false)
          else (record o' { sent_buffer = insert peer_id now o'.sent_buffer }, true))

  unfoldable pub drain : ℕ → (Text → Bool) → Dict Warning → List (M × Text) → Dict ℕ → Drained M
  drain now known warn_list [] sent_buffer = record {
    sent = [];
    remaining = [];
    sent_buffer = sent_buffer;
  }
  drain now known warn_list ((msg, peer_id) ∷ queue) sent_buffer =
      let skipped = drain now known warn_list queue sent_buffer in
      let after = drain now known warn_list queue (insert peer_id now sent_buffer) in
      if not (known peer_id)
      then skipped
      else if may_send now peer_id warn_list sent_buffer
      then record after { sent = (msg, peer_id) ∷ after.sent }
      else record skipped { remaining = (msg, peer_id) ∷ skipped.remaining }

  unfoldable pub drain_penalty_queue :
      ℕ → (Text → Bool) → OutboundManager M → OutboundManager M × List (M × Text)
  drain_penalty_queue now known o =
      let d = drain now known o.warn_list o.penalty_queue o.sent_buffer in
      (record o { penalty_queue = d.remaining; sent_buffer = d.sent_buffer }, d.sent)

  unfoldable pub cleanup : ℕ → OutboundManager M → OutboundManager M
  cleanup now o = record o {
    warn_list = keep (λ e. ltb now e.1.expires_at) o.warn_list;
    block_list = keep (λ e. ltb now e.1) o.block_list;
  }
