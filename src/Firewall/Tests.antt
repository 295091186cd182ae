-- ===== src/Firewall/Tests.antt =====
-- A window of three events and a queue with two messages for a warned peer, and the theorems there.
use mathlib.Core.List.{Perm}
use knarr.Prelude.{
  ℕ, ◌+◌, ◌≤◌, ◌≡◌, refl, true, false, some, [], ◌∷◌, ◌++◌, Text, text_eq, arith, keep, leb, ◌-◌,
}
use knarr.Prelude.Dict.{lookup}
use knarr.Firewall.Defs
use knarr.Firewall.Defs.{HistoryBuffer, Item, Window, Warning, OutboundManager}
use knarr.Firewall.Pacing.{
  InOrder, total-window, on_outbound-spaced, sent_to, drain-once, drain-perm,
}

abbrev peer : Text
peer = b'p' ∷ []

abbrev buffer : HistoryBuffer
buffer = record {
  entries = (peer, record { last_seen = 3; duplicate_count = 0 }) ∷ [];
  ttl = 300;
  max_size = 1;
}

abbrev events : Window
events = (1, 5) ∷ (4, 1) ∷ (4, 2) ∷ []

events-InOrder : InOrder events
events-InOrder = ((omega arith, (omega arith, tt)), ((omega arith, tt), (tt, tt)))

total-window_example :
    let recent = keep (λ e. leb (13 - 10) e.0) events in
    Defs.total 13 10 events ≡ (recent, Defs.sum_weights recent)
total-window_example = total-window 13 10 events events-InOrder

abbrev warning : Warning
warning = record { expires_at = 100; delay_ms = 20 }

-- the messages are numbers, none of them a Heartbeat
abbrev manager : OutboundManager ℕ
manager = record {
  warn_list = (peer, warning) ∷ [];
  block_list = [];
  penalty_queue = (1, peer) ∷ (2, peer) ∷ [];
  sent_buffer = (peer, 30) ∷ [];
}

warned : lookup peer manager.warn_list ≡ some warning
warned = unfold text_eq in refl

sent_before : lookup peer manager.sent_buffer ≡ some 30
sent_before = unfold text_eq in refl

sends_again : (Defs.on_outbound (λ m. false) 50 3 peer manager).1 ≡ true
unfolding Defs.on_outbound Defs.is_blocked Defs.must_wait Defs.forget_block Defs.forget_warning
    text_eq
sends_again = refl

on_outbound-spaced_example :
    (30 + 20 ≤ 50)
    × (lookup peer (Defs.on_outbound (λ m. false) 50 3 peer manager).0.sent_buffer ≡ some 50)
on_outbound-spaced_example =
    on_outbound-spaced (λ m. false) 50 30 3 peer warning manager warned (omega arith) sent_before
      (omega arith) sends_again

drain-once_example :
    sent_to peer
      (Defs.drain 50 (λ p. true) manager.warn_list manager.penalty_queue manager.sent_buffer).sent
    ≤ 1
drain-once_example =
    drain-once 50 (λ p. true) manager.warn_list peer warning manager.penalty_queue
      manager.sent_buffer warned (omega arith) (omega arith)

drain-perm_example :
    let d = Defs.drain 50 (λ p. true) manager.warn_list manager.penalty_queue manager.sent_buffer in
    Perm (d.sent ++ d.remaining) manager.penalty_queue
drain-perm_example =
    drain-perm 50 (λ p. true) manager.warn_list manager.penalty_queue manager.sent_buffer
