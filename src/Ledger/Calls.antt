-- ===== src/Ledger/Calls.antt =====
-- The ledger's calls as data, runs of them, and what they do to the account of one peer.
use knarr.Prelude.{
  ℕ, Bool, true, not, ◌&&◌, Option, none, some, List, [], ◌∷◌, Text, text_eq, if◌then◌else◌,
}
use knarr.Commerce.Float.{FloatOps, zero_f}
use knarr.Ledger.Defs.{
  Entry, Ledger, get_or_create_ledger_entry, update_ledger_provider, update_ledger_consumer,
  update_ledger_refund, credit_ledger, hold_balance, release_held, return_held,
  decay_stale_balances, new_entry, charged, earned, credited, held, held_row, released, returned,
  decayed,
}

pub data Call (F : Type 0) : Type 0 where
  get_or_create : Text → F → Call F
  provider consumer refund credit hold release return : Text → F → Call F
  decay : F → ℕ → Call F

module _ {F : Type 0} (ops : FloatOps F) where
  open ops use {decimal, le, is_finite}

  -- the ledger after a call that may raise
  abbrev pub or_same : Ledger F → Option (Ledger F) → Ledger F
  or_same l none = l
  or_same l (some l') = l'

  -- the ledger after a call, also where it raises
  unfoldable pub apply : (Text → Option Text) → ℕ → Call F → Ledger F → Ledger F
  apply node_id_of now (get_or_create peer trust) l =
      (get_or_create_ledger_entry ops node_id_of now peer trust l).0
  apply node_id_of now (provider peer price) l =
      or_same l (update_ledger_provider ops now peer price l)
  apply node_id_of now (consumer peer price) l =
      or_same l (update_ledger_consumer ops now peer price l)
  apply node_id_of now (refund peer amount) l = update_ledger_refund ops now peer amount l
  apply node_id_of now (credit peer amount) l = or_same l (credit_ledger ops now peer amount l)
  apply node_id_of now (hold peer amount) l = (hold_balance ops now peer amount l).0
  apply node_id_of now (release peer amount) l = (release_held ops now peer amount l).0
  apply node_id_of now (return peer amount) l = (return_held ops now peer amount l).0
  apply node_id_of now (decay rate stale) l = (decay_stale_balances ops now rate stale l).0

  unfoldable pub run : (Text → Option Text) → List (ℕ × Call F) → Ledger F → Ledger F
  run node_id_of [] l = l
  run node_id_of ((now, c) ∷ cs) l = run node_id_of cs (apply node_id_of now c l)

  -- an account that is there, or a new one
  abbrev pub existing : Entry F → Option (Entry F) → Entry F
  existing e none = e
  existing e (some d) = d

  abbrev pub changed : (Entry F → Entry F) → Option (Entry F) → Option (Entry F)
  changed f none = none
  changed f (some e) = some (f e)

  -- what a call to a peer's own account does to it
  unfoldable pub own_step : ℕ → Call F → Option (Entry F) → Option (Entry F)
  own_step now (get_or_create peer trust) a =
      some (existing (new_entry ops now (zero_f ops) trust) a)
  own_step now (provider peer price) a =
      if is_finite price then changed (charged ops now price) a else a
  own_step now (consumer peer price) a =
      if is_finite price then changed (earned ops now price) a else a
  own_step now (refund peer amount) a = changed (credited ops now amount) a
  own_step now (credit peer amount) a =
      if is_finite amount && not (le amount (zero_f ops))
      then some
          (existing (new_entry ops now amount (decimal 3 1)) (changed (credited ops now amount) a))
      else a
  own_step now (hold peer amount) a =
      some (existing (held_row ops now amount) (changed (held ops amount) a))
  own_step now (release peer amount) a = changed (released ops now amount) a
  own_step now (return peer amount) a = changed (returned ops now amount) a
  own_step now (decay rate stale) a = changed (decayed ops now rate stale) a

  -- whose account a call is about; a decay is about all of them
  unfoldable pub is_about : Text → Call F → Bool
  is_about q (get_or_create peer trust) = text_eq peer q
  is_about q (provider peer price) = text_eq peer q
  is_about q (consumer peer price) = text_eq peer q
  is_about q (refund peer amount) = text_eq peer q
  is_about q (credit peer amount) = text_eq peer q
  is_about q (hold peer amount) = text_eq peer q
  is_about q (release peer amount) = text_eq peer q
  is_about q (return peer amount) = text_eq peer q
  is_about q (decay rate stale) = true

  -- the account of one peer under a sequence of calls, by those that are about it
  unfoldable pub account : Text → List (ℕ × Call F) → Option (Entry F) → Option (Entry F)
  account q [] a = a
  account q ((now, c) ∷ cs) a = account q cs (if is_about q c then own_step now c a else a)
