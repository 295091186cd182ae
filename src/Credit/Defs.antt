-- ===== src/Credit/Defs.antt =====
-- The handler of `payment.finalized.*` events, `make_payment_finalized_handler` of
-- src/knarr/commerce/bcw_credit.py, with the conversion of src/knarr/commerce/conversion.py, and the
-- purge of receipts by age, which the node's housekeeping calls. The handler waits for the credit
-- only, which the queue of writes applies; no other write is in between here. The text of a
-- receipt's payload is the data that it prints.
use knarr.Prelude.{
  ℕ, ◌+◌, Bool, not, ltb, keep, ◌&&◌, Option, none, some, List, [], ◌∷◌, ◌++◌, Text, text_eq, codes,
  starts_with, if◌then◌else◌,
}
use knarr.Prelude.Int.{ℤ, pos}
use knarr.Prelude.Dict.{Dict, lookup, contains, insert}
use knarr.Commerce.Float.{FloatOps, zero_f}
use knarr.Ledger.Defs.{Ledger, credit_ledger}

-- `int(event["decimals"])`: no value, one that `int` refuses, or its value
pub data Decimals : Type 0 where
  missing refused : Decimals
  given : ℤ → Decimals

-- `float(event["amount"])`: its value, a TypeError or ValueError, or the OverflowError of an integer
-- that is too large
pub data Amount (F : Type 0) : Type 0 where
  numeric : F → Amount F
  not_numeric overflow : Amount F

-- The texts are `str(… or "")`.
pub record Event (F : Type 0) : Type 0 where
  pub event_type : Text
  pub mint : Text
  pub from_address : Text
  pub amount : Amount F
  pub chain_id : Text
  pub tx_hash : Text
  pub decimals : Decimals

-- The configuration. A rate that `float` refuses is none; no integer too large for a float is given.
pub record Config (F : Type 0) : Type 0 where
  pub knarr_mint : Text
  pub conversion_rate : Option F

pub record Receipt (F : Type 0) : Type 0 where
  pub counterparty : Text
  pub order_ref : Option Text
  pub raw_amount : F
  pub decimals : ℤ
  pub amount_credits : F
  pub timestamp : ℕ
  pub created_at : ℕ

-- the event `settlement.credit_applied`
pub record Applied (F : Type 0) : Type 0 where
  pub amount : F
  pub chain_id : Text
  pub node_id : Text
  pub tx_hash : Text

-- The table `receipt_log`, the wallets of the peers with their node ids, and the events that were
-- emitted, where there is a bus.
pub record Node (F : Type 0) : Type 0 where
  pub ledger : Ledger F
  pub receipts : Dict (Receipt F)
  pub wallets : Dict Text
  pub bus : Option (List (Applied F))

pub data Outcome (F : Type 0) : Type 0 where
  ignored wrong_mint invalid_amount already_credited conversion_failed : Outcome F
  unresolved no_pubkey raised : Outcome F
  credited : Text → F → Outcome F

unfoldable pub non_empty : Option Text → Option Text
non_empty none = none
non_empty (some []) = none
non_empty (some (c ∷ t)) = some (c ∷ t)

module _ {F : Type 0} where
  unfoldable pub dedup_receipt_id : Event F → Text
  dedup_receipt_id e = codes "bcw_credit:" ++ e.chain_id ++ codes ":" ++ e.tx_hash

  unfoldable pub get_node_by_wallet : Text → Node F → Option Text
  get_node_by_wallet [] n = none
  get_node_by_wallet (c ∷ wallet) n = lookup (c ∷ wallet) n.wallets

  unfoldable pub get_pubkey_by_node_id : Text → Node F → Option Text
  get_pubkey_by_node_id node_id n = non_empty (lookup node_id n.ledger.peer_keys)

  -- `INSERT OR IGNORE INTO receipt_log`
  unfoldable pub write_receipt : Text → Receipt F → Node F → Node F
  write_receipt receipt_id r n =
      if contains receipt_id n.receipts
      then n
      else record n { receipts = insert receipt_id r n.receipts }

  -- `DELETE FROM receipt_log WHERE created_at < now - max_age`
  unfoldable pub purge_receipt_log_by_age : ℕ → ℕ → Node F → Node F
  purge_receipt_log_by_age now max_age n = record n {
    receipts = keep (λ e. not (ltb (e.1.created_at + max_age) now)) n.receipts;
  }

  unfoldable pub emit_applied : Applied F → Node F → Node F
  emit_applied a n = elim n.bus [
    | none ↦ n
    | some events ↦ record n { bus = some (events ++ a ∷ []) }
  ]

  unfoldable pub is_wrong_mint : Config F → Event F → Bool
  is_wrong_mint config e =
      not (text_eq config.knarr_mint []) && not (text_eq e.mint config.knarr_mint)

module _ {F : Type 0} (ops : FloatOps F) where
  open ops use {mul, le, is_finite}

  unfoldable pub is_positive : F → Bool
  is_positive x = is_finite x && not (le x (zero_f ops))

  -- `none` is a ValueError.
  unfoldable pub get_conversion_rate : Config F → Option F
  get_conversion_rate config = elim config.conversion_rate [
    | none ↦ none
    | some rate ↦ if is_positive rate then some rate else none
  ]

  unfoldable pub token_to_credits : F → F → Option F
  token_to_credits amount rate =
      if not (is_positive amount)
      then none
      else if not (is_positive rate)
      then none
      else if not (is_finite (mul amount rate))
      then none
      else some (mul amount rate)

  unfoldable pub credits_of : Config F → F → Option F
  credits_of config token_amount = elim (get_conversion_rate config) [
    | none ↦ none
    | some rate ↦ token_to_credits token_amount rate
  ]

  -- the credit, once the receipt is written, and the event
  unfoldable pub pay : ℕ → Event F → F → Text → Text → Node F → Node F × Outcome F
  pay now e amount node_id peer_key n = elim (credit_ledger ops now peer_key amount n.ledger) [
    | none ↦ (n, raised)
    | some ledger ↦ (
      emit_applied
          (record {
            amount = amount;
            chain_id = e.chain_id;
            node_id = node_id;
            tx_hash = e.tx_hash;
          })
          (record n { ledger = ledger }),
      credited peer_key amount,
    )
  ]

  -- from the writing of the receipt on
  unfoldable pub apply_credit : ℕ → Event F → F → ℤ → F → Text → Text → Node F → Node F × Outcome F
  apply_credit now e raw_amount decimals amount node_id peer_key n =
      let receipt : Receipt F = record {
        counterparty = peer_key;
        order_ref = non_empty (some e.tx_hash);
        raw_amount = raw_amount;
        decimals = decimals;
        amount_credits = amount;
        timestamp = now;
        created_at = now;
      } in
      pay now e amount node_id peer_key (write_receipt (dedup_receipt_id e) receipt n)

-- `per_unit raw d` is `raw / 10 ** d`; `none` is an OverflowError or ZeroDivisionError.
module _ {F : Type 0} (ops : FloatOps F) (per_unit : F → ℤ → Option F) (config : Config F) where
  -- from the conversion on
  unfoldable pub handle_amount : ℕ → Event F → ℤ → F → Node F → Node F × Outcome F
  handle_amount now e decimals raw_amount n = elim (per_unit raw_amount decimals) [
    | none ↦ (n, raised)
    | some token_amount ↦ elim (credits_of ops config token_amount) [
      | none ↦ (n, conversion_failed)
      | some amount ↦ elim (non_empty (get_node_by_wallet e.from_address n)) [
        | none ↦ (n, unresolved)
        | some node_id ↦ elim (get_pubkey_by_node_id node_id n) [
          | none ↦ (n, no_pubkey)
          | some peer_key ↦ apply_credit ops now e raw_amount decimals amount node_id peer_key n
        ]
      ]
    ]
  ]

  -- from the amount on
  unfoldable pub handle_decimals : ℕ → Event F → ℤ → Node F → Node F × Outcome F
  handle_decimals now e decimals n = elim e.amount [
    | not_numeric ↦ (n, invalid_amount)
    | overflow ↦ (n, raised)
    | numeric raw_amount ↦
        let paid = handle_amount now e decimals raw_amount n in
        if not (is_positive ops raw_amount)
        then (n, invalid_amount)
        else if contains (dedup_receipt_id e) n.receipts
        then (n, already_credited)
        else paid
  ]

  -- `_handle_payment_finalized`, with the node as it is afterwards, also where it raises
  unfoldable pub handle_payment_finalized : ℕ → Event F → Node F → Node F × Outcome F
  handle_payment_finalized now e n =
      if not (starts_with (codes "payment.finalized.") e.event_type)
      then (n, ignored)
      else if is_wrong_mint config e
      then (n, wrong_mint)
      else (elim e.decimals [
        | refused ↦ (n, raised)
        | missing ↦ handle_decimals now e (pos 9) n
        | given decimals ↦ handle_decimals now e decimals n
      ])
