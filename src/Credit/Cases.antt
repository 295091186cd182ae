-- ===== src/Credit/Cases.antt =====
-- What the handler does with an event, in all cases.
use mathlib.Core.Path.{subst}
use knarr.Prelude.{
  ℕ, ◌≡◌, ◌⊎◌, refl, sym, ap, Bool, true, false, not, Option, none, some, Text, codes, starts_with,
  if◌then◌else◌, Option-cases, Bool-cases, inl, inr,
}
use knarr.Prelude.Int.{ℤ, pos}
use knarr.Prelude.Dict.{contains, insert}
use knarr.Commerce.Float.{FloatOps}
use knarr.Ledger.Defs.{credit_ledger}
use knarr.Credit.Defs.{
  Event, Config, Receipt, Applied, Node, Outcome, Amount, numeric, not_numeric, overflow, Decimals,
  missing, refused, given, ignored, wrong_mint, invalid_amount, already_credited, conversion_failed,
  unresolved, no_pubkey, raised, credited, dedup_receipt_id, non_empty, get_node_by_wallet,
  get_pubkey_by_node_id, write_receipt, emit_applied, is_wrong_mint, is_positive, credits_of, pay,
  apply_credit, handle_amount, handle_decimals, handle_payment_finalized,
}

-- a credit that was asked for after the receipt was written
pub record Attempt (F : Type 0) : Type 0 where
  pub receipt : Receipt F
  pub peer_key : Text
  pub amount : F

-- a property of both branches, each under its test
if-either {ℓ} :
    {A : Type ℓ} (P : A → Type 0) (b : Bool) (x y : A)
    → (b ≡ true → P x)
    → (b ≡ false → P y)
    → P (if b then x else y)
if-either P true x y f g = f refl
if-either P false x y f g = g refl

module _ {F : Type 0} where
  abbrev pub is_credited : Outcome F → Bool
  is_credited (credited peer amount) = true
  is_credited ignored = false
  is_credited wrong_mint = false
  is_credited invalid_amount = false
  is_credited already_credited = false
  is_credited conversion_failed = false
  is_credited unresolved = false
  is_credited no_pubkey = false
  is_credited raised = false

  abbrev pub Kept : Node F → Node F × Outcome F → Type 0
  Kept n r = (r.0 ≡ n) × (is_credited r.1 ≡ false)

  module _ (ops : FloatOps F) where
    -- The receipt is new and was written at this time; then the ledger gave the credit, or it raised.
    abbrev pub Tried : ℕ → Event F → Node F → Node F × Outcome F → Attempt F → Type 0
    Tried now e n r a =
        (contains (dedup_receipt_id e) n.receipts ≡ false)
        × (a.receipt.created_at ≡ now)
        × (r.0.receipts ≡ insert (dedup_receipt_id e) a.receipt n.receipts)
        × (((r.1 ≡ credited a.peer_key a.amount)
              × (credit_ledger ops now a.peer_key a.amount n.ledger ≡ some r.0.ledger))
            ⊎ ((r.1 ≡ raised)
                × (credit_ledger ops now a.peer_key a.amount n.ledger ≡ none)
                × (r.0.ledger ≡ n.ledger)
                × (r.0.bus ≡ n.bus)))

    abbrev pub Handled : ℕ → Event F → Node F → Node F × Outcome F → Type 0
    Handled now e n r = Kept n r ⊎ ((a : Attempt F) × Tried now e n r a)

    emit_applied-ledger : (a : Applied F) (n : Node F) → (emit_applied a n).ledger ≡ n.ledger
    unfolding emit_applied
    emit_applied-ledger a n = elim (Option-cases n.bus) [
      | inl off ↦ rw (off, emit_applied) refl
      | inr (events, on) ↦ rw (on, emit_applied) refl
    ]

    emit_applied-receipts : (a : Applied F) (n : Node F) → (emit_applied a n).receipts ≡ n.receipts
    unfolding emit_applied
    emit_applied-receipts a n = elim (Option-cases n.bus) [
      | inl off ↦ rw (off, emit_applied) refl
      | inr (events, on) ↦ rw (on, emit_applied) refl
    ]

    write_receipt-new :
        (id : Text) (r : Receipt F) (n : Node F)
        → contains id n.receipts ≡ false
        → write_receipt id r n ≡ record n { receipts = insert id r n.receipts }
    unfolding write_receipt
    write_receipt-new id r n new = rw (new, write_receipt) refl

    pay-cases :
        (now : ℕ) (e : Event F) (amount : F) (node_id peer_key : Text) (n : Node F)
        → (((pay ops now e amount node_id peer_key n).1 ≡ credited peer_key amount)
            × (credit_ledger ops now peer_key amount n.ledger
                ≡ some (pay ops now e amount node_id peer_key n).0.ledger)
            × ((pay ops now e amount node_id peer_key n).0.receipts ≡ n.receipts))
          ⊎ ((pay ops now e amount node_id peer_key n ≡ (n, raised))
              × (credit_ledger ops now peer_key amount n.ledger ≡ none))
    unfolding pay
    pay-cases now e amount node_id peer_key n =
        elim (Option-cases (credit_ledger ops now peer_key amount n.ledger)) [
          | inl fails ↦ inr (rw (fails, pay) refl, fails)
          | inr (ledger, gives) ↦
              let applied : Applied F = record {
                amount = amount;
                chain_id = e.chain_id;
                node_id = node_id;
                tx_hash = e.tx_hash;
              } in
              let paid : Node F = record n { ledger = ledger } in
              inl (
                rw (gives, pay)
                  (
                    refl,
                    ap some (sym (emit_applied-ledger applied paid)),
                    emit_applied-receipts applied paid,
                  ))
        ]

    pay-Tried :
        (now : ℕ) (e : Event F) (node_id : Text) (n : Node F) (a : Attempt F)
        → contains (dedup_receipt_id e) n.receipts ≡ false
        → a.receipt.created_at ≡ now
        → Tried now e n
            (pay ops now e a.amount node_id a.peer_key
              (record n { receipts = insert (dedup_receipt_id e) a.receipt n.receipts }))
            a
    pay-Tried now e node_id n a new at =
        let noted : Node F = record n {
          receipts = insert (dedup_receipt_id e) a.receipt n.receipts;
        } in
        elim (pay-cases now e a.amount node_id a.peer_key noted) [
          | inl (outcome, gives, receipts) ↦ (new, at, receipts, inl (outcome, gives))
          | inr (all, fails) ↦ (
            new,
            at,
            ap (λ r. r.0.receipts) all,
            inr (ap (λ r. r.1) all, fails, ap (λ r. r.0.ledger) all, ap (λ r. r.0.bus) all),
          )
        ]

    apply_credit-Handled :
        (now : ℕ) (e : Event F) (raw : F) (decimals : ℤ) (amount : F) (node_id peer_key : Text)
        (n : Node F)
        → contains (dedup_receipt_id e) n.receipts ≡ false
        → Handled now e n (apply_credit ops now e raw decimals amount node_id peer_key n)
    unfolding apply_credit
    apply_credit-Handled now e raw decimals amount node_id peer_key n new =
        let receipt : Receipt F = record {
          counterparty = peer_key;
          order_ref = non_empty (some e.tx_hash);
          raw_amount = raw;
          decimals = decimals;
          amount_credits = amount;
          timestamp = now;
          created_at = now;
        } in
        let a : Attempt F = record { receipt = receipt; peer_key = peer_key; amount = amount } in
        inr (
          a,
          subst (λ m. Tried now e n (pay ops now e amount node_id peer_key m) a)
              (sym (write_receipt-new (dedup_receipt_id e) receipt n new))
              (pay-Tried now e node_id n a new refl),
        )

    kept :
        (n : Node F) (o : Outcome F)
        → is_credited o ≡ false
        → (now : ℕ) (e : Event F) → Handled now e n (n, o)
    kept n o h now e = inl (refl, h)

    module _ (per_unit : F → ℤ → Option F) (config : Config F) where
      handle_amount-Handled :
          (now : ℕ) (e : Event F) (decimals : ℤ) (raw : F) (n : Node F)
          → contains (dedup_receipt_id e) n.receipts ≡ false
          → Handled now e n (handle_amount ops per_unit config now e decimals raw n)
      unfolding handle_amount
      handle_amount-Handled now e decimals raw n new = elim (Option-cases (per_unit raw decimals)) [
        | inl miss ↦ rw (miss, handle_amount) (kept n raised refl now e)
        | inr (tokens, f) ↦ elim (Option-cases (credits_of ops config tokens)) [
          | inl miss ↦ rw (f, miss, handle_amount) (kept n conversion_failed refl now e)
          | inr (amount, g) ↦
              elim (Option-cases (non_empty (get_node_by_wallet e.from_address n))) [
                | inl miss ↦ rw (f, g, miss, handle_amount) (kept n unresolved refl now e)
                | inr (node_id, h) ↦ elim (Option-cases (get_pubkey_by_node_id node_id n)) [
                  | inl miss ↦ rw (f, g, h, miss, handle_amount) (kept n no_pubkey refl now e)
                  | inr (peer_key, k) ↦
                      rw (f, g, h, k, handle_amount)
                        (apply_credit-Handled now e raw decimals amount node_id peer_key n new)
                ]
              ]
        ]
      ]

      handle_decimals-Handled :
          (now : ℕ) (e : Event F) (decimals : ℤ) (n : Node F)
          → Handled now e n (handle_decimals ops per_unit config now e decimals n)
      unfolding handle_decimals
      handle_decimals-Handled now e decimals n = by_amount now e decimals n e.amount
        where
          by_amount :
              (at : ℕ) (f : Event F) (d : ℤ) (m : Node F) (amount : Amount F)
              → Handled at f m (elim amount [
                | not_numeric ↦ (m, invalid_amount)
                | overflow ↦ (m, raised)
                | numeric raw ↦
                    if not (is_positive ops raw)
                    then (m, invalid_amount)
                    else if contains (dedup_receipt_id f) m.receipts
                    then (m, already_credited)
                    else handle_amount ops per_unit config at f d raw m
              ])
          by_amount at f d m not_numeric = kept m invalid_amount refl at f
          by_amount at f d m overflow = kept m raised refl at f
          by_amount at f d m (numeric raw) =
              if-either (Handled at f m) (not (is_positive ops raw)) (m, invalid_amount) _
                (λ bad. kept m invalid_amount refl at f)
                (λ good.
                  if-either (Handled at f m) (contains (dedup_receipt_id f) m.receipts)
                    (m, already_credited) _ (λ old. kept m already_credited refl at f)
                    (λ new. handle_amount-Handled at f d raw m new))

      -- Whatever the event, the handler leaves the node as it was and credits nothing; or no receipt
      -- had the event's id, a receipt with this id was added, and the ledger has given the credit that
      -- is reported, or has refused it: then the handler raises, with the receipt written and the
      -- ledger and the bus as they were.
      pub handle-cases :
          (now : ℕ) (e : Event F) (n : Node F)
          → Handled now e n (handle_payment_finalized ops per_unit config now e n)
      unfolding handle_payment_finalized
      handle-cases now e n =
          elim (Bool-cases (starts_with (codes "payment.finalized.") e.event_type)) [
            | inr other ↦ rw (other, handle_payment_finalized) (kept n ignored refl now e)
            | inl ours ↦ elim (Bool-cases (is_wrong_mint config e)) [
              | inl bad ↦ rw (ours, bad, handle_payment_finalized) (kept n wrong_mint refl now e)
              | inr good ↦
                  rw (ours, good, handle_payment_finalized) (by_decimals now e n e.decimals)
            ]
          ]
        where
          by_decimals :
              (at : ℕ) (f : Event F) (m : Node F) (d : Decimals)
              → Handled at f m (elim d [
                | refused ↦ (m, raised)
                | missing ↦ handle_decimals ops per_unit config at f (pos 9) m
                | given decimals ↦ handle_decimals ops per_unit config at f decimals m
              ])
          by_decimals at f m refused = kept m raised refl at f
          by_decimals at f m missing = handle_decimals-Handled at f (pos 9) m
          by_decimals at f m (given decimals) = handle_decimals-Handled at f decimals m
