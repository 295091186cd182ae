-- ===== src/Ledger/Defs.antt =====
-- The table `ledger` of src/knarr/dht/storage.py, with a row for each peer, and the table
-- `peer_keys`. The rows stand in the order in which they were put in, and of two rows of the same age
-- the first one is deleted. NULL and NaN, which SQLite takes for NULL, do not occur in the rows. The
-- columns `pub_tab` and `credit_limit`, which these methods leave alone, are left out.
use knarr.Prelude.{
  ℕ, suc, ◌+◌, Bool, true, not, ◌&&◌, ◌||◌, Option, none, some, [], ◌∷◌, Text, text_eq, ltb, leb,
  if◌then◌else◌, length,
}
use knarr.Prelude.Dict.{Dict, lookup, contains, insert, erase}
use knarr.Commerce.Float.{FloatOps, zero_f, min_f}

pub record Entry (F : Type 0) : Type 0 where
  pub balance : F
  pub tasks_provided : ℕ
  pub tasks_consumed : ℕ
  pub first_seen : ℕ
  pub last_updated : ℕ
  pub held_balance : F
  pub prepaid : F
  pub soft_limit : F
  pub hard_limit : F
  pub trust : F

pub record Ledger (F : Type 0) : Type 0 where
  pub entries : Dict (Entry F)
  pub peer_keys : Dict Text

pub data Sanction : Type 0 where
  clear soft_warning hard_block : Sanction

abbrev pub max_ledger_entries : ℕ
max_ledger_entries = 10000

module _ {F : Type 0} where
  -- `UPDATE … WHERE peer_public_key = ?`
  unfoldable pub update : Text → (Entry F → Entry F) → Dict (Entry F) → Dict (Entry F)
  update peer f [] = []
  update peer f ((k, e) ∷ entries) =
      if text_eq k peer then (k, f e) ∷ entries else (k, e) ∷ update peer f entries

  -- the oldest row of another peer, with its age
  unfoldable pub oldest_other : Text → Dict (Entry F) → Option (Text × ℕ)
  oldest_other peer [] = none
  oldest_other peer ((k, e) ∷ entries) =
      let rest = oldest_other peer entries in
      if text_eq k peer then rest else (elim rest [
        | none ↦ some (k, e.last_updated)
        | some (j, t) ↦ if leb e.last_updated t then some (k, e.last_updated) else some (j, t)
      ])

  -- `DELETE FROM ledger` of the oldest row of another peer
  unfoldable pub delete_oldest : Text → Dict (Entry F) → Dict (Entry F)
  delete_oldest peer entries = elim (oldest_other peer entries) [
    | none ↦ entries
    | some (k, t) ↦ erase k entries
  ]

  unfoldable pub with_entries : Dict (Entry F) → Ledger F → Ledger F
  with_entries entries l = record l { entries = entries }

  module _ (ops : FloatOps F) where
    open ops use {decimal, add, sub, mul, abs, lt, le, is_finite}

    abbrev pub minus : ℕ → ℕ → F
    minus n d = sub (decimal 0 0) (decimal n d)

    -- a row with the columns' defaults
    unfoldable pub new_entry : ℕ → F → F → Entry F
    new_entry now balance trust = record {
      balance = balance;
      tasks_provided = 0;
      tasks_consumed = 0;
      first_seen = now;
      last_updated = now;
      held_balance = zero_f ops;
      prepaid = zero_f ops;
      soft_limit = minus 5 0;
      hard_limit = minus 10 0;
      trust = trust;
    }

    -- the rows after `INSERT OR IGNORE` and the deletion
    unfoldable pub create_entry : ℕ → Text → F → Dict (Entry F) → Dict (Entry F)
    create_entry now peer trust entries =
        let entries' = insert peer (new_entry now (zero_f ops) trust) entries in
        if contains peer entries
        then entries
        else if ltb max_ledger_entries (length entries')
        then delete_oldest peer entries'
        else entries'

    -- The node's id is `sha256(bytes.fromhex(key)).hexdigest()`; `none` is an exception.
    module _ (node_id_of : Text → Option Text) where
      unfoldable pub note_key : Text → Dict Text → Dict Text
      note_key [] peer_keys = peer_keys
      note_key (c ∷ key) peer_keys = elim (node_id_of (c ∷ key)) [
        | none ↦ peer_keys
        | some node_id ↦ insert node_id (c ∷ key) peer_keys
      ]

      unfoldable pub get_or_create_ledger_entry : ℕ → Text → F → Ledger F → Ledger F × Entry F
      get_or_create_ledger_entry now peer initial_trust l =
          let entries = create_entry now peer initial_trust l.entries in
          let l' : Ledger F = record { entries = entries; peer_keys = note_key peer l.peer_keys } in
          elim (lookup peer entries) [
            | none ↦ (l', new_entry now (zero_f ops) initial_trust)
            | some e ↦ (l', e)
          ]

    unfoldable pub charged : ℕ → F → Entry F → Entry F
    charged now price e = record e {
      balance = sub e.balance price;
      tasks_provided = suc e.tasks_provided;
      last_updated = now;
    }

    unfoldable pub earned : ℕ → F → Entry F → Entry F
    earned now price e = record e {
      balance = add e.balance price;
      tasks_consumed = suc e.tasks_consumed;
      last_updated = now;
    }

    unfoldable pub credited : ℕ → F → Entry F → Entry F
    credited now amount e = record e { balance = add e.balance amount; last_updated = now }

    unfoldable pub held : F → Entry F → Entry F
    held amount e = record e { held_balance = add e.held_balance amount }

    unfoldable pub released : ℕ → F → Entry F → Entry F
    released now amount e =
        let release_amount = min_f ops amount e.held_balance in
        record e {
          held_balance = sub e.held_balance release_amount;
          balance = add e.balance release_amount;
          last_updated = now;
        }

    unfoldable pub returned : ℕ → F → Entry F → Entry F
    returned now amount e =
        let return_amount = min_f ops amount e.held_balance in
        record e { held_balance = sub e.held_balance return_amount; last_updated = now }

    -- `none` is a ValueError.
    unfoldable pub update_ledger_provider : ℕ → Text → F → Ledger F → Option (Ledger F)
    update_ledger_provider now peer price l =
        if not (is_finite price)
        then none
        else some (with_entries (update peer (charged now price) l.entries) l)

    unfoldable pub update_ledger_consumer : ℕ → Text → F → Ledger F → Option (Ledger F)
    update_ledger_consumer now peer price l =
        if not (is_finite price)
        then none
        else some (with_entries (update peer (earned now price) l.entries) l)

    unfoldable pub update_ledger_refund : ℕ → Text → F → Ledger F → Ledger F
    update_ledger_refund now peer amount l =
        with_entries (update peer (credited now amount) l.entries) l

    -- the UPSERT; the trust of a new row is the column's default
    unfoldable pub upsert_credit : ℕ → Text → F → Dict (Entry F) → Dict (Entry F)
    upsert_credit now peer amount entries =
        if contains peer entries
        then update peer (credited now amount) entries
        else insert peer (new_entry now amount (decimal 3 1)) entries

    -- `none` is a ValueError.
    unfoldable pub credit_ledger : ℕ → Text → F → Ledger F → Option (Ledger F)
    credit_ledger now peer amount l =
        if not (is_finite amount) || le amount (zero_f ops)
        then none
        else some (with_entries (upsert_credit now peer amount l.entries) l)

    unfoldable pub held_row : ℕ → F → Entry F
    held_row now amount = record (new_entry now (zero_f ops) (decimal 3 1)) {
      held_balance = amount;
    }

    unfoldable pub hold_balance : ℕ → Text → F → Ledger F → Ledger F × Bool
    hold_balance now peer amount l =
        let entries =
          if contains peer l.entries
          then update peer (held amount) l.entries
          else insert peer (held_row now amount) l.entries in
        (with_entries entries l, true)

    unfoldable pub release_held : ℕ → Text → F → Ledger F → Ledger F × Bool
    release_held now peer amount l =
        let known = contains peer l.entries in
        let entries = if known then update peer (released now amount) l.entries else l.entries in
        (with_entries entries l, known)

    unfoldable pub return_held : ℕ → Text → F → Ledger F → Ledger F × Bool
    return_held now peer amount l =
        let known = contains peer l.entries in
        let entries = if known then update peer (returned now amount) l.entries else l.entries in
        (with_entries entries l, known)

    -- the test of `decay_stale_balances`
    unfoldable pub is_stale : ℕ → ℕ → Entry F → Bool
    is_stale now stale_seconds e =
        ltb (e.last_updated + stale_seconds) now && lt (decimal 1 2) (abs e.balance)

    unfoldable pub decayed : ℕ → F → ℕ → Entry F → Entry F
    decayed now decay_rate stale_seconds e =
        if is_stale now stale_seconds e
        then record e { balance = mul e.balance (sub (decimal 1 0) decay_rate) }
        else e

    unfoldable pub decay_all : ℕ → F → ℕ → Dict (Entry F) → Dict (Entry F) × ℕ
    decay_all now decay_rate stale_seconds [] = ([], 0)
    decay_all now decay_rate stale_seconds ((k, e) ∷ entries) =
        let (entries', n) = decay_all now decay_rate stale_seconds entries in
        (
          (k, decayed now decay_rate stale_seconds e) ∷ entries',
          if is_stale now stale_seconds e then suc n else n,
        )

    unfoldable pub decay_stale_balances : ℕ → F → ℕ → Ledger F → Ledger F × ℕ
    decay_stale_balances now decay_rate stale_seconds l =
        let (entries, n) = decay_all now decay_rate stale_seconds l.entries in
        (with_entries entries l, n)

    unfoldable pub get_ledger_balance : Text → Ledger F → Option F
    get_ledger_balance peer l = elim (lookup peer l.entries) [
      | none ↦ none
      | some e ↦ some e.balance
    ]

    unfoldable pub check_sanctions : Text → Ledger F → Sanction
    check_sanctions peer l = elim (lookup peer l.entries) [
      | none ↦ clear
      | some e ↦
          if lt e.balance e.hard_limit
          then hard_block
          else if lt e.balance e.soft_limit
          then soft_warning
          else clear
    ]
