-- ===== src/Ledger/Tests.antt =====
-- A ledger of two peers, and the theorems at it.
use mathlib.Core.Logic.{◌≢◌}
use knarr.Prelude.{
  ℕ, suc, ◌≤◌, ◌≡◌, refl, Option, none, some, List, [], ◌∷◌, Text, text_eq, codes, arith, length,
  min, if◌then◌else◌,
}
use knarr.Prelude.Dict.{lookup, contains, IsDict}
use knarr.Commerce.Float.{zero_f, min_f}
use knarr.Commerce.Tenths.{tenths}
use knarr.Ledger.Defs
use knarr.Ledger.Defs.{
  Entry, Ledger, get_or_create_ledger_entry, max_ledger_entries, get_ledger_balance,
  check_sanctions, clear,
}
use knarr.Ledger.Calls
use knarr.Ledger.Calls.{
  Call, run, account, get_or_create, provider, consumer, credit, hold, release, decay,
}
use knarr.Ledger.Accounts.{run-account}
use knarr.Ledger.Capacity.{get_or_create-evicts, IsKeptOrEvicted}

program : Unit {0}
unfolding Defs.update Defs.with_entries Defs.new_entry Defs.note_key Defs.create_entry
    get_or_create_ledger_entry Defs.charged Defs.earned Defs.credited Defs.held Defs.released
    Defs.update_ledger_provider Defs.update_ledger_consumer Defs.upsert_credit Defs.credit_ledger
    Defs.held_row Defs.hold_balance Defs.release_held Defs.is_stale Defs.decayed Defs.decay_all
    Defs.decay_stale_balances get_ledger_balance check_sanctions Calls.apply run zero_f min_f
    text_eq
program = tt

abbrev alice : Text
alice = codes "a1"

abbrev bob : Text
bob = codes "b0"

no_id : Text → Option Text
no_id t = none

abbrev empty : Ledger ℕ
empty = record { entries = []; peer_keys = [] }

-- Alice has paid 5, is charged 2, and has 1 held and released; Bob earns 3 in between.
abbrev calls : List (ℕ × Call ℕ)
calls =
    (1, credit alice 50)
    ∷ (2, get_or_create bob 3)
    ∷ (3, provider alice 20)
    ∷ (4, consumer bob 30)
    ∷ (5, hold alice 10)
    ∷ (6, release alice 10)
    ∷ []

balance_of_alice : get_ledger_balance tenths alice (run tenths no_id calls empty) ≡ some 40
unfolding program no_id
balance_of_alice = refl

run-account_example :
    lookup alice (run tenths no_id calls empty).entries ≡ account tenths alice calls none
run-account_example = run-account tenths no_id calls alice empty (omega arith)

two_peers : Ledger ℕ
two_peers = run tenths no_id calls empty

two_peers-IsDict : IsDict two_peers.entries
unfolding two_peers program no_id
two_peers-IsDict = (refl, (refl, tt))

two_peers-fit : length two_peers.entries ≤ max_ledger_entries
unfolding two_peers program no_id
two_peers-fit = omega arith

other : alice ≢ codes "c2"
other = λ e. ground arith

get_or_create-evicts_example :
    (l' : Ledger ℕ) × (e : Entry ℕ) × (get_or_create_ledger_entry tenths no_id 9
        (codes "c2")
        3
        two_peers
      ≡ (l', e))
    × (lookup (codes "c2") l'.entries ≡ some e)
    × IsDict l'.entries
    × (length l'.entries ≡ (
        if contains (codes "c2") two_peers.entries
        then length two_peers.entries
        else min max_ledger_entries (suc (length two_peers.entries))))
    × IsKeptOrEvicted (codes "c2") alice two_peers.entries l'.entries
get_or_create-evicts_example =
    get_or_create-evicts tenths no_id 9 (codes "c2") alice 3 two_peers two_peers-IsDict
      two_peers-fit other
