-- ===== src/Providers/Tests.antt =====
-- A cache of one record that is full, one that is empty, and the theorems at them.
use knarr.Prelude.{
  ℕ, ◌≤◌, ◌≡◌, ◌≢◌, ◌*◌, max, refl, suc, true, none, some, [], ◌∷◌, Text, text_eq, arith, length,
  All,
}
use knarr.Prelude.Dict.{lookup, erase}
use knarr.Providers.Defs
use knarr.Providers.Defs.{Provider, Row, HeapEntry, Cache, stored, key_error}
use knarr.Providers.Sweep
use knarr.Providers.Count.{size}
use knarr.Providers.Invariant.{IsValid}
use knarr.Providers.Storing.{store-IsValid, store-key_error}
use knarr.Providers.Expiry.{evict_expired-fresh}

program : Unit {0}
unfolding text_eq size Defs.find_record Defs.delete_record Defs.delete_any Defs.evict_from
    Defs.evict_oldest Defs.with_key Defs.make_room Defs.put_record Defs.store Defs.remove
    Defs.heappush Defs.delete_from_db Defs.write_to_db Defs.entry_lt Defs.text_lt Sweep.is_fresh
    Sweep.keep_fresh Sweep.sweep Sweep.count_expired Sweep.sweep_count Sweep.evict_expired
    Sweep.load_row Sweep.load_from_db Sweep.init Sweep.to_monotonic
program = tt

-- the hash that the tests take
abbrev key_of : Text → Text
key_of t = b'#' ∷ t

abbrev skill : Text
skill = b's' ∷ []

abbrev node_a : Text
node_a = b'a' ∷ []

abbrev node_b : Text
node_b = b'b' ∷ []

abbrev host : Text
host = b'h' ∷ []

abbrev provider : Text → ℕ → Provider
provider node_id stored_at = record {
  node_id = node_id;
  host = host;
  port = 9000;
  sidecar_port = 9001;
  stored_at = stored_at;
  ttl = 10;
  skill_key = skill;
}

abbrev empty : Cache
empty = record { max_records = 1; cache = []; total_records = 0; evict_heap = []; db = none }

abbrev entry_a : HeapEntry
entry_a = record { stored_at = 5; key = key_of skill; node_id = node_a }

abbrev full : Cache
full = record {
  max_records = 1;
  cache = (key_of skill, (node_a, provider node_a 5) ∷ []) ∷ [];
  total_records = 1;
  evict_heap = entry_a ∷ [];
  db = none;
}

abbrev row_a : Row
row_a = record { skill_key_hash = key_of skill; provider = provider node_a 5 }

foreign : node_a ≢ node_b
foreign = ground arith

empty-IsValid : IsValid empty
empty-IsValid = record {
  keys = tt;
  counted = in_empty;
  room = ground arith;
  bounded = ground arith;
}
  where
    in_empty : size [] ≡ 0
    in_empty = unfold size in refl

full-IsValid : IsValid full
full-IsValid = record {
  keys = (refl, tt);
  counted = in_full;
  room = ground arith;
  bounded = ground arith;
}
  where
    in_full : size full.cache ≡ 1
    in_full = unfold size in refl

store-full : Defs.store key_of 5 0 skill node_a host 9000 9001 10 empty ≡ stored full
unfolding program
store-full = refl

store-IsValid_example :
    IsValid full
    × (full.max_records ≡ 1)
    × (Defs.find_record (key_of skill) node_a full.cache ≡ some (provider node_a 5))
store-IsValid_example =
    store-IsValid key_of 5 0 skill node_a host 9000 9001 10 empty full empty-IsValid store-full

store-key_error_example :
    let t' : Cache = record full { cache = erase (key_of skill) full.cache; evict_heap = [] } in
    (Defs.store key_of 7 0 skill node_b host 9000 9001 10 full
      ≡ key_error (record t' { db = Defs.delete_from_db (key_of skill) node_a none }))
    × (Defs.find_record (key_of skill) node_a t'.cache ≡ none)
    × (suc (size t'.cache) ≡ t'.total_records)
store-key_error_example =
    store-key_error key_of 7 0 skill node_b host 9000 9001 10 node_a (provider node_a 5) [] full
      full-IsValid (ground arith) is_only foreign refl
  where
    is_only : lookup (key_of skill) full.cache ≡ some ((node_a, provider node_a 5) ∷ [])
    is_only = unfold text_eq in refl

evict_expired-fresh_example :
    let t' = Sweep.evict_expired 16 full in
    IsValid t'
    × All (λ p. Sweep.is_fresh 16 p ≡ true) (Sweep.all_records t'.cache)
    × (length t'.evict_heap ≤ 3 * max t'.total_records 1)
evict_expired-fresh_example = evict_expired-fresh 16 full full-IsValid

find_a : Defs.find_record (key_of skill) node_a full.cache ≡ some (provider node_a 5)
unfolding program
find_a = refl

fresh_a : Sweep.is_fresh 15 (provider node_a 5) ≡ true
unfolding program
fresh_a = refl

-- the expired record goes, and its key with it
sweep_full : (Sweep.evict_expired 16 full).cache ≡ []
unfolding program
sweep_full = refl
