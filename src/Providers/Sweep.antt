-- ===== src/Providers/Sweep.antt =====
-- The loops of `class ProviderCache` over all its records: loading, the sweep of expired records,
-- the queries and the statistics.
use knarr.Prelude.{
  ℕ, ◌+◌, ◌-◌, ◌*◌, max, Bool, not, Option, none, some, List, [], ◌∷◌, ◌++◌, Text, text_eq, ltb,
  leb, if◌then◌else◌, keep, length,
}
use knarr.Prelude.Dict.{Dict, lookup, contains, insert}
use knarr.Providers.Defs.{
  Provider, Row, HeapEntry, Records, Cache, heappush, delete_from_db, with_key, find_record,
}

-- `now - record["stored_at"] <= record["ttl"]`
unfoldable pub is_fresh : ℕ → Provider → Bool
is_fresh now p = leb now (p.stored_at + p.ttl)

-- the records of a dict of providers, in its order
unfoldable pub values : Dict Provider → List Provider
values [] = []
values ((node_id, p) ∷ providers) = p ∷ values providers

unfoldable pub all_records : Records → List Provider
all_records [] = []
all_records ((key, providers) ∷ c) = values providers ++ all_records c

-- the time of a stored row on the monotonic clock: `now - age`
unfoldable pub to_monotonic : ℕ → ℕ → ℕ → ℕ
to_monotonic now wall_now stored_at_wall = (now + stored_at_wall) - wall_now

-- a row that is loaded
unfoldable pub load_row : ℕ → ℕ → Row → Cache → Cache
load_row now wall_now row t =
    let key = row.skill_key_hash in
    let p = record row.provider { stored_at = to_monotonic now wall_now row.provider.stored_at } in
    elim (lookup key t.cache) [
      | none ↦ t
      | some providers ↦ record t {
        cache = insert key (insert p.node_id p providers) t.cache;
        total_records =
            if contains p.node_id providers then t.total_records else t.total_records + 1;
        evict_heap =
            heappush (record { stored_at = p.stored_at; key = key; node_id = p.node_id })
              t.evict_heap;
      }
    ]

-- `_load_from_db`: expired rows are left out, and the loop breaks at the capacity
unfoldable pub load_from_db : ℕ → ℕ → List Row → Cache → Cache
load_from_db now wall_now [] t = t
load_from_db now wall_now (row ∷ rows) t =
    let opened = with_key row.skill_key_hash t in
    let skipped = load_from_db now wall_now rows t in
    let loaded = load_from_db now wall_now rows (load_row now wall_now row opened) in
    if not (is_fresh wall_now row.provider)
    then skipped
    else elim (find_record row.skill_key_hash row.provider.node_id opened.cache) [
      | some r ↦ loaded
      | none ↦ if leb opened.max_records opened.total_records then opened else loaded
    ]

-- `__init__`, where the rows are those of the store, if there is one
unfoldable pub init : ℕ → ℕ → ℕ → Option (List Row) → Cache
init now wall_now max_records db =
    let t : Cache = record {
      max_records = max_records;
      cache = [];
      total_records = 0;
      evict_heap = [];
      db = db;
    } in
    elim db [ none ↦ t | some rows ↦ load_from_db now wall_now rows t ]

-- the records of a key that are left, the node ids in its dict being distinct
unfoldable pub keep_fresh : ℕ → Dict Provider → Dict Provider
keep_fresh now [] = []
keep_fresh now ((node_id, p) ∷ providers) =
    if is_fresh now p then (node_id, p) ∷ keep_fresh now providers else keep_fresh now providers

-- how many records of a key expire, and what is left of the rows
unfoldable pub count_expired : ℕ → Dict Provider → ℕ
count_expired now [] = 0
count_expired now ((node_id, p) ∷ providers) =
    if is_fresh now p then count_expired now providers else 1 + count_expired now providers

unfoldable pub delete_expired : ℕ → Text → Dict Provider → Option (List Row) → Option (List Row)
delete_expired now key [] db = db
delete_expired now key ((node_id, p) ∷ providers) db =
    delete_expired now key providers (if is_fresh now p then db else delete_from_db key node_id db)

-- the sweep over the keys: what is left, how many records expired, and the rows
unfoldable pub sweep : ℕ → Records → Records
sweep now [] = []
sweep now ((key, providers) ∷ c) = elim (keep_fresh now providers) [
  | [] ↦ sweep now c
  | p ∷ ps ↦ (key, p ∷ ps) ∷ sweep now c
]

unfoldable pub sweep_count : ℕ → Records → ℕ
sweep_count now [] = 0
sweep_count now ((key, providers) ∷ c) = count_expired now providers + sweep_count now c

unfoldable pub sweep_db : ℕ → Records → Option (List Row) → Option (List Row)
sweep_db now [] db = db
sweep_db now ((key, providers) ∷ c) db = sweep_db now c (delete_expired now key providers db)

unfoldable pub push_all : Text → Dict Provider → List HeapEntry → List HeapEntry
push_all key [] heap = heap
push_all key ((node_id, p) ∷ providers) heap =
    heappush (record { stored_at = p.stored_at; key = key; node_id = node_id })
      (push_all key providers heap)

-- the new heap of the compaction
unfoldable pub rebuild_heap : Records → List HeapEntry
rebuild_heap [] = []
rebuild_heap ((key, providers) ∷ c) = push_all key providers (rebuild_heap c)

unfoldable pub evict_expired : ℕ → Cache → Cache
evict_expired now t =
    let cache = sweep now t.cache in
    let total = t.total_records - sweep_count now t.cache in
    record t {
      cache = cache;
      total_records = total;
      evict_heap =
          if ltb (3 * max total 1) (length t.evict_heap) then rebuild_heap cache else t.evict_heap;
      db = sweep_db now t.cache t.db;
    }

module _ (get_key : Text → Text) where
  unfoldable pub get_providers : ℕ → Text → Cache → List Provider
  get_providers now skill_key t = elim (lookup (get_key skill_key) t.cache) [
    | none ↦ []
    | some providers ↦ keep (is_fresh now) (values providers)
  ]

-- the texts "all" and "name", and any other
pub data QueryType : Type 0 where
  all name other : QueryType

-- `search`, for a way to lower a text, `str.lower`
unfoldable pub search : (Text → Text) → ℕ → Text → QueryType → Cache → List Provider
search lower now query_value all t = keep (is_fresh now) (all_records t.cache)
search lower now query_value name t =
    keep (is_fresh now)
      (keep (λ p. text_eq (lower p.skill_key) (lower query_value)) (all_records t.cache))
search lower now query_value other t = []

pub record Stats : Type 0 where
  pub total_records : ℕ
  pub unique_skills : ℕ
  pub unique_providers : ℕ

-- the number of distinct texts of a list
unfoldable pub node_ids : Records → Dict ℕ
node_ids [] = []
node_ids ((key, providers) ∷ c) = add_all providers (node_ids c)
  where
    add_all : Dict Provider → Dict ℕ → Dict ℕ
    add_all [] seen = seen
    add_all ((node_id, p) ∷ ps) seen = insert node_id 0 (add_all ps seen)

unfoldable pub stats : Cache → Stats
stats t = record {
  total_records = t.total_records;
  unique_skills = length t.cache;
  unique_providers = length (node_ids t.cache);
}
