-- ===== src/Providers/Defs.antt =====
-- `class ProviderCache` of plugins/01-kademlia/providers.py: its state, the store of a record with
-- its eviction, and the removal of one. Times are natural numbers, counted in a fixed unit; the
-- monotonic clock counts from before any record was stored. SQLite's errors, which the code
-- ignores, do not occur.
use knarr.Prelude.{
  ℕ, ◌+◌, ◌-◌, Bool, true, false, not, ◌&&◌, ◌||◌, Option, none, some, List, [], ◌∷◌, ◌++◌, Text,
  text_eq, ltb, leb, ◌==◌, if◌then◌else◌, keep,
}
use knarr.Prelude.Dict.{Dict, lookup, contains, insert, erase}

pub record Provider : Type 0 where
  pub node_id : Text
  pub host : Text
  pub port : ℕ
  pub sidecar_port : ℕ
  pub stored_at : ℕ
  pub ttl : ℕ
  pub skill_key : Text

-- a row of `kad_providers`, whose `stored_at` is wall-clock time
pub record Row : Type 0 where
  pub skill_key_hash : Text
  pub provider : Provider

-- an entry of the heap
pub record HeapEntry : Type 0 where
  pub stored_at : ℕ
  pub key : Text
  pub node_id : Text

abbrev pub Records : Type 0
Records = Dict (Dict Provider)

-- The heap is the list of its entries in the order in which `heappop` gives them.
pub record Cache : Type 0 where
  pub max_records : ℕ
  pub cache : Records
  pub total_records : ℕ
  pub evict_heap : List HeapEntry
  pub db : Option (List Row)

-- the order of tuples, and of strings by their code points
unfoldable pub text_lt : Text → Text → Bool
text_lt [] [] = false
text_lt [] (c ∷ t) = true
text_lt (c ∷ s) [] = false
text_lt (c ∷ s) (d ∷ t) = if c == d then text_lt s t else ltb c d

unfoldable pub entry_lt : HeapEntry → HeapEntry → Bool
entry_lt a b =
    ltb a.stored_at b.stored_at
    || ((a.stored_at == b.stored_at)
        && (text_lt a.key b.key || (text_eq a.key b.key && text_lt a.node_id b.node_id)))

unfoldable pub heappush : HeapEntry → List HeapEntry → List HeapEntry
heappush e [] = e ∷ []
heappush e (f ∷ heap) = if entry_lt f e then f ∷ heappush e heap else e ∷ f ∷ heap

abbrev pub same_row : Text → Text → Row → Bool
same_row key node_id row = text_eq row.skill_key_hash key && text_eq row.provider.node_id node_id

-- `_delete_from_db`
unfoldable pub delete_from_db : Text → Text → Option (List Row) → Option (List Row)
delete_from_db key node_id none = none
delete_from_db key node_id (some rows) = some (keep (λ row. not (same_row key node_id row)) rows)

-- `_write_to_db`: INSERT OR REPLACE, with the wall-clock time
unfoldable pub write_to_db : ℕ → Text → Provider → Option (List Row) → Option (List Row)
write_to_db wall_now key p none = none
write_to_db wall_now key p (some rows) = some (
    keep (λ row. not (same_row key p.node_id row)) rows
    ++ record { skill_key_hash = key; provider = record p { stored_at = wall_now } } ∷ [])

-- `self.cache[key][node_id]`
unfoldable pub find_record : Text → Text → Records → Option Provider
find_record key node_id c = elim (lookup key c) [
  | none ↦ none
  | some providers ↦ lookup node_id providers
]

-- `del self.cache[key][node_id]`, and the key's dict with it if it is empty then
unfoldable pub delete_record : Text → Text → Records → Records
delete_record key node_id c = elim (lookup key c) [
  | none ↦ c
  | some providers ↦ elim (erase node_id providers) [
    | [] ↦ erase key c
    | p ∷ rest ↦ insert key (p ∷ rest) c
  ]
]

-- the linear scan that `_evict_oldest` falls back to
unfoldable pub delete_any : Records → Option Records
delete_any [] = none
delete_any ((key, []) ∷ c) = elim (delete_any c) [ none ↦ none | some c' ↦ some ((key, []) ∷ c') ]
delete_any ((key, p ∷ []) ∷ c) = some c
delete_any ((key, p ∷ q ∷ ps) ∷ c) = some ((key, q ∷ ps) ∷ c)

-- the loop of `_evict_oldest`, over the heap's entries
unfoldable pub evict_from : List HeapEntry → Cache → Cache
evict_from [] t = elim (delete_any t.cache) [
  | none ↦ record t { evict_heap = [] }
  | some c ↦ record t { cache = c; total_records = t.total_records - 1; evict_heap = [] }
]
evict_from (e ∷ heap) t =
    let rest = evict_from heap t in
    elim (find_record e.key e.node_id t.cache) [
      | none ↦ rest
      | some r ↦
          if r.stored_at == e.stored_at
          then record t {
            cache = delete_record e.key e.node_id t.cache;
            total_records = t.total_records - 1;
            evict_heap = heap;
            db = delete_from_db e.key e.node_id t.db;
          }
          else rest
    ]

unfoldable pub evict_oldest : Cache → Cache
evict_oldest t = evict_from t.evict_heap t

-- what `store` comes to: a KeyError leaves the cache as it was then
pub data Stored : Type 0 where
  stored key_error : Cache → Stored

-- `if key not in self.cache: self.cache[key] = {}`
unfoldable pub with_key : Text → Cache → Cache
with_key key t = if contains key t.cache then t else record t { cache = insert key [] t.cache }

-- room for a record of a new node, which is counted
unfoldable pub make_room : Text → Text → Cache → Cache
make_room key node_id t = elim (find_record key node_id t.cache) [
  | some r ↦ t
  | none ↦
      let t' = if leb t.max_records t.total_records then evict_oldest t else t in
      record t' { total_records = t'.total_records + 1 }
]

-- from `self.cache[key][node_id] = record` on
unfoldable pub put_record : ℕ → Text → Provider → Cache → Stored
put_record wall_now key p t = elim (lookup key t.cache) [
  | none ↦ key_error t
  | some providers ↦ stored (record t {
    cache = insert key (insert p.node_id p providers) t.cache;
    evict_heap =
        heappush (record { stored_at = p.stored_at; key = key; node_id = p.node_id }) t.evict_heap;
    db = write_to_db wall_now key p t.db;
  })
]

-- The hash of a skill key, `_get_key`, is a parameter: the SHA-256 digest in hexadecimal.
module _ (get_key : Text → Text) where
  unfoldable pub store : ℕ → ℕ → Text → Text → Text → ℕ → ℕ → ℕ → Cache → Stored
  store now wall_now skill_key node_id host port sidecar_port ttl t =
      let key = get_key skill_key in
      put_record wall_now key
        (record {
          node_id = node_id;
          host = host;
          port = port;
          sidecar_port = sidecar_port;
          stored_at = now;
          ttl = ttl;
          skill_key = skill_key;
        })
        (make_room key node_id (with_key key t))

  -- the cache, and whether there was such a record
  unfoldable pub remove : Text → Text → Cache → Cache × Bool
  remove skill_key node_id t =
      let key = get_key skill_key in
      elim (find_record key node_id t.cache) [
        | none ↦ (t, false)
        | some r ↦ (
          record t {
            cache = delete_record key node_id t.cache;
            total_records = t.total_records - 1;
            db = delete_from_db key node_id t.db;
          },
          true,
        )
      ]
