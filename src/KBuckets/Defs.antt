-- ===== src/KBuckets/Defs.antt =====
-- `class KBucketTable`: the buckets, the pending evictions and the closest peers. The monotonic
-- clock is an argument `now`, in ticks. A method returns the table, also where it raises.
use Prim.Native.Nat.{bit_xor}
use knarr.Prelude.{
  ℕ, zero, suc, ◌+◌, ◌-◌, Bool, not, Option, none, some, List, [], ◌∷◌, ◌++◌, Text, text_eq, ltb,
  leb, ◌==◌, if◌then◌else◌, length, get_elem?, set, take, keep,
}
use knarr.Prelude.Dict.{Dict, lookup, insert, erase}
use knarr.Prelude.Hex.{from_hex, strip, bit_length}

pub record Peer : Type 0 where
  pub node_id : Text
  pub host : Text
  pub port : ℕ
  pub last_seen : ℕ

-- the candidate that waits for the place of the oldest peer
pub record Candidate : Type 0 where
  pub candidate_id : Text
  pub host : Text
  pub port : ℕ
  pub added_at : ℕ

-- a row of the table `kad_routing`; `last_seen` is wall-clock time
pub record Row : Type 0 where
  pub node_id : Text
  pub host : Text
  pub port : ℕ
  pub bucket : ℕ
  pub last_seen : ℕ

abbrev pub Bucket : Type 0
Bucket = List Peer

-- `db` is none without a `db_path`.
pub record Table : Type 0 where
  pub local_id : Text
  pub local_id_int : ℕ
  pub k : ℕ
  pub buckets : List Bucket
  pub pending_evictions : Dict Candidate
  pub db : Option (List Row)
  pub last_checkpoint : ℕ

pub data Error : Type 0 where
  value_error index_error : Error

pub data Result : Type 0 where
  ok : Table → Result
  raise : Error → Table → Result

infixl 5 ◌>>=◌
abbrev pub ◌>>=◌ : Result → (Table → Result) → Result
ok t >>= f = f t
raise e t >>= f = raise e t

abbrev pub table_of : Result → Table
table_of (ok t) = t
table_of (raise e t) = t

unfoldable pub bucket_count : ℕ
bucket_count = 256

unfoldable pub max_same_ip_per_bucket : ℕ
max_same_ip_per_bucket = 2

-- `_get_distance`; `none` is a ValueError
unfoldable pub get_distance : Table → Text → Option ℕ
get_distance t node_id = elim (from_hex node_id) [
  | none ↦ none
  | some peer_id_int ↦ some (bit_xor t.local_id_int peer_id_int)
]

-- `_get_bucket_index`; `none` is -1
unfoldable pub get_bucket_index : ℕ → Option ℕ
get_bucket_index zero = none
get_bucket_index (suc d) = some (bit_length (suc d) - 1)

unfoldable pub normalize_host : Text → Text
normalize_host host = strip host

unfoldable pub same_host : Text → Peer → Bool
same_host host p = text_eq (normalize_host p.host) (normalize_host host)

unfoldable pub count_ip_in_bucket : Bucket → Text → ℕ
count_ip_in_bucket bucket host = length (keep (same_host host) bucket)

-- `bucket.pop(i)` at the first peer with the id
unfoldable pub pop_peer : Text → Bucket → Option (Peer × Bucket)
pop_peer node_id [] = none
pop_peer node_id (p ∷ bucket) =
    let later : Option (Peer × Bucket) = elim (pop_peer node_id bucket) [
      | none ↦ none
      | some (q, rest) ↦ some (q, p ∷ rest)
    ] in
    if text_eq p.node_id node_id then some (p, bucket) else later

unfoldable pub set_bucket : ℕ → Bucket → Table → Table
set_bucket i bucket t = record t { buckets = set t.buckets i bucket }

-- What `add_peer` does with the bucket of the new peer, from the search for the id on.
unfoldable pub add_to_bucket : ℕ → Text → Text → ℕ → ℕ → Bucket → Table → Result
add_to_bucket now node_id host port i bucket t =
    let fresh : Peer = record { node_id = node_id; host = host; port = port; last_seen = now } in
    elim (pop_peer node_id bucket) [
      | some (old, rest) ↦ ok (set_bucket i (rest ++ fresh ∷ []) t)
      | none ↦
          if leb max_same_ip_per_bucket (count_ip_in_bucket bucket host)
          then ok t
          else if ltb (length bucket) t.k
          then ok (set_bucket i (bucket ++ fresh ∷ []) t)
          else elim bucket [
            | [] ↦ raise index_error t
            | oldest ∷ _ ↦ ok (record t {
              pending_evictions =
                  insert oldest.node_id
                    (record { candidate_id = node_id; host = host; port = port; added_at = now })
                    t.pending_evictions;
            })
          ]
    ]

-- Runs `f` on the bucket that an id belongs to: nothing happens for the local id.
unfoldable pub at_bucket : Text → (ℕ → Bucket → Table → Result) → Table → Result
at_bucket node_id f t = elim (get_distance t node_id) [
  | none ↦ raise value_error t
  | some distance ↦ elim (get_bucket_index distance) [
    | none ↦ ok t
    | some i ↦ elim (get_elem? t.buckets i) [
      | none ↦ raise index_error t
      | some bucket ↦ f i bucket t
    ]
  ]
]

unfoldable pub add_peer : ℕ → Text → Text → ℕ → Table → Result
add_peer now node_id host port t =
    if text_eq node_id t.local_id
    then ok t
    else at_bucket node_id (add_to_bucket now node_id host port) t

-- DELETE FROM kad_routing WHERE node_id = ?
unfoldable pub delete_row : Text → Option (List Row) → Option (List Row)
delete_row node_id none = none
delete_row node_id (some rows) = some (keep (λ r. not (text_eq r.node_id node_id)) rows)

unfoldable pub delete_peer_from_db : Text → Table → Table
delete_peer_from_db node_id t = record t { db = delete_row node_id t.db }

-- the clean-up of the pending evictions in `remove_peer`
unfoldable pub drop_evictions : Text → Dict Candidate → Dict Candidate
drop_evictions node_id pending =
    keep (λ e. not (text_eq e.1.candidate_id node_id)) (erase node_id pending)

unfoldable pub remove_from_bucket : Text → ℕ → Bucket → Table → Result
remove_from_bucket node_id i bucket t = elim (pop_peer node_id bucket) [
  | none ↦ ok t
  | some (old, rest) ↦
      let t' = delete_peer_from_db node_id (set_bucket i rest t) in
      ok (record t' { pending_evictions = drop_evictions node_id t'.pending_evictions })
]

unfoldable pub remove_peer : Text → Table → Result
remove_peer node_id t = at_bucket node_id (remove_from_bucket node_id) t

unfoldable pub resolve_evict_oldest : ℕ → Text → Table → Result
resolve_evict_oldest now oldest t = elim (lookup oldest t.pending_evictions) [
  | none ↦ ok t
  | some c ↦
      remove_peer oldest (record t { pending_evictions = erase oldest t.pending_evictions })
      >>= add_peer now c.candidate_id c.host c.port
]

-- the peer answered: it moves to the tail
unfoldable pub touch_in_bucket : ℕ → Text → ℕ → Bucket → Table → Result
touch_in_bucket now oldest i bucket t = elim (pop_peer oldest bucket) [
  | none ↦ ok t
  | some (p, rest) ↦
      ok (set_bucket i (rest ++ record p { node_id = oldest; last_seen = now } ∷ []) t)
]

unfoldable pub resolve_keep_oldest : ℕ → Text → Table → Result
resolve_keep_oldest now oldest t = elim (lookup oldest t.pending_evictions) [
  | none ↦ ok t
  | some c ↦
      at_bucket oldest (touch_in_bucket now oldest)
        (record t { pending_evictions = erase oldest t.pending_evictions })
]

-- an entry of the answer of `get_closest`
pub record Found : Type 0 where
  pub node_id : Text
  pub host : Text
  pub port : ℕ
  pub distance : ℕ

-- the loops over the buckets and their peers; `none` is a ValueError
unfoldable pub measure : ℕ → Bucket → Option (List Found)
measure target [] = some []
measure target (p ∷ peers) = elim (from_hex p.node_id) [
  | none ↦ none
  | some n ↦ elim (measure target peers) [
    | none ↦ none
    | some rest ↦ some (
        record { node_id = p.node_id; host = p.host; port = p.port; distance = bit_xor target n }
        ∷ rest)
  ]
]

unfoldable pub all_peers : List Bucket → Bucket
all_peers [] = []
all_peers (b ∷ bs) = b ++ all_peers bs

-- `list.sort(key=distance)`, which is stable
unfoldable pub insert_sorted : Found → List Found → List Found
insert_sorted x [] = x ∷ []
insert_sorted x (y ∷ ys) = if leb x.distance y.distance then x ∷ y ∷ ys else y ∷ insert_sorted x ys

unfoldable pub sort : List Found → List Found
sort [] = []
sort (x ∷ xs) = insert_sorted x (sort xs)

unfoldable pub get_closest : Text → ℕ → Table → Option (List Found)
get_closest target_id count t =
    if not (length target_id == 64) then some [] else elim (from_hex target_id) [
      | none ↦ some []
      | some target ↦ elim (measure target (all_peers t.buckets)) [
        | none ↦ none
        | some found ↦ some (take count (sort found))
      ]
    ]

-- `get_bucket_stats`: the index and the size of each bucket that is not empty
unfoldable pub bucket_stats_from : ℕ → List Bucket → List (ℕ × ℕ)
bucket_stats_from i [] = []
bucket_stats_from i ([] ∷ bs) = bucket_stats_from (i + 1) bs
bucket_stats_from i ((p ∷ ps) ∷ bs) = (i, length (p ∷ ps)) ∷ bucket_stats_from (i + 1) bs

unfoldable pub get_bucket_stats : Table → List (ℕ × ℕ)
get_bucket_stats t = bucket_stats_from 0 t.buckets
