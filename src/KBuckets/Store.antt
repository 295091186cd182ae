-- ===== src/KBuckets/Store.antt =====
-- The SQLite persistence of `class KBucketTable`. The store is the list of the rows in the order
-- of their insertion; errors of SQLite, which the code ignores, do not occur.
use knarr.Prelude.{
  ℕ, ◌+◌, ◌-◌, not, ◌&&◌, Option, none, some, List, [], ◌∷◌, ◌++◌, map, Text, text_eq, ltb,
  if◌then◌else◌, keep, replicate,
}
use knarr.Prelude.Hex.{from_hex}
use knarr.KBuckets.Defs.{
  Peer, Row, Bucket, Table, value_error, Result, ok, raise, bucket_count, add_peer,
}

unfoldable pub checkpoint_interval : ℕ
checkpoint_interval = 300

-- INSERT OR REPLACE: the row with the same primary key goes
unfoldable pub upsert_row : Row → List Row → List Row
upsert_row r rows = keep (λ s. not (text_eq s.node_id r.node_id)) rows ++ r ∷ []

-- monotonic time to wall-clock time; subtraction stops at zero as `max(0.0, …)` does
unfoldable pub to_wall_clock : ℕ → ℕ → ℕ → ℕ
to_wall_clock now_real now_mono last_seen = now_real - (now_mono - last_seen)

unfoldable pub row_of : ℕ → ℕ → ℕ → Peer → Row
row_of now_real now_mono i p = record {
  node_id = p.node_id;
  host = p.host;
  port = p.port;
  bucket = i;
  last_seen = to_wall_clock now_real now_mono p.last_seen;
}

-- `_save_peer_to_db`
unfoldable pub save_peer_to_db : ℕ → ℕ → Text → Text → ℕ → ℕ → ℕ → Table → Table
save_peer_to_db now_real now_mono node_id host port i last_seen t = elim t.db [
  | none ↦ t
  | some rows ↦ record t {
    db = some (
        upsert_row
          (record {
            node_id = node_id;
            host = host;
            port = port;
            bucket = i;
            last_seen = to_wall_clock now_real now_mono last_seen;
          })
          rows);
  }
]

-- the loops of `_flush_to_db`
unfoldable pub insert_rows : List Row → List Row → List Row
insert_rows [] rows = rows
insert_rows (r ∷ rs) rows = insert_rows rs (upsert_row r rows)

unfoldable pub rows_from : ℕ → ℕ → ℕ → List Bucket → List Row
rows_from now_real now_mono i [] = []
rows_from now_real now_mono i (b ∷ bs) =
    map (row_of now_real now_mono i) b ++ rows_from now_real now_mono (i + 1) bs

-- `_flush_to_db`, which `save_on_shutdown`, `checkpoint` and `close` call
unfoldable pub flush_to_db : ℕ → ℕ → Table → Table
flush_to_db now_real now_mono t = elim t.db [
  | none ↦ t
  | some rows ↦ record t { db = some (insert_rows (rows_from now_real now_mono 0 t.buckets) []) }
]

unfoldable pub maybe_checkpoint : ℕ → ℕ → Table → Table
maybe_checkpoint now_real now_mono t = elim t.db [
  | none ↦ t
  | some rows ↦
      if ltb (now_mono - t.last_checkpoint) checkpoint_interval
      then t
      else flush_to_db now_real now_mono (record t { last_checkpoint = now_mono })
]

-- the loop of `_load_from_db`: a ValueError ends it, an IndexError leaves the constructor
unfoldable pub load_rows : ℕ → List Row → Table → Result
load_rows now [] t = ok t
load_rows now (r ∷ rs) t =
    if ltb r.bucket bucket_count && not (text_eq r.node_id t.local_id)
    then (elim (add_peer now r.node_id r.host r.port t) [
      | ok t' ↦ load_rows now rs t'
      | raise value_error t' ↦ ok t'
      | raise e t' ↦ raise e t'
    ])
    else load_rows now rs t

-- `KBucketTable.__init__`
unfoldable pub empty_table : ℕ → Text → ℕ → ℕ → Option (List Row) → Table
empty_table now local_id local_id_int k db = record {
  local_id = local_id;
  local_id_int = local_id_int;
  k = k;
  buckets = replicate bucket_count [];
  pending_evictions = [];
  db = db;
  last_checkpoint = now;
}

-- `none` is a ValueError for the local id
unfoldable pub init : ℕ → Text → ℕ → Option (List Row) → Option Result
init now local_id k db = elim (from_hex local_id) [
  | none ↦ none
  | some n ↦
      let t = empty_table now local_id n k db in
      some (elim db [ none ↦ ok t | some rows ↦ load_rows now rows t ])
]
