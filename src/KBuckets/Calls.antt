-- ===== src/KBuckets/Calls.antt =====
-- Sequences of calls on a routing table.
use knarr.Prelude.{ℕ, Option, List, [], ◌∷◌, Text}
use knarr.KBuckets.Defs.{
  Table, Row, table_of, add_peer, remove_peer, resolve_evict_oldest, resolve_keep_oldest,
}
use knarr.KBuckets.Store.{empty_table, load_rows}
use knarr.KBuckets.Invariant.{
  IsValid, add_peer-IsValid, remove_peer-IsValid, resolve_evict_oldest-IsValid,
  resolve_keep_oldest-IsValid,
}
use knarr.KBuckets.Startup.{empty_table-IsValid, load_rows-IsValid}

-- the methods that change the buckets, with their arguments and the clock
pub data Call : Type 0 where
  add : ℕ → Text → Text → ℕ → Call
  remove : Text → Call
  evict_oldest keep_oldest : ℕ → Text → Call
  load : ℕ → List Row → Call

-- the table after a call, also where it raises
abbrev pub call : Call → Table → Table
call (add now node_id host port) t = table_of (add_peer now node_id host port t)
call (remove node_id) t = table_of (remove_peer node_id t)
call (evict_oldest now oldest) t = table_of (resolve_evict_oldest now oldest t)
call (keep_oldest now oldest) t = table_of (resolve_keep_oldest now oldest t)
call (load now rows) t = table_of (load_rows now rows t)

abbrev pub run : List Call → Table → Table
run [] t = t
run (c ∷ cs) t = run cs (call c t)

call-IsValid : (c : Call) (t : Table) → IsValid t → IsValid (call c t)
call-IsValid (add now node_id host port) t v = add_peer-IsValid now node_id host port t v
call-IsValid (remove node_id) t v = remove_peer-IsValid node_id t v
call-IsValid (evict_oldest now oldest) t v = resolve_evict_oldest-IsValid now oldest t v
call-IsValid (keep_oldest now oldest) t v = resolve_keep_oldest-IsValid now oldest t v
call-IsValid (load now rows) t v = load_rows-IsValid now rows t v

calls-IsValid : (cs : List Call) (t : Table) → IsValid t → IsValid (run cs t)
calls-IsValid [] t v = v
calls-IsValid (c ∷ cs) t v = calls-IsValid cs (call c t) (call-IsValid c t v)

-- Whatever is called on a new table, also where calls raise, it stays valid: 256 buckets, each peer
-- in the bucket of its distance, no id twice, and at most k peers to a bucket.
pub run-IsValid :
    (now : ℕ) (local_id : Text) (local k : ℕ) (db : Option (List Row)) (cs : List Call)
    → IsValid (run cs (empty_table now local_id local k db))
run-IsValid now local_id local k db cs =
    calls-IsValid cs (empty_table now local_id local k db)
      (empty_table-IsValid now local_id local k db)
