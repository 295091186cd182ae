-- ===== src/KBuckets/Startup.antt =====
-- A new table, and one that is loaded from the store.
use knarr.Prelude.{
  ℕ, zero, suc, ◌≡◌, inl, inr, Option, some, List, [], ◌∷◌, arith, Text, text_eq, ltb, get_elem?,
  Bool-cases, replicate, length-replicate, ◌&&◌, not,
}
use mathlib.Core.Path.{subst}
use knarr.KBuckets.Defs.{
  Row, value_error, index_error, Bucket, Table, Result, ok, raise, table_of, add_peer, bucket_count,
}
use knarr.KBuckets.Store.{empty_table, load_rows}
use knarr.KBuckets.Bucket.{IsValidBucket}
use knarr.KBuckets.Invariant.{IsValid, add_peer-IsValid}

get_elem?-replicate_inv : (n i : ℕ) (b c : Bucket) → get_elem? (replicate n b) i ≡ some c → b ≡ c
get_elem?-replicate_inv zero i b c e = cc
get_elem?-replicate_inv (suc n) zero b c e = cc
get_elem?-replicate_inv (suc n) (suc i) b c e = get_elem?-replicate_inv n i b c e

-- A new table is valid.
pub empty_table-IsValid :
    (now : ℕ) (local_id : Text) (local k : ℕ) (db : Option (List Row))
    → IsValid (empty_table now local_id local k db)
unfolding empty_table
empty_table-IsValid now local_id local k db = record {
  count = length-replicate bucket_count [];
  valid = λ i b e.
      subst (λ c. IsValidBucket local k i c) (get_elem?-replicate_inv bucket_count i [] b e)
        (record { placed = tt; unique = tt; within = omega arith });
}

-- A table that is loaded from the store is valid, whatever the rows.
pub load_rows-IsValid :
    (now : ℕ) (rows : List Row) (t : Table) → IsValid t → IsValid (table_of (load_rows now rows t))
unfolding load_rows
load_rows-IsValid now [] t v = v
load_rows-IsValid now (r ∷ rs) t v =
    elim (Bool-cases (ltb r.bucket bucket_count && not (text_eq r.node_id t.local_id))) [
      | inr skip ↦ rw (skip, load_rows) (load_rows-IsValid now rs t v)
      | inl take_it ↦
          rw (take_it, load_rows)
            (loaded (add_peer now r.node_id r.host r.port t)
              (add_peer-IsValid now r.node_id r.host r.port t v) (load_rows-IsValid now rs))
    ]
  where
    loaded :
        (m : Result)
        → IsValid (table_of m)
        → ((t' : Table) → IsValid t' → IsValid (table_of (load_rows now rs t')))
        → IsValid (
            table_of (elim m [
              | ok t' ↦ load_rows now rs t'
              | raise value_error t' ↦ ok t'
              | raise e t' ↦ raise e t'
            ]))
    loaded (ok t') v' ih = ih t' v'
    loaded (raise value_error t') v' ih = v'
    loaded (raise index_error t') v' ih = v'
