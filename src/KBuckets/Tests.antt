-- ===== src/KBuckets/Tests.antt =====
-- A routing table with a full bucket of two, and the theorems at it.
use Prim.Native.Nat.{bit_xor}
use mathlib.Core.List.{Perm}
use knarr.Prelude.{
  ◌*◌, ◌^◌, ◌≤◌, ◌<◌, ◌≡◌, ◌≢◌, refl, ◌↔◌, none, some, List, [], ◌∷◌, ◌++◌, map, arith, Text,
  length, get_elem?, set, All, max, min, replicate, text_eq,
}
use knarr.Prelude.Hex.{
  from_hex, from_hex_acc, hex_digit, is_ascii_space, strip, strip_left, is_space, bit_length,
  bit_length_within,
}
use knarr.KBuckets.Defs
use knarr.KBuckets.Defs.{Peer, Bucket, Table, Row, ok, table_of}
use knarr.KBuckets.Store.{empty_table}
use knarr.KBuckets.Invariant.{IsValid, add_peer-IsValid}
use knarr.KBuckets.Startup.{empty_table-IsValid}
use knarr.KBuckets.Calls.{run, add, remove, evict_oldest, load, run-IsValid}
use knarr.KBuckets.Closest.{IsSorted, NoNearer, found_of, get_closest-nearest}
use knarr.KBuckets.Distance.{get_bucket_index_iff, buckets-ordered, index_of-lt}
use knarr.KBuckets.Eviction.{peer, evict_or_keep}
use knarr.KBuckets.HostCap.{add_peer-cap, add_peer-exceeds_cap}

program : Unit {0}
unfolding from_hex from_hex_acc hex_digit is_ascii_space strip strip_left is_space bit_length
    bit_length_within Defs.bucket_count Defs.max_same_ip_per_bucket Defs.get_distance
    Defs.get_bucket_index Defs.normalize_host Defs.same_host Defs.count_ip_in_bucket Defs.pop_peer
    Defs.set_bucket Defs.add_to_bucket Defs.at_bucket Defs.add_peer empty_table text_eq
program = tt

abbrev local_id : Text
local_id = b'0' ∷ b'0' ∷ []

abbrev id_4 : Text
id_4 = b'0' ∷ b'4' ∷ []

abbrev id_5 : Text
id_5 = b'0' ∷ b'5' ∷ []

abbrev id_6 : Text
id_6 = b'0' ∷ b'6' ∷ []

abbrev id_9 : Text
id_9 = b'0' ∷ b'9' ∷ []

abbrev host_a : Text
host_a = b'a' ∷ []

abbrev host_b : Text
host_b = b'b' ∷ []

foreign : id_6 ≢ local_id
foreign = λ e. cc

table_0 : Table
table_0 = empty_table 0 local_id 0 2 none

table_1 : Table
table_1 = table_of (Defs.add_peer 1 id_4 host_a 9000 table_0)

-- two peers of host a, in a bucket for two
table_2 : Table
table_2 = table_of (Defs.add_peer 2 id_5 host_a 9001 table_1)

table_2-IsValid : IsValid table_2
unfolding table_2 table_1 table_0
table_2-IsValid =
    add_peer-IsValid 2 id_5 host_a 9001 _
      (add_peer-IsValid 1 id_4 host_a 9000 _ (empty_table-IsValid 0 local_id 0 2 none))

abbrev bucket_2 : Bucket
bucket_2 = peer id_4 host_a 9000 1 ∷ peer id_5 host_a 9001 2 ∷ []

at_2 : get_elem? table_2.buckets 2 ≡ some bucket_2
unfolding program table_2 table_1 table_0
at_2 = refl

-- The third row is the node itself, and the last has no bucket of the table.
abbrev rows : List Row
rows =
    record { node_id = id_9; host = host_b; port = 9002; bucket = 3; last_seen = 40 }
    ∷ record { node_id = id_4; host = host_a; port = 9000; bucket = 2; last_seen = 41 }
    ∷ record { node_id = local_id; host = host_a; port = 9009; bucket = 0; last_seen = 42 }
    ∷ record { node_id = id_6; host = host_a; port = 9003; bucket = 256; last_seen = 43 }
    ∷ []

run-IsValid_example : IsValid (
    run
      (add 1 id_4 host_a 9000
        ∷ add 2 id_5 host_a 9001
        ∷ add 4 id_6 host_b 9003
        ∷ evict_oldest 5 id_4
        ∷ load 9 rows
        ∷ remove id_5
        ∷ [])
      table_0)
unfolding table_0
run-IsValid_example = run-IsValid 0 local_id 0 2 none (
    add 1 id_4 host_a 9000
    ∷ add 2 id_5 host_a 9001
    ∷ add 4 id_6 host_b 9003
    ∷ evict_oldest 5 id_4
    ∷ load 9 rows
    ∷ remove id_5
    ∷ [])

target_6 : Text
target_6 = replicate 62 b'0' ++ id_6

get_closest-nearest_example :
    (answer rest : List Defs.Found) × (Defs.get_closest target_6 1 table_2 ≡ some answer)
    × Perm (answer ++ rest) (map (found_of 6) (Defs.all_peers table_2.buckets))
    × IsSorted answer
    × All (NoNearer answer) rest
    × (length answer ≡ min 1 (length (answer ++ rest)))
unfolding program target_6
get_closest-nearest_example = get_closest-nearest target_6 1 6 table_2 table_2-IsValid refl refl

get_bucket_index_iff_example : (Defs.get_bucket_index 6 ≡ some 2) ↔ ((2 ^ 2 ≤ 6) × (6 < 2 * 2 ^ 2))
get_bucket_index_iff_example = get_bucket_index_iff 6 2

buckets-ordered_example : bit_xor 0 6 < bit_xor 0 9
unfolding program
buckets-ordered_example = buckets-ordered 0 2 3 6 9 id_6 id_9 refl refl refl refl (omega arith)

index_of-lt_example : 2 < 256
unfolding program
index_of-lt_example = index_of-lt 0 6 2 id_6 refl (omega arith) (omega arith) refl

abbrev asked : Table
asked = record table_2 {
  pending_evictions =
      (id_4, record { candidate_id = id_6; host = host_b; port = 9003; added_at = 4 }) ∷ [];
}

evict_or_keep_example :
    (Defs.add_peer 4 id_6 host_b 9003 table_2 ≡ Defs.ok asked)
    × (Defs.resolve_evict_oldest 5 id_4 asked
        ≡ Defs.ok (record table_2 {
          buckets = set table_2.buckets 2 (peer id_5 host_a 9001 2 ∷ peer id_6 host_b 9003 5 ∷ []);
          db = Defs.delete_row id_4 table_2.db;
        }))
    × (Defs.resolve_keep_oldest 5 id_4 asked
        ≡ Defs.ok (record table_2 {
          buckets = set table_2.buckets 2 (peer id_5 host_a 9001 2 ∷ peer id_4 host_a 9000 5 ∷ []);
        }))
unfolding program table_2 table_1 table_0 Defs.drop_evictions
evict_or_keep_example =
    evict_or_keep id_6 host_b 9003 table_2 2 (peer id_4 host_a 9000 1)
      (peer id_5 host_a 9001 2 ∷ []) table_2-IsValid foreign refl at_2 refl refl (omega arith) 4 5

-- a third peer of host a is turned away, so the bucket has two still
add_peer-cap_example :
    Defs.count_ip_in_bucket bucket_2 host_a ≤ max 2 (Defs.count_ip_in_bucket bucket_2 host_a)
unfolding program table_2 table_1 table_0
add_peer-cap_example =
    add_peer-cap 4 id_6 host_a 9003 table_2 2 bucket_2 (peer id_4 host_a 9000 1)
      (peer id_5 host_a 9001 2 ∷ []) bucket_2 host_a refl foreign refl at_2 refl refl

-- three peers of host a: the third came under host b, and is announced again
table_3 : Table
table_3 = table_of (
    Defs.add_peer 3 id_6 host_b 9003 (
      table_of (
        Defs.add_peer 2 id_5 host_a 9001
          (table_of (Defs.add_peer 1 id_4 host_a 9000 (empty_table 0 local_id 0 20 none))))))

add_peer-exceeds_cap_example :
    (b' : Bucket) × (get_elem? (table_of (Defs.add_peer 4 id_6 host_a 9003 table_3)).buckets 2
      ≡ some b')
    × (Defs.count_ip_in_bucket b' host_a ≡ 3)
unfolding program table_3
add_peer-exceeds_cap_example =
    add_peer-exceeds_cap 4 id_6 host_a 9003 table_3 2
      (peer id_4 host_a 9000 1 ∷ peer id_5 host_a 9001 2 ∷ peer id_6 host_b 9003 3 ∷ [])
      (peer id_6 host_b 9003 3) (peer id_4 host_a 9000 1 ∷ peer id_5 host_a 9001 2 ∷ []) foreign
      refl refl refl
