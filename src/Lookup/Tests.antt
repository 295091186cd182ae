-- ===== src/Lookup/Tests.antt =====
-- A search from one known peer, which names another one.
use knarr.Prelude.{
  map, ℕ, ◌≡◌, ◌≤◌, ◌*◌, refl, Option, none, some, List, [], ◌∷◌, ◌++◌, Text, text_eq, codes, All,
  replicate, length, true,
}
use knarr.Prelude.Int.{pos}
use knarr.Prelude.Hex
use knarr.Prelude.Dict.{Dict}
use knarr.Prelude.Sorting.{FirstOf}
use knarr.KBuckets
use knarr.KBuckets.{Table, Found, Peer, get_closest}
use knarr.Lookup.Integers
use knarr.Lookup.Integers.{int_16, xor_ℤ}
use knarr.Lookup.Defs
use knarr.Lookup.Defs.{
  Offer, Advert, Answer, Node, before, node_at, search_from, find_nodes, nodes, valid_hex_id,
  Search, answer, seed, id_of, targets,
}
use knarr.Lookup.Growth.{HasAddress, HasId, HasValue, IsGood}
use knarr.Lookup.Rounds.{IsFoundBy}
use knarr.Lookup.Nearest.{find_nodes-nearest}
use knarr.Lookup.Asked.{search_from-asked, NoRepeats}

no_decimal : ℕ → Option ℕ
no_decimal c = none

abbrev zeros : Text
zeros = replicate 63 b'0'

abbrev id_1 : Text
id_1 = zeros ++ codes "1"

abbrev id_2 : Text
id_2 = zeros ++ codes "2"

abbrev id_3 : Text
id_3 = zeros ++ codes "3"

abbrev host : Text
host = codes "10.0.0.1"

abbrev offer : Offer
offer = record { node_id = id_2; address = some (host, 9000) }

abbrev table : Table
table = record {
  local_id = id_3;
  local_id_int = 3;
  k = 2;
  buckets = (record { node_id = id_1; host = host; port = 9000; last_seen = 0 } ∷ []) ∷ [];
  pending_evictions = [];
  db = none;
  last_checkpoint = 0;
}

program : Unit {0}
unfolding no_decimal Integers.int_digit Integers.int_digits Integers.int_unsigned Integers.negate
    Integers.int_signed Integers.int_16 Integers.xor_ℤ Hex.hex_digit Hex.strip Hex.strip_left
    Hex.is_space Hex.is_ascii_space Hex.from_hex Hex.from_hex_acc Defs.valid_hex_id get_closest
    text_eq
program = tt

ask_nodes : Text → List Offer
ask_nodes t = offer ∷ []

ask : Text → Answer Text
ask t = record {
  peers = offer ∷ [];
  providers = record { node_id = some id_2; record_of = t } ∷ [];
}

seed_1 : Found
seed_1 = record { node_id = id_1; host = host; port = 9000; distance = 3 }

value_1 : int_16 no_decimal id_1 ≡ some (pos 1)
unfolding program
value_1 = refl

value_2 : valid_hex_id no_decimal id_2 ≡ some (pos 2)
unfolding program
value_2 = refl

seeds : get_closest id_2 2 table ≡ some (seed_1 ∷ [])
unfolding program seed_1 KBuckets.measure KBuckets.all_peers KBuckets.sort KBuckets.insert_sorted
seeds = refl

addressed : (id : Text) → All HasAddress (ask_nodes id)
unfolding ask_nodes
addressed id = (((host, 9000), refl), tt)

values : All (HasValue no_decimal (pos 2)) (seed_1 ∷ [])
unfolding seed_1
values = ((pos 1, value_1), tt)

find_nodes-nearest_example :
    let said = answer no_decimal id_3 3 2 ask_nodes in
    (closest rest : List Node) × (s : Search (Unit {0})) × (asked more : List Text) × (search_from
        no_decimal id_3 3 2 said true
        (pos 2)
        (seed_1 ∷ [])
      ≡ some s)
    × (find_nodes no_decimal id_3 3 2 ask_nodes id_2 table ≡ some closest)
    × FirstOf before 2 (nodes s.found) closest rest
    × IsGood no_decimal (pos 2) s.found
    × (s.queried ≡ id_3 ∷ asked)
    × IsFoundBy no_decimal id_3 (pos 2) 3 2 said (seed_1 ∷ []) asked s.found
    × ((seeded : Dict Node) × (seed no_decimal (pos 2) (seed_1 ∷ []) [] ≡ some seeded)
        × (asked ≡ map id_of (targets 3 seeded (id_3 ∷ [])) ++ more))
find_nodes-nearest_example =
    find_nodes-nearest no_decimal id_3 3 2 ask_nodes addressed id_2 (pos 2) table (seed_1 ∷ [])
      value_2 seeds values

named : (id : Text) → All (HasId {A = Text}) (ask id).providers
unfolding ask
named id = ((id_2, refl), tt)

peers_addressed : (id : Text) → All HasAddress (ask id).peers
unfolding ask
peers_addressed id = (((host, 9000), refl), tt)

search_from-asked_example :
    (s : Search Text) × (asked : List Text) × (search_from no_decimal id_3 3 2 ask true
        (pos 2)
        (seed_1 ∷ [])
      ≡ some s)
    × (s.queried ≡ id_3 ∷ asked)
    × NoRepeats s.queried
    × (length asked ≤ 20 * 3)
search_from-asked_example =
    search_from-asked no_decimal (pos 2) id_3 3 2 ask peers_addressed named true (seed_1 ∷ [])
      values
