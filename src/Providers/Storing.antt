-- ===== src/Providers/Storing.antt =====
-- What `store` and `remove` come to.
use knarr.Prelude.{
  ℕ, suc, ◌+◌, ◌-◌, ◌≤◌, ◌≡◌, ◌≢◌, ◌↔◌, refl, ap, ◌∙◌, true, false, none, some, List, [], ◌∷◌, Text,
  leb, arith, if◌then◌else◌, Option-cases, inl, inr, text_eq_iff,
}
use knarr.Prelude.Dict.{lookup, erase, lookup-erase}
use knarr.Providers.Defs.{
  Provider, HeapEntry, Cache, stored, key_error, store, find_record, delete_record, delete_from_db,
  evict_from, evict_oldest, make_room, with_key, put_record, remove,
}
use knarr.Providers.Count.{size, size-delete_record, size-erase, contains-lookup-some}
use knarr.Providers.Evict.{delete_record-IsDict}
use knarr.Providers.Invariant.{
  IsValid, with_key-IsValid, make_room-new, put_record-find, put_record-IsValid,
}

with_key-max : (key : Text) (t : Cache) → (with_key key t).max_records ≡ t.max_records
unfolding with_key
with_key-max key t = ground arith

-- the eviction of the only record of a key deletes the key
evict_oldest-only :
    (key other : Text) (r : Provider) (heap : List HeapEntry) (t : Cache)
    → lookup key t.cache ≡ some ((other, r) ∷ [])
    → t.evict_heap ≡ record { stored_at = r.stored_at; key = key; node_id = other } ∷ heap
    → evict_oldest t ≡ record t {
      cache = erase key t.cache;
      total_records = t.total_records - 1;
      evict_heap = heap;
      db = delete_from_db key other t.db;
    }
unfolding evict_oldest evict_from find_record delete_record
evict_oldest-only key other r heap t only first = ground (arith, text_eq_iff other other)

make_room-only :
    (key node_id other : Text) (r : Provider) (heap : List HeapEntry) (t : Cache)
    → IsValid t
    → t.max_records ≤ t.total_records
    → lookup key t.cache ≡ some ((other, r) ∷ [])
    → other ≢ node_id
    → t.evict_heap ≡ record { stored_at = r.stored_at; key = key; node_id = other } ∷ heap
    → make_room key node_id t ≡ record t {
      cache = erase key t.cache;
      evict_heap = heap;
      db = delete_from_db key other t.db;
    }
unfolding make_room find_record
make_room-only key node_id other r heap t v full only foreign first =
    let evicted = evict_oldest-only key other r heap t only first in
    let miss : find_record key node_id t.cache ≡ none =
      rw (only, find_record) (ground (arith, text_eq_iff other node_id)) in
    let at_capacity : leb t.max_records t.total_records ≡ true = ground arith in
    let counted : (t.total_records - 1) + 1 ≡ t.total_records = ground (arith, v.room) in
    rw (miss, at_capacity, evicted, counted, make_room) refl

module _ (get_key : Text → Text) (now wall_now : ℕ) (skill_key node_id host : Text)
    (port sidecar_port ttl : ℕ) where
  -- the record that `store` puts
  abbrev given : Provider
  given = record {
    node_id = node_id;
    host = host;
    port = port;
    sidecar_port = sidecar_port;
    stored_at = now;
    ttl = ttl;
    skill_key = skill_key;
  }

  put_room-IsValid :
      (t : Cache) {t' : Cache}
      → IsValid t
      → put_record wall_now (get_key skill_key) given (make_room (get_key skill_key) node_id t)
        ≡ stored t'
      → IsValid t' × (t'.max_records ≡ t.max_records)
  unfolding make_room
  put_room-IsValid t {t'} v f =
      let key = get_key skill_key in
      elim (Option-cases (find_record key node_id t.cache)) [
        | inl miss ↦
            let new = make_room-new key node_id t v miss in
            let r =
              put_record-IsValid wall_now key given (make_room key node_id t) {t' = t'} new.0
                (ground (arith, new, v.room)) (ground (arith, new)) (λ e. new.1)
                (λ r e. absurd (ground (arith, new))) f in
            (r.0, ground (arith, r, new))
        | inr (r, hit) ↦
            let g : put_record wall_now key given t ≡ stored t' = rw (hit, make_room) at f in
            put_record-IsValid wall_now key given t {t' = t'} v.keys v.room v.bounded
              (λ e. absurd (ground arith)) (λ r e. v.counted) g
      ]

  -- Storing a provider, where it raises nothing, keeps a valid cache valid, so that its count stays
  -- the number of its records and within the capacity, which stays; the given record is found then.
  pub store-IsValid :
      (t t' : Cache)
      → IsValid t
      → store get_key now wall_now skill_key node_id host port sidecar_port ttl t ≡ stored t'
      → IsValid t'
        × (t'.max_records ≡ t.max_records)
        × (find_record (get_key skill_key) node_id t'.cache ≡ some given)
  unfolding store
  store-IsValid t t' v f =
      let key = get_key skill_key in
      let s = put_room-IsValid (with_key key t) (with_key-IsValid key t v) f in
      (
        s.0,
        s.1 ∙ with_key-max key t,
        put_record-find wall_now key given (make_room key node_id (with_key key t)) f,
      )

  -- When the cache is full and the only record of the key is another node's and is the one that the
  -- heap gives first, storing a provider of the key raises a KeyError: the other record is gone
  -- then, the given one is not stored, and the count is one more than the number of records.
  pub store-key_error :
      (other : Text) (r : Provider) (heap : List HeapEntry) (t : Cache)
      → IsValid t
      → t.max_records ≤ t.total_records
      → lookup (get_key skill_key) t.cache ≡ some ((other, r) ∷ [])
      → other ≢ node_id
      → t.evict_heap
        ≡ record { stored_at = r.stored_at; key = get_key skill_key; node_id = other } ∷ heap
      → let t' = record t {
        cache = erase (get_key skill_key) t.cache;
        evict_heap = heap;
        db = delete_from_db (get_key skill_key) other t.db;
      } in
        (store get_key now wall_now skill_key node_id host port sidecar_port ttl t ≡ key_error t')
        × (find_record (get_key skill_key) other t'.cache ≡ none)
        × (suc (size t'.cache) ≡ t'.total_records)
  unfolding store with_key put_record find_record
  store-key_error other r heap t v full only foreign first =
      let key = get_key skill_key in
      let made = make_room-only key node_id other r heap t v full only foreign first in
      let listed = contains-lookup-some key t.cache only in
      let gone = lookup-erase key t.cache v.keys in
      let stays : with_key key t ≡ t = rw (listed, with_key) refl in
      (
        ap (λ x. put_record wall_now key given (make_room key node_id x)) stays
            ∙ ap (put_record wall_now key given) made
            ∙ rw (gone, put_record) refl,
        rw (gone, find_record) refl,
        ground (arith, size-erase key t.cache only, v.counted),
      )

-- Removing a provider keeps a valid cache valid; it answers whether there was such a record, and
-- the count goes down by one if there was and stays otherwise.
pub remove-IsValid :
    (get_key : Text → Text) (skill_key node_id : Text) (t : Cache)
    → IsValid t
    → let out = remove get_key skill_key node_id t in
      IsValid out.0
      × ((out.1 ≡ false) ↔ (find_record (get_key skill_key) node_id t.cache ≡ none))
      × (t.total_records ≡ (if out.1 then suc out.0.total_records else out.0.total_records))
unfolding remove
remove-IsValid get_key skill_key node_id t v =
    let key = get_key skill_key in
    elim (Option-cases (find_record key node_id t.cache)) [
      | inl miss ↦ rw (miss, remove) (v, (λ e. refl, λ e. refl), refl)
      | inr (r, hit) ↦
          let less = size-delete_record key node_id t.cache hit in
          rw (hit, remove)
            (
              record {
                keys = delete_record-IsDict key node_id t.cache v.keys;
                counted = ground (arith, less, v.counted);
                room = v.room;
                bounded = ground (arith, v.bounded);
              },
              ground arith,
              ground (arith, less, v.counted),
            )
    ]
