-- ===== src/KBuckets/Eviction.antt =====
-- What `add_peer` does to the bucket of a new peer, and the two ends of an eviction.
use knarr.Prelude.{
  ℕ, zero, suc, ◌≤◌, ◌<◌, ◌≡◌, ◌≢◌, refl, ◌∙◌, inl, inr, true, false, none, some, List, [], ◌∷◌,
  ◌++◌, arith, Text, text_eq, text_eq_iff, ltb, leb, if◌then◌else◌, length, get_elem?, set, set-set,
  get_elem?-set_self, Bool-cases, Option-cases,
}
use knarr.Prelude.Dict.{Dict, lookup, insert, erase, lookup-insert}
use knarr.Prelude.Hex.{from_hex}
use knarr.KBuckets.Defs.{
  Peer, Bucket, Table, Candidate, Result, ok, pop_peer, get_distance, set_bucket, add_to_bucket,
  at_bucket, add_peer, delete_peer_from_db, remove_from_bucket, remove_peer, resolve_evict_oldest,
  touch_in_bucket, resolve_keep_oldest, delete_row, count_ip_in_bucket, max_same_ip_per_bucket,
  drop_evictions,
}
use knarr.KBuckets.Bucket.{index_of}
use knarr.KBuckets.Invariant.{IsValid}

abbrev pub peer : Text → Text → ℕ → ℕ → Peer
peer id host port now = record { node_id = id; host = host; port = port; last_seen = now }

at_bucket_step :
    (id : Text) (f : ℕ → Bucket → Table → Result) (t : Table) (i : ℕ) (b : Bucket)
    → index_of t.local_id_int id ≡ some i
    → get_elem? t.buckets i ≡ some b
    → at_bucket id f t ≡ f i b t
unfolding at_bucket get_distance
at_bucket_step id f t i b here e = elim (Option-cases (from_hex id)) [
  | inl bad ↦ absurd (ground arith)
  | inr (n, v) ↦ rw (v, rw (v, index_of) at here, e, at_bucket)
]

module _ (now : ℕ) (id host : Text) (port : ℕ) (t : Table) (i : ℕ) (b : Bucket) where
  add_peer_step :
      id ≢ t.local_id
      → index_of t.local_id_int id ≡ some i
      → get_elem? t.buckets i ≡ some b
      → add_peer now id host port t ≡ add_to_bucket now id host port i b t
  unfolding add_peer
  add_peer_step other here e = elim (Bool-cases (text_eq id t.local_id)) [
    | inl own ↦ absurd (other ((text_eq_iff id t.local_id).0 own))
    | inr foreign ↦
        rw (foreign, add_peer) (at_bucket_step id (add_to_bucket now id host port) t i b here e)
  ]

  -- A peer whose bucket lists it moves to the tail under its new address, however many peers of
  -- the bucket have the new host already.
  pub add_peer-renews :
      (old : Peer) (rest : Bucket)
      → id ≢ t.local_id
      → index_of t.local_id_int id ≡ some i
      → get_elem? t.buckets i ≡ some b
      → pop_peer id b ≡ some (old, rest)
      → add_peer now id host port t ≡ ok (set_bucket i (rest ++ peer id host port now ∷ []) t)
  unfolding add_to_bucket
  add_peer-renews old rest other here e hit = add_peer_step other here e ∙ rw (hit, add_to_bucket)

  -- What happens to a peer that its bucket does not list: with two peers of its host there it is
  -- turned away, with room it goes to the tail, and at a full bucket, which stays as it is, it
  -- waits for the place of the oldest peer.
  pub add_peer-new :
      (oldest : Peer) (rest : Bucket)
      → b ≡ oldest ∷ rest
      → id ≢ t.local_id
      → index_of t.local_id_int id ≡ some i
      → get_elem? t.buckets i ≡ some b
      → pop_peer id b ≡ none
      → add_peer now id host port t ≡ (
          if leb 2 (count_ip_in_bucket b host)
          then ok t
          else if ltb (length b) t.k
          then ok (set_bucket i (b ++ peer id host port now ∷ []) t)
          else ok (record t {
            pending_evictions =
                insert oldest.node_id
                  (record { candidate_id = id; host = host; port = port; added_at = now })
                  t.pending_evictions;
          }))
  unfolding add_to_bucket max_same_ip_per_bucket
  add_peer-new oldest rest shape other here e miss =
      add_peer_step other here e ∙ rw (miss, shape, add_to_bucket)

pub get_elem?_bound :
    (xs : List Bucket) (i : ℕ) (b : Bucket) → get_elem? xs i ≡ some b → i < length xs
get_elem?_bound [] i b e = cc
get_elem?_bound (x ∷ xs) zero b e = omega arith
get_elem?_bound (x ∷ xs) (suc i) b e = omega (arith, get_elem?_bound xs i b e)

pop_peer-tail :
    (id : Text) (p : Peer) (rest : Bucket) → pop_peer id (p ∷ rest) ≡ none → pop_peer id rest ≡ none
unfolding pop_peer
pop_peer-tail id p rest e = elim (Option-cases (pop_peer id rest)) [
  | inl miss ↦ miss
  | inr (r, hit) ↦ absurd (ground arith)
]

pop_peer-head : (p : Peer) (rest : Bucket) → pop_peer p.node_id (p ∷ rest) ≡ some (p, rest)
unfolding pop_peer
pop_peer-head p rest = rw ((text_eq_iff p.node_id p.node_id).1 refl)

count-tail :
    (host : Text) (p : Peer) (rest : Bucket)
    → count_ip_in_bucket rest host ≤ count_ip_in_bucket (p ∷ rest) host
unfolding count_ip_in_bucket
count-tail host p rest = ground arith

lookup-insert_self :
    (k : Text) (c : Candidate) (d : Dict Candidate) → lookup k (insert k c d) ≡ some c
lookup-insert_self k c d = rw (lookup-insert k k c d, (text_eq_iff k k).1 refl)

-- A new peer, of a host with fewer than two peers in the bucket, for a full bucket of a valid table.
module _ (id host : Text) (port : ℕ) (t : Table) (i : ℕ) (oldest : Peer) (rest : Bucket)
    (v : IsValid t) (other : id ≢ t.local_id) (here : index_of t.local_id_int id ≡ some i)
    (at_i : get_elem? t.buckets i ≡ some (oldest ∷ rest)) (full : length (oldest ∷ rest) ≡ t.k)
    (fresh : pop_peer id (oldest ∷ rest) ≡ none)
    (few : count_ip_in_bucket (oldest ∷ rest) host < 2) where
  candidate : ℕ → Candidate
  candidate now = record { candidate_id = id; host = host; port = port; added_at = now }

  waiting : ℕ → Table
  waiting now = record t {
    pending_evictions = insert oldest.node_id (candidate now) t.pending_evictions;
  }

  add_peer-waits : (now : ℕ) → add_peer now id host port t ≡ ok (waiting now)
  unfolding waiting candidate
  add_peer-waits now =
      let free : leb 2 (count_ip_in_bucket (oldest ∷ rest) host) ≡ false = ground arith in
      let no_room : ltb (length (oldest ∷ rest)) t.k ≡ false = ground arith in
      add_peer-new now id host port t i (oldest ∷ rest) oldest rest refl other here at_i fresh
      ∙ rw (free, no_room)

  oldest_here : index_of t.local_id_int oldest.node_id ≡ some i
  oldest_here = (v.valid i (oldest ∷ rest) at_i).placed.0

  without : Dict Candidate → Table
  without d = record t {
    buckets = set t.buckets i rest;
    pending_evictions = drop_evictions oldest.node_id d;
    db = delete_row oldest.node_id t.db;
  }

  remove_oldest :
      (d : Dict Candidate)
      → remove_peer oldest.node_id (record t { pending_evictions = d }) ≡ ok (without d)
  unfolding remove_peer remove_from_bucket without set_bucket delete_peer_from_db
  remove_oldest d =
      at_bucket_step oldest.node_id (remove_from_bucket oldest.node_id)
        (record t { pending_evictions = d }) i (oldest ∷ rest) oldest_here at_i
      ∙ rw (pop_peer-head oldest rest, remove_from_bucket)

  add_candidate :
      (now : ℕ) (d : Dict Candidate)
      → add_peer now id host port (without d)
        ≡ ok (record (without d) { buckets = set t.buckets i (rest ++ peer id host port now ∷ []) })
  unfolding add_to_bucket max_same_ip_per_bucket without set_bucket
  add_candidate now d =
      let bound = get_elem?_bound t.buckets i (oldest ∷ rest) at_i in
      let there : get_elem? (set t.buckets i rest) i ≡ some rest =
        get_elem?-set_self t.buckets i rest bound in
      let free : leb 2 (count_ip_in_bucket rest host) ≡ false =
        ground (arith, count-tail host oldest rest) in
      let room : ltb (length rest) t.k ≡ true = ground arith in
      rw
        (
          add_peer_step now id host port (without d) i rest other here there,
          pop_peer-tail id oldest rest fresh,
          add_to_bucket,
          free,
          room,
          set-set t.buckets i rest (rest ++ peer id host port now ∷ []),
        )
        refl

  left : ℕ → Dict Candidate
  left now = erase oldest.node_id (insert oldest.node_id (candidate now) t.pending_evictions)

  evicts :
      (now later : ℕ)
      → resolve_evict_oldest later oldest.node_id (waiting now)
        ≡ add_peer later id host port (without (left now))
  unfolding resolve_evict_oldest waiting left candidate
  evicts now later = rw (
    lookup-insert_self oldest.node_id (candidate now) t.pending_evictions,
    resolve_evict_oldest,
    remove_oldest (left now),
  )

  keeps :
      (now later : ℕ)
      → resolve_keep_oldest later oldest.node_id (waiting now)
        ≡ ok (
            set_bucket i
              (rest ++ record oldest { last_seen = later } ∷ [])
              (record t { pending_evictions = left now }))
  unfolding resolve_keep_oldest waiting left candidate touch_in_bucket
  keeps now later = rw (
    lookup-insert_self oldest.node_id (candidate now) t.pending_evictions,
    resolve_keep_oldest,
    at_bucket_step oldest.node_id (touch_in_bucket later oldest.node_id)
        (record t { pending_evictions = left now }) i (oldest ∷ rest) oldest_here at_i,
    pop_peer-head oldest rest,
    touch_in_bucket,
  )

  -- Adding the peer changes nothing but that it is remembered as waiting for the oldest peer's
  -- place. If the oldest peer does not answer it loses its place in the bucket and its row, and the
  -- new peer is the bucket's last; no waiting peer has its id. If it answers it moves to the tail and
  -- the new peer is forgotten; nothing else changes. For a new peer, of a host with fewer than two
  -- peers in the bucket, and a full bucket of a valid table.
  pub evict_or_keep :
      (now later : ℕ)
      → let asked : Table = record t {
        pending_evictions =
            insert oldest.node_id
              (record { candidate_id = id; host = host; port = port; added_at = now })
              t.pending_evictions;
      } in
        let forgotten = erase oldest.node_id asked.pending_evictions in
        (add_peer now id host port t ≡ ok asked)
        × (resolve_evict_oldest later oldest.node_id asked
            ≡ ok (record t {
              buckets = set t.buckets i (rest ++ peer id host port later ∷ []);
              pending_evictions = drop_evictions oldest.node_id forgotten;
              db = delete_row oldest.node_id t.db;
            }))
        × (resolve_keep_oldest later oldest.node_id asked
            ≡ ok (record t {
              buckets = set t.buckets i (rest ++ record oldest { last_seen = later } ∷ []);
              pending_evictions = forgotten;
            }))
  unfolding waiting candidate left without set_bucket
  evict_or_keep now later =
      (add_peer-waits now, evicts now later ∙ add_candidate later (left now), keeps now later)
