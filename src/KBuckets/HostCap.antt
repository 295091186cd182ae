-- ===== src/KBuckets/HostCap.antt =====
-- The cap on the peers of one host in a bucket: what it holds for, and how it is passed by.
use knarr.Prelude.{
  ℕ, ◌+◌, ◌≤◌, ◌<◌, ◌≡◌, ◌≢◌, refl, sym, ◌∙◌, inl, inr, none, some, [], ◌∷◌, ◌++◌, arith, Text,
  text_eq, text_eq_iff, ltb, leb, if◌then◌else◌, length, get_elem?, set, get_elem?-set_self, max,
  Bool-cases,
}
use mathlib.Core.Option.{some-injective}
use knarr.KBuckets.Defs.{
  Peer, Bucket, Table, table_of, pop_peer, set_bucket, add_peer, normalize_host, same_host,
  count_ip_in_bucket,
}
use knarr.KBuckets.Bucket.{index_of}
use knarr.KBuckets.Eviction.{peer, add_peer-renews, add_peer-new, get_elem?_bound}

count_append :
    (g : Text) (b : Bucket) (p : Peer)
    → count_ip_in_bucket (b ++ p ∷ []) g ≡ count_ip_in_bucket b g + (if same_host g p then 1 else 0)
unfolding count_ip_in_bucket
count_append g [] p = ground arith
count_append g (q ∷ b) p = ground (arith, count_append g b p)

count-same :
    (g host : Text) (b : Bucket)
    → normalize_host host ≡ normalize_host g
    → count_ip_in_bucket b g ≡ count_ip_in_bucket b host
unfolding same_host count_ip_in_bucket
count-same g host [] e = refl
count-same g host (q ∷ b) e =
    let tests_agree : same_host g q ≡ same_host host q = rw (e, same_host) in
    ground (arith, count-same g host b e, tests_agree)

-- A peer appended to a bucket with at most one of its host.
append-cap :
    (g id host : Text) (port now : ℕ) (b : Bucket)
    → count_ip_in_bucket b host < 2
    → count_ip_in_bucket (b ++ peer id host port now ∷ []) g ≤ max 2 (count_ip_in_bucket b g)
unfolding same_host
append-cap g id host port now b few =
    elim (Bool-cases (text_eq (normalize_host host) (normalize_host g))) [
      | inl same ↦
          let e : normalize_host host ≡ normalize_host g = (text_eq_iff _ _).0 same in
          rw (count_append g b (peer id host port now), same)
            (omega (arith, count-same g host b e, few))
      | inr different ↦ rw (count_append g b (peer id host port now), different) (omega arith)
    ]

module _ (now : ℕ) (id host : Text) (port : ℕ) (t : Table) (i : ℕ) (b : Bucket) where
  -- A new peer takes no host beyond two peers in the bucket, nor beyond as many as it had: for a
  -- hexadecimal id other than the node's own that its bucket, which is not empty, does not list.
  pub add_peer-cap :
      (oldest : Peer) (rest b' : Bucket) (g : Text)
      → b ≡ oldest ∷ rest
      → id ≢ t.local_id
      → index_of t.local_id_int id ≡ some i
      → get_elem? t.buckets i ≡ some b
      → pop_peer id b ≡ none
      → get_elem? (table_of (add_peer now id host port t)).buckets i ≡ some b'
      → count_ip_in_bucket b' g ≤ max 2 (count_ip_in_bucket b g)
  unfolding set_bucket
  add_peer-cap oldest rest b' g shape other here at_i miss after =
      let bound = get_elem?_bound t.buckets i b at_i in
      let step = add_peer-new now id host port t i b oldest rest shape other here at_i miss in
      let same : get_elem? t.buckets i ≡ some b'
          → count_ip_in_bucket b' g ≤ max 2 (count_ip_in_bucket b g) =
        λ e. rw (some-injective _ _ (sym e ∙ at_i)) (omega arith) in
      elim (Bool-cases (leb 2 (count_ip_in_bucket b host))) [
        | inl crowded ↦ same (rw (step, crowded) at after)
        | inr free ↦ elim (Bool-cases (ltb (length b) t.k)) [
          | inl room ↦
              let e : get_elem? (set t.buckets i (b ++ peer id host port now ∷ [])) i ≡ some b' =
                rw (step, free, room) at after in
              let is_b' : b ++ peer id host port now ∷ [] ≡ b' =
                some-injective _ _ (sym (get_elem?-set_self t.buckets i _ bound) ∙ e) in
              rw (← is_b') (append-cap g id host port now b (ground arith))
          | inr full ↦ same (rw (step, free, full) at after)
        ]
      ]

  -- The cap does not hold for a peer that the bucket lists: announced again under another host it
  -- is accepted, and that host has one peer more than the bucket held of it beside the peer itself,
  -- however many those are.
  pub add_peer-exceeds_cap :
      (old : Peer) (rest : Bucket)
      → id ≢ t.local_id
      → index_of t.local_id_int id ≡ some i
      → get_elem? t.buckets i ≡ some b
      → pop_peer id b ≡ some (old, rest)
      → (b' : Bucket) × (get_elem? (table_of (add_peer now id host port t)).buckets i ≡ some b')
        × (count_ip_in_bucket b' host ≡ count_ip_in_bucket rest host + 1)
  unfolding set_bucket same_host
  add_peer-exceeds_cap old rest other here at_i hit =
      let bound = get_elem?_bound t.buckets i b at_i in
      (
        rest ++ peer id host port now ∷ [],
        rw (add_peer-renews now id host port t i b old rest other here at_i hit)
            (get_elem?-set_self t.buckets i _ bound),
        rw (count_append host rest (peer id host port now), (text_eq_iff _ _).1 refl),
      )
