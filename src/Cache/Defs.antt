-- ===== src/Cache/Defs.antt =====
-- `class StorageCacheProxy` of plugins/00-storage-strategy/cache.py. The storage behind it is a
-- parameter: what it answers to the reads that are cached, and what its writes make of it; none of
-- them raises. Every method but those of the class goes to the storage directly. The monotonic clock
-- is an argument.
use knarr.Prelude.{
  ℕ, suc, ◌+◌, not, Option, none, some, ◌++◌, Text, codes, starts_with, ltb, keep, length,
  if◌then◌else◌,
}
use knarr.Prelude.Dict.{Dict, lookup, insert, erase}

-- The reads that are cached. The arguments of query_all_active_skills are as the key prints them.
pub data Query : Type 0 where
  get_peers get_own_skills : Query
  get_peer_by_id query_all_active_skills get_ledger_balance : Text → Query

-- The writes with their arguments; upsert_peer also has the peer's id, where its first argument has
-- one. The last constructor is any other method of the storage.
pub data Write (A : Type 0) : Type 0 where
  upsert_peer : Option Text → A → Write A
  remove_peer upsert_skill remove_skill update_ledger_provider update_ledger_consumer : A → Write A
  write_receipt delegated : A → Write A

pub record Storage (S V A : Type 0) : Type 0 where
  pub answer : Query → S → V
  pub apply : Write A → S → S

-- the times that entries live
pub record Ttls : Type 0 where
  pub peers_ttl : ℕ
  pub skills_ttl : ℕ
  pub economy_ttl : ℕ
  pub own_skills_ttl : ℕ

-- an entry is the value with the time from which it is no longer used
pub record Proxy (S V : Type 0) : Type 0 where
  pub storage : S
  pub cache : Dict (V × ℕ)
  pub hits : ℕ
  pub misses : ℕ

unfoldable pub key_of : Query → Text
key_of get_peers = codes "peers:all"
key_of (get_peer_by_id node_id) = codes "peers:id:" ++ node_id
key_of (query_all_active_skills arguments) = codes "skills:all:" ++ arguments
key_of get_own_skills = codes "skills:own"
key_of (get_ledger_balance peer_key) = codes "economy:balance:" ++ peer_key

unfoldable pub ttl_of : Ttls → Query → ℕ
ttl_of ttls get_peers = ttls.peers_ttl
ttl_of ttls (get_peer_by_id node_id) = ttls.peers_ttl
ttl_of ttls (query_all_active_skills arguments) = ttls.skills_ttl
ttl_of ttls get_own_skills = ttls.own_skills_ttl
ttl_of ttls (get_ledger_balance peer_key) = ttls.economy_ttl

module _ {V : Type 0} where
  unfoldable pub invalidate_prefix : Text → Dict (V × ℕ) → Dict (V × ℕ)
  invalidate_prefix prefix cache = keep (λ e. not (starts_with prefix e.0)) cache

  unfoldable pub invalidate_key : Text → Dict (V × ℕ) → Dict (V × ℕ)
  invalidate_key key cache = erase key cache

  -- what a write drops
  unfoldable pub invalidate : {A : Type 0} → Write A → Dict (V × ℕ) → Dict (V × ℕ)
  invalidate (upsert_peer none a) cache = cache
  invalidate (upsert_peer (some node_id) a) cache =
      invalidate_key (key_of (get_peer_by_id node_id)) cache
  invalidate (remove_peer a) cache = invalidate_prefix (codes "peers:") cache
  invalidate (upsert_skill a) cache = invalidate_key (key_of get_own_skills) cache
  invalidate (remove_skill a) cache = invalidate_prefix (codes "skills:") cache
  invalidate (update_ledger_provider a) cache = invalidate_prefix (codes "economy:") cache
  invalidate (update_ledger_consumer a) cache = invalidate_prefix (codes "economy:") cache
  invalidate (write_receipt a) cache = invalidate_prefix (codes "economy:") cache
  invalidate (delegated a) cache = cache

  -- an entry's value, while it is used
  unfoldable pub fresh : ℕ → Option (V × ℕ) → Option V
  fresh now none = none
  fresh now (some (value, expires_at)) = if ltb now expires_at then some value else none

module _ {S V : Type 0} where
  unfoldable pub cached_read : ℕ → Text → V → ℕ → Proxy S V → Proxy S V × V
  cached_read now key result ttl p = elim (fresh now (lookup key p.cache)) [
    | some value ↦ (record p { hits = suc p.hits }, value)
    | none ↦
        (record p { cache = insert key (result, now + ttl) p.cache; misses = suc p.misses }, result)
  ]

  unfoldable pub cache_stats : Proxy S V → ℕ × ℕ × ℕ
  cache_stats p = (p.hits, p.misses, length p.cache)

  -- the five cached reads
  unfoldable pub read : {A : Type 0} → Storage S V A → Ttls → ℕ → Query → Proxy S V → Proxy S V × V
  read storage ttls now q p =
      cached_read now (key_of q) (storage.answer q p.storage) (ttl_of ttls q) p

  -- the writes, which go to the storage first
  unfoldable pub write : {A : Type 0} → Storage S V A → Write A → Proxy S V → Proxy S V
  write storage w p = record p { storage = storage.apply w p.storage; cache = invalidate w p.cache }
