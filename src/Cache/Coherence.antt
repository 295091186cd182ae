-- ===== src/Cache/Coherence.antt =====
-- What a read gives after a write.
use knarr.Prelude.{
  ℕ, ◌≡◌, refl, sym, ap, ◌∙◌, Bool, true, false, not, Option, none, some, [], ◌∷◌, Text, text_eq,
  text_eq_iff, codes, starts_with, keep, if◌then◌else◌, arith, Option-cases, Bool-cases, inl, inr,
}
use knarr.Prelude.Dict.{Dict, lookup, erase, IsDict, lookup-erase, lookup-erase_ne}
use knarr.Cache.Defs.{
  Query, get_peers, get_own_skills, get_peer_by_id, query_all_active_skills, get_ledger_balance,
  Write, upsert_peer, remove_peer, upsert_skill, remove_skill, update_ledger_provider,
  update_ledger_consumer, write_receipt, delegated, Storage, Ttls, Proxy, key_of, ttl_of,
  invalidate_prefix, invalidate_key, invalidate, fresh, cached_read, read, write,
}

unfoldable pub is_peers : Query → Bool
is_peers get_peers = true
is_peers get_own_skills = false
is_peers (get_peer_by_id node_id) = true
is_peers (query_all_active_skills arguments) = false
is_peers (get_ledger_balance peer_key) = false

unfoldable pub is_skills : Query → Bool
is_skills get_peers = false
is_skills get_own_skills = true
is_skills (get_peer_by_id node_id) = false
is_skills (query_all_active_skills arguments) = true
is_skills (get_ledger_balance peer_key) = false

unfoldable pub is_economy : Query → Bool
is_economy get_peers = false
is_economy get_own_skills = false
is_economy (get_peer_by_id node_id) = false
is_economy (query_all_active_skills arguments) = false
is_economy (get_ledger_balance peer_key) = true

unfoldable pub is_own_skills : Query → Bool
is_own_skills get_peers = false
is_own_skills get_own_skills = true
is_own_skills (get_peer_by_id node_id) = false
is_own_skills (query_all_active_skills arguments) = false
is_own_skills (get_ledger_balance peer_key) = false

unfoldable pub is_peer : Text → Query → Bool
is_peer id get_peers = false
is_peer id get_own_skills = false
is_peer id (get_peer_by_id node_id) = text_eq id node_id
is_peer id (query_all_active_skills arguments) = false
is_peer id (get_ledger_balance peer_key) = false

-- the reads whose entries a write drops
unfoldable pub covers : {A : Type 0} → Write A → Query → Bool
covers (upsert_peer none a) q = false
covers (upsert_peer (some node_id) a) q = is_peer node_id q
covers (remove_peer a) q = is_peers q
covers (upsert_skill a) q = is_own_skills q
covers (remove_skill a) q = is_skills q
covers (update_ledger_provider a) q = is_economy q
covers (update_ledger_consumer a) q = is_economy q
covers (write_receipt a) q = is_economy q
covers (delegated a) q = false

lookup-prefix :
    {V : Type 0} (prefix key : Text) (cache : Dict V)
    → lookup key (keep (λ e. not (starts_with prefix e.0)) cache)
      ≡ (if starts_with prefix key then none else lookup key cache)
lookup-prefix prefix key [] = ground arith
lookup-prefix prefix key ((k, v) ∷ cache) =
    ground (arith, text_eq_iff k key, lookup-prefix prefix key cache)

lookup-key :
    {V : Type 0} (dropped key : Text) (cache : Dict V)
    → IsDict cache
    → lookup key (erase dropped cache) ≡ (if text_eq dropped key then none else lookup key cache)
lookup-key dropped key cache d = elim (Bool-cases (text_eq dropped key)) [
  | inl same ↦
      let e : dropped ≡ key = (text_eq_iff dropped key).0 same in
      rw (same, sym e) (lookup-erase dropped cache d)
  | inr other ↦
      rw other (lookup-erase_ne dropped key cache (λ f. ground (arith, text_eq_iff dropped key, f)))
]

starts_with-is_peers : (q : Query) → starts_with (codes "peers:") (key_of q) ≡ is_peers q
unfolding key_of is_peers starts_with
starts_with-is_peers get_peers = refl
starts_with-is_peers get_own_skills = refl
starts_with-is_peers (get_peer_by_id node_id) = refl
starts_with-is_peers (query_all_active_skills arguments) = refl
starts_with-is_peers (get_ledger_balance peer_key) = refl

starts_with-is_skills : (q : Query) → starts_with (codes "skills:") (key_of q) ≡ is_skills q
unfolding key_of is_skills starts_with
starts_with-is_skills get_peers = refl
starts_with-is_skills get_own_skills = refl
starts_with-is_skills (get_peer_by_id node_id) = refl
starts_with-is_skills (query_all_active_skills arguments) = refl
starts_with-is_skills (get_ledger_balance peer_key) = refl

starts_with-is_economy : (q : Query) → starts_with (codes "economy:") (key_of q) ≡ is_economy q
unfolding key_of is_economy starts_with
starts_with-is_economy get_peers = refl
starts_with-is_economy get_own_skills = refl
starts_with-is_economy (get_peer_by_id node_id) = refl
starts_with-is_economy (query_all_active_skills arguments) = refl
starts_with-is_economy (get_ledger_balance peer_key) = refl

own_key : (q : Query) → text_eq (key_of get_own_skills) (key_of q) ≡ is_own_skills q
unfolding key_of is_own_skills text_eq
own_key get_peers = refl
own_key get_own_skills = refl
own_key (get_peer_by_id node_id) = refl
own_key (query_all_active_skills arguments) = refl
own_key (get_ledger_balance peer_key) = refl

id_key : (id : Text) (q : Query) → text_eq (key_of (get_peer_by_id id)) (key_of q) ≡ is_peer id q
unfolding key_of is_peer text_eq
id_key id get_peers = refl
id_key id get_own_skills = refl
id_key id (get_peer_by_id node_id) = refl
id_key id (query_all_active_skills arguments) = refl
id_key id (get_ledger_balance peer_key) = refl

pub invalidate-lookup :
    {A V : Type 0} (w : Write A) (q : Query) (cache : Dict (V × ℕ))
    → IsDict cache
    → lookup (key_of q) (invalidate w cache)
      ≡ (if covers w q then none else lookup (key_of q) cache)
unfolding invalidate covers invalidate_prefix invalidate_key
invalidate-lookup (upsert_peer none a) q cache d = refl
invalidate-lookup (upsert_peer (some id) a) q cache d =
    rw (sym (id_key id q)) (lookup-key (key_of (get_peer_by_id id)) (key_of q) cache d)
invalidate-lookup (remove_peer a) q cache d =
    rw (sym (starts_with-is_peers q)) (lookup-prefix (codes "peers:") (key_of q) cache)
invalidate-lookup (upsert_skill a) q cache d =
    rw (sym (own_key q)) (lookup-key (key_of get_own_skills) (key_of q) cache d)
invalidate-lookup (remove_skill a) q cache d =
    rw (sym (starts_with-is_skills q)) (lookup-prefix (codes "skills:") (key_of q) cache)
invalidate-lookup (update_ledger_provider a) q cache d =
    rw (sym (starts_with-is_economy q)) (lookup-prefix (codes "economy:") (key_of q) cache)
invalidate-lookup (update_ledger_consumer a) q cache d =
    rw (sym (starts_with-is_economy q)) (lookup-prefix (codes "economy:") (key_of q) cache)
invalidate-lookup (write_receipt a) q cache d =
    rw (sym (starts_with-is_economy q)) (lookup-prefix (codes "economy:") (key_of q) cache)
invalidate-lookup (delegated a) q cache d = refl

abbrev pub value_or : {V : Type 0} → V → Option V → V
value_or other none = other
value_or other (some value) = value

pub cached_read-answer :
    {S V : Type 0} (now : ℕ) (key : Text) (result : V) (ttl : ℕ) (p : Proxy S V)
    → (cached_read now key result ttl p).1 ≡ value_or result (fresh now (lookup key p.cache))
unfolding cached_read
cached_read-answer now key result ttl p = elim (Option-cases (fresh now (lookup key p.cache))) [
  | inl miss ↦ rw (miss, cached_read) refl
  | inr (value, hit) ↦ rw (hit, cached_read) refl
]

-- What a read gives right after a write: the storage's answer of the moment, if the write drops the
-- read's entry; if not, the entry from before the write as long as it lives, also where the write has
-- changed the answer. No key of the cache occurs twice.
pub read-write :
    {S V A : Type 0} (storage : Storage S V A) (ttls : Ttls) (now : ℕ) (w : Write A) (q : Query)
    (p : Proxy S V)
    → IsDict p.cache
    → (read storage ttls now q (write storage w p)).1 ≡ (
        if covers w q
        then storage.answer q (storage.apply w p.storage)
        else value_or
            (storage.answer q (storage.apply w p.storage))
            (fresh now (lookup (key_of q) p.cache)))
unfolding read write fresh
read-write storage ttls now w q p d =
    let current = storage.answer q (storage.apply w p.storage) in
    cached_read-answer now (key_of q) current (ttl_of ttls q) (write storage w p)
    ∙ ap (λ o. value_or current (fresh now o)) (invalidate-lookup w q p.cache d)
    ∙ either (covers w q) current (lookup (key_of q) p.cache)
  where
    either :
        {V : Type 0} (b : Bool) (current : V) (o : Option (V × ℕ))
        → value_or current (fresh now (if b then none else o))
          ≡ (if b then current else value_or current (fresh now o))
    either true current o = refl
    either false current o = refl
