-- ===== src/Cache/Keys.antt =====
-- The keys of the cache, and what a write leaves of it.
use mathlib.Core.Option.{some-injective}
use knarr.Prelude.{
  ℕ, ◌<◌, ◌≡◌, refl, ap, Bool, true, not, Option, none, some, [], ◌∷◌, Text, text_eq, text_eq_iff,
  codes, starts_with, keep, arith, Bool-cases, inl, inr, ltb,
}
use knarr.Prelude.Dict.{Dict, lookup, IsDict, erase-IsDict}
use knarr.Cache.Defs.{
  Query, get_peers, get_own_skills, get_peer_by_id, query_all_active_skills, get_ledger_balance,
  Write, upsert_peer, remove_peer, upsert_skill, remove_skill, update_ledger_provider,
  update_ledger_consumer, write_receipt, delegated, key_of, invalidate_prefix, invalidate_key,
  invalidate, fresh,
}

-- reads of the same key are the same
pub same_query : (q r : Query) → text_eq (key_of q) (key_of r) ≡ true → q ≡ r
unfolding key_of text_eq
same_query get_peers get_peers h = refl
same_query get_peers get_own_skills h = absurd (ground arith)
same_query get_peers (get_peer_by_id b) h = absurd (ground arith)
same_query get_peers (query_all_active_skills b) h = absurd (ground arith)
same_query get_peers (get_ledger_balance b) h = absurd (ground arith)
same_query get_own_skills get_peers h = absurd (ground arith)
same_query get_own_skills get_own_skills h = refl
same_query get_own_skills (get_peer_by_id b) h = absurd (ground arith)
same_query get_own_skills (query_all_active_skills b) h = absurd (ground arith)
same_query get_own_skills (get_ledger_balance b) h = absurd (ground arith)
same_query (get_peer_by_id a) get_peers h = absurd (ground arith)
same_query (get_peer_by_id a) get_own_skills h = absurd (ground arith)
same_query (get_peer_by_id a) (get_peer_by_id b) h = ap get_peer_by_id ((text_eq_iff a b).0 h)
same_query (get_peer_by_id a) (query_all_active_skills b) h = absurd (ground arith)
same_query (get_peer_by_id a) (get_ledger_balance b) h = absurd (ground arith)
same_query (query_all_active_skills a) get_peers h = absurd (ground arith)
same_query (query_all_active_skills a) get_own_skills h = absurd (ground arith)
same_query (query_all_active_skills a) (get_peer_by_id b) h = absurd (ground arith)
same_query (query_all_active_skills a) (query_all_active_skills b) h =
    ap query_all_active_skills ((text_eq_iff a b).0 h)
same_query (query_all_active_skills a) (get_ledger_balance b) h = absurd (ground arith)
same_query (get_ledger_balance a) get_peers h = absurd (ground arith)
same_query (get_ledger_balance a) get_own_skills h = absurd (ground arith)
same_query (get_ledger_balance a) (get_peer_by_id b) h = absurd (ground arith)
same_query (get_ledger_balance a) (query_all_active_skills b) h = absurd (ground arith)
same_query (get_ledger_balance a) (get_ledger_balance b) h =
    ap get_ledger_balance ((text_eq_iff a b).0 h)

keep-lookup-none :
    {V : Type 0} (p : Text × V → Bool) (key : Text) (cache : Dict V)
    → lookup key cache ≡ none
    → lookup key (keep p cache) ≡ none
keep-lookup-none p key [] h = refl
keep-lookup-none p key ((k, v) ∷ cache) h = ground (arith, keep-lookup-none p key cache)

keep-IsDict :
    {V : Type 0} (p : Text × V → Bool) (cache : Dict V) → IsDict cache → IsDict (keep p cache)
keep-IsDict p [] d = tt
keep-IsDict p ((k, v) ∷ cache) d = elim (Bool-cases (p (k, v))) [
  | inl stays ↦ rw stays (keep-lookup-none p k cache d.0, keep-IsDict p cache d.1)
  | inr goes ↦ rw goes (keep-IsDict p cache d.1)
]

pub invalidate-IsDict :
    {A V : Type 0} (w : Write A) (cache : Dict (V × ℕ)) → IsDict cache → IsDict (invalidate w cache)
unfolding invalidate invalidate_prefix invalidate_key
invalidate-IsDict (upsert_peer none a) cache d = d
invalidate-IsDict (upsert_peer (some id) a) cache d =
    erase-IsDict (key_of (get_peer_by_id id)) cache d
invalidate-IsDict (remove_peer a) cache d =
    keep-IsDict (λ e. not (starts_with (codes "peers:") e.0)) cache d
invalidate-IsDict (upsert_skill a) cache d = erase-IsDict (key_of get_own_skills) cache d
invalidate-IsDict (remove_skill a) cache d =
    keep-IsDict (λ e. not (starts_with (codes "skills:") e.0)) cache d
invalidate-IsDict (update_ledger_provider a) cache d =
    keep-IsDict (λ e. not (starts_with (codes "economy:") e.0)) cache d
invalidate-IsDict (update_ledger_consumer a) cache d =
    keep-IsDict (λ e. not (starts_with (codes "economy:") e.0)) cache d
invalidate-IsDict (write_receipt a) cache d =
    keep-IsDict (λ e. not (starts_with (codes "economy:") e.0)) cache d
invalidate-IsDict (delegated a) cache d = d

pub fresh-some :
    {V : Type 0} (now : ℕ) (o : Option (V × ℕ)) (value : V)
    → fresh now o ≡ some value
    → (expires_at : ℕ) × (o ≡ some (value, expires_at)) × (now < expires_at)
unfolding fresh
fresh-some now none value h = absurd (ground arith)
fresh-some now (some (v, exp)) value h = elim (Bool-cases (ltb now exp)) [
  | inl alive ↦
      let f : some v ≡ some value = rw (alive, fresh) at h in
      (exp, ap (λ x. some (x, exp)) (some-injective v value f), ground arith)
  | inr dead ↦ let f : none ≡ some value = rw (dead, fresh) at h in absurd (ground arith)
]
