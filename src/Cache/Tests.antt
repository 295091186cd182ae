-- ===== src/Cache/Tests.antt =====
-- A storage that is one balance, and a credit that the cache does not see.
use knarr.Prelude.{
  ℕ, ◌+◌, ◌<◌, ◌≡◌, ◌⊎◌, refl, List, [], ◌∷◌, codes, text_eq, starts_with, if◌then◌else◌,
}
use knarr.Prelude.Dict.{lookup}
use knarr.Cache.Defs
use knarr.Cache.Defs.{
  Query, get_peers, get_ledger_balance, Write, upsert_peer, remove_peer, upsert_skill, remove_skill,
  update_ledger_provider, update_ledger_consumer, write_receipt, delegated, Storage, Ttls, Proxy,
  read, write, fresh, key_of, ttl_of,
}
use knarr.Cache.Coherence.{covers, value_or, read-write}
use knarr.Cache.Staleness.{Step, ask, change, run, new_proxy, IsIn, read-recent}

-- a write adds its number to the balance
abbrev added : Write ℕ → ℕ → ℕ
added (upsert_peer id n) s = s
added (remove_peer n) s = s
added (upsert_skill n) s = s
added (remove_skill n) s = s
added (update_ledger_provider n) s = s + n
added (update_ledger_consumer n) s = s + n
added (write_receipt n) s = s
added (delegated n) s = s + n

abbrev balances : Storage ℕ ℕ ℕ
balances = record { answer = λ q s. s; apply = added }

abbrev credit_50 : Write ℕ
credit_50 = delegated 50

abbrev ttls : Ttls
ttls = record { peers_ttl = 30; skills_ttl = 60; economy_ttl = 10; own_skills_ttl = 120 }

abbrev query : Query
query = get_ledger_balance (codes "k1")

program : Unit {0}
unfolding Defs.key_of Defs.ttl_of Defs.invalidate_prefix Defs.invalidate_key Defs.invalidate fresh
    Defs.cached_read read write text_eq starts_with
program = tt

-- what was read at time 1 is given at time 5, after a credit of 50
stale :
    (read balances ttls 5 query
      (write balances credit_50 (read balances ttls 1 query (new_proxy balances ttls 7)).0)).1
    ≡ 7
unfolding program
stale = refl

abbrev read_before : Proxy ℕ ℕ
read_before = record {
  storage = 7;
  cache = (codes "economy:balance:k1", (7, 11)) ∷ [];
  hits = 0;
  misses = 1;
}

read-write_example : (read balances ttls 5 query (write balances credit_50 read_before)).1 ≡ (
    if covers credit_50 query
    then balances.answer query (balances.apply credit_50 read_before.storage)
    else value_or
        (balances.answer query (balances.apply credit_50 read_before.storage))
        (fresh 5 (lookup (key_of query) read_before.cache)))
read-write_example = read-write balances ttls 5 credit_50 query read_before (refl, tt)

abbrev calls : List (ℕ × Step ℕ)
calls = (1, ask query) ∷ (2, change credit_50) ∷ (3, ask get_peers) ∷ []

read-recent_example :
    ((read balances ttls 5 query (run balances ttls calls (new_proxy balances ttls 7) []).0).1
      ≡ balances.answer query (run balances ttls calls (new_proxy balances ttls 7) []).0.storage)
    ⊎ ((t : ℕ) × (s' : ℕ) × IsIn (t, s') (run balances ttls calls (new_proxy balances ttls 7) []).1
        × ((read balances ttls 5 query (run balances ttls calls (new_proxy balances ttls 7) []).0).1
            ≡ balances.answer query s')
        × (5 < t + ttl_of ttls query))
read-recent_example = read-recent balances ttls 7 calls 5 query
