-- ===== src/Cache/Staleness.antt =====
-- How old an answer can be.
use mathlib.Core.Option.{some-injective}
use mathlib.Core.Path.{subst}
use knarr.Prelude.{
  ℕ, ◌+◌, ◌<◌, ◌≡◌, ◌⊎◌, refl, sym, ap, ◌∙◌, none, some, List, [], ◌∷◌, text_eq, arith,
  Option-cases, Bool-cases, inl, inr,
}
use knarr.Prelude.Dict.{Dict, lookup, insert, IsDict, lookup-insert, insert-IsDict}
use knarr.Cache.Defs.{
  Query, Write, Storage, Ttls, Proxy, key_of, ttl_of, invalidate, fresh, cached_read, read, write,
}
use knarr.Cache.Coherence.{invalidate-lookup, covers, value_or, cached_read-answer}
use knarr.Cache.Keys.{same_query, invalidate-IsDict, fresh-some}

-- a call on the proxy
pub data Step (A : Type 0) : Type 0 where
  ask : Query → Step A
  change : Write A → Step A

abbrev pub IsIn : {S : Type 0} → ℕ × S → List (ℕ × S) → Type 0
IsIn x [] = ⊥
IsIn x (y ∷ ys) = (x ≡ y) ⊎ IsIn x ys

module _ {S V A : Type 0} (storage : Storage S V A) (ttls : Ttls) where
  abbrev pub step : ℕ → Step A → Proxy S V → Proxy S V
  step now (ask q) p = (read storage ttls now q p).0
  step now (change w) p = write storage w p

  -- the proxy after the calls, with the storage's states and the times at which they were seen
  abbrev pub run : List (ℕ × Step A) → Proxy S V → List (ℕ × S) → Proxy S V × List (ℕ × S)
  run [] p seen = (p, seen)
  run ((now, c) ∷ cs) p seen = run cs (step now c p) ((now, p.storage) ∷ seen)

  abbrev WasSeen : List (ℕ × S) → Query → V × ℕ → Type 0
  WasSeen seen q e =
      (t : ℕ) × (s : S) × IsIn (t, s) seen × (e.0 ≡ storage.answer q s) × (e.1 ≡ t + ttl_of ttls q)

  -- each entry is an answer of a state that was seen when the entry was made
  record IsRecorded (seen : List (ℕ × S)) (p : Proxy S V) : Type 0 where
    keys : IsDict p.cache
    entries : (q : Query) (e : V × ℕ) → lookup (key_of q) p.cache ≡ some e → WasSeen seen q e

  seen_before :
      (x : ℕ × S) (seen : List (ℕ × S)) (q : Query) (e : V × ℕ)
      → WasSeen seen q e
      → WasSeen (x ∷ seen) q e
  seen_before x seen q e (t, s, there, is_answer, age) = (t, s, inr there, is_answer, age)

  made-WasSeen :
      (now : ℕ) (q r : Query) (s : S) (cache : Dict (V × ℕ)) (seen : List (ℕ × S))
      → ((e : V × ℕ) → lookup (key_of r) cache ≡ some e → WasSeen seen r e)
      → (e : V × ℕ)
      → lookup (key_of r) (insert (key_of q) (storage.answer q s, now + ttl_of ttls q) cache)
        ≡ some e
      → WasSeen ((now, s) ∷ seen) r e
  made-WasSeen now q r s cache seen before e h =
      let new : V × ℕ = (storage.answer q s, now + ttl_of ttls q) in
      elim (Bool-cases (text_eq (key_of q) (key_of r))) [
        | inl same ↦
            let q_r = same_query q r same in
            let is_new : some new ≡ some e =
              rw same at (sym (lookup-insert (key_of q) (key_of r) new cache) ∙ h) in
            subst (λ x. WasSeen ((now, s) ∷ seen) r x) (some-injective new e is_new)
              (subst (λ x. WasSeen ((now, s) ∷ seen) x new) q_r (now, s, inl refl, refl, refl))
        | inr other ↦
            let old : lookup (key_of r) cache ≡ some e =
              rw other at (sym (lookup-insert (key_of q) (key_of r) new cache) ∙ h) in
            seen_before (now, s) seen r e (before e old)
      ]

  kept-WasSeen :
      (x : ℕ × S) (w : Write A) (q : Query) (cache : Dict (V × ℕ)) (seen : List (ℕ × S))
      → IsDict cache
      → ((e : V × ℕ) → lookup (key_of q) cache ≡ some e → WasSeen seen q e)
      → (e : V × ℕ) → lookup (key_of q) (invalidate w cache) ≡ some e
      → WasSeen (x ∷ seen) q e
  kept-WasSeen x w q cache seen d before e h =
      let g = sym (invalidate-lookup w q cache d) ∙ h in
      elim (Bool-cases (covers w q)) [
        | inl dropped ↦ let f : none ≡ some e = rw dropped at g in absurd (ground arith)
        | inr stays ↦
            let f : lookup (key_of q) cache ≡ some e = rw stays at g in
            seen_before x seen q e (before e f)
      ]

  ask-IsRecorded :
      (now : ℕ) (q : Query) (p : Proxy S V) (seen : List (ℕ × S))
      → IsRecorded seen p
      → IsRecorded ((now, p.storage) ∷ seen) (read storage ttls now q p).0
  unfolding read cached_read
  ask-IsRecorded now q p seen r = elim (Option-cases (fresh now (lookup (key_of q) p.cache))) [
    | inr (value, hit) ↦
        rw (hit, cached_read)
          (record {
            keys = r.keys;
            entries = λ q' e h. seen_before (now, p.storage) seen q' e (r.entries q' e h);
          })
    | inl miss ↦
        rw (miss, cached_read)
          (record {
            keys =
                insert-IsDict (key_of q) (storage.answer q p.storage, now + ttl_of ttls q) p.cache
                  r.keys;
            entries = λ q'. made-WasSeen now q q' p.storage p.cache seen (r.entries q');
          })
  ]

  change-IsRecorded :
      (now : ℕ) (w : Write A) (p : Proxy S V) (seen : List (ℕ × S))
      → IsRecorded seen p
      → IsRecorded ((now, p.storage) ∷ seen) (write storage w p)
  unfolding write
  change-IsRecorded now w p seen r = record {
    keys = invalidate-IsDict w p.cache r.keys;
    entries = λ q. kept-WasSeen (now, p.storage) w q p.cache seen r.keys (r.entries q);
  }

  run-IsRecorded :
      (cs : List (ℕ × Step A)) (p : Proxy S V) (seen : List (ℕ × S))
      → IsRecorded seen p
      → IsRecorded (run cs p seen).1 (run cs p seen).0
  run-IsRecorded [] p seen r = r
  run-IsRecorded ((now, ask q) ∷ cs) p seen r =
      run-IsRecorded cs _ ((now, p.storage) ∷ seen) (ask-IsRecorded now q p seen r)
  run-IsRecorded ((now, change w) ∷ cs) p seen r =
      run-IsRecorded cs _ ((now, p.storage) ∷ seen) (change-IsRecorded now w p seen r)

  abbrev pub new_proxy : S → Proxy S V
  new_proxy s = record { storage = s; cache = []; hits = 0; misses = 0 }

  -- After any calls on a new proxy, what a read gives is the storage's answer of the moment, or of a
  -- state in which a call found the storage less than the read's time to live ago.
  pub read-recent :
      (s : S) (cs : List (ℕ × Step A)) (now : ℕ) (q : Query)
      → ((read storage ttls now q (run cs (new_proxy s) []).0).1
          ≡ storage.answer q (run cs (new_proxy s) []).0.storage)
        ⊎ ((t : ℕ) × (s' : S) × IsIn (t, s') (run cs (new_proxy s) []).1
            × ((read storage ttls now q (run cs (new_proxy s) []).0).1 ≡ storage.answer q s')
            × (now < t + ttl_of ttls q))
  unfolding read
  read-recent s cs now q =
      let (p, seen) = run cs (new_proxy s) [] in
      let r =
        run-IsRecorded cs (new_proxy s) []
          (record { keys = tt; entries = λ q' e h. absurd (ground arith) }) in
      let said = cached_read-answer now (key_of q) (storage.answer q p.storage) (ttl_of ttls q) p in
      elim (Option-cases (fresh now (lookup (key_of q) p.cache))) [
        | inl miss ↦ inl (said ∙ ap (value_or (storage.answer q p.storage)) miss)
        | inr (value, hit) ↦
            let (exp, at_key, alive) = fresh-some now (lookup (key_of q) p.cache) value hit in
            let (t, s', there, is_answer, age) = r.entries q (value, exp) at_key in
            inr (
              t,
              s',
              there,
              said ∙ ap (value_or (storage.answer q p.storage)) hit ∙ is_answer,
              omega (arith, alive, age),
            )
      ]
