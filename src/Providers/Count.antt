-- ===== src/Providers/Count.antt =====
-- How many records the cache's operations on its dicts leave.
use knarr.Prelude.{
  ℕ, suc, ◌+◌, ◌≡◌, refl, true, false, none, some, [], ◌∷◌, Text, if◌then◌else◌, arith, length,
  Option-cases, inl, inr,
}
use knarr.Prelude.Dict.{Dict, lookup, contains, insert, erase}
use knarr.Providers.Defs.{Provider, Records, find_record, delete_record, delete_any}

-- the number of the records of all keys
unfoldable pub size : Records → ℕ
size [] = 0
size ((key, providers) ∷ c) = length providers + size c

module _ {ℓ} {V : Type ℓ} where
  pub contains-lookup-none : (k : Text) (d : Dict V) → lookup k d ≡ none → contains k d ≡ false
  contains-lookup-none k [] e = refl
  contains-lookup-none k ((j, v) ∷ d) e = ground (arith, contains-lookup-none k d)

  pub contains-lookup-some :
      (k : Text) (d : Dict V) {v : V} → lookup k d ≡ some v → contains k d ≡ true
  contains-lookup-some k [] e = ground arith
  contains-lookup-some k ((j, w) ∷ d) {v} e = ground (arith, contains-lookup-some k d {v = v})

  pub length-insert :
      (k : Text) (v : V) (d : Dict V)
      → length (insert k v d) ≡ (if contains k d then length d else suc (length d))
  length-insert k v [] = refl
  length-insert k v ((j, w) ∷ d) = ground (arith, length-insert k v d)

  pub length-erase :
      (k : Text) (d : Dict V) {v : V} → lookup k d ≡ some v → suc (length (erase k d)) ≡ length d
  length-erase k [] e = ground arith
  length-erase k ((j, w) ∷ d) {v} e = ground (arith, length-erase k d {v = v})

pub size-insert :
    (key : Text) (qs : Dict Provider) (c : Records) {ps : Dict Provider}
    → lookup key c ≡ some ps
    → size (insert key qs c) + length ps ≡ size c + length qs
unfolding size
size-insert key qs [] e = ground arith
size-insert key qs ((j, rs) ∷ c) {ps} e = ground (arith, size-insert key qs c {ps = ps})

pub size-insert_new :
    (key : Text) (qs : Dict Provider) (c : Records)
    → lookup key c ≡ none
    → size (insert key qs c) ≡ size c + length qs
unfolding size
size-insert_new key qs [] e = ground arith
size-insert_new key qs ((j, rs) ∷ c) e = ground (arith, size-insert_new key qs c)

pub size-erase :
    (key : Text) (c : Records) {ps : Dict Provider}
    → lookup key c ≡ some ps
    → size (erase key c) + length ps ≡ size c
unfolding size
size-erase key [] e = ground arith
size-erase key ((j, rs) ∷ c) {ps} e = ground (arith, size-erase key c {ps = ps})

pub size-delete_record :
    (key node_id : Text) (c : Records) {r : Provider}
    → find_record key node_id c ≡ some r
    → suc (size (delete_record key node_id c)) ≡ size c
unfolding find_record delete_record
size-delete_record key node_id c {r} e = elim (Option-cases (lookup key c)) [
  | inl miss ↦ absurd (ground arith)
  | inr (ps, hit) ↦
      let there : lookup node_id ps ≡ some r = ground arith in
      let shorter = length-erase node_id ps there in
      ground (arith, shorter, size-erase key c hit, size-insert key (erase node_id ps) c hit)
]

pub size-delete_any-none : (c : Records) → delete_any c ≡ none → size c ≡ 0
unfolding delete_any size
size-delete_any-none [] e = refl
size-delete_any-none ((key, []) ∷ c) e = ground (arith, size-delete_any-none c)
size-delete_any-none ((key, p ∷ []) ∷ c) e = ground arith
size-delete_any-none ((key, p ∷ q ∷ ps) ∷ c) e = ground arith

pub size-delete_any : (c : Records) {c' : Records} → delete_any c ≡ some c' → suc (size c') ≡ size c
unfolding delete_any size
size-delete_any [] e = ground arith
size-delete_any ((key, []) ∷ c) {c'} e = elim (Option-cases (delete_any c)) [
  | inl miss ↦ absurd (ground arith)
  | inr (d, hit) ↦ ground (arith, size-delete_any c {c' = d})
]
size-delete_any ((key, p ∷ []) ∷ c) e = ground arith
size-delete_any ((key, p ∷ q ∷ ps) ∷ c) e = ground arith
