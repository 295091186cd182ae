-- ===== src/Lookup/Defs.antt =====
-- `class IterativeLookup`. What a peer answers is a parameter: `ask` gives the answer that
-- `_send_and_wait` returns, where no answer, or one that lacks a list, has none of its entries. No
-- peer is asked twice by one search, so `ask` is a function of the peer; the searches of
-- `find_providers_disjoint`, which do not share anything, get the same answers.
use knarr.Prelude.{
  ℕ, zero, suc, ◌+◌, ◌%◌, max, Bool, true, false, not, ◌&&◌, Option, none, some, List, [], ◌∷◌,
  ◌++◌, map, Text, text_eq, ◌==◌, if◌then◌else◌, keep, length, take,
}
use knarr.Prelude.Int.{ℤ, ltb_ℤ}
use knarr.Prelude.Dict.{Dict, contains, insert}
use knarr.Prelude.Sorting.{sort_by}
use knarr.Lookup.Integers.{int_16, xor_ℤ}
use knarr.KBuckets.{Table, Found, get_closest}

-- an entry of `found`
pub record Node : Type 0 where
  pub node_id : Text
  pub host : Text
  pub port : ℕ
  pub distance : ℤ

-- A peer that an answer names. An id that is missing is the empty text; `none` is a missing host or
-- port, at which the lookup raises a KeyError.
pub record Offer : Type 0 where
  pub node_id : Text
  pub address : Option (Text × ℕ)

-- a provider that an answer names; without a node id the lookup raises a KeyError
pub record Advert (A : Type 0) : Type 0 where
  pub node_id : Option Text
  pub record_of : A

pub record Answer (A : Type 0) : Type 0 where
  pub peers : List Offer
  pub providers : List (Advert A)

pub record Search (A : Type 0) : Type 0 where
  pub found : Dict Node
  pub queried : List Text
  pub providers : Dict A
  pub last_closest_ids : List Text

unfoldable pub member : Text → List Text → Bool
member t [] = false
member t (s ∷ texts) = if text_eq s t then true else member t texts

unfoldable pub texts_eq : List Text → List Text → Bool
texts_eq [] [] = true
texts_eq [] (t ∷ ts) = false
texts_eq (s ∷ ss) [] = false
texts_eq (s ∷ ss) (t ∷ ts) = text_eq s t && texts_eq ss ts

-- `found[nid]["distance"]` as the key of `sorted`
unfoldable pub before : Node → Node → Bool
before m n = not (ltb_ℤ n.distance m.distance)

unfoldable pub nodes : Dict Node → List Node
nodes [] = []
nodes ((node_id, n) ∷ found) = n ∷ nodes found

unfoldable pub nearest : Dict Node → List Node
nearest found = sort_by before (nodes found)

unfoldable pub id_of : Node → Text
id_of n = n.node_id

unfoldable pub closest_ids : ℕ → Dict Node → List Text
closest_ids k found = take k (map id_of (nearest found))

-- the peers to ask next: the nearest that have not been asked
unfoldable pub targets : ℕ → Dict Node → List Text → List Node
targets alpha found queried =
    take alpha (keep (λ n. not (member n.node_id queried)) (nearest found))

module _ (decimal : ℕ → Option ℕ) where
  -- `_is_valid_hex_id`, with the id's value
  unfoldable pub valid_hex_id : Text → Option ℤ
  valid_hex_id node_id = if length node_id == 64 then int_16 decimal node_id else none

  -- the entry for a peer whose id has the value
  abbrev pub node_at : ℤ → Text → Text → ℕ → ℤ → Node
  node_at target node_id host port value = record {
    node_id = node_id;
    host = host;
    port = port;
    distance = xor_ℤ target value;
  }

  -- the seeds, for a target; `none` is a ValueError of `_get_distance`
  unfoldable pub seed : ℤ → List Found → Dict Node → Option (Dict Node)
  seed target [] found = some found
  seed target (p ∷ seeds) found = elim (int_16 decimal p.node_id) [
    | none ↦ none
    | some value ↦
        seed target seeds (insert p.node_id (node_at target p.node_id p.host p.port value) found)
  ]

  module _ (local_id : Text) where
    -- a peer of an answer; `none` is a KeyError
    unfoldable pub add_offer : ℤ → Offer → Dict Node → Option (Dict Node)
    add_offer target p found =
        if text_eq p.node_id []
        then some found
        else if text_eq p.node_id local_id
        then some found
        else (elim (valid_hex_id p.node_id) [
          | none ↦ some found
          | some value ↦ if contains p.node_id found then some found else (elim p.address [
            | none ↦ none
            | some (host, port) ↦
                some (insert p.node_id (node_at target p.node_id host port value) found)
          ])
        ])

    unfoldable pub add_offers : ℤ → List Offer → Dict Node → Option (Dict Node)
    add_offers target [] found = some found
    add_offers target (p ∷ peers) found = elim (add_offer target p found) [
      | none ↦ none
      | some found' ↦ add_offers target peers found'
    ]

-- the seeds of one of `d` groups, from the i-th seed on
unfoldable pub group : ℕ → ℕ → ℕ → List Found → List Found
group d g i [] = []
group d g i (p ∷ seeds) =
    if i % d == g then p ∷ group d g (i + 1) seeds else group d g (i + 1) seeds

-- `range(20)`
abbrev pub max_rounds : ℕ
max_rounds = 20

module _ {A : Type 0} where
  -- `none` is a KeyError
  unfoldable pub add_adverts : List (Advert A) → Dict A → Option (Dict A)
  add_adverts [] providers = some providers
  add_adverts (p ∷ ps) providers = elim p.node_id [
    | none ↦ none
    | some node_id ↦ add_adverts ps (insert node_id p.record_of providers)
  ]

  unfoldable pub values_of : Dict A → List A
  values_of [] = []
  values_of ((node_id, a) ∷ providers) = a ∷ values_of providers

  -- `merged[p["node_id"]] = p`, where the node id is the key that the provider was found by
  unfoldable pub merge : Dict A → Dict A → Dict A
  merge [] merged = merged
  merge ((node_id, a) ∷ providers) merged = merge providers (insert node_id a merged)

  unfoldable pub start : Text → Dict Node → Search A
  start local_id found = record {
    found = found;
    queried = local_id ∷ [];
    providers = [];
    last_closest_ids = [];
  }

  -- the search after a round that asked these peers
  abbrev pub after_round : ℕ → List Node → Dict Node → Dict A → Search A → Search A
  after_round k asked found providers s = record {
    found = found;
    queried = s.queried ++ map id_of asked;
    providers = providers;
    last_closest_ids = closest_ids k found;
  }

  module _ (decimal : ℕ → Option ℕ) (local_id : Text) (alpha k : ℕ) (ask : Text → Answer A) where
    -- what the answers of the peers that were asked add, in their order
    unfoldable pub collect : ℤ → List Node → Dict Node → Dict A → Option (Dict Node × Dict A)
    collect target [] found providers = some (found, providers)
    collect target (n ∷ asked) found providers =
        elim (add_adverts (ask n.node_id).providers providers) [
          | none ↦ none
          | some providers' ↦
              elim (add_offers decimal local_id target (ask n.node_id).peers found) [
                | none ↦ none
                | some found' ↦ collect target asked found' providers'
              ]
        ]

    -- the rounds, where `check` says whether the search ends when the nearest peers stay the same
    unfoldable pub rounds : Bool → ℤ → ℕ → Search A → Option (Search A)
    rounds check target zero s = some s
    rounds check target (suc left) s = elim (targets alpha s.found s.queried) [
      | [] ↦ some s
      | n ∷ ns ↦ elim (collect target (n ∷ ns) s.found s.providers) [
        | none ↦ none
        | some (found, providers) ↦
            let s' = after_round k (n ∷ ns) found providers s in
            elim (check && texts_eq s'.last_closest_ids s.last_closest_ids) [
              | true ↦ some s'
              | false ↦ rounds check target left s'
            ]
      ]
    ]

    -- the search for a target of that value, from seeds
    unfoldable pub search_from : Bool → ℤ → List Found → Option (Search A)
    search_from check target seeds = elim (seed decimal target seeds []) [
      | none ↦ none
      | some found ↦ rounds check target max_rounds (start local_id found)
    ]

    -- `find_providers`, from the key of the skill on, which is a SHA-256 digest in hexadecimal
    unfoldable pub find_providers : Text → Table → Option (List A)
    find_providers target_id table = elim (int_16 decimal target_id) [
      | none ↦ none
      | some target ↦ elim (get_closest target_id k table) [
        | none ↦ none
        | some seeds ↦ elim (search_from true target seeds) [
          | none ↦ none
          | some s ↦ some (values_of s.providers)
        ]
      ]
    ]

    -- the searches of the groups from the g-th on, and their providers together
    unfoldable pub search_groups : ℕ → ℕ → ℕ → ℤ → List Found → Dict A → Option (Dict A)
    search_groups d zero g target seeds merged = some merged
    search_groups d (suc left) g target seeds merged =
        elim (search_from false target (group d g 0 seeds)) [
          | none ↦ none
          | some s ↦ search_groups d left (g + 1) target seeds (merge s.providers merged)
        ]

    unfoldable pub find_providers_disjoint : Text → ℕ → Table → Option (List A)
    find_providers_disjoint target_id d table = elim (int_16 decimal target_id) [
      | none ↦ none
      | some target ↦ elim (get_closest target_id k table) [
        | none ↦ none
        | some seeds ↦ elim (search_groups (max 1 d) (max 1 d) 0 target seeds []) [
          | none ↦ none
          | some merged ↦ some (values_of merged)
        ]
      ]
    ]

module _ (decimal : ℕ → Option ℕ) (local_id : Text) (alpha k : ℕ) (ask : Text → List Offer) where
  -- An answer to FIND_NODE names peers only.
  abbrev pub answer : Text → Answer (Unit {0})
  answer node_id = record { peers = ask node_id; providers = [] }

  -- `none` is an exception.
  unfoldable pub find_nodes : Text → Table → Option (List Node)
  find_nodes target_id table = elim (valid_hex_id decimal target_id) [
    | none ↦ some []
    | some target ↦ elim (get_closest target_id k table) [
      | none ↦ none
      | some seeds ↦ elim (search_from decimal local_id alpha k answer true target seeds) [
        | none ↦ none
        | some s ↦ some (take k (nearest s.found))
      ]
    ]
  ]
