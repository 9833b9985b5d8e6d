-- ===== src/Router/PrefixIndex.antt =====
-- The prefix index of rust/libraries/cgn-core/src/prefix.rs.
--
-- Digests and node names are any types with decidable equality; the sharded map is an association
-- list. Instants are numbers, and the time of a call is its argument `now`: `duration_since`
-- stops at zero.
pub mod Overlap
pub mod Updates
pub mod Inserts
pub mod Counts
pub mod Keys
use cognitora_inference.Prelude.{
  ℕ, suc, zero, ◌+◌, ◌-◌, Bool, true, false, Option, none, some, List, [], ◌∷◌, ◌++◌, map, ltb, leb,
  ◌==◌, if◌then◌else◌, keep, any, not, ◌||◌,
}
use mathlib.Core.Logic.{ite}
use cognitora_inference.Prelude.Maps.{get, insert, remove}

module _ {Digest Name : Type 0} (digests : Discrete Digest) (names : Discrete Name) where
  pub record NodeEntry : Type 0 where
    pub node_id : Name
    pub last_seen : ℕ

  pub record PrefixIndex : Type 0 where
    pub inner : List (Digest × List NodeEntry)
    pub ttl : ℕ

  abbrev pub new : ℕ → PrefixIndex
  new ttl = record { inner = []; ttl = ttl }

  -- Boolean equality of node names.
  unfoldable pub is : Name → Name → Bool
  is m n = ite (names m n) true false

  -- The write to a digest's list of nodes: the node's first entry is refreshed, or one is added.
  unfoldable pub seen : Name → ℕ → List NodeEntry → List NodeEntry
  unfolding is
  seen n now [] = record { node_id = n; last_seen = now } ∷ []
  seen n now (e ∷ entries) =
      let rest = seen n now entries in
      if is e.node_id n then record e { last_seen = now } ∷ entries else e ∷ rest

  -- The list behind a digest, empty where the digest is not tracked.
  unfoldable pub entries_of : Option (List NodeEntry) → List NodeEntry
  entries_of none = []
  entries_of (some entries) = entries

  unfoldable pub add : PrefixIndex → Digest → Name → ℕ → PrefixIndex
  unfolding seen entries_of
  add index d n now = record index {
    inner = insert digests d (seen n now (entries_of (get digests d index.inner))) index.inner;
  }

  -- Each call of `insert` reads the clock; the readings here are one.
  unfoldable pub insert_many : PrefixIndex → List Digest → Name → ℕ → PrefixIndex
  unfolding add
  insert_many index [] n now = index
  insert_many index (d ∷ ds) n now = insert_many (add index d n now) ds n now

  -- A digest's entries filtered, and untracked digests dropped, as every `forget` and `gc` do.
  unfoldable pub retain :
      (NodeEntry → Bool) → List (Digest × List NodeEntry) → List (Digest × List NodeEntry)
  retain test [] = []
  retain test ((d, entries) ∷ inner) =
      let rest = retain test inner in
      elim (keep test entries) [ [] ↦ rest | e ∷ kept ↦ (d, e ∷ kept) ∷ rest ]

  -- One node's claim on one digest is dropped, and the digest with its last claim.
  unfoldable pub forget_claim : PrefixIndex → Digest → Name → PrefixIndex
  unfolding is
  forget_claim index d n = elim (get digests d index.inner) [
    | none ↦ index
    | some entries ↦ elim (keep (λ e. not (is e.node_id n)) entries) [
      | [] ↦ record index { inner = remove digests d index.inner }
      | e ∷ kept ↦ record index { inner = insert digests d (e ∷ kept) index.inner }
    ]
  ]

  unfoldable pub forget_node : PrefixIndex → Name → PrefixIndex
  unfolding retain is
  forget_node index n = record index { inner = retain (λ e. not (is e.node_id n)) index.inner }

  unfoldable pub forget_node_stale : PrefixIndex → Name → ℕ → ℕ → PrefixIndex
  unfolding retain is
  forget_node_stale index n older_than now = record index {
    inner = retain (λ e. not (is e.node_id n) || ltb (now - e.last_seen) older_than) index.inner;
  }

  unfoldable pub gc : PrefixIndex → ℕ → PrefixIndex
  unfolding retain
  gc index now = record index {
    inner = retain (λ e. ltb (now - e.last_seen) index.ttl) index.inner;
  }

  -- The names behind a digest that are still live.
  unfoldable pub live : ℕ → ℕ → List NodeEntry → List Name
  live ttl now entries = map (λ e. e.node_id) (keep (λ e. ltb (now - e.last_seen) ttl) entries)

  unfoldable pub look_up : PrefixIndex → Digest → ℕ → List Name
  unfolding entries_of live
  look_up index d now = live index.ttl now (entries_of (get digests d index.inner))

  unfoldable pub contains : List Name → Name → Bool
  unfolding is
  contains held n = any (λ m. is m n) held

  -- `out.insert(n, length)` for every active node.
  unfoldable pub set_all : List Name → ℕ → List (Name × ℕ) → List (Name × ℕ)
  set_all [] length out = out
  set_all (n ∷ active) length out = set_all active length (insert names n length out)

  -- The walk over the chunks after the first: `i` is the position of the next one.
  unfoldable pub walk :
      PrefixIndex → ℕ → ℕ → List Name → List Digest → List (Name × ℕ) → List (Name × ℕ)
  unfolding look_up contains set_all
  walk index now i active [] out = out
  walk index now i active (d ∷ ds) out =
      let active' = keep (contains (look_up index d now)) active in
      let rest = walk index now (suc i) active' ds (set_all active' (i + 1) out) in
      elim active [ [] ↦ out | n ∷ others ↦ rest ]

  unfoldable pub longest_prefix_overlap : PrefixIndex → List Digest → ℕ → List (Name × ℕ)
  unfolding walk look_up set_all
  longest_prefix_overlap index [] now = []
  longest_prefix_overlap index (d ∷ ds) now =
      let active = look_up index d now in walk index now 1 active ds (set_all active 1 [])

  abbrev pub or_zero : Option ℕ → ℕ
  or_zero none = 0
  or_zero (some n) = n

  -- `*out.entry(node).or_insert(0) += 1` for every live holder.
  unfoldable pub bump : List Name → List (Name × ℕ) → List (Name × ℕ)
  bump [] out = out
  bump (n ∷ holders) out = bump holders (insert names n (or_zero (get names n out) + 1) out)

  unfoldable pub overlap_from : PrefixIndex → List Digest → ℕ → List (Name × ℕ) → List (Name × ℕ)
  unfolding look_up bump
  overlap_from index [] now out = out
  overlap_from index (d ∷ ds) now out = overlap_from index ds now (bump (look_up index d now) out)

  -- `overlap`: digests held, wherever they stand.
  unfoldable pub overlap : PrefixIndex → List Digest → ℕ → List (Name × ℕ)
  unfolding overlap_from
  overlap index ds now = overlap_from index ds now []
