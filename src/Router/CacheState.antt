-- ===== src/Router/CacheState.antt =====
-- The cache-state tracker of rust/services/cgn-router/src/cluster/cache_state.rs: what a heartbeat
-- makes the router forget of its prefix index.
--
-- The comparison of `free / total` with 0.05 is 32-bit floating point; it is the parameter `low`.
pub mod Pruning
use cognitora_inference.Prelude.{
  ℕ, ◌-◌, ◌/◌, max, Bool, true, false, not, ◌&&◌, Option, none, some, List, ltb, leb, ◌==◌,
  if◌then◌else◌,
}
use cognitora_inference.Prelude.Maps.{get, insert, remove}
use cognitora_inference.Router.PrefixIndex.{PrefixIndex, forget_node, forget_node_stale}

pub data PruneReason : Type 0 where
  epoch_reset eviction_burst pressure : PruneReason

pub record Snapshot : Type 0 where
  pub kv_epoch : ℕ
  pub free_blocks : ℕ
  pub total_blocks : ℕ

-- `unwrap_or_default`.
abbrev pub or_default : Option Snapshot → Snapshot
or_default none = record { kv_epoch = 0; free_blocks = 0; total_blocks = 0 }
or_default (some s) = s

abbrev pub has : Option Snapshot → Bool
has none = false
has (some s) = true

module _ (low : ℕ → ℕ → Bool) where
  -- Both maps have a size and the node is known at the same epoch.
  unfoldable pub size_reason : Snapshot → Snapshot → Option PruneReason
  size_reason prev entry =
      if ltb 0 entry.total_blocks && ltb 0 prev.total_blocks
      then if leb (max (entry.total_blocks / 10) 32) (prev.free_blocks - entry.free_blocks)
        then some eviction_burst
        else if low entry.free_blocks entry.total_blocks
        then some pressure
        else none
      else if ltb 0 entry.total_blocks && low entry.free_blocks entry.total_blocks
      then some pressure
      else none

  unfoldable pub prune_reason : Option Snapshot → Snapshot → Option PruneReason
  unfolding size_reason
  prune_reason known entry =
      if has known && not (entry.kv_epoch == (or_default known).kv_epoch)
      then some epoch_reset
      else size_reason (or_default known) entry

  module _ {Digest Name : Type 0} (digests : Discrete Digest) (names : Discrete Name) where
    -- The call on the prefix index that goes with a reason.
    unfoldable pub prune :
        PrefixIndex digests names → Name → ℕ → Option PruneReason → PrefixIndex digests names
    prune index n now none = index
    prune index n now (some epoch_reset) = forget_node digests names index n
    prune index n now (some eviction_burst) =
        forget_node_stale digests names index n (index.ttl / 4) now
    prune index n now (some pressure) = forget_node_stale digests names index n (index.ttl / 2) now

    unfoldable pub reconcile :
        List (Name × Snapshot)
        → PrefixIndex digests names
        → Name
        → Snapshot
        → ℕ
        → List (Name × Snapshot) × PrefixIndex digests names × Option PruneReason
    unfolding prune_reason prune
    reconcile inner prefix n entry now =
        let reason = prune_reason (get names n inner) entry in
        (insert names n entry inner, prune prefix n now reason, reason)

    unfoldable pub forget : List (Name × Snapshot) → Name → List (Name × Snapshot)
    forget inner n = remove names n inner
