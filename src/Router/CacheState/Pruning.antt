-- ===== src/Router/CacheState/Pruning.antt =====
-- What the router still reads of a node's claims after a heartbeat,
-- rust/services/cgn-router/src/cluster/cache_state.rs.
use cognitora_inference.Prelude.{ℕ, ◌/◌, ◌≡◌, Bool, not, Option, none, some, List, keep, arith}
use cognitora_inference.Prelude.Maps.{get, Unique}
use cognitora_inference.Router.PrefixIndex.{PrefixIndex, is, look_up}
use cognitora_inference.Router.PrefixIndex.Updates.{forget_node-look_up}
use cognitora_inference.Router.CacheState.{
  PruneReason, epoch_reset, eviction_burst, pressure, Snapshot, prune_reason, prune, reconcile,
}

-- How old a claim of the node may be after a heartbeat.
abbrev pub window : Option PruneReason → ℕ → ℕ
window none ttl = ttl
window (some epoch_reset) ttl = 0
window (some eviction_burst) ttl = ttl / 4
window (some pressure) ttl = ttl / 2

module _ {Digest Name : Type 0} (digests : Discrete Digest) (names : Discrete Name) where
  abbrev pub others : Name → List Name → List Name
  others n held = keep (λ m. not (is digests names m n)) held

  abbrev pub own : Name → List Name → List Name
  own n held = keep (λ m. is digests names m n) held

module _ (low : ℕ → ℕ → Bool) {Digest Name : Type 0} (digests : Discrete Digest)
    (names : Discrete Name) where
  -- At a new epoch no later lookup returns the node's claims either.
  pub reconcile-epoch :
      (inner : List (Name × Snapshot)) (index : PrefixIndex digests names) (n : Name)
      (entry known : Snapshot) (now later : ℕ) (d : Digest)
      → Unique digests index.inner
      → get names n inner ≡ some known
      → ¬ (entry.kv_epoch ≡ known.kv_epoch)
      → look_up digests names (reconcile low digests names inner index n entry now).1 d later
        ≡ others digests names n (look_up digests names index d later)
  unfolding reconcile prune_reason prune
  reconcile-epoch inner index n entry known now later d u g ne =
      rw (g, reconcile, prune_reason)
        (ground (arith, ne, forget_node-look_up digests names index n d later u))
