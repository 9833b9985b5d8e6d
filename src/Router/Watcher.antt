-- ===== src/Router/Watcher.antt =====
-- The cluster watcher of rust/services/cgn-router/src/cluster/watcher.rs: how the events of the
-- store change the registry, the prefix index and the cache-state tracker together.
--
-- An event is one whose key and value could be read (the others are skipped); it is one step. The
-- policy key is left out. `snapshot_of` reads a node's cache fields, `low` is as in `CacheState`.
pub mod History
pub mod Restart
use cognitora_inference.Prelude.{ℕ, Bool, true, false, Option, none, some, List, [], ◌∷◌}
use cognitora_inference.Prelude.Maps.{get}
use cognitora_inference.Router.PrefixIndex.{PrefixIndex, new, add, forget_claim, forget_node}
use cognitora_inference.Router.Registry.{Fleet, NodeEntry, Registry, upsert, forget, set_cordon}
use cognitora_inference.Router.CacheState
use cognitora_inference.Router.CacheState.{Snapshot, reconcile}

-- What the watcher takes as given: the fleet's types, the digests, the cache fields of a node and
-- the test of a low share of free blocks.
pub record Cluster : Type 1 where
  pub fleet : Fleet
  pub Digest : Type 0
  pub digests : Discrete Digest
  pub snapshot_of : NodeEntry fleet → Snapshot
  pub low : ℕ → ℕ → Bool

module _ (cluster : Cluster) where
  open cluster use {fleet, Digest, digests, snapshot_of, low}
  open fleet use {NodeId, ids}

  pub record View : Type 0 where
    pub nodes : Registry fleet
    pub prefix : PrefixIndex digests ids
    pub cache_state : List (NodeId × Snapshot)

  pub data Event : Type 0 where
    node_put : NodeEntry fleet → Event
    node_delete : NodeId → Event
    cordon_put cordon_delete : NodeId → Event
    claim_put claim_delete : Digest → NodeId → Event

  unfoldable pub start : ℕ → View
  start ttl = record { nodes = []; prefix = new digests ids ttl; cache_state = [] }

  unfoldable pub node_put_step : View → NodeEntry fleet → ℕ → View
  node_put_step v entry now =
      let id = entry.node_id in
      let (cache_state, prefix, reason) =
        reconcile low digests ids v.cache_state v.prefix id (snapshot_of entry) now in
      record { nodes = upsert fleet v.nodes entry; prefix = prefix; cache_state = cache_state }

  unfoldable pub node_delete_step : View → NodeId → View
  node_delete_step v id = record {
    nodes = forget fleet v.nodes id;
    prefix = forget_node digests ids v.prefix id;
    cache_state = CacheState.forget low digests ids v.cache_state id;
  }

  unfoldable pub step : View → Event → ℕ → View
  unfolding node_put_step node_delete_step
  step v (node_put entry) now = node_put_step v entry now
  step v (node_delete id) now = node_delete_step v id
  step v (cordon_put id) now = record v { nodes = set_cordon fleet v.nodes id true }
  step v (cordon_delete id) now = record v { nodes = set_cordon fleet v.nodes id false }
  step v (claim_put d id) now = record v { prefix = add digests ids v.prefix d id now }
  step v (claim_delete d id) now = record v { prefix = forget_claim digests ids v.prefix d id }

  unfoldable pub run : View → List (Event × ℕ) → View
  unfolding step
  run v [] = v
  run v ((e, now) ∷ events) = run (step v e now) events
