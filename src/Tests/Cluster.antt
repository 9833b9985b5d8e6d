-- ===== src/Tests/Cluster.antt =====
-- The cluster watcher, the cache-state tracker and the agent's epoch at concrete inputs.
use cognitora_inference.Prelude.{
  ℕ, ◌≡◌, ◌*◌, refl, true, false, some, none, Option, List, [], ◌∷◌, arith, ltb, ℕ_discrete, Bool,
}
use cognitora_inference.Prelude.Maps.{get, insert}
use cognitora_inference.Router.PrefixIndex.{look_up, add}
use cognitora_inference.Router.Registry.{Fleet, NodeEntry}
use cognitora_inference.Router.CacheState.{Snapshot, reconcile}
use cognitora_inference.Router.CacheState.Pruning.{others}
use cognitora_inference.Router.Watcher.{Cluster, View, Event, node_put, claim_put, start, step, run}
use cognitora_inference.Router.Watcher.History.{IsValid, run-IsValid}
use cognitora_inference.Router.Gossip.{sync}
use cognitora_inference.Router.Gossip.Round.{last_record, sync-nodes}
use cognitora_inference.Router.Watcher.Restart.{restart-forgets}
use cognitora_inference.Agent.KvCacheState
use cognitora_inference.Agent.KvCacheState.{KvCacheState, EngineStats, observe}

abbrev fleet : Fleet
fleet = record { NodeId = ℕ; ids = ℕ_discrete; Model = ℕ; models = ℕ_discrete; Info = Snapshot }

abbrev low : ℕ → ℕ → Bool
low free total = ltb (free * 20) total

abbrev cluster : Cluster
cluster = record {
  fleet = fleet;
  Digest = ℕ;
  digests = ℕ_discrete;
  snapshot_of = λ n. n.info;
  low = low;
}

abbrev stats_of : ℕ → ℕ → Snapshot
stats_of epoch free = record { kv_epoch = epoch; free_blocks = free; total_blocks = 1000 }

abbrev node : ℕ → Snapshot → NodeEntry fleet
node id info = record {
  node_id = id;
  role = 3;
  model = some 7;
  cordoned = false;
  ready = true;
  draining = false;
  adapters = [];
  info = info;
}

-- Two nodes, with a claim each on digest 5.
abbrev history : List (Event cluster × ℕ)
history =
    (node_put (node 1 (stats_of 4 900)), 10)
    ∷ (node_put (node 2 (stats_of 0 900)), 11)
    ∷ (claim_put 5 1, 12)
    ∷ (claim_put 5 2, 12)
    ∷ []

abbrev view : View cluster
view = run cluster (start cluster 100) history

view_claims : look_up ℕ_discrete ℕ_discrete view.prefix 5 20 ≡ 1 ∷ 2 ∷ []
unfolding run step insert get ℕ_discrete look_up start add reconcile
view_claims = refl

run-IsValid_example : IsValid cluster view
run-IsValid_example = run-IsValid cluster 100 history

view-IsValid : IsValid cluster view
view-IsValid = run-IsValid cluster 100 history

-- An agent whose engine is ready, at epoch 4.
abbrev agent : KvCacheState
agent = record {
  kv_epoch = 4;
  was_ready = true;
  saw_ready = true;
  last_free = 900;
  last_total = 1000;
}

abbrev engine : ℕ → EngineStats
engine free = record { free_blocks = free; total_blocks = 1000 }

restart_epoch : (KvCacheState.run agent ((false, engine 0) ∷ (true, engine 990) ∷ [])).kv_epoch ≡ 6
unfolding KvCacheState.run
restart_epoch = refl

abbrev back : NodeEntry fleet
back = node 1 (stats_of 6 990)

restart-forgets_example :
    look_up ℕ_discrete ℕ_discrete (step cluster view (node_put back) 30).prefix 5 40
    ≡ others ℕ_discrete ℕ_discrete 1 (look_up ℕ_discrete ℕ_discrete view.prefix 5 40)
unfolding run step insert get ℕ_discrete start KvCacheState.run reconcile
restart-forgets_example =
    restart-forgets cluster view back 30 40 5 agent (engine 0) ((true, engine 990) ∷ [])
      {known = stats_of 4 900} view-IsValid (omega arith) refl refl refl refl refl

-- A round with a new record of node 2, one that cannot be read, and none of node 1.
abbrev records : List (Option (NodeEntry fleet))
records = some (node 2 (stats_of 0 800)) ∷ none ∷ []

sync-nodes_example :
    (get ℕ_discrete 1 (sync cluster view records 20).nodes ≡ last_record cluster 1 records)
    × IsValid cluster (sync cluster view records 20)
sync-nodes_example = sync-nodes cluster view records 20 1 view-IsValid
