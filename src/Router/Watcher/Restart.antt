-- ===== src/Router/Watcher/Restart.antt =====
-- Nodes that go, restart or are cordoned, as the watcher of
-- rust/services/cgn-router/src/cluster/watcher.rs sees them.
use cognitora_inference.Prelude.{
  ℕ, ◌^◌, ◌<◌, ◌-◌, ◌≡◌, refl, Bool, true, false, Option, none, some, List, ◌∷◌, if◌then◌else◌,
  arith,
}
use mathlib.Core.Logic.{ite}
use cognitora_inference.Prelude.Maps.{get, get-insert, get-remove}
use cognitora_inference.Router.PrefixIndex.{look_up}
use cognitora_inference.Router.PrefixIndex.Updates.{forget_node-look_up}
use cognitora_inference.Router.Registry.{
  NodeRole, NodeEntry, upsert, forget, set_cordon, eligible, nodes_for,
}
use cognitora_inference.Router.Registry
use cognitora_inference.Router.Registry.Eligible.{
  offers, is_offered, nodes_for-eligible, upsert-IsValid, forget-IsValid,
}
use cognitora_inference.Router.CacheState.{Snapshot}
use cognitora_inference.Router.CacheState.Pruning.{others, reconcile-epoch}
use cognitora_inference.Router.Watcher.{
  Cluster, View, node_put, node_delete, cordon_put, node_put_step, node_delete_step, step,
}
use cognitora_inference.Router.Watcher.History.{IsValid, step-IsValid}
use cognitora_inference.Agent.KvCacheState.{KvCacheState, EngineStats}
use cognitora_inference.Agent.KvCacheState
use cognitora_inference.Agent.KvCacheState.Restart.{run-offline}

module _ (cluster : Cluster) where
  open cluster use {fleet, Digest, digests, snapshot_of, low}
  open fleet use {NodeId, ids, Model}

  put-offers :
      (v : View cluster) (n : NodeEntry fleet) (now : ℕ) (role : NodeRole) (model : Option Model)
      → IsValid cluster v
      → offers fleet n.node_id (nodes_for fleet (step cluster v (node_put n) now).nodes role model)
        ≡ (if eligible fleet role model n then 1 else 0)
  unfolding step node_put_step upsert Registry.look_up
  put-offers v n now role model valid =
      rw
        (nodes_for-eligible fleet (upsert fleet v.nodes n) n.node_id role model
          (upsert-IsValid fleet v.nodes n valid.registered))
        (rw (get-insert {V = NodeEntry fleet} ids n.node_id n.node_id n v.nodes) (ground arith))

  -- In a valid view, once a heartbeat of a node is read after a cordon was set, the heartbeat's own
  -- record alone decides whether the router offers the node: a cordon lasts until the next
  -- heartbeat.
  cordon-put :
      (v : View cluster) (n : NodeEntry fleet) (set_at now : ℕ) (role : NodeRole)
      (model : Option Model)
      → IsValid cluster v
      → offers fleet n.node_id (
          nodes_for fleet
            (step cluster (step cluster v (cordon_put n.node_id) set_at) (node_put n) now).nodes
            role
            model)
        ≡ (if eligible fleet role model n then 1 else 0)
  cordon-put v n set_at now role model valid =
      put-offers (step cluster v (cordon_put n.node_id) set_at) n now role model
        (step-IsValid cluster v (cordon_put n.node_id) set_at valid)

  forget-offered :
      (v : View cluster) (id other : NodeId) (role : NodeRole) (model : Option Model)
      → is_offered fleet (Registry.look_up fleet (forget fleet v.nodes id) other) role model
        ≡ ite
            (ids id other)
            false
            (is_offered fleet (Registry.look_up fleet v.nodes other) role model)
  unfolding Registry.look_up forget
  forget-offered v id other role model =
      rw (get-remove {V = NodeEntry fleet} ids id other v.nodes)
        (elim (ids id other)
          as (λ c.
            is_offered fleet (ite c none (get ids other v.nodes)) role model
            ≡ ite c false (is_offered fleet (get ids other v.nodes) role model)) [
              | yes p ↦ refl
              | no q ↦ refl
            ])

  -- A node that leaves a valid view is offered no more and stands in no lookup, then or later; the
  -- other nodes are offered as before and their claims stay.
  node_delete-gone :
      (v : View cluster) (id : NodeId) (now later : ℕ) (other : NodeId) (role : NodeRole)
      (model : Option Model) (d : Digest)
      → IsValid cluster v
      → let v' = step cluster v (node_delete id) now in
        (offers fleet other (nodes_for fleet v'.nodes role model)
          ≡ ite (ids id other) 0 (offers fleet other (nodes_for fleet v.nodes role model)))
        × (look_up digests ids v'.prefix d later
            ≡ others digests ids id (look_up digests ids v.prefix d later))
  unfolding step node_delete_step
  node_delete-gone v id now later other role model d valid = (
    ground (
      arith,
      forget-offered v id other role model,
      nodes_for-eligible fleet v.nodes other role model valid.registered,
      nodes_for-eligible fleet (forget fleet v.nodes id) other role model
          (forget-IsValid fleet v.nodes id valid.registered),
    ),
    forget_node-look_up digests ids v.prefix id d later valid.keyed,
  )

  -- In a valid view, after an engine that an agent had seen ready goes down, and if the router knew
  -- the agent's last epoch and that epoch was not the greatest one, then whichever later heartbeat
  -- of the agent's session reaches the router makes it forget every claim of that node, and no
  -- claim of another node.
  pub restart-forgets :
      (v : View cluster) (n : NodeEntry fleet) (now later : ℕ) (d : Digest) (s : KvCacheState)
      (stats : EngineStats) (seen : List (Bool × EngineStats)) {known : Snapshot}
      → IsValid cluster v
      → s.kv_epoch < 2 ^ 64 - 1
      → s.saw_ready ≡ true
      → s.was_ready ≡ true
      → get ids n.node_id v.cache_state ≡ some known
      → known.kv_epoch ≡ s.kv_epoch
      → (snapshot_of n).kv_epoch ≡ (KvCacheState.run s ((false, stats) ∷ seen)).kv_epoch
      → look_up digests ids (step cluster v (node_put n) now).prefix d later
        ≡ others digests ids n.node_id (look_up digests ids v.prefix d later)
  unfolding step node_put_step
  restart-forgets v n now later d s stats seen {known} valid u saw was g e e' =
      reconcile-epoch low digests ids v.cache_state v.prefix n.node_id (snapshot_of n) known now
        later d valid.keyed g
        (λ same. absurd (omega (arith, run-offline s stats seen u saw was, e, e', same)))
