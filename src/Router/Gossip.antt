-- ===== src/Router/Gossip.antt =====
-- The gossip feed of the router, rust/services/cgn-router/src/cluster/gossip.rs, in place of the watcher's
-- events: one round of `run_gossip_watcher`. A record that cannot be parsed is `none`; `live` holds the
-- ids of the others, newest first.
pub mod Round
use cognitora_inference.Prelude.{ℕ, Option, none, some, List, [], ◌∷◌, if◌then◌else◌}
use cognitora_inference.Prelude.Distinct.{has}
use cognitora_inference.Router.Registry.{NodeEntry, Registry}
use cognitora_inference.Router.Watcher.{Cluster, View, node_put_step, node_delete_step}

module _ (cluster : Cluster) where
  open cluster use {fleet}
  open fleet use {NodeId, ids}

  -- The first loop: the caches and the registry take every record.
  unfoldable pub put_records :
      View cluster → List NodeId → List (Option (NodeEntry fleet)) → ℕ → View cluster × List NodeId
  put_records v live [] now = (v, live)
  put_records v live (none ∷ records) now = put_records v live records now
  put_records v live (some entry ∷ records) now =
      put_records (node_put_step cluster v entry now) (entry.node_id ∷ live) records now

  -- The second loop, over a snapshot of the registry: the nodes without a record are forgotten.
  unfoldable pub drop_dead : View cluster → List NodeId → Registry fleet → View cluster
  drop_dead v live [] = v
  drop_dead v live ((id, entry) ∷ snapshot) =
      drop_dead (if has ids entry.node_id live then v else node_delete_step cluster v entry.node_id)
        live snapshot

  unfoldable pub sync : View cluster → List (Option (NodeEntry fleet)) → ℕ → View cluster
  unfolding put_records drop_dead
  sync v records now = let (v', live) = put_records v [] records now in drop_dead v' live v'.nodes
