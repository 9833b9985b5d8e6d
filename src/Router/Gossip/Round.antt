-- ===== src/Router/Gossip/Round.antt =====
-- What one round of rust/services/cgn-router/src/cluster/gossip.rs leaves.
use cognitora_inference.Prelude.{
  ℕ, ◌≡◌, refl, ap, ◌∙◌, true, false, Option, none, some, List, [], ◌∷◌, if◌then◌else◌, arith,
  Bool-cases, inl, inr, is_some, ◌&&◌, not,
}
use mathlib.Core.Logic.{ite}
use cognitora_inference.Prelude.Maps.{get, get-insert, get-remove}
use cognitora_inference.Prelude.Distinct.{has}
use cognitora_inference.Router.Registry.{NodeEntry, Registry, upsert, forget}
use cognitora_inference.Router.Registry.Eligible.{Keyed}
use cognitora_inference.Router.Watcher.{
  Cluster, View, node_put, node_delete, node_put_step, node_delete_step, step,
}
use cognitora_inference.Router.Watcher.History.{IsValid, step-IsValid}
use cognitora_inference.Router.Gossip.{put_records, drop_dead, sync}

module _ (cluster : Cluster) where
  open cluster use {fleet}
  open fleet use {NodeId, ids}

  -- The last record of a node.
  abbrev pub last_record : NodeId → List (Option (NodeEntry fleet)) → Option (NodeEntry fleet)
  last_record id [] = none
  last_record id (none ∷ records) = last_record id records
  last_record id (some n ∷ records) = elim (last_record id records) [
    | some m ↦ some m
    | none ↦ ite (ids n.node_id id) (some n) none
  ]

  abbrev or_else : Option (NodeEntry fleet) → Option (NodeEntry fleet) → Option (NodeEntry fleet)
  or_else none o = o
  or_else (some n) o = some n

  node_put_step-nodes :
      (v : View cluster) (n : NodeEntry fleet) (now : ℕ) (id : NodeId)
      → get ids id (node_put_step cluster v n now).nodes
        ≡ ite (ids n.node_id id) (some n) (get ids id v.nodes)
  unfolding node_put_step upsert
  node_put_step-nodes v n now id = get-insert ids n.node_id id n v.nodes

  node_delete_step-nodes :
      (v : View cluster) (gone id : NodeId)
      → get ids id (node_delete_step cluster v gone).nodes
        ≡ ite (ids gone id) none (get ids id v.nodes)
  unfolding node_delete_step forget
  node_delete_step-nodes v gone id = get-remove ids gone id v.nodes

  put_records-nodes :
      (v : View cluster) (live : List NodeId) (records : List (Option (NodeEntry fleet))) (now : ℕ)
      (id : NodeId)
      → (get ids id (put_records cluster v live records now).0.nodes
          ≡ or_else (last_record id records) (get ids id v.nodes))
        × (has ids id (put_records cluster v live records now).1
            ≡ (if is_some (last_record id records) then true else has ids id live))
  unfolding put_records
  put_records-nodes v live [] now id = (refl, refl)
  put_records-nodes v live (none ∷ records) now id = put_records-nodes v live records now id
  put_records-nodes v live (some n ∷ records) now id =
      let (a, b) =
        put_records-nodes (node_put_step cluster v n now) (n.node_id ∷ live) records now id in
      (a ∙ ground (arith, node_put_step-nodes v n now id), b ∙ ground arith)

  kept :
      (v : View cluster) (n : NodeEntry fleet) (live : List NodeId) (id : NodeId)
      → get ids id
          (if has ids n.node_id live then v else node_delete_step cluster v n.node_id).nodes
        ≡ (if has ids n.node_id live
            then get ids id v.nodes
            else ite (ids n.node_id id) none (get ids id v.nodes))
  kept v n live id = elim (Bool-cases (has ids n.node_id live)) [
    | inl e ↦ rw e refl
    | inr e ↦ rw e (node_delete_step-nodes v n.node_id id)
  ]

  drop_dead-nodes :
      (v : View cluster) (live : List NodeId) (snapshot : Registry fleet) (id : NodeId)
      → Keyed fleet snapshot
      → get ids id (drop_dead cluster v live snapshot).nodes ≡ (
          if is_some (get ids id snapshot) && not (has ids id live)
          then none
          else get ids id v.nodes)
  unfolding drop_dead get
  drop_dead-nodes v live [] id keyed = refl
  drop_dead-nodes v live ((j, n) ∷ snapshot) id (at, keyed) =
      let v' = if has ids n.node_id live then v else node_delete_step cluster v n.node_id in
      let rest = drop_dead-nodes v' live snapshot id keyed in
      rest
      ∙ rw (kept v n live id) (elim (ids j id) [
        | yes p ↦
            let same_id = at ∙ p in ground (arith, ap (λ k. has ids k live) same_id, same_id, p)
        | no q ↦ ground (arith, at, q)
      ])

  put_records-IsValid :
      (v : View cluster) (live : List NodeId) (records : List (Option (NodeEntry fleet))) (now : ℕ)
      → IsValid cluster v
      → IsValid cluster (put_records cluster v live records now).0
  unfolding put_records step
  put_records-IsValid v live [] now valid = valid
  put_records-IsValid v live (none ∷ records) now valid =
      put_records-IsValid v live records now valid
  put_records-IsValid v live (some n ∷ records) now valid =
      put_records-IsValid (node_put_step cluster v n now) (n.node_id ∷ live) records now
        (step-IsValid cluster v (node_put n) now valid)

  drop_dead-IsValid :
      (v : View cluster) (live : List NodeId) (snapshot : Registry fleet)
      → IsValid cluster v
      → IsValid cluster (drop_dead cluster v live snapshot)
  unfolding drop_dead step
  drop_dead-IsValid v live [] valid = valid
  drop_dead-IsValid v live ((j, n) ∷ snapshot) valid =
      elim (has ids n.node_id live)
        as (λ b. IsValid cluster (
          drop_dead cluster (if b then v else node_delete_step cluster v n.node_id) live
            snapshot)) [
              | true ↦ drop_dead-IsValid v live snapshot valid
              | false ↦
                  drop_dead-IsValid (node_delete_step cluster v n.node_id) live snapshot
                    (step-IsValid cluster v (node_delete n.node_id) 0 valid)
            ]

  -- After a round over a valid view, the registry has exactly the last record of every node that has one;
  -- a node without a record that could be read is forgotten. The view stays valid.
  pub sync-nodes :
      (v : View cluster) (records : List (Option (NodeEntry fleet))) (now : ℕ) (id : NodeId)
      → IsValid cluster v
      → (get ids id (sync cluster v records now).nodes ≡ last_record id records)
        × IsValid cluster (sync cluster v records now)
  unfolding sync
  sync-nodes v records now id valid =
      let (nodes, live) = put_records-nodes v [] records now id in
      let valid' = put_records-IsValid v [] records now valid in
      let v' = (put_records cluster v [] records now).0 in
      let ids' = (put_records cluster v [] records now).1 in
      let dropped = drop_dead-nodes v' ids' v'.nodes id valid'.registered.keyed in
      (dropped ∙ ground (arith, nodes, live), drop_dead-IsValid v' ids' v'.nodes valid')
