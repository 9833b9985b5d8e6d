-- ===== src/Router/Watcher/History.antt =====
-- What every history of events of rust/services/cgn-router/src/cluster/watcher.rs keeps.
use cognitora_inference.Prelude.{
  ℕ, ◌-◌, ◌/◌, ◌≡◌, refl, sym, ap, ◌∙◌, Bool, true, false, not, Option, none, some, List, [], ◌∷◌,
  ◌||◌, ltb, arith, Option-cases, inl, inr, is_some,
}
use mathlib.Core.Logic.{ite}
use cognitora_inference.Prelude.Maps.{
  get, insert, remove, get-insert, get-remove, Unique, insert-Unique, remove-Unique,
}
use cognitora_inference.Router.PrefixIndex.{PrefixIndex, is, forget_node, forget_node_stale}
use cognitora_inference.Router.PrefixIndex.Keys.{
  IsKeyed, retain-IsKeyed, add-IsKeyed, forget_claim-IsKeyed,
}
use cognitora_inference.Router.Registry.{Fleet, NodeEntry, Registry, upsert, forget, set_cordon}
use cognitora_inference.Router.Registry.Eligible.{
  upsert-IsValid, forget-IsValid, set_cordon-IsValid,
}
use cognitora_inference.Router.CacheState.{
  Snapshot, PruneReason, epoch_reset, eviction_burst, pressure, prune, prune_reason, reconcile,
}
use cognitora_inference.Router.CacheState
use cognitora_inference.Router.Registry
use cognitora_inference.Router.Watcher.{
  Cluster, View, Event, node_put, node_delete, cordon_put, cordon_delete, claim_put, claim_delete,
  start, node_put_step, node_delete_step, step, run,
}

module _ (cluster : Cluster) where
  open cluster use {fleet, Digest, digests, snapshot_of, low}
  open fleet use {NodeId, ids}

  -- Every node and digest stands once, and the tracker knows exactly the registered nodes.
  pub record IsValid (v : View cluster) : Type 0 where
    pub registered : Registry.Eligible.IsValid fleet v.nodes
    pub keyed : IsKeyed digests ids v.prefix
    pub tracked : Unique ids v.cache_state
    pub alike : (id : NodeId) → is_some (get ids id v.nodes) ≡ is_some (get ids id v.cache_state)

  prune-IsKeyed :
      (index : PrefixIndex digests ids) (n : NodeId) (now : ℕ) (reason : Option PruneReason)
      → IsKeyed digests ids index
      → IsKeyed digests ids (prune low digests ids index n now reason)
  unfolding prune forget_node forget_node_stale
  prune-IsKeyed index n now none u = u
  prune-IsKeyed index n now (some epoch_reset) u =
      retain-IsKeyed digests ids (λ e. not (is digests ids e.node_id n)) index.inner u
  prune-IsKeyed index n now (some eviction_burst) u =
      retain-IsKeyed digests ids
        (λ e. not (is digests ids e.node_id n) || ltb (now - e.last_seen) (index.ttl / 4))
        index.inner u
  prune-IsKeyed index n now (some pressure) u =
      retain-IsKeyed digests ids
        (λ e. not (is digests ids e.node_id n) || ltb (now - e.last_seen) (index.ttl / 2))
        index.inner u

  is_some-insert :
      {A B : Type 0} (k j : NodeId) (a : A) (b : B) (m : List (NodeId × A)) (m' : List (NodeId × B))
      → is_some (get ids j m) ≡ is_some (get ids j m')
      → is_some (get ids j (insert ids k a m)) ≡ is_some (get ids j (insert ids k b m'))
  is_some-insert k j a b m m' e =
      rw (get-insert ids k j a m, get-insert ids k j b m') (ground (arith, e))

  is_some-remove :
      {A B : Type 0} (k j : NodeId) (m : List (NodeId × A)) (m' : List (NodeId × B))
      → is_some (get ids j m) ≡ is_some (get ids j m')
      → is_some (get ids j (remove ids k m)) ≡ is_some (get ids j (remove ids k m'))
  is_some-remove k j m m' e = rw (get-remove ids k j m, get-remove ids k j m') (ground (arith, e))

  is_some-set_cordon :
      (registry : Registry fleet) (id other : NodeId) (cordoned : Bool)
      → is_some (get ids other (set_cordon fleet registry id cordoned))
        ≡ is_some (get ids other registry)
  unfolding set_cordon
  is_some-set_cordon registry id other cordoned = elim (Option-cases (get ids id registry)) [
    | inl g ↦ rw (g, set_cordon) refl
    | inr (n, g) ↦
        rw (g, set_cordon)
          (rw
            (get-insert {V = NodeEntry fleet} ids id other (record n { cordoned = cordoned })
              registry)
            (elim (ids id other)
              as (λ c.
                is_some (ite c (some (record n { cordoned = cordoned })) (get ids other registry))
                ≡ is_some (get ids other registry)) [
                  | yes p ↦ sym (ap (λ z. is_some (get ids z registry)) (sym p) ∙ ap is_some g)
                  | no q ↦ refl
                ]))
  ]

  node_put_step-IsValid :
      (v : View cluster) (entry : NodeEntry fleet) (now : ℕ)
      → IsValid v
      → IsValid (node_put_step cluster v entry now)
  unfolding node_put_step reconcile upsert
  node_put_step-IsValid v entry now valid =
      let id = entry.node_id in
      let s = snapshot_of entry in
      record {
        registered = upsert-IsValid fleet v.nodes entry valid.registered;
        keyed =
            prune-IsKeyed v.prefix id now (prune_reason low (get ids id v.cache_state) s)
              valid.keyed;
        tracked = insert-Unique ids id s v.cache_state valid.tracked;
        alike = λ j. is_some-insert id j entry s v.nodes v.cache_state (valid.alike j);
      }

  node_delete_step-IsValid :
      (v : View cluster) (id : NodeId) → IsValid v → IsValid (node_delete_step cluster v id)
  unfolding node_delete_step CacheState.forget forget forget_node
  node_delete_step-IsValid v id valid = record {
    registered = forget-IsValid fleet v.nodes id valid.registered;
    keyed =
        retain-IsKeyed digests ids (λ e. not (is digests ids e.node_id id)) v.prefix.inner
          valid.keyed;
    tracked = remove-Unique ids id v.cache_state valid.tracked;
    alike = λ j. is_some-remove id j v.nodes v.cache_state (valid.alike j);
  }

  cordon-IsValid :
      (v : View cluster) (id : NodeId) (cordoned : Bool)
      → IsValid v
      → IsValid (record v { nodes = set_cordon fleet v.nodes id cordoned })
  cordon-IsValid v id cordoned valid = record {
    registered = set_cordon-IsValid fleet v.nodes id cordoned valid.registered;
    keyed = valid.keyed;
    tracked = valid.tracked;
    alike = λ j. is_some-set_cordon v.nodes id j cordoned ∙ valid.alike j;
  }

  pub step-IsValid :
      (v : View cluster) (e : Event cluster) (now : ℕ) → IsValid v → IsValid (step cluster v e now)
  unfolding step
  step-IsValid v (node_put entry) now valid = node_put_step-IsValid v entry now valid
  step-IsValid v (node_delete id) now valid = node_delete_step-IsValid v id valid
  step-IsValid v (cordon_put id) now valid = cordon-IsValid v id true valid
  step-IsValid v (cordon_delete id) now valid = cordon-IsValid v id false valid
  step-IsValid v (claim_put d id) now valid = record {
    registered = valid.registered;
    keyed = add-IsKeyed digests ids v.prefix d id now valid.keyed;
    tracked = valid.tracked;
    alike = valid.alike;
  }
  step-IsValid v (claim_delete d id) now valid = record {
    registered = valid.registered;
    keyed = forget_claim-IsKeyed digests ids v.prefix d id valid.keyed;
    tracked = valid.tracked;
    alike = valid.alike;
  }

  run-keeps :
      (v : View cluster) (events : List (Event cluster × ℕ))
      → IsValid v
      → IsValid (run cluster v events)
  unfolding run
  run-keeps v [] valid = valid
  run-keeps v ((e, now) ∷ events) valid =
      run-keeps (step cluster v e now) events (step-IsValid v e now valid)

  -- After any history of events from an empty view, each node and each digest stands once, every node
  -- stands under its own id, and the cache tracker knows exactly the nodes that are registered.
  pub run-IsValid :
      (ttl : ℕ) (events : List (Event cluster × ℕ))
      → IsValid (run cluster (start cluster ttl) events)
  unfolding start get
  run-IsValid ttl events = run-keeps (start cluster ttl) events (record {
    registered = record { unique = tt; keyed = tt };
    keyed = tt;
    tracked = tt;
    alike = λ id. refl;
  })
