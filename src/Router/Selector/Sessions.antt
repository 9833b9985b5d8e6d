-- ===== src/Router/Selector/Sessions.antt =====
-- Session affinity, rust/services/cgn-router/src/routing/selector.rs.
use cognitora_inference.Prelude.{
  ◌≤◌, ◌≡◌, refl, ◌⊎◌, inl, inr, Bool, true, false, Option, none, some, List, [], ◌∷◌, keep, leb,
  arith, Bool-cases, ap,
}
use mathlib.Core.Path.{subst, sym}
use cognitora_inference.Router.Registry.{NodeEntry}
use cognitora_inference.Router.Selector.{Policy, higher, rendezvous_from, rendezvous}

module _ (policy : Policy) where
  open policy use {fleet, Session, rank}

  -- `held'` is what a shorter list leaves where the full list holds `held`: the same node, or a
  -- lower one where `held` is a node that the shorter list lacks.
  abbrev Follows :
      Session
      → (NodeEntry fleet → Bool)
      → Option (NodeEntry fleet)
      → Option (NodeEntry fleet)
      → Type 0
  Follows s test none none = Unit
  Follows s test none (some b) = ⊥
  Follows s test (some a) none = test a ≡ false
  Follows s test (some a) (some b) =
      (a ≡ b) ⊎ ((test a ≡ false) × (rank s b.node_id ≤ rank s a.node_id))

  Follows-both :
      (s : Session) (test : NodeEntry fleet → Bool) (held held' : Option (NodeEntry fleet))
      (n : NodeEntry fleet)
      → Follows s test held held'
      → Follows s test (some (higher policy s held n)) (some (higher policy s held' n))
  unfolding higher
  Follows-both s test none none n f = inl refl
  Follows-both s test none (some b) n f = absurd f
  Follows-both s test (some a) none n f = ground (arith, f)
  Follows-both s test (some a) (some b) n (inl e) = inl (ap (λ x. higher policy s (some x) n) e)
  Follows-both s test (some a) (some b) n (inr (t, le)) = ground (arith, t, le)

  Follows-first :
      (s : Session) (test : NodeEntry fleet → Bool) (held held' : Option (NodeEntry fleet))
      (n : NodeEntry fleet)
      → test n ≡ false
      → Follows s test held held'
      → Follows s test (some (higher policy s held n)) held'
  unfolding higher
  Follows-first s test none none n out f = out
  Follows-first s test none (some b) n out f = absurd f
  Follows-first s test (some a) none n out f = ground (arith, f, out)
  Follows-first s test (some a) (some b) n out (inl e) =
      elim (Bool-cases (leb (rank s a.node_id) (rank s n.node_id))) [
        | inl low ↦ rw low (inr (out, ground (arith, low, ap (λ x. rank s x.node_id) e)))
        | inr high ↦ rw high (inl e)
      ]
  Follows-first s test (some a) (some b) n out (inr (t, le)) =
      elim (Bool-cases (leb (rank s a.node_id) (rank s n.node_id))) [
        | inl low ↦ rw low (inr (out, ground (arith, low, le)))
        | inr high ↦ rw high (inr (t, le))
      ]

  rendezvous_from-Follows :
      (s : Session) (test : NodeEntry fleet → Bool) (held held' : Option (NodeEntry fleet))
      (nodes : List (NodeEntry fleet))
      → Follows s test held held'
      → Follows s test
          (rendezvous_from policy s held nodes)
          (rendezvous_from policy s held' (keep test nodes))
  unfolding rendezvous_from
  rendezvous_from-Follows s test held held' [] f = f
  rendezvous_from-Follows s test held held' (n ∷ nodes) f = elim (Bool-cases (test n)) [
    | inl e ↦ rw e (
        rendezvous_from-Follows s test (some (higher policy s held n))
          (some (higher policy s held' n)) nodes (Follows-both s test held held' n f))
    | inr e ↦ rw e (
        rendezvous_from-Follows s test (some (higher policy s held n)) held' nodes
          (Follows-first s test held held' n e f))
  ]

  Follows-same :
      (s : Session) (test : NodeEntry fleet → Bool) (held' : Option (NodeEntry fleet))
      (w : NodeEntry fleet)
      → test w ≡ true
      → Follows s test (some w) held'
      → held' ≡ some w
  Follows-same s test none w t f = absurd (ground (arith, t, f))
  Follows-same s test (some b) w t (inl e) = ap some (sym e)
  Follows-same s test (some b) w t (inr (out, le)) = absurd (ground (arith, t, out))

  -- A session keeps its node when other nodes leave: if the owner of a session among some nodes is
  -- among those that stay, it is the owner among those that stay.
  pub rendezvous-keep :
      (s : Session) (test : NodeEntry fleet → Bool) (nodes : List (NodeEntry fleet))
      (w : NodeEntry fleet)
      → rendezvous policy s nodes ≡ some w
      → test w ≡ true
      → rendezvous policy s (keep test nodes) ≡ some w
  unfolding rendezvous
  rendezvous-keep s test nodes w owns t =
      let f = rendezvous_from-Follows s test none none nodes tt in
      Follows-same s test (rendezvous_from policy s none (keep test nodes)) w t
        (subst (λ o. Follows s test o (rendezvous_from policy s none (keep test nodes))) owns f)
