-- ===== src/Router/Selector/Best.antt =====
-- What rust/services/cgn-router/src/routing/selector.rs chooses among its candidates.
use cognitora_inference.Prelude.{
  ℕ, ◌≡◌, refl, sym, ap, ◌∙◌, inl, inr, true, false, some, is_some, List, [], ◌∷◌, any, All,
  is_nonempty, arith, Bool-cases, Option-cases,
}
use mathlib.Core.Path.{subst}
use cognitora_inference.Router.PrefixIndex.{PrefixIndex}
use cognitora_inference.Router.Registry.{NodeRole, NodeEntry, Registry, look_up}
use cognitora_inference.Router.Registry.Eligible.{IsValid}
use cognitora_inference.Router.Selector.{
  Policy, RouteKey, RoutingDecision, candidates, best_from, best, total_score, pick_excluding,
}
use cognitora_inference.Router.Selector.Candidates.{
  qualifies, IsRegistered, candidates-All, is_nonempty-candidates,
}

module _ (policy : Policy) where
  open policy use {fleet, Digest, digests, Score, at_least}
  open fleet use {NodeId, ids, Model}

  -- The comparison of totals orders them, as `>=` on numbers does.
  pub record IsOrder : Type 0 where
    pub total : (s t : Score) → at_least s t ≡ false → at_least t s ≡ true
    pub trans : (s t u : Score) → at_least s t ≡ true → at_least t u ≡ true → at_least s u ≡ true

  best_from-All :
      (P : NodeEntry fleet → Type 0) (f : NodeEntry fleet → Score) (prev : NodeEntry fleet)
      (nodes : List (NodeEntry fleet))
      → P prev
      → All P nodes
      → P (best_from policy f prev nodes)
  unfolding best_from
  best_from-All P f prev [] p a = p
  best_from-All P f prev (n ∷ nodes) p (q, a) = elim (Bool-cases (at_least (f prev) (f n))) [
    | inl e ↦ rw (e, best_from) (best_from-All P f prev nodes p a)
    | inr e ↦ rw (e, best_from) (best_from-All P f n nodes q a)
  ]

  pub best-All :
      (P : NodeEntry fleet → Type 0) (f : NodeEntry fleet → Score) (nodes : List (NodeEntry fleet))
      (n : NodeEntry fleet)
      → All P nodes
      → best policy f nodes ≡ some n
      → P n
  unfolding best
  best-All P f [] n a e = absurd (ground arith)
  best-All P f (m ∷ nodes) n (p, a) e = subst P (ground (arith, e)) (best_from-All P f m nodes p a)

  pub is_some-best :
      (f : NodeEntry fleet → Score) (nodes : List (NodeEntry fleet))
      → is_some (best policy f nodes) ≡ is_nonempty nodes
  unfolding best
  is_some-best f [] = refl
  is_some-best f (n ∷ nodes) = refl

  reflexive : IsOrder → (s : Score) → at_least s s ≡ true
  reflexive order s = elim (Bool-cases (at_least s s)) [ inl e ↦ e | inr e ↦ order.total s s e ]

  best_from-highest :
      (f : NodeEntry fleet → Score) (prev b : NodeEntry fleet) (nodes : List (NodeEntry fleet))
      → IsOrder
      → best_from policy f prev nodes ≡ b
      → (at_least (f b) (f prev) ≡ true) × All (λ m. at_least (f b) (f m) ≡ true) nodes
  unfolding best_from
  best_from-highest f prev b [] order h =
      (rw (ap (λ n. at_least (f n) (f prev)) (sym h)) (reflexive order (f prev)), tt)
  best_from-highest f prev b (n ∷ nodes) order h = elim (Bool-cases (at_least (f prev) (f n))) [
    | inl e ↦
        let (low, rest) = best_from-highest f prev b nodes order (rw (e, best_from) at h) in
        (low, (order.trans (f b) (f prev) (f n) low e, rest))
    | inr e ↦
        let (low, rest) = best_from-highest f n b nodes order (rw (e, best_from) at h) in
        (order.trans (f b) (f n) (f prev) low (order.total (f prev) (f n) e), (low, rest))
  ]

  best-highest :
      (f : NodeEntry fleet → Score) (nodes : List (NodeEntry fleet)) (n : NodeEntry fleet)
      → IsOrder
      → best policy f nodes ≡ some n
      → All (λ m. at_least (f n) (f m) ≡ true) nodes
  unfolding best
  best-highest f [] n order e = tt
  best-highest f (m ∷ nodes) n order e = best_from-highest f m n nodes order (ground (arith, e))

  pick_excluding-picked :
      (nodes : Registry fleet) (prefix : PrefixIndex digests ids) (now : ℕ) (key : RouteKey policy)
      (role : NodeRole) (exclude : List NodeId) {d : RoutingDecision policy}
      → pick_excluding policy nodes prefix now key role exclude ≡ some d
      → let cs = candidates policy nodes key.model role exclude in
        best policy (total_score policy prefix key now cs) cs ≡ some d.node
  unfolding pick_excluding
  pick_excluding-picked nodes prefix now key role exclude {d} h =
      let cs = candidates policy nodes key.model role exclude in
      elim (Option-cases (best policy (total_score policy prefix key now cs) cs)) [
        | inl e ↦ absurd (ground (arith, rw (e, pick_excluding) at h))
        | inr (n, e) ↦ e ∙ ap some (ground (arith, rw (e, pick_excluding) at h))
      ]

  -- The node that is picked from a valid registry is registered under its id, takes requests for
  -- the model in the role, is not excluded and has the memory and the GPU that the model asks for.
  pub pick_excluding-qualifies :
      (nodes : Registry fleet) (prefix : PrefixIndex digests ids) (now : ℕ) (key : RouteKey policy)
      (role : NodeRole) (exclude : List NodeId) (d : RoutingDecision policy)
      → IsValid fleet nodes
      → pick_excluding policy nodes prefix now key role exclude ≡ some d
      → (look_up fleet nodes d.node.node_id ≡ some d.node)
        × (qualifies policy key.model role exclude d.node ≡ true)
  pick_excluding-qualifies nodes prefix now key role exclude d v h =
      let cs = candidates policy nodes key.model role exclude in
      best-All
        (λ n. IsRegistered policy nodes n × (qualifies policy key.model role exclude n ≡ true))
        (total_score policy prefix key now cs) cs d.node
        (candidates-All policy nodes key.model role exclude v)
        (pick_excluding-picked nodes prefix now key role exclude h)

  -- A pick fails exactly where no node of the registry qualifies: the power cap and the scores never
  -- leave a request without a node.
  pub pick_excluding-is_some :
      (nodes : Registry fleet) (prefix : PrefixIndex digests ids) (now : ℕ) (key : RouteKey policy)
      (role : NodeRole) (exclude : List NodeId)
      → is_some (pick_excluding policy nodes prefix now key role exclude)
        ≡ any (λ entry. qualifies policy key.model role exclude entry.1) nodes
  unfolding pick_excluding
  pick_excluding-is_some nodes prefix now key role exclude =
      let cs = candidates policy nodes key.model role exclude in
      let f = total_score policy prefix key now cs in
      let e : is_some (pick_excluding policy nodes prefix now key role exclude)
          ≡ is_some (best policy f cs) =
        elim (Option-cases (best policy f cs)) [
          | inl g ↦ rw (g, pick_excluding) refl
          | inr (n, g) ↦ rw (g, pick_excluding) refl
        ] in
      e ∙ is_some-best f cs ∙ is_nonempty-candidates policy nodes key.model role exclude

  -- Where the comparison of totals is an order, no candidate has a higher total than the picked node.
  pick_excluding-highest :
      (nodes : Registry fleet) (prefix : PrefixIndex digests ids) (now : ℕ) (key : RouteKey policy)
      (role : NodeRole) (exclude : List NodeId) (d : RoutingDecision policy)
      → IsOrder
      → pick_excluding policy nodes prefix now key role exclude ≡ some d
      → let cs = candidates policy nodes key.model role exclude in
        let total = total_score policy prefix key now cs in
        All (λ m. at_least (total d.node) (total m) ≡ true) cs
  pick_excluding-highest nodes prefix now key role exclude d order h =
      let cs = candidates policy nodes key.model role exclude in
      best-highest (total_score policy prefix key now cs) cs d.node order
        (pick_excluding-picked nodes prefix now key role exclude h)
