-- ===== src/Router/Selector/Candidates.antt =====
-- Which nodes rust/services/cgn-router/src/routing/selector.rs may choose.
use cognitora_inference.Prelude.{
  ◌≡◌, refl, ◌∙◌, ap, Bool, true, false, not, ◌&&◌, Option, none, some, List, [], ◌∷◌, keep, any,
  arith, All, All-map, All-keep, Bool-cases, inl, inr, is_nonempty, is_nonempty-keep, any-keep,
}
use cognitora_inference.Prelude.Maps.{get}
use cognitora_inference.Router.Registry.{
  NodeRole, NodeEntry, Registry, look_up, eligible, nodes_for,
}
use cognitora_inference.Router.Registry.Eligible.{IsValid}
use cognitora_inference.Router.Selector.{
  Policy, is_excluded, has_vram, has_gpu, prefer_under_cap, candidates, distinct_from, is_id,
}

module _ (policy : Policy) where
  open policy use {fleet}
  open fleet use {NodeId, ids, Model}

  -- What a request asks of a node: to take requests in the role for the model, not to be excluded,
  -- and to have the memory and the GPU that the model wants.
  abbrev pub qualifies : Model → NodeRole → List NodeId → NodeEntry fleet → Bool
  qualifies model role exclude n =
      eligible fleet role (some model) n
      && (not (is_excluded policy exclude n) && (has_vram policy model n && has_gpu policy model n))

  abbrev pub IsRegistered : Registry fleet → NodeEntry fleet → Type 0
  IsRegistered registry n = look_up fleet registry n.node_id ≡ some n

  IsRegistered-tail :
      (i : NodeId) (n m : NodeEntry fleet) (registry : Registry fleet)
      → get ids i registry ≡ none
      → IsRegistered registry m
      → IsRegistered ((i, n) ∷ registry) m
  unfolding look_up get
  IsRegistered-tail i n m registry absent r = elim (ids i m.node_id) [
    | yes p ↦ absurd (ground (arith, r, absent, ap (λ z. get ids z registry) p))
    | no q ↦ ground (arith, r, q)
  ]

  IsRegistered-head :
      (i : NodeId) (n : NodeEntry fleet) (registry : Registry fleet)
      → n.node_id ≡ i
      → IsRegistered ((i, n) ∷ registry) n
  unfolding look_up get
  IsRegistered-head i n registry e = ground (arith, e)

  nodes_for-All :
      (registry : Registry fleet) (role : NodeRole) (model : Option Model)
      → IsValid fleet registry
      → All
          (λ n. IsRegistered registry n × (eligible fleet role model n ≡ true))
          (nodes_for fleet registry role model)
  unfolding nodes_for
  nodes_for-All [] role model v = tt
  nodes_for-All ((i, n) ∷ registry) role model v =
      let P =
        λ (m : NodeEntry fleet). IsRegistered registry m × (eligible fleet role model m ≡ true) in
      let Q = λ (m : NodeEntry fleet).
        IsRegistered ((i, n) ∷ registry) m × (eligible fleet role model m ≡ true) in
      let rest =
        All-map P Q (λ m h. (IsRegistered-tail i n m registry v.unique.0 h.0, h.1))
          (nodes_for fleet registry role model)
          (nodes_for-All registry role model (record { unique = v.unique.1; keyed = v.keyed.1 })) in
      elim (Bool-cases (eligible fleet role model n)) [
        | inl e ↦ rw (e, nodes_for) ((IsRegistered-head i n registry v.keyed.0, e), rest)
        | inr e ↦ rw (e, nodes_for) rest
      ]

  prefer_under_cap-All :
      (P : NodeEntry fleet → Type 0) (nodes : List (NodeEntry fleet))
      → All P nodes
      → All P (prefer_under_cap policy nodes)
  unfolding prefer_under_cap
  prefer_under_cap-All P nodes a = elim (Bool-cases (any policy.under_cap nodes)) [
    | inl e ↦
        rw (e, prefer_under_cap)
          (All-map (λ n. P n × (policy.under_cap n ≡ true)) P (λ n h. h.0)
            (keep policy.under_cap nodes) (All-keep P policy.under_cap nodes a))
    | inr e ↦ rw (e, prefer_under_cap) a
  ]

  is_nonempty-prefer_under_cap :
      (nodes : List (NodeEntry fleet))
      → is_nonempty (prefer_under_cap policy nodes) ≡ is_nonempty nodes
  unfolding prefer_under_cap
  is_nonempty-prefer_under_cap [] = refl
  is_nonempty-prefer_under_cap (n ∷ nodes) =
      ground (arith, is_nonempty-keep policy.under_cap (n ∷ nodes))

  -- Every candidate is registered and qualifies.
  pub candidates-All :
      (registry : Registry fleet) (model : Model) (role : NodeRole) (exclude : List NodeId)
      → IsValid fleet registry
      → All
          (λ n. IsRegistered registry n × (qualifies model role exclude n ≡ true))
          (candidates policy registry model role exclude)
  unfolding candidates
  candidates-All registry model role exclude v =
      let able = λ (n : NodeEntry fleet). not (is_excluded policy exclude n) in
      let P = λ (n : NodeEntry fleet).
        IsRegistered registry n × (eligible fleet role (some model) n ≡ true) in
      let P1 = λ (n : NodeEntry fleet). P n × (able n ≡ true) in
      let P2 = λ (n : NodeEntry fleet). P1 n × (has_vram policy model n ≡ true) in
      let P3 = λ (n : NodeEntry fleet). P2 n × (has_gpu policy model n ≡ true) in
      let Q = λ (n : NodeEntry fleet).
        IsRegistered registry n × (qualifies model role exclude n ≡ true) in
      let from = nodes_for fleet registry role (some model) in
      let first = All-keep P able from (nodes_for-All registry role (some model) v) in
      let second = All-keep P1 (has_vram policy model) (keep able from) first in
      let third =
        All-keep P2 (has_gpu policy model) (keep (has_vram policy model) (keep able from)) second in
      prefer_under_cap-All Q
        (keep (has_gpu policy model) (keep (has_vram policy model) (keep able from)))
        (All-map P3 Q (λ n h. (h.0.0.0.0, ground (arith, h)))
          (keep (has_gpu policy model) (keep (has_vram policy model) (keep able from))) third)

  any-nodes_for :
      (test : NodeEntry fleet → Bool) (registry : Registry fleet) (role : NodeRole)
      (model : Option Model)
      → any test (nodes_for fleet registry role model)
        ≡ any (λ entry. eligible fleet role model entry.1 && test entry.1) registry
  unfolding nodes_for
  any-nodes_for test [] role model = refl
  any-nodes_for test ((i, n) ∷ registry) role model =
      ground (arith, any-nodes_for test registry role model)

  -- There is a candidate exactly where some node of the registry qualifies.
  pub is_nonempty-candidates :
      (registry : Registry fleet) (model : Model) (role : NodeRole) (exclude : List NodeId)
      → is_nonempty (candidates policy registry model role exclude)
        ≡ any (λ entry. qualifies model role exclude entry.1) registry
  unfolding candidates
  is_nonempty-candidates registry model role exclude =
      let able = λ (n : NodeEntry fleet). not (is_excluded policy exclude n) in
      let from = nodes_for fleet registry role (some model) in
      is_nonempty-prefer_under_cap
        (keep (has_gpu policy model) (keep (has_vram policy model) (keep able from)))
      ∙ is_nonempty-keep (has_gpu policy model) (keep (has_vram policy model) (keep able from))
      ∙ any-keep (has_gpu policy model) (has_vram policy model) (keep able from)
      ∙ any-keep (λ n. has_vram policy model n && has_gpu policy model n) able from
      ∙ any-nodes_for (λ n. able n && (has_vram policy model n && has_gpu policy model n)) registry
          role (some model)

  -- The decode candidates, with the same walk over a smaller filter.
  pub distinct_from-All :
      (registry : Registry fleet) (model : Model) (role : NodeRole) (exclude : List NodeId)
      (prefill_id : NodeId)
      → IsValid fleet registry
      → All
          (λ n.
            IsRegistered registry n
            × (eligible fleet role (some model) n ≡ true)
            × (is_id policy n.node_id prefill_id ≡ false)
            × (is_excluded policy exclude n ≡ false))
          (distinct_from policy registry model role exclude prefill_id)
  unfolding distinct_from
  distinct_from-All registry model role exclude prefill_id v =
      let able = λ (n : NodeEntry fleet).
        not (is_id policy n.node_id prefill_id) && not (is_excluded policy exclude n) in
      let P = λ (n : NodeEntry fleet).
        IsRegistered registry n × (eligible fleet role (some model) n ≡ true) in
      let Q = λ (n : NodeEntry fleet).
        IsRegistered registry n
        × (eligible fleet role (some model) n ≡ true)
        × (is_id policy n.node_id prefill_id ≡ false)
        × (is_excluded policy exclude n ≡ false) in
      let from = nodes_for fleet registry role (some model) in
      prefer_under_cap-All Q (keep able from) (
        All-map (λ n. P n × (able n ≡ true)) Q
          (λ n h. (h.0.0, h.0.1, ground (arith, h.1), ground (arith, h.1))) (keep able from)
          (All-keep P able from (nodes_for-All registry role (some model) v)))

  pub is_nonempty-distinct_from :
      (registry : Registry fleet) (model : Model) (role : NodeRole) (exclude : List NodeId)
      (prefill_id : NodeId)
      → is_nonempty (distinct_from policy registry model role exclude prefill_id)
        ≡ any
            (λ entry.
              eligible fleet role (some model) entry.1
              && (not (is_id policy entry.1.node_id prefill_id)
                  && not (is_excluded policy exclude entry.1)))
            registry
  unfolding distinct_from
  is_nonempty-distinct_from registry model role exclude prefill_id =
      let able = λ (n : NodeEntry fleet).
        not (is_id policy n.node_id prefill_id) && not (is_excluded policy exclude n) in
      let from = nodes_for fleet registry role (some model) in
      is_nonempty-prefer_under_cap (keep able from)
      ∙ is_nonempty-keep able from
      ∙ any-nodes_for able registry role (some model)
