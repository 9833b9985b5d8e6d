-- ===== src/Router/Selector/Pair.antt =====
-- The choice of a prefill and a decode node, rust/services/cgn-router/src/routing/selector.rs.
use cognitora_inference.Prelude.{
  ℕ, ◌≡◌, refl, ap, ◌∙◌, inl, inr, Bool, true, false, not, ◌&&◌, some, List, any, arith,
  Option-cases, if◌then◌else◌,
}
use mathlib.Core.Path.{subst, sym}
use cognitora_inference.Router.PrefixIndex.{PrefixIndex}
use cognitora_inference.Router.Registry.{NodeRole, NodeEntry, Registry, eligible, look_up}
use cognitora_inference.Router.Registry.Eligible.{IsValid}
use cognitora_inference.Router.Selector.{
  Policy, RouteKey, RoutingDecision, best, pick_excluding, distinct_from, decode_score, with_decode,
  pick_pair, is_id, is_excluded,
}
use cognitora_inference.Router.Selector.Candidates.{
  IsRegistered, distinct_from-All, is_nonempty-distinct_from,
}
use cognitora_inference.Router.Selector.Best.{best-All, is_some-best}

module _ (policy : Policy) where
  open policy use {fleet, Digest, digests}
  open fleet use {NodeId, ids, Model}

  -- Whether a node could decode next to a prefill node.
  abbrev pub can_decode : Model → NodeRole → List NodeId → NodeId → NodeEntry fleet → Bool
  can_decode model role exclude prefill_id n =
      eligible fleet role (some model) n
      && (not (is_id policy n.node_id prefill_id) && not (is_excluded policy exclude n))

  -- What the decode half of a pair is.
  abbrev pub DecodeFits :
      Registry fleet
      → Model
      → NodeRole
      → List NodeId
      → RoutingDecision policy
      → RoutingDecision policy
      → Type 0
  DecodeFits nodes model role exclude p d =
      if any (λ entry. can_decode model role exclude p.node.node_id entry.1) nodes
      then (look_up fleet nodes d.node.node_id ≡ some d.node)
        × (can_decode model role exclude p.node.node_id d.node ≡ true)
      else d ≡ p

  with_decode-fits :
      (nodes : Registry fleet) (model : Model) (role : NodeRole) (exclude : List NodeId)
      (p : RoutingDecision policy)
      → IsValid fleet nodes
      → let pair =
          with_decode policy p (distinct_from policy nodes model role exclude p.node.node_id) in
        (pair.0 ≡ p) × DecodeFits nodes model role exclude p pair.1
  unfolding with_decode
  with_decode-fits nodes model role exclude p v =
      let ds = distinct_from policy nodes model role exclude p.node.node_id in
      let f = decode_score policy ds in
      let found =
        is_some-best policy f ds
        ∙ is_nonempty-distinct_from policy nodes model role exclude p.node.node_id in
      elim (Option-cases (best policy f ds)) [
        | inl e ↦
            let none_fits = rw e at found in rw (e, with_decode) (rw (sym none_fits) (refl, refl))
        | inr (n, e) ↦
            let some_fits = rw e at found in
            let Q = λ (m : NodeEntry fleet).
              IsRegistered policy nodes m
              × (eligible fleet role (some model) m ≡ true)
              × (is_id policy m.node_id p.node.node_id ≡ false)
              × (is_excluded policy exclude m ≡ false) in
            let fits =
              best-All policy Q f ds n
                (distinct_from-All policy nodes model role exclude p.node.node_id v) e in
            rw (e, with_decode)
              (rw (sym some_fits) (refl, (fits.0, ground (arith, fits.1, fits.2, fits.3))))
      ]

  -- A pair from a valid registry has the prefill node that a single pick gives. Its decode node is
  -- another registered node that takes requests in the decode role and is not excluded, if there is
  -- one, and otherwise the prefill node again.
  pub pick_pair-fits :
      (nodes : Registry fleet) (prefix : PrefixIndex digests ids) (now : ℕ) (key : RouteKey policy)
      (prefill_role decode_role : NodeRole) (exclude : List NodeId) (p d : RoutingDecision policy)
      → IsValid fleet nodes
      → pick_pair policy nodes prefix now key prefill_role decode_role exclude ≡ some (p, d)
      → (pick_excluding policy nodes prefix now key prefill_role exclude ≡ some p)
        × DecodeFits nodes key.model decode_role exclude p d
  unfolding pick_pair
  pick_pair-fits nodes prefix now key prefill_role decode_role exclude p d v h =
      elim (Option-cases (pick_excluding policy nodes prefix now key prefill_role exclude)) [
        | inl e ↦ absurd (ground (arith, rw (e, pick_pair) at h))
        | inr (q, e) ↦
            let pair =
              with_decode policy q
                (distinct_from policy nodes key.model decode_role exclude q.node.node_id) in
            let same : pair ≡ (p, d) = ground (arith, rw (e, pick_pair) at h) in
            let fits = with_decode-fits nodes key.model decode_role exclude q v in
            let q_is : q ≡ p = sym fits.0 ∙ ap (λ z. z.0) same in
            (
              e ∙ ap some q_is,
              subst (λ z. DecodeFits nodes key.model decode_role exclude z d) q_is
                  (subst (λ z. DecodeFits nodes key.model decode_role exclude q z)
                    (ap (λ z. z.1) same) fits.1),
            )
      ]
