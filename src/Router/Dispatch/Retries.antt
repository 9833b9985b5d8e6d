-- ===== src/Router/Dispatch/Retries.antt =====
-- How often and where rust/services/cgn-router/src/gateway/generate.rs tries a request.
use cognitora_inference.Prelude.{
  ℕ, ◌≤◌, ◌≡◌, refl, sym, ◌⊎◌, inl, inr, Bool, false, Option, none, some, List, [], ◌∷◌, ◌++◌,
  length, any, arith, Bool-cases, Option-cases,
}
use cognitora_inference.Prelude.Distinct
use cognitora_inference.Prelude.Distinct.{IsDistinct}
use cognitora_inference.Router.PrefixIndex.{PrefixIndex}
use cognitora_inference.Router.Registry.{NodeEntry}
use cognitora_inference.Router.Registry
use cognitora_inference.Router.Registry.Eligible.{IsValid}
use cognitora_inference.Router.Disagg.{Plan, colocate, split, plan}
use cognitora_inference.Router.Selector.{Policy, RoutingDecision, is_excluded, pick_excluding}
use cognitora_inference.Router.Selector.Best.{pick_excluding-qualifies}
use cognitora_inference.Router.Selector.Pair.{can_decode, pick_pair-fits}
use cognitora_inference.Router.Dispatch.{
  Error, Request, World, route_by, route, refusal, refused, accepted, dispatch_to, dispatch_once,
  Opened, served, error, fall_back, Next, done, go_on, settle, Outcome, attempt,
}

module _ (policy : Policy) where
  open policy use {fleet, Digest, digests}
  open fleet use {NodeId, ids}

  abbrev pub has : NodeId → List NodeId → Bool
  has id exclude = Distinct.has ids id exclude

  module _ (req : Request policy) where
    route_by-fresh :
        (how : Plan) (w : World policy req) (prefix : PrefixIndex digests ids)
        (exclude : List NodeId) (p d : RoutingDecision policy)
        → IsValid fleet w.nodes
        → route_by policy req how w prefix exclude ≡ some (p, d)
        → has d.node.node_id exclude ≡ false
    unfolding route_by is_excluded
    route_by-fresh colocate w prefix exclude p d v h =
        elim (Option-cases
          (pick_excluding policy w.nodes prefix w.now req.key Registry.both exclude)) [
            | inl e ↦ absurd (ground (arith, rw (e, route_by) at h))
            | inr (q, e) ↦
                let same : q ≡ d = ground (arith, rw (e, route_by) at h) in
                let fits =
                  pick_excluding-qualifies policy w.nodes prefix w.now req.key Registry.both exclude
                    q v e in
                rw (sym same) (ground (arith, fits.1))
          ]
    route_by-fresh (split r s) w prefix exclude p d v h =
        let fits = pick_pair-fits policy w.nodes prefix w.now req.key r s exclude p d v h in
        let first =
          pick_excluding-qualifies policy w.nodes prefix w.now req.key r exclude p v fits.0 in
        let anyone =
          any (λ entry. can_decode policy req.key.model s exclude p.node.node_id entry.1) w.nodes in
        elim (Bool-cases anyone) [
          | inl e ↦ let fit = rw e at fits.1 in ground (arith, fit.1)
          | inr e ↦ let fit = rw e at fits.1 in rw fit (ground (arith, first.1))
        ]

    abbrev pub NextIsFresh : List NodeId → Next policy req → Type 0
    NextIsFresh exclude (done (served t none)) = Unit
    NextIsFresh exclude (done (served t (some id))) = has id exclude ≡ false
    NextIsFresh exclude (done (error e)) = Unit
    NextIsFresh exclude (go_on id e) = has id exclude ≡ false

    fall_back-fresh :
        (w : World policy req) (last_err : Option Error) (exclude : List NodeId)
        → NextIsFresh exclude (done (fall_back policy req w last_err))
    unfolding fall_back
    fall_back-fresh w last_err exclude = ground arith

    refused-fresh :
        (w : World policy req) (last_err : Option Error) (exclude : List NodeId)
        (n : NodeEntry fleet) (e : Error)
        → has n.node_id exclude ≡ false
        → NextIsFresh exclude (settle policy req w last_err (refused n e))
    unfolding settle
    refused-fresh w last_err exclude n e h = ground (arith, h)

    settle-fresh :
        (w : World policy req) (last_err : Option Error) (exclude : List NodeId)
        (n : NodeEntry fleet)
        → has n.node_id exclude ≡ false
        → NextIsFresh exclude (settle policy req w last_err (accepted n))
    unfolding settle
    settle-fresh w last_err exclude n h = ground (arith, h)

    dispatch_to-fresh :
        (w : World policy req) (prefix : PrefixIndex digests ids) (exclude : List NodeId)
        (last_err : Option Error) (p d : RoutingDecision policy) (r : Option Error)
        → has d.node.node_id exclude ≡ false
        → NextIsFresh exclude
            (settle policy req w last_err (dispatch_to policy req w prefix p d r).0)
    dispatch_to-fresh w prefix exclude last_err p d none h =
        settle-fresh w last_err exclude d.node h
    dispatch_to-fresh w prefix exclude last_err p d (some e) h =
        refused-fresh w last_err exclude d.node e h

    pub attempt-fresh :
        (w : World policy req) (prefix : PrefixIndex digests ids) (exclude : List NodeId)
        (last_err : Option Error)
        → IsValid fleet w.nodes
        → NextIsFresh exclude (attempt policy req w prefix exclude last_err).0
    unfolding attempt dispatch_once route
    attempt-fresh w prefix exclude last_err v =
        elim (Option-cases (route policy req w (w.meanwhile prefix) exclude)) [
          | inl e ↦ rw (e, attempt, dispatch_once) (fall_back-fresh w last_err exclude)
          | inr ((p, d), e) ↦
              rw (e, attempt, dispatch_once)
                (dispatch_to-fresh w (w.meanwhile prefix) exclude last_err p d
                  (refusal policy req w d.node)
                  (route_by-fresh (plan req.disagg req.colocate_below_tokens req.prompt_tokens) w
                    (w.meanwhile prefix) exclude p d v e))
        ]

    pub Next-cases :
        (next : Next policy req)
        → ((o : Opened policy req) × (next ≡ done o))
          ⊎ ((id : NodeId) × (e : Error) × (next ≡ go_on id e))
    Next-cases (done o) = inl (o, refl)
    Next-cases (go_on id e) = inr (id, e, refl)

    -- The nodes at which a request failed and was given up for another, and the one that serves it.
    abbrev pub serving : Opened policy req → List NodeId
    serving (served t none) = []
    serving (served t (some id)) = id ∷ []
    serving (error e) = []

    abbrev pub tried : Outcome policy req → List NodeId
    tried o = o.exclude ++ serving o.opened

    abbrev pub TriesOnce : ℕ → Outcome policy req → Type 0
    TriesOnce most o = IsDistinct ids (tried o) × (length (tried o) ≤ most)
