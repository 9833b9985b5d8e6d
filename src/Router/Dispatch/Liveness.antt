-- ===== src/Router/Dispatch/Liveness.antt =====
-- That retries of rust/services/cgn-router/src/gateway/generate.rs reach a node that works.
use cognitora_inference.Prelude.{
  ◌≤◌, ◌<◌, ◌≡◌, refl, sym, ◌∙◌, inl, inr, Bool, true, false, Option, none, some, is_some, List, [],
  ◌∷◌, ◌++◌, length, any, All, arith, Bool-cases, Option-cases,
}
use cognitora_inference.Router.PrefixIndex.{PrefixIndex}
use cognitora_inference.Router.Registry.{NodeEntry}
use cognitora_inference.Router.Registry
use cognitora_inference.Router.Registry.Eligible.{IsValid}
use cognitora_inference.Router.Disagg.{Plan, colocate, split, plan}
use cognitora_inference.Router.Selector.{
  Policy, RoutingDecision, is_excluded, pick_excluding, pick_pair,
}
use cognitora_inference.Router.Selector.Candidates.{qualifies}
use cognitora_inference.Router.Selector.Best.{pick_excluding-is_some}
use cognitora_inference.Router.Dispatch.{
  Error, StreamHead, token, failed, is_fatal, first_token, retryable, Request, World, route_by,
  route, refusal, refused, accepted, dispatch_to, dispatch_once, Opened, served, error, Next, done,
  go_on, settle, attempt, open_loop, open_flow,
}
use cognitora_inference.Router.Dispatch.Remaining.{
  remaining, remaining-append-lt, has-subset, append-All, remaining-length,
}
use cognitora_inference.Router.Dispatch.Retries.{has, attempt-fresh, Next-cases}

-- The role in which the first node of a request is picked.
abbrev pub first_role : Plan → Registry.NodeRole
first_role colocate = Registry.both
first_role (split prefill_role decode_role) = prefill_role

any_mono {ℓ} :
    {A : Type ℓ} (test weaker : A → Bool)
    → ((x : A) → test x ≡ true → weaker x ≡ true)
    → (xs : List A) → any test xs ≡ true
    → any weaker xs ≡ true
any_mono test weaker f [] h = h
any_mono test weaker f (x ∷ xs) h = elim (Bool-cases (test x)) [
  | inl e ↦ rw (f x e) refl
  | inr e ↦ let rest = any_mono test weaker f xs (rw e at h) in ground (arith, rest)
]

-- Whether a stream begins with an error that is the caller's fault.
abbrev pub is_fatal_head : {Token : Type 0} → StreamHead Token → Bool
is_fatal_head (failed c) = is_fatal c
is_fatal_head _ = false

module _ (policy : Policy) where
  open policy use {fleet, Digest, digests}
  open fleet use {NodeId, ids}

  module _ (req : Request policy) where
    -- A world in which some node outside `bad` qualifies, the nodes outside `bad` answer with a
    -- token, and those in `bad` fail, if they do, in a way that is not the caller's fault.
    pub record Serves (bad : List NodeId) (w : World policy req) : Type 0 where
      pub valid : IsValid fleet w.nodes
      pub someone :
          any
            (λ entry.
              qualifies policy req.key.model
                (first_role (plan req.disagg req.colocate_below_tokens req.prompt_tokens))
                bad
                entry.1)
            w.nodes
          ≡ true
      pub accepts :
          (n : NodeEntry fleet) → has policy n.node_id bad ≡ false → refusal policy req w n ≡ none
      pub answers :
          (n : NodeEntry fleet)
          → has policy n.node_id bad ≡ false
          → (t : req.Token) × (w.head n ≡ token t)
      pub refuses_softly :
          (n : NodeEntry fleet) (e : Error) → refusal policy req w n ≡ some e → retryable e ≡ true
      pub fails_softly : (n : NodeEntry fleet) → is_fatal_head (w.head n) ≡ false

    abbrev NextServes : List NodeId → Next policy req → Type 0
    NextServes bad (done (served t (some id))) = Unit
    NextServes bad (done (served t none)) = ⊥
    NextServes bad (done (error e)) = ⊥
    NextServes bad (go_on id e) = has policy id bad ≡ true

    settle-good :
        (w : World policy req) (last_err : Option Error) (bad : List NodeId) (n : NodeEntry fleet)
        (t : req.Token)
        → w.head n ≡ token t
        → NextServes bad (settle policy req w last_err (accepted n))
    unfolding settle first_token
    settle-good w last_err bad n t h = rw (h, settle) tt

    settle-bad :
        (w : World policy req) (last_err : Option Error) (bad : List NodeId) (n : NodeEntry fleet)
        → has policy n.node_id bad ≡ true
        → is_fatal_head (w.head n) ≡ false
        → NextServes bad (settle policy req w last_err (accepted n))
    unfolding settle first_token
    settle-bad w last_err bad n h soft = ground (arith, h, soft)

    settle-refused :
        (w : World policy req) (last_err : Option Error) (bad : List NodeId) (n : NodeEntry fleet)
        (e : Error)
        → has policy n.node_id bad ≡ true
        → retryable e ≡ true
        → NextServes bad (settle policy req w last_err (refused n e))
    unfolding settle
    settle-refused w last_err bad n e h soft = rw (soft, settle) h

    dispatch_to-NextServes :
        (w : World policy req) (prefix : PrefixIndex digests ids) (bad : List NodeId)
        (last_err : Option Error) (p d : RoutingDecision policy) (r : Option Error)
        → Serves bad w
        → refusal policy req w d.node ≡ r
        → NextServes bad (settle policy req w last_err (dispatch_to policy req w prefix p d r).0)
    dispatch_to-NextServes w prefix bad last_err p d none s e =
        elim (Bool-cases (has policy d.node.node_id bad)) [
          | inl h ↦ settle-bad w last_err bad d.node h (s.fails_softly d.node)
          | inr h ↦ let (t, g) = s.answers d.node h in settle-good w last_err bad d.node t g
        ]
    dispatch_to-NextServes w prefix bad last_err p d (some err) s e =
        elim (Bool-cases (has policy d.node.node_id bad)) [
          | inl h ↦ settle-refused w last_err bad d.node err h (s.refuses_softly d.node err e)
          | inr h ↦ absurd (ground (arith, sym (s.accepts d.node h) ∙ e))
        ]

    route_by-is_some :
        (how : Plan) (w : World policy req) (prefix : PrefixIndex digests ids)
        (exclude : List NodeId)
        → is_some (route_by policy req how w prefix exclude)
          ≡ any (λ entry. qualifies policy req.key.model (first_role how) exclude entry.1) w.nodes
    unfolding route_by pick_pair
    route_by-is_some colocate w prefix exclude =
        elim (Option-cases
          (pick_excluding policy w.nodes prefix w.now req.key Registry.both exclude)) [
            | inl e ↦
                rw (e, route_by)
                  (rw e at (
                    pick_excluding-is_some policy w.nodes prefix w.now req.key Registry.both
                      exclude))
            | inr (q, e) ↦
                rw (e, route_by)
                  (rw e at (
                    pick_excluding-is_some policy w.nodes prefix w.now req.key Registry.both
                      exclude))
          ]
    route_by-is_some (split r s) w prefix exclude =
        elim (Option-cases (pick_excluding policy w.nodes prefix w.now req.key r exclude)) [
          | inl e ↦
              rw (e, route_by, pick_pair)
                (rw e at (pick_excluding-is_some policy w.nodes prefix w.now req.key r exclude))
          | inr (q, e) ↦
              rw (e, route_by, pick_pair)
                (rw e at (pick_excluding-is_some policy w.nodes prefix w.now req.key r exclude))
        ]

    qualifies-subset :
        (exclude bad : List NodeId) (role : Registry.NodeRole) (n : NodeEntry fleet)
        → All (λ x. has policy x bad ≡ true) exclude
        → qualifies policy req.key.model role bad n ≡ true
        → qualifies policy req.key.model role exclude n ≡ true
    unfolding is_excluded
    qualifies-subset exclude bad role n a q =
        let out = has-subset policy exclude bad n.node_id a (ground (arith, q)) in
        ground (arith, q, out)

    attempt-NextServes :
        (w : World policy req) (prefix : PrefixIndex digests ids) (exclude bad : List NodeId)
        (last_err : Option Error)
        → Serves bad w
        → All (λ x. has policy x bad ≡ true) exclude
        → NextServes bad (attempt policy req w prefix exclude last_err).0
    unfolding attempt dispatch_once route
    attempt-NextServes w prefix exclude bad last_err s a =
        let how = plan req.disagg req.colocate_below_tokens req.prompt_tokens in
        let found =
          route_by-is_some how w (w.meanwhile prefix) exclude
          ∙ any_mono (λ entry. qualifies policy req.key.model (first_role how) bad entry.1)
              (λ entry. qualifies policy req.key.model (first_role how) exclude entry.1)
              (λ entry. qualifies-subset exclude bad (first_role how) entry.1 a) w.nodes
              s.someone in
        elim (Option-cases (route policy req w (w.meanwhile prefix) exclude)) [
          | inl e ↦ absurd (ground (arith, rw e at found))
          | inr ((p, d), e) ↦
              rw (e, attempt, dispatch_once)
                (dispatch_to-NextServes w (w.meanwhile prefix) bad last_err p d
                  (refusal policy req w d.node) s refl)
        ]

    -- Whether a request is served by a node of the cluster.
    abbrev pub is_served : Opened policy req → Bool
    is_served (served t (some id)) = true
    is_served (served t none) = false
    is_served (error e) = false

    done-served :
        (bad : List NodeId) (o : Opened policy req) → NextServes bad (done o) → is_served o ≡ true
    done-served bad (served t (some id)) h = refl
    done-served bad (served t none) h = absurd h
    done-served bad (error e) h = absurd h

    open_loop-served :
        (worlds : List (World policy req)) (prefix : PrefixIndex digests ids)
        (exclude bad : List NodeId) (last_err : Option Error)
        → All (Serves bad) worlds
        → All (λ x. has policy x bad ≡ true) exclude
        → remaining policy exclude bad < length worlds
        → is_served (open_loop policy req worlds prefix exclude last_err).opened ≡ true
    unfolding open_loop
    open_loop-served [] prefix exclude bad last_err s a lt = absurd (omega (arith, lt))
    open_loop-served (w ∷ worlds) prefix exclude bad last_err (s, ss) a lt =
        let tried = attempt policy req w prefix exclude last_err in
        let fresh = attempt-fresh policy req w prefix exclude last_err s.valid in
        let serves = attempt-NextServes w prefix exclude bad last_err s a in
        elim (Next-cases policy req tried.0) [
          | inl (o, e) ↦ rw (e, open_loop) (done-served bad o (rw e at serves))
          | inr (id, err, e) ↦
              let is_bad = rw e at serves in
              let fewer = remaining-append-lt policy exclude bad id (rw e at fresh) is_bad in
              rw (e, open_loop)
                (open_loop-served worlds tried.1 (exclude ++ (id ∷ [])) bad (some err) ss
                  (append-All policy bad exclude id a is_bad) (omega (arith, fewer, lt)))
        ]

    -- Where the registries are valid: if at most two nodes fail, by errors that are not the
    -- caller's fault, while every other node answers and one of them qualifies at each attempt,
    -- then the request is served by a node of the cluster.
    pub open_flow-served :
        (w1 w2 w3 : World policy req) (prefix : PrefixIndex digests ids) (bad : List NodeId)
        → length bad ≤ 2
        → Serves bad w1
        → Serves bad w2
        → Serves bad w3
        → is_served (open_flow policy req w1 w2 w3 prefix).opened ≡ true
    unfolding open_flow
    open_flow-served w1 w2 w3 prefix bad few s1 s2 s3 =
        open_loop-served (w1 ∷ w2 ∷ w3 ∷ []) prefix [] bad none (s1, (s2, (s3, tt))) tt
          (omega (arith, few, remaining-length policy bad))
