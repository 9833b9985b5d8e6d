-- ===== src/Router/Dispatch.antt =====
-- The dispatch of a request to a node, with its retries,
-- rust/services/cgn-router/src/gateway/generate.rs.
--
-- `World` is what one attempt meets: the registry at that time, and how the agents and a peer
-- cluster answer. Between attempts other requests change the prefix index by `meanwhile`. The
-- admission permit is taken before the first attempt and stands in `Router.Admission`. A prefill
-- request returns no blocks in the source, so that it changes nothing here.
pub mod Claims
pub mod Retries
pub mod Remaining
pub mod Liveness
use cognitora_inference.Prelude.{
  ℕ, suc, zero, Bool, true, false, not, Option, none, some, List, [], ◌∷◌, ◌++◌, if◌then◌else◌,
}
use cognitora_inference.Router.PrefixIndex.{PrefixIndex, insert_many}
use cognitora_inference.Router.Registry.{NodeRole, NodeEntry, Registry}
use cognitora_inference.Router.Registry
use cognitora_inference.Router.Deadline.{
  DeadlineConfig, Asked, AdmissionOutcome, admitted, deadline_exceeded, queue_full, check,
}
use cognitora_inference.Router.Disagg.{Plan, colocate, split, plan}
use cognitora_inference.Router.Selector.{
  Policy, RouteKey, RoutingDecision, pick_excluding, pick_pair, is_id,
}

-- The errors of cgn_core that the gateway tells apart.
pub data Error : Type 0 where
  unavailable internal invalid_argument : Error
  other : ℕ → Error

-- The status codes of gRPC.
pub data Code : Type 0 where
  cancelled unknown_code bad_argument deadline_passed not_found already_exists : Code
  permission_denied resource_exhausted failed_precondition aborted out_of_range : Code
  unimplemented internal_code unavailable_code data_loss unauthenticated : Code

-- What a stream shows within the time that the gateway waits for its first token.
pub data StreamHead (Token : Type 0) : Type 0 where
  silent ended : StreamHead Token
  token : Token → StreamHead Token
  failed : Code → StreamHead Token

pub data FirstToken (Token : Type 0) : Type 0 where
  got : Token → FirstToken Token
  retry fatal : Error → FirstToken Token

-- The codes that are the caller's fault.
unfoldable pub is_fatal : Code → Bool
is_fatal bad_argument = true
is_fatal not_found = true
is_fatal permission_denied = true
is_fatal unauthenticated = true
is_fatal failed_precondition = true
is_fatal out_of_range = true
is_fatal _ = false

unfoldable pub first_token : {Token : Type 0} → StreamHead Token → FirstToken Token
unfolding is_fatal
first_token silent = retry unavailable
first_token ended = retry internal
first_token (token t) = got t
first_token (failed c) = if is_fatal c then fatal invalid_argument else retry internal

unfoldable pub retryable : Error → Bool
retryable unavailable = true
retryable internal = true
retryable _ = false

abbrev pub max_dispatch_attempts : ℕ
max_dispatch_attempts = 3

abbrev pub unwrap_or : Option Error → Error → Error
unwrap_or none e = e
unwrap_or (some last) e = last

module _ (policy : Policy) where
  open policy use {fleet, Digest, digests}
  open fleet use {NodeId, ids}

  pub record Request : Type 1 where
    pub Token : Type 0
    pub key : RouteKey policy
    pub prompt_tokens : ℕ
    pub asked : Asked
    pub deadlines : DeadlineConfig
    pub disagg : Bool
    pub colocate_below_tokens : ℕ
    -- Federation is enabled and has peers.
    pub federation : Bool

  module _ (req : Request) where
    open req use {Token, key}

    pub record World : Type 0 where
      pub nodes : Registry fleet
      pub meanwhile : PrefixIndex digests ids → PrefixIndex digests ids
      pub now : ℕ
      pub queue_depth : NodeEntry fleet → ℕ
      -- The error of the connection to an agent.
      pub connect : NodeEntry fleet → Option Error
      pub generate : NodeEntry fleet → Bool
      pub head : NodeEntry fleet → StreamHead Token
      -- The stream of the best peer, where one answers.
      pub federate : Option (StreamHead Token)

    -- `(d.clone(), d)`.
    abbrev pub as_pair :
        Option (RoutingDecision policy) → Option (RoutingDecision policy × RoutingDecision policy)
    as_pair none = none
    as_pair (some d) = some (d, d)

    -- The two decisions of an attempt; `none` is `Unavailable`.
    unfoldable pub route_by :
        Plan
        → World
        → PrefixIndex digests ids
        → List NodeId
        → Option (RoutingDecision policy × RoutingDecision policy)
    route_by colocate w prefix exclude =
        as_pair (pick_excluding policy w.nodes prefix w.now key Registry.both exclude)
    route_by (split prefill_role decode_role) w prefix exclude =
        pick_pair policy w.nodes prefix w.now key prefill_role decode_role exclude

    unfoldable pub route :
        World
        → PrefixIndex digests ids
        → List NodeId
        → Option (RoutingDecision policy × RoutingDecision policy)
    unfolding plan route_by
    route w prefix exclude =
        route_by (plan req.disagg req.colocate_below_tokens req.prompt_tokens) w prefix exclude

    -- The deadline check, the connection and the call, up to the first that fails.
    unfoldable pub refusal : World → NodeEntry fleet → Option Error
    unfolding check
    refusal w n = elim (check req.deadlines req.asked (w.queue_depth n)) [
      | admitted ↦ elim (w.connect n) [
        | none ↦ if w.generate n then none else some internal
        | some e ↦ some e
      ]
      | deadline_exceeded estimated requested ↦ some unavailable
      | queue_full ↦ some unavailable
    ]

    -- The claims of a dispatch that an agent has accepted.
    unfoldable pub announce :
        World
        → PrefixIndex digests ids
        → RoutingDecision policy
        → RoutingDecision policy
        → PrefixIndex digests ids
    announce w prefix p d =
        let prefix' = insert_many digests ids prefix d.chunks d.node.node_id w.now in
        if is_id policy p.node.node_id d.node.node_id
        then prefix'
        else insert_many digests ids prefix' p.chunks p.node.node_id w.now

    pub data Dispatched : Type 0 where
      no_route : Dispatched
      refused : NodeEntry fleet → Error → Dispatched
      accepted : NodeEntry fleet → Dispatched

    abbrev pub dispatch_to :
        World
        → PrefixIndex digests ids
        → RoutingDecision policy
        → RoutingDecision policy
        → Option Error
        → Dispatched × PrefixIndex digests ids
    dispatch_to w prefix p d none = (accepted d.node, announce w prefix p d)
    dispatch_to w prefix p d (some e) = (refused d.node e, prefix)

    unfoldable pub dispatch_once :
        World → PrefixIndex digests ids → List NodeId → Dispatched × PrefixIndex digests ids
    unfolding route refusal announce
    dispatch_once w prefix exclude = elim (route w prefix exclude) [
      | none ↦ (no_route, prefix)
      | some (p, d) ↦ dispatch_to w prefix p d (refusal w d.node)
    ]

    pub data Opened : Type 0 where
      -- The first token, and the node that keeps the request, none for a peer cluster.
      served : Token → Option NodeId → Opened
      error : Error → Opened

    -- Nothing local is left: a peer cluster, or the failure that matters most.
    unfoldable pub fall_back : World → Option Error → Opened
    unfolding first_token
    fall_back w last_err =
        if req.federation
        then elim w.federate [
          | none ↦ error (unwrap_or last_err unavailable)
          | some head ↦ elim (first_token head) [
            | got t ↦ served t none
            | retry e ↦ error (unwrap_or last_err unavailable)
            | fatal e ↦ error (unwrap_or last_err unavailable)
          ]
        ]
        else error (unwrap_or last_err unavailable)

    -- What the loop of `open` does with a dispatch: it ends, or goes on without a node.
    pub data Next : Type 0 where
      done : Opened → Next
      go_on : NodeId → Error → Next

    unfoldable pub settle : World → Option Error → Dispatched → Next
    unfolding fall_back first_token retryable
    settle w last_err no_route = done (fall_back w last_err)
    settle w last_err (refused n e) = if retryable e then go_on n.node_id e else done (error e)
    settle w last_err (accepted n) = elim (first_token (w.head n)) [
      | got t ↦ done (served t (some n.node_id))
      | retry e ↦ go_on n.node_id e
      | fatal e ↦ done (error e)
    ]

    pub record Outcome : Type 0 where
      pub opened : Opened
      -- The nodes that failed, in the order of the attempts.
      pub exclude : List NodeId
      pub prefix : PrefixIndex digests ids

    unfoldable pub attempt :
        World
        → PrefixIndex digests ids
        → List NodeId
        → Option Error
        → Next × PrefixIndex digests ids
    unfolding settle dispatch_once
    attempt w prefix exclude last_err =
        let (dispatched, prefix') = dispatch_once w (w.meanwhile prefix) exclude in
        (settle w last_err dispatched, prefix')

    -- The worlds of the attempts that are left.
    unfoldable pub open_loop :
        List World → PrefixIndex digests ids → List NodeId → Option Error → Outcome
    unfolding attempt
    open_loop [] prefix exclude last_err = record {
      opened = error (unwrap_or last_err unavailable);
      exclude = exclude;
      prefix = prefix;
    }
    open_loop (w ∷ worlds) prefix exclude last_err =
        let (next, prefix') = attempt w prefix exclude last_err in
        elim next [
          | done opened ↦ record { opened = opened; exclude = exclude; prefix = prefix' }
          | go_on id e ↦ open_loop worlds prefix' (exclude ++ (id ∷ [])) (some e)
        ]

    -- `for attempt in 1..=MAX_DISPATCH_ATTEMPTS`; the worlds of the attempts are in order.
    unfoldable pub open_flow : (w1 w2 w3 : World) → PrefixIndex digests ids → Outcome
    unfolding open_loop
    open_flow w1 w2 w3 prefix = open_loop (w1 ∷ w2 ∷ w3 ∷ []) prefix [] none
