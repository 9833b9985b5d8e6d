-- ===== src/Router/Dispatch/Claims.antt =====
-- The claims that a dispatch of rust/services/cgn-router/src/gateway/generate.rs leaves in the prefix
-- index.
use cognitora_inference.Prelude.{◌<◌, ◌≡◌, true, Option, none, some, List, ◌∷◌, length, arith}
use cognitora_inference.Prelude.Maps.{get}
use cognitora_inference.Router.PrefixIndex.{PrefixIndex, longest_prefix_overlap}
use cognitora_inference.Router.PrefixIndex.Inserts.{insert_many-overlap}
use cognitora_inference.Router.Selector.{Policy, RoutingDecision, is_id}
use cognitora_inference.Router.Dispatch.{
  Error, Request, World, route, refusal, announce, attempt, dispatch_once,
}

module _ (policy : Policy) where
  open policy use {fleet, Digest, digests}
  open fleet use {NodeId, ids}

  is_id-same : (id : NodeId) → is_id policy id id ≡ true
  is_id-same id = ground arith

  module _ (req : Request policy) where
    announce-overlap :
        (w : World policy req) (prefix : PrefixIndex digests ids) (d : RoutingDecision policy)
        (c : Digest) (cs : List Digest)
        → 0 < prefix.ttl
        → d.chunks ≡ c ∷ cs
        → get ids d.node.node_id
            (longest_prefix_overlap digests ids (announce policy req w prefix d d) d.chunks w.now)
          ≡ some (length d.chunks)
    unfolding announce
    announce-overlap w prefix d c cs p e =
        let full = insert_many-overlap digests ids prefix c cs d.node.node_id w.now p in
        rw (is_id-same d.node.node_id, announce) (rw e full)

    -- On one node, while claims can live at all, once an agent has accepted the call, the node is
    -- credited with the whole prompt of the request, whatever its stream then shows: also where no
    -- token comes and the node is left.
    attempt-overlap :
        (w : World policy req) (prefix : PrefixIndex digests ids) (exclude : List NodeId)
        (last_err : Option Error) (d : RoutingDecision policy) (c : Digest) (cs : List Digest)
        → 0 < (w.meanwhile prefix).ttl
        → d.chunks ≡ c ∷ cs
        → route policy req w (w.meanwhile prefix) exclude ≡ some (d, d)
        → refusal policy req w d.node ≡ none
        → get ids d.node.node_id (
            longest_prefix_overlap digests ids
              (attempt policy req w prefix exclude last_err).1
              d.chunks
              w.now)
          ≡ some (length d.chunks)
    unfolding attempt dispatch_once
    attempt-overlap w prefix exclude last_err d c cs p e r ok =
        rw (r, attempt, dispatch_once) (rw ok (announce-overlap w (w.meanwhile prefix) d c cs p e))
