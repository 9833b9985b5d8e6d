-- ===== src/Router/Selector.antt =====
-- The choice of a node, rust/services/cgn-router/src/routing/selector.rs.
--
-- Power, overlap and score are 32-bit floating point: their types, the score of a node and the
-- comparison `>=` are parameters, and so are BLAKE3, the search in GPU names and the configuration.
pub mod Candidates
pub mod Best
pub mod Sessions
pub mod Pair
use cognitora_inference.Prelude.{
  ℕ, suc, zero, Bool, true, false, not, ◌&&◌, ◌||◌, Option, none, some, List, [], ◌∷◌, ltb, leb,
  ◌==◌, if◌then◌else◌, keep, any, length,
}
use mathlib.Core.Logic.{ite}
use cognitora_inference.Prelude.Maps.{get}
use cognitora_inference.Router.PrefixIndex.{PrefixIndex, longest_prefix_overlap, or_zero}
use cognitora_inference.Router.Registry.{Fleet, NodeRole, NodeEntry, Registry, nodes_for}

pub record Policy : Type 1 where
  pub fleet : Fleet
  pub Digest : Type 0
  pub digests : Discrete Digest
  pub Session : Type 0
  -- The digest of a session and a node, as a number.
  pub rank : Session → fleet.NodeId → ℕ
  pub Gpu : Type 0
  pub min_vram_mb : fleet.Model → Option ℕ
  pub require_gpu : fleet.Model → Option Gpu
  pub vram_total_mb : NodeEntry fleet → ℕ
  -- Both GPU names are empty, or one contains the text.
  pub names_no_gpu : NodeEntry fleet → Bool
  pub names_gpu : Gpu → NodeEntry fleet → Bool
  pub under_cap : NodeEntry fleet → Bool
  pub Power : Type 0
  pub peer_max_power : List (NodeEntry fleet) → Power
  pub Overlap : Type 0
  pub no_overlap : Overlap
  -- The quotient of two counts.
  pub overlap_of : ℕ → ℕ → Overlap
  pub Score : Type 0
  pub score_node : NodeEntry fleet → Overlap → Power → Score
  -- The score with the session's share added.
  pub with_session : Score → Score
  pub at_least : Score → Score → Bool

module _ (policy : Policy) where
  open policy use {
    fleet, Digest, digests, Session, rank, Gpu, min_vram_mb, require_gpu, vram_total_mb,
    names_no_gpu, names_gpu, under_cap, peer_max_power, Overlap, no_overlap, overlap_of, Score,
    score_node, with_session, at_least,
  }
  open fleet use {NodeId, ids, Model}

  pub record RouteKey : Type 0 where
    pub model : Model
    pub session : Option Session
    -- The chained digests of the prompt's tokens.
    pub chunks : List Digest

  pub record RoutingDecision : Type 0 where
    pub node : NodeEntry fleet
    pub score : Score
    pub overlap : Overlap
    pub n_candidates : ℕ
    pub chunks : List Digest

  abbrev pub is_id : NodeId → NodeId → Bool
  is_id a b = ite (ids a b) true false

  unfoldable pub is_excluded : List NodeId → NodeEntry fleet → Bool
  is_excluded exclude n = any (λ x. is_id x n.node_id) exclude

  abbrev vram_allows : Option ℕ → NodeEntry fleet → Bool
  vram_allows none n = true
  vram_allows (some min_vram) n = vram_total_mb n == 0 || leb min_vram (vram_total_mb n)

  abbrev gpu_allows : Option Gpu → NodeEntry fleet → Bool
  gpu_allows none n = true
  gpu_allows (some gpu) n = names_no_gpu n || names_gpu gpu n

  unfoldable pub has_vram : Model → NodeEntry fleet → Bool
  has_vram model n = vram_allows (min_vram_mb model) n

  unfoldable pub has_gpu : Model → NodeEntry fleet → Bool
  has_gpu model n = gpu_allows (require_gpu model) n

  -- Only nodes under their watt limit, where there are any.
  unfoldable pub prefer_under_cap : List (NodeEntry fleet) → List (NodeEntry fleet)
  prefer_under_cap nodes = if any under_cap nodes then keep under_cap nodes else nodes

  unfoldable pub candidates :
      Registry fleet → Model → NodeRole → List NodeId → List (NodeEntry fleet)
  unfolding is_excluded has_vram has_gpu prefer_under_cap
  candidates nodes model role exclude = prefer_under_cap (
      keep (has_gpu model) (
        keep (has_vram model)
          (keep (λ n. not (is_excluded exclude n)) (nodes_for fleet nodes role (some model)))))

  -- The loops keep the first node of those with the highest total.
  unfoldable pub best_from :
      (NodeEntry fleet → Score) → NodeEntry fleet → List (NodeEntry fleet) → NodeEntry fleet
  best_from total prev [] = prev
  best_from total prev (n ∷ nodes) =
      let next = if at_least (total prev) (total n) then prev else n in best_from total next nodes

  unfoldable pub best :
      (NodeEntry fleet → Score) → List (NodeEntry fleet) → Option (NodeEntry fleet)
  unfolding best_from
  best total [] = none
  best total (n ∷ nodes) = some (best_from total n nodes)

  -- `max_by_key` keeps the last node of those with the highest rank.
  unfoldable pub higher : Session → Option (NodeEntry fleet) → NodeEntry fleet → NodeEntry fleet
  higher s none n = n
  higher s (some m) n = if leb (rank s m.node_id) (rank s n.node_id) then n else m

  unfoldable pub rendezvous_from :
      Session → Option (NodeEntry fleet) → List (NodeEntry fleet) → Option (NodeEntry fleet)
  unfolding higher
  rendezvous_from s held [] = held
  rendezvous_from s held (n ∷ nodes) = rendezvous_from s (some (higher s held n)) nodes

  unfoldable pub rendezvous : Session → List (NodeEntry fleet) → Option (NodeEntry fleet)
  unfolding rendezvous_from
  rendezvous s nodes = rendezvous_from s none nodes

  unfoldable pub session_node : Option Session → List (NodeEntry fleet) → Option NodeId
  unfolding rendezvous
  session_node none nodes = none
  session_node (some s) nodes = elim (rendezvous s nodes) [ none ↦ none | some n ↦ some n.node_id ]

  abbrev pub is_session_node : Option NodeId → NodeEntry fleet → Bool
  is_session_node none n = false
  is_session_node (some id) n = is_id id n.node_id

  unfoldable pub overlap_with :
      PrefixIndex digests ids → List Digest → ℕ → NodeEntry fleet → Overlap
  overlap_with prefix chunks now n =
      let held = get ids n.node_id (longest_prefix_overlap digests ids prefix chunks now) in
      if length chunks == 0
      then no_overlap
      else overlap_of (or_zero digests ids held) (length chunks)

  -- The total of one candidate in `pick_excluding`.
  unfoldable pub total_score :
      PrefixIndex digests ids → RouteKey → ℕ → List (NodeEntry fleet) → NodeEntry fleet → Score
  unfolding overlap_with session_node
  total_score prefix key now nodes n =
      let s = score_node n (overlap_with prefix key.chunks now n) (peer_max_power nodes) in
      if is_session_node (session_node key.session nodes) n then with_session s else s

  -- `none` is the error `Unavailable`.
  unfoldable pub pick_excluding :
      Registry fleet
      → PrefixIndex digests ids
      → ℕ
      → RouteKey
      → NodeRole
      → List NodeId
      → Option RoutingDecision
  unfolding candidates total_score best overlap_with
  pick_excluding nodes prefix now key role exclude =
      let cs = candidates nodes key.model role exclude in
      elim (best (total_score prefix key now cs) cs) [
        | none ↦ none
        | some n ↦ some (record {
          node = n;
          score = total_score prefix key now cs n;
          overlap = overlap_with prefix key.chunks now n;
          n_candidates = length cs;
          chunks = key.chunks;
        })
      ]

  -- The decode candidates of `pick_pair`.
  unfoldable pub distinct_from :
      Registry fleet → Model → NodeRole → List NodeId → NodeId → List (NodeEntry fleet)
  unfolding prefer_under_cap is_excluded
  distinct_from nodes model role exclude prefill_id = prefer_under_cap (
      keep (λ n. not (is_id n.node_id prefill_id) && not (is_excluded exclude n))
        (nodes_for fleet nodes role (some model)))

  abbrev pub decode_score : List (NodeEntry fleet) → NodeEntry fleet → Score
  decode_score nodes n = score_node n no_overlap (peer_max_power nodes)

  unfoldable pub with_decode :
      RoutingDecision → List (NodeEntry fleet) → RoutingDecision × RoutingDecision
  unfolding best
  with_decode prefill distinct = elim (best (decode_score distinct) distinct) [
    | none ↦ (prefill, prefill)
    | some n ↦ (
      prefill,
      record {
        node = n;
        score = decode_score distinct n;
        overlap = no_overlap;
        n_candidates = length distinct;
        chunks = prefill.chunks;
      },
    )
  ]

  unfoldable pub pick_pair :
      Registry fleet
      → PrefixIndex digests ids
      → ℕ
      → RouteKey
      → NodeRole
      → NodeRole
      → List NodeId
      → Option (RoutingDecision × RoutingDecision)
  unfolding pick_excluding with_decode distinct_from
  pick_pair nodes prefix now key prefill_role decode_role exclude =
      elim (pick_excluding nodes prefix now key prefill_role exclude) [
        | none ↦ none
        | some p ↦
            some (with_decode p (distinct_from nodes key.model decode_role exclude p.node.node_id))
      ]
