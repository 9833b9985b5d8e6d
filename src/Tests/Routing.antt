-- ===== src/Tests/Routing.antt =====
-- The selector and the dispatch of the router at concrete inputs.
use cognitora_inference.Prelude.{
  ℕ, ◌≡◌, ◌+◌, ◌*◌, refl, true, false, none, some, List, [], ◌∷◌, arith, ltb, leb, ◌==◌,
  if◌then◌else◌, is_some, any, keep, ℕ_discrete, Bool-cases, inl, inr,
}
use cognitora_inference.Prelude.Maps.{get, insert}
use cognitora_inference.Router.PrefixIndex.{PrefixIndex, longest_prefix_overlap}
use cognitora_inference.Router.Registry.{
  Fleet, NodeEntry, Registry, nodes_for, eligible, look_up, both, prefill, decode,
}
use cognitora_inference.Router.Registry.Eligible.{IsValid}
use cognitora_inference.Router.Deadline.{check}
use cognitora_inference.Router.Disagg.{plan}
use cognitora_inference.Router.Selector.{
  Policy, RouteKey, RoutingDecision, pick_excluding, pick_pair, rendezvous, is_excluded, has_vram,
  has_gpu,
}
use cognitora_inference.Router.Selector.Candidates.{qualifies}
use cognitora_inference.Router.Selector.Best.{
  IsOrder, pick_excluding-qualifies, pick_excluding-is_some,
}
use cognitora_inference.Router.Selector.Pair.{DecodeFits, pick_pair-fits}
use cognitora_inference.Router.Selector.Sessions.{rendezvous-keep}
use cognitora_inference.Router.Dispatch.{
  unavailable_code, token, failed, Request, World, refusal, route, served, open_flow, is_fatal,
}
use cognitora_inference.Router.Dispatch.Liveness.{Serves, is_served, open_flow-served}

abbrev fleet : Fleet
fleet = record { NodeId = ℕ; ids = ℕ_discrete; Model = ℕ; models = ℕ_discrete; Info = ℕ }

-- `info` is a node's free blocks: the more, the better its score.
abbrev policy : Policy
policy = record {
  fleet = fleet;
  Digest = ℕ;
  digests = ℕ_discrete;
  Session = ℕ;
  rank = λ s id. s * id;
  Gpu = ℕ;
  min_vram_mb = λ model. if model == 7 then some 100 else none;
  require_gpu = λ model. none;
  vram_total_mb = λ n. n.info;
  names_no_gpu = λ n. true;
  names_gpu = λ gpu n. false;
  under_cap = λ n. ltb n.info 900;
  Power = ℕ;
  peer_max_power = λ nodes. 0;
  Overlap = ℕ;
  no_overlap = 0;
  overlap_of = λ held all. held;
  Score = ℕ;
  score_node = λ n overlap power. n.info + overlap;
  with_session = λ s. s + 1;
  at_least = λ s t. leb t s;
}

abbrev node : ℕ → ℕ → ℕ → NodeEntry fleet
node id role info = record {
  node_id = id;
  role = role;
  model = some 7;
  cordoned = false;
  ready = true;
  draining = false;
  adapters = [];
  info = info;
}

abbrev nodes : Registry fleet
nodes = (1, node 1 3 500) ∷ (2, node 2 3 300) ∷ (3, node 3 3 50) ∷ (4, node 4 1 400) ∷ []

nodes-IsValid : IsValid fleet nodes
unfolding get ℕ_discrete
nodes-IsValid = record {
  unique = (refl, (refl, (refl, (refl, tt))));
  keyed = (refl, (refl, (refl, (refl, tt))));
}

abbrev prefix : PrefixIndex ℕ_discrete ℕ_discrete
prefix = record { inner = []; ttl = 60 }

abbrev key : RouteKey policy
key = record { model = 7; session = none; chunks = 5 ∷ 6 ∷ [] }

abbrev decision : ℕ → ℕ → RoutingDecision policy
decision id n = record {
  node = node id 3 n;
  score = n;
  overlap = 0;
  n_candidates = if id == 1 then 2 else 1;
  chunks = 5 ∷ 6 ∷ [];
}

picked : pick_excluding policy nodes prefix 9 key both [] ≡ some (decision 1 500)
unfolding pick_excluding get longest_prefix_overlap ℕ_discrete nodes_for
picked = refl

picked_again : pick_excluding policy nodes prefix 9 key both (1 ∷ []) ≡ some (decision 2 300)
unfolding pick_excluding get longest_prefix_overlap ℕ_discrete nodes_for
picked_again = refl

pick_excluding-qualifies_example :
    (look_up fleet nodes 2 ≡ some (node 2 3 300))
    × (qualifies policy 7 both (1 ∷ []) (node 2 3 300) ≡ true)
pick_excluding-qualifies_example =
    pick_excluding-qualifies policy nodes prefix 9 key both (1 ∷ []) (decision 2 300) nodes-IsValid
      picked_again

pick_excluding-is_some_example :
    is_some (pick_excluding policy nodes prefix 9 key both (1 ∷ 2 ∷ []))
    ≡ any (λ entry. qualifies policy 7 both (1 ∷ 2 ∷ []) entry.1) nodes
pick_excluding-is_some_example = pick_excluding-is_some policy nodes prefix 9 key both (1 ∷ 2 ∷ [])

order : IsOrder policy
order = record { total = λ s t h. ground (arith, h); trans = λ s t u h k. ground (arith, h, k) }

abbrev pair_decision : RoutingDecision policy
pair_decision = record {
  node = node 4 1 400;
  score = 400;
  overlap = 0;
  n_candidates = 3;
  chunks = 5 ∷ 6 ∷ [];
}

abbrev prefill_decision : RoutingDecision policy
prefill_decision = record (decision 1 500) { n_candidates = 3 }

abbrev decode_decision : RoutingDecision policy
decode_decision = record (decision 2 300) { n_candidates = 2 }

pair_picked :
    pick_pair policy nodes prefix 9 key prefill decode [] ≡ some (prefill_decision, decode_decision)
unfolding pick_pair get longest_prefix_overlap ℕ_discrete nodes_for
pair_picked = refl

pick_pair-fits_example :
    (pick_excluding policy nodes prefix 9 key prefill [] ≡ some prefill_decision)
    × DecodeFits policy nodes 7 decode [] prefill_decision decode_decision
pick_pair-fits_example =
    pick_pair-fits policy nodes prefix 9 key prefill decode [] prefill_decision decode_decision
      nodes-IsValid pair_picked

abbrev three : List (NodeEntry fleet)
three = node 1 3 500 ∷ node 2 3 300 ∷ node 3 3 50 ∷ []

session_owner : rendezvous policy 2 three ≡ some (node 3 3 50)
unfolding rendezvous
session_owner = refl

rendezvous-keep_example :
    rendezvous policy 2 (keep (λ n. ltb n.info 400) three) ≡ some (node 3 3 50)
rendezvous-keep_example =
    rendezvous-keep policy 2 (λ n. ltb n.info 400) three (node 3 3 50) session_owner refl

abbrev req : Request policy
req = record {
  Token = ℕ;
  key = key;
  prompt_tokens = 100;
  asked = record { deadline_ms = 0; max_tokens = none };
  deadlines = record {
    deadline_admission = false;
    ttft_slo = 1000;
    max_concurrent_per_replica = 8;
  };
  disagg = false;
  colocate_below_tokens = 256;
  federation = false;
}

-- Node 1 takes calls and then fails them; the others answer.
abbrev world : World policy req
world = record {
  nodes = nodes;
  meanwhile = λ index. index;
  now = 9;
  queue_depth = λ n. 0;
  connect = λ n. none;
  generate = λ n. true;
  head = λ n. if n.node_id == 1 then failed unavailable_code else token 77;
  federate = none;
}

served_by_the_second : (open_flow policy req world world world prefix).opened ≡ served 77 (some 2)
unfolding open_flow get longest_prefix_overlap ℕ_discrete nodes_for check insert pick_excluding
served_by_the_second = refl

world-Serves : Serves policy req (1 ∷ []) world
unfolding refusal check ℕ_discrete plan eligible is_excluded has_vram has_gpu is_fatal
world-Serves = record {
  valid = nodes-IsValid;
  someone = refl;
  accepts = λ n h. refl;
  answers = λ n h. elim (Bool-cases (n.node_id == 1)) [
    | inl e ↦ absurd (ground (arith, h, e))
    | inr e ↦ (77, rw e refl)
  ];
  refuses_softly = λ n e h. absurd (ground (arith, h));
  fails_softly = λ n. elim (Bool-cases (n.node_id == 1)) [ inl e ↦ rw e refl | inr e ↦ rw e refl ];
}

open_flow-served_example :
    is_served policy req (open_flow policy req world world world prefix).opened ≡ true
open_flow-served_example =
    open_flow-served policy req world world world prefix (1 ∷ []) (omega arith) world-Serves
      world-Serves world-Serves

first_route : route policy req world prefix [] ≡ some (decision 1 500, decision 1 500)
unfolding route get longest_prefix_overlap ℕ_discrete nodes_for pick_excluding
first_route = refl

first_accepts : refusal policy req world (node 1 3 500) ≡ none
unfolding refusal
first_accepts = refl
