-- ===== src/Router/Registry.antt =====
-- The node registry of rust/services/cgn-router/src/cluster/registry.rs. Node ids and model names are
-- types with decidable equality; `Info` stands for the fields of a node that the registry only
-- stores: its address, its load, its GPU and its last heartbeat.
pub mod Eligible
use cognitora_inference.Prelude.{
  ℕ, Bool, true, false, ◌&&◌, ◌||◌, not, Option, none, some, List, [], ◌∷◌, ◌==◌, if◌then◌else◌,
  any,
}
use mathlib.Core.Logic.{ite}
use cognitora_inference.Prelude.Maps.{get, insert, remove}

pub data NodeRole : Type 0 where
  unspecified prefill decode both : NodeRole

-- `NodeRole::try_from(role).unwrap_or(Unspecified)`.
unfoldable pub role_of : ℕ → NodeRole
role_of role =
    if role == 1
    then prefill
    else if role == 2
    then decode
    else if role == 3
    then both
    else unspecified

abbrev pub same_role : NodeRole → NodeRole → Bool
same_role unspecified unspecified = true
same_role prefill prefill = true
same_role decode decode = true
same_role both both = true
same_role _ _ = false

abbrev pub is_unspecified : NodeRole → Bool
is_unspecified r = same_role r unspecified

pub record Fleet : Type 1 where
  pub NodeId : Type 0
  pub ids : Discrete NodeId
  pub Model : Type 0
  pub models : Discrete Model
  pub Info : Type 0

module _ (fleet : Fleet) where
  open fleet use {NodeId, ids, Model, models, Info}

  pub record NodeEntry : Type 0 where
    pub node_id : NodeId
    pub role : ℕ
    pub model : Option Model
    pub cordoned : Bool
    pub ready : Bool
    pub draining : Bool
    pub adapters : List Model
    pub info : Info

  abbrev pub Registry : Type 0
  Registry = List (NodeId × NodeEntry)

  abbrev pub is_model : Model → Model → Bool
  is_model m m' = ite (models m' m) true false

  abbrev pub base_is : Model → Option Model → Bool
  base_is m none = false
  base_is m (some m') = is_model m m'

  unfoldable pub serves : NodeEntry → Model → Bool
  serves n m = base_is m n.model || any (is_model m) n.adapters

  unfoldable pub upsert : Registry → NodeEntry → Registry
  upsert registry n = insert ids n.node_id n registry

  unfoldable pub look_up : Registry → NodeId → Option (NodeEntry)
  look_up registry id = get ids id registry

  unfoldable pub forget : Registry → NodeId → Registry
  forget registry id = remove ids id registry

  unfoldable pub set_cordon : Registry → NodeId → Bool → Registry
  set_cordon registry id cordoned = elim (get ids id registry) [
    | none ↦ registry
    | some n ↦ insert ids id (record n { cordoned = cordoned }) registry
  ]

  abbrev pub serves_any : NodeEntry → Option Model → Bool
  serves_any n none = true
  serves_any n (some m) = serves n m

  -- The filter of `nodes_for`.
  unfoldable pub eligible : NodeRole → Option Model → NodeEntry → Bool
  unfolding serves role_of
  eligible role model n =
      if n.cordoned || (n.draining || not n.ready)
      then false
      else (is_unspecified role
          || (same_role (role_of n.role) role || same_role (role_of n.role) both))
        && serves_any n model

  unfoldable pub nodes_for : Registry → NodeRole → Option Model → List (NodeEntry)
  unfolding eligible
  nodes_for [] role model = []
  nodes_for ((id, n) ∷ registry) role model =
      let rest = nodes_for registry role model in if eligible role model n then n ∷ rest else rest
