-- ===== src/Operator/Planner.antt =====
-- The replica planner of rust/services/cgn-operator/src/planner.rs. A tick reads the heartbeats and
-- plans one pool; `patched` says whether the cluster takes the patch. Times are numbers of seconds.
pub mod Sizing
use cognitora_inference.Prelude.{
  ℕ, ◌+◌, ◌-◌, ◌/◌, ◌%◌, ◌^◌, Bool, true, false, ◌&&◌, Option, none, some, List, [], ◌∷◌, ltb, ◌==◌,
  if◌then◌else◌, min, max,
}
use mathlib.Core.Logic.{ite}

pub record Slo : Type 0 where
  pub max_queue_per_replica : ℕ
  pub min_replicas : Option ℕ
  pub max_replicas : Option ℕ
  pub scale_cooldown_secs : Option ℕ

pub record Heartbeat (M : Type 0) : Type 0 where
  pub model : Option M
  pub queue_depth : ℕ
  pub ready : Bool

pub record ModelPool (M : Type 0) : Type 0 where
  pub model : M
  pub decode_replicas : ℕ
  pub slo : Slo

abbrev pub unwrap_or : Option ℕ → ℕ → ℕ
unwrap_or none d = d
unwrap_or (some n) d = n

-- `clamp(low, high)`, for `low <= high`.
abbrev pub clamp : ℕ → ℕ → ℕ → ℕ
clamp n low high = min (max n low) high

unfoldable pub desired_replicas : ℕ → ℕ → ℕ → ℕ → ℕ
desired_replicas total_queue max_queue low high =
    let per = max max_queue 1 in clamp ((total_queue + (per - 1)) / per) low (max high low)

-- Whether the pool was patched, its cooldown permitting, and when it was last.
pub record Planned (M : Type 0) : Type 0 where
  pub pool : ModelPool M
  pub last_scale : Option ℕ

abbrev pub cools_down : Option ℕ → ℕ → ℕ → Bool
cools_down none cooldown now = false
cools_down (some t) cooldown now = ltb (now - t) cooldown

module _ {M : Type 0} (dec : Discrete M) where
  abbrev pub serves : M → Option M → Bool
  serves m none = false
  serves m (some m') = ite (dec m' m) true false

  -- The sum of `u32` depths wraps in a release build.
  unfoldable pub total_queue : M → List (Heartbeat M) → ℕ
  total_queue m [] = 0
  total_queue m (h ∷ hs) =
      let rest = total_queue m hs in
      if h.ready && serves m h.model then (h.queue_depth + rest) % 2 ^ 32 else rest

  unfoldable pub desired : ModelPool M → List (Heartbeat M) → ℕ
  unfolding desired_replicas total_queue
  desired pool heartbeats =
      desired_replicas (total_queue pool.model heartbeats) pool.slo.max_queue_per_replica
        (unwrap_or pool.slo.min_replicas 1) (unwrap_or pool.slo.max_replicas pool.decode_replicas)

  unfoldable pub plan_pool : Planned M → List (Heartbeat M) → ℕ → Bool → Planned M
  unfolding desired
  plan_pool p heartbeats now patched =
      let wanted = desired p.pool heartbeats in
      let cooldown = unwrap_or p.pool.slo.scale_cooldown_secs 120 in
      if p.pool.slo.max_queue_per_replica == 0
      then p
      else if wanted == p.pool.decode_replicas
      then p
      else if cools_down p.last_scale cooldown now
      then p
      else if patched
      then record { pool = record p.pool { decode_replicas = wanted }; last_scale = some now }
      else p
