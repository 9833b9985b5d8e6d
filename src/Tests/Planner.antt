-- ===== src/Tests/Planner.antt =====
-- The replica planner of rust/services/cgn-operator at concrete inputs.
use cognitora_inference.Prelude.{
  ℕ, ◌*◌, ◌≤◌, ◌≡◌, ◌⊎◌, ◌↔◌, refl, true, some, none, List, [], ◌∷◌, arith, ℕ_discrete,
}
use cognitora_inference.Operator.Planner.{
  Heartbeat, Planned, desired_replicas, total_queue, desired, plan_pool,
}
use cognitora_inference.Operator.Planner.Sizing.{Tick, desired_replicas-least, plan_all}

desired_replicas-least_example :
    (1 ≤ desired_replicas 17 8 1 10)
    × (desired_replicas 17 8 1 10 ≤ 10)
    × ((desired_replicas 17 8 1 10 ≤ 3) ↔ ((17 ≤ 3 * 8) ⊎ (◌≡◌ {A = ℕ} 3 10)))
desired_replicas-least_example = desired_replicas-least 17 8 1 10 3 (omega arith) (omega arith)

-- Four replicas of model 1, eight queued requests each, no maximum.
abbrev planned : Planned ℕ
planned = record {
  pool = record {
    model = 1;
    decode_replicas = 4;
    slo = record {
      max_queue_per_replica = 8;
      min_replicas = none;
      max_replicas = none;
      scale_cooldown_secs = some 60;
    };
  };
  last_scale = none;
}

abbrev queue_of : ℕ → List (Heartbeat ℕ)
queue_of depth = record { model = some 1; queue_depth = depth; ready = true } ∷ []

-- A quiet moment, and then a queue of 80.
abbrev ticks : List (Tick ℕ_discrete)
ticks = (queue_of 3, 100, true) ∷ (queue_of 80, 500, true) ∷ []

ticks-planned : (plan_all ℕ_discrete ticks planned).pool.decode_replicas ≡ 1
unfolding plan_all plan_pool desired desired_replicas total_queue ℕ_discrete
ticks-planned = refl
