-- ===== src/Operator/Planner/Sizing.antt =====
-- How the planner of rust/services/cgn-operator/src/planner.rs sizes a pool.
use native.Mathlib.Nat.{div-lt_iff_lt-mul}
use cognitora_inference.Prelude.{
  ℕ, ◌+◌, ◌-◌, ◌*◌, ◌/◌, ◌≤◌, ◌≡◌, Bool, none, List, [], ◌∷◌, arith, ltb, max, Bool-cases, inl, inr,
  ◌⊎◌, ◌↔◌,
}
use cognitora_inference.Operator.Planner.{
  Heartbeat, ModelPool, Planned, desired_replicas, desired, plan_pool, unwrap_or,
}

-- The size is within the bounds, where an upper bound below the lower one counts as the lower one,
-- and it is the least size within them at which no replica has more than its share of the queue: a
-- number of replicas within the bounds is at least it exactly when it carries the queue or is the
-- upper bound.
pub desired_replicas-least :
    (total_queue max_queue low high n : ℕ)
    → low ≤ n
    → n ≤ max high low
    → (low ≤ desired_replicas total_queue max_queue low high)
      × (desired_replicas total_queue max_queue low high ≤ max high low)
      × ((desired_replicas total_queue max_queue low high ≤ n)
          ↔ ((total_queue ≤ n * max max_queue 1) ⊎ (n ≡ max high low)))
unfolding desired_replicas
desired_replicas-least total_queue max_queue low high n l h =
    let per = max max_queue 1 in
    let ceiling =
      div-lt_iff_lt-mul {k = per} {x = total_queue + (per - 1)} {y = n + 1} (omega arith) in
    (
      omega arith,
      omega arith,
      (
        λ d. elim (Bool-cases (ltb n ((total_queue + (per - 1)) / per))) [
          | inl more ↦ inr (ground (arith, more))
          | inr enough ↦ inl (ground (arith, ceiling.0, enough))
        ],
        λ c. elim c [
          | inl carries ↦ (let few = ceiling.1 (omega (arith, carries)) in omega (arith, few))
          | inr top ↦ omega (arith, top)
        ],
      ),
    )

module _ {M : Type 0} (dec : Discrete M) where
  abbrev pub Tick : Type 0
  Tick = List (Heartbeat M) × ℕ × Bool

  -- A series of ticks.
  unfoldable pub plan_all : List Tick → Planned M → Planned M
  plan_all [] p = p
  plan_all ((heartbeats, now, patched) ∷ ticks) p =
      plan_all ticks (plan_pool dec p heartbeats now patched)

  desired-within :
      (pool : ModelPool M) (heartbeats : List (Heartbeat M))
      → pool.slo.max_replicas ≡ none
      → unwrap_or pool.slo.min_replicas 1 ≤ pool.decode_replicas
      → (unwrap_or pool.slo.min_replicas 1 ≤ desired dec pool heartbeats)
        × (desired dec pool heartbeats ≤ pool.decode_replicas)
  unfolding desired desired_replicas
  desired-within pool heartbeats e low = rw e (omega (arith, low), omega (arith, low))

  -- The pool after a tick, and what a tick leaves as it is.
  plan_pool-pool :
      (p : Planned M) (heartbeats : List (Heartbeat M)) (now : ℕ) (patched : Bool)
      → let p' = plan_pool dec p heartbeats now patched in
        (p'.pool.slo ≡ p.pool.slo)
        × ((p'.pool.decode_replicas ≡ p.pool.decode_replicas)
            ⊎ (p'.pool.decode_replicas ≡ desired dec p.pool heartbeats))
  unfolding plan_pool
  plan_pool-pool p heartbeats now patched = (ground arith, ground arith)

  -- A pool with no maximum of its own never grows: its present size is the maximum of every tick, so
  -- that a scale down is for good.
  plan_all-shrinks :
      (ticks : List Tick) (p : Planned M)
      → p.pool.slo.max_replicas ≡ none
      → unwrap_or p.pool.slo.min_replicas 1 ≤ p.pool.decode_replicas
      → (plan_all ticks p).pool.decode_replicas ≤ p.pool.decode_replicas
  unfolding plan_all
  plan_all-shrinks [] p e low = omega arith
  plan_all-shrinks ((heartbeats, now, patched) ∷ ticks) p e low =
      let p' = plan_pool dec p heartbeats now patched in
      let (same, sized) = plan_pool-pool p heartbeats now patched in
      let within = desired-within p.pool heartbeats e low in
      let e' : p'.pool.slo.max_replicas ≡ none = rw same e in
      let floor : unwrap_or p'.pool.slo.min_replicas 1 ≤ p'.pool.decode_replicas =
        rw same (ground (arith, sized, within, low)) in
      let shrunk : p'.pool.decode_replicas ≤ p.pool.decode_replicas =
        ground (arith, sized, within) in
      omega (arith, plan_all-shrinks ticks p' e' floor, shrunk)
