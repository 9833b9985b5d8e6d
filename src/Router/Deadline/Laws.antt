-- ===== src/Router/Deadline/Laws.antt =====
-- What the deadline check of rust/services/cgn-router/src/deadline.rs decides.
use cognitora_inference.Prelude.{
  ℕ, ◌+◌, ◌*◌, ◌^◌, ◌≤◌, ◌<◌, ◌≡◌, ◌≢◌, ◌↔◌, true, some, arith, max, min,
}
use native.Mathlib.Nat.{le-div_iff_mul-le}
use cognitora_inference.Router.Deadline.{
  admitted, DeadlineConfig, Asked, u32_max, saturating_mul, duration_to_ms, effective_deadline_ms,
  estimate_ttft_ms, check,
}

-- A request is refused exactly when the check is on and its estimate, the depth of the queue (at
-- least 1) times 100 ms, capped at the largest `u32`, takes at least one more millisecond of every
-- slot (of which there is at least 1) than the deadline has.
check-refused :
    (cfg : DeadlineConfig) (req : Asked) (queue_depth : ℕ)
    → (check cfg req queue_depth ≢ admitted) ↔ (
        (cfg.deadline_admission ≡ true)
        × ((effective_deadline_ms cfg req + 1) * max cfg.max_concurrent_per_replica 1
            ≤ min (max queue_depth 1 * 100) u32_max))
unfolding check estimate_ttft_ms saturating_mul
check-refused cfg req queue_depth =
    let slots = max cfg.max_concurrent_per_replica 1 in
    let work = min (max queue_depth 1 * 100) u32_max in
    let late =
      le-div_iff_mul-le {k = slots} {x = effective_deadline_ms cfg req + 1} {y = work}
        (omega arith) in
    (λ h. ground (arith, h, late), λ h e. ground (arith, h, late, e))

-- Without a deadline of its own, a request whose budget of tokens takes the sum past 2^32 gets a
-- deadline shorter than the configured time to the first token.
deadline-wraps :
    (cfg : DeadlineConfig) (max_tokens : ℕ)
    → 2 ^ 32 ≤ duration_to_ms cfg.ttft_slo + saturating_mul max_tokens 30
    → effective_deadline_ms cfg (record { deadline_ms = 0; max_tokens = some max_tokens })
      < duration_to_ms cfg.ttft_slo
unfolding effective_deadline_ms saturating_mul duration_to_ms
deadline-wraps cfg max_tokens big = omega arith
