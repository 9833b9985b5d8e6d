-- ===== src/Router/Deadline.antt =====
-- The deadline check of rust/services/cgn-router/src/deadline.rs.
--
-- The `u32` sums of the source wrap (a release build); `as_millis` of the configured
-- time-to-first-token is the number `ttft_slo`.
pub mod Laws
use cognitora_inference.Prelude.{
  ℕ, suc, zero, ◌+◌, ◌*◌, ◌-◌, ◌/◌, ◌%◌, ◌^◌, ◌≤◌, ◌<◌, ◌≡◌, ◌≢◌, refl, sym, ◌⊎◌, inl, inr, Bool,
  true, false, Option, none, some, arith, ltb, leb, ◌==◌, if◌then◌else◌, Bool-cases, max, min,
}

pub data AdmissionOutcome : Type 0 where
  admitted : AdmissionOutcome
  deadline_exceeded : (estimated_ms requested_ms : ℕ) → AdmissionOutcome
  queue_full : AdmissionOutcome

pub record DeadlineConfig : Type 0 where
  pub deadline_admission : Bool
  pub ttft_slo : ℕ
  pub max_concurrent_per_replica : ℕ

pub record Asked : Type 0 where
  pub deadline_ms : ℕ
  pub max_tokens : Option ℕ

abbrev pub u32_max : ℕ
u32_max = 4294967295

unfoldable pub saturating_mul : ℕ → ℕ → ℕ
saturating_mul m n = min (m * n) u32_max

unfoldable pub duration_to_ms : ℕ → ℕ
duration_to_ms d = min d u32_max

abbrev max_tokens_of : Option ℕ → ℕ
max_tokens_of none = 256
max_tokens_of (some n) = n

unfoldable pub effective_deadline_ms : DeadlineConfig → Asked → ℕ
unfolding saturating_mul duration_to_ms
effective_deadline_ms cfg req =
    if ltb 0 req.deadline_ms
    then req.deadline_ms
    else (duration_to_ms cfg.ttft_slo + saturating_mul (max_tokens_of req.max_tokens) 30) % 2 ^ 32

unfoldable pub estimate_ttft_ms : DeadlineConfig → ℕ → ℕ
unfolding saturating_mul
estimate_ttft_ms cfg queue_depth =
    saturating_mul (max queue_depth 1) 100 / max cfg.max_concurrent_per_replica 1

unfoldable pub check : DeadlineConfig → Asked → ℕ → AdmissionOutcome
unfolding effective_deadline_ms estimate_ttft_ms
check cfg req queue_depth =
    let requested = effective_deadline_ms cfg req in
    let estimated = estimate_ttft_ms cfg queue_depth in
    if cfg.deadline_admission
    then (if ltb requested estimated then deadline_exceeded estimated requested else admitted)
    else admitted
