-- ===== src/Router/Cascade.antt =====
-- The cascade of models, rust/services/cgn-router/src/cascade.rs. The confidence of an outcome is a
-- 32-bit float: `is_low` is its test against the threshold. The call of a step may change what the
-- next one sees, so that its outcome depends on the number of the call.
pub mod Steps
use cognitora_inference.Prelude.{
  ℕ, suc, zero, ◌+◌, Bool, true, false, ◌||◌, Option, none, some, List, [], ◌∷◌, ◌++◌, ◌==◌,
  is_nonempty, if◌then◌else◌,
}

pub record Models : Type 1 where
  pub Model : Type 0
  -- The empty string.
  pub no_model : Model
  pub Text : Type 0
  pub no_text : Text
  pub Logprob : Type 0
  pub zero_logprob : Logprob

module _ (models : Models) where
  open models use {Model, no_model, Text, no_text, Logprob, zero_logprob}

  pub record StepOutcome : Type 0 where
    pub text : Text
    pub logprob : Logprob
    pub tokens : ℕ
    pub finish : Text

  abbrev pub default_outcome : StepOutcome
  default_outcome = record { text = no_text; logprob = zero_logprob; tokens = 0; finish = no_text }

  pub record CascadeResult : Type 0 where
    pub outcome : StepOutcome
    pub model_used : Model
    pub steps_attempted : List Model

  -- The steps, and whether a confidence is below the threshold.
  pub record Cascade : Type 0 where
    pub steps : List Model
    pub is_low : Logprob → Bool

  -- The configured cascade of the request's model, `none` where the model is not configured.
  abbrev pub configured : Option (List Model) → List Model
  configured none = []
  configured (some steps) = steps

  unfoldable pub from_config :
      Bool → (Logprob → Bool) → Option (List Model) → List Model → Option Cascade
  from_config enabled is_low cascade override_chain =
      let chain = if is_nonempty override_chain then override_chain else configured cascade in
      if enabled
      then (if is_nonempty chain then some (record { steps = chain; is_low = is_low }) else none)
      else none

  unfoldable pub should_escalate : Cascade → StepOutcome → Bool
  should_escalate c o = (o.tokens == 0) || c.is_low o.logprob

  -- The loop of `run`; `n` is the number of the next call.
  unfoldable pub run_loop :
      Cascade → (ℕ → Model → StepOutcome) → ℕ → List Model → CascadeResult → CascadeResult
  unfolding should_escalate
  run_loop c step_fn n [] last = last
  run_loop c step_fn n (step ∷ steps) last =
      let outcome = step_fn n step in
      let now : CascadeResult = record {
        outcome = outcome;
        model_used = step;
        steps_attempted = last.steps_attempted ++ (step ∷ []);
      } in
      let rest = run_loop c step_fn (suc n) steps now in
      if should_escalate c outcome then rest else now

  unfoldable pub run : Cascade → (ℕ → Model → StepOutcome) → CascadeResult
  unfolding run_loop
  run c step_fn =
      run_loop c step_fn 0 c.steps
        (record { outcome = default_outcome; model_used = no_model; steps_attempted = [] })
