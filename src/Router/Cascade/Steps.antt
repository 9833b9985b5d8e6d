-- ===== src/Router/Cascade/Steps.antt =====
-- Which step of a cascade answers, rust/services/cgn-router/src/cascade.rs.
use cognitora_inference.Prelude.{
  ℕ, suc, ◌≡◌, refl, ◌∙◌, Bool, some, List, [], ◌∷◌, ◌++◌, take, get_elem?, Bool-cases, inl, inr,
  if◌then◌else◌,
}
use mathlib.Core.List.{append_assoc}
use cognitora_inference.Router.Cascade.{
  Models, StepOutcome, default_outcome, CascadeResult, Cascade, should_escalate, run_loop, run,
}

module _ (models : Models) where
  open models use {Model}

  -- What the calls would give, each step called.
  abbrev pub outcomes :
      (ℕ → Model → StepOutcome models) → ℕ → List Model → List (Model × StepOutcome models)
  outcomes step_fn n [] = []
  outcomes step_fn n (step ∷ steps) = (step, step_fn n step) ∷ outcomes step_fn (suc n) steps

  -- The position of the step that answers: the first confident one, or the last.
  abbrev pub chosen : Cascade models → List (Model × StepOutcome models) → ℕ
  chosen c [] = 0
  chosen c (o ∷ []) = 0
  chosen c (o ∷ p ∷ os) =
      let later = suc (chosen c (p ∷ os)) in if should_escalate models c o.1 then later else 0

  run_loop-chosen :
      (c : Cascade models) (step_fn : ℕ → Model → StepOutcome models) (n : ℕ) (step : Model)
      (steps : List Model) (last : CascadeResult models)
      → let all = outcomes step_fn n (step ∷ steps) in
        let r = run_loop models c step_fn n (step ∷ steps) last in
        (get_elem? all (chosen c all) ≡ some (r.model_used, r.outcome))
        × (r.steps_attempted ≡ last.steps_attempted ++ take (suc (chosen c all)) (step ∷ steps))
  unfolding run_loop
  run_loop-chosen c step_fn n step [] last =
      elim (Bool-cases (should_escalate models c (step_fn n step))) [
        | inl e ↦ rw (e, run_loop) (refl, refl)
        | inr e ↦ rw (e, run_loop) (refl, refl)
      ]
  run_loop-chosen c step_fn n step (next ∷ steps) last =
      elim (Bool-cases (should_escalate models c (step_fn n step))) [
        | inl e ↦
            let now : CascadeResult models = record {
              outcome = step_fn n step;
              model_used = step;
              steps_attempted = last.steps_attempted ++ (step ∷ []);
            } in
            let later = outcomes step_fn (suc n) (next ∷ steps) in
            let rest = run_loop-chosen c step_fn (suc n) next steps now in
            rw (e, run_loop)
              (
                rest.0,
                rest.1
                    ∙ append_assoc last.steps_attempted (step ∷ [])
                        (take (suc (chosen c later)) (next ∷ steps)),
              )
        | inr e ↦ rw (e, run_loop) (refl, refl)
      ]

  -- A cascade with a step answers with the first confident outcome, or the last where none is, together
  -- with the model that gave it, and has tried the steps up to that one and no other.
  run-chosen :
      (is_low : models.Logprob → Bool) (step_fn : ℕ → Model → StepOutcome models) (step : Model)
      (steps : List Model)
      → let c : Cascade models = record { steps = step ∷ steps; is_low = is_low } in
        let all = outcomes step_fn 0 (step ∷ steps) in
        let r = run models c step_fn in
        (get_elem? all (chosen c all) ≡ some (r.model_used, r.outcome))
        × (r.steps_attempted ≡ take (suc (chosen c all)) (step ∷ steps))
  unfolding run
  run-chosen is_low step_fn step steps =
      run_loop-chosen (record { steps = step ∷ steps; is_low = is_low }) step_fn 0 step steps
        (record {
          outcome = default_outcome models;
          model_used = models.no_model;
          steps_attempted = [];
        })
