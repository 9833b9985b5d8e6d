-- ===== src/Infer/Coordinator/Ranges.antt =====
-- The ranges of layers that `PipelinedModel::connect` of
-- rust/services/cgn-infer/src/pipeline/mod.rs accepts.
use cognitora_inference.Prelude.{
  ℕ, ◌+◌, ◌≤◌, ◌<◌, ◌≡◌, ◌&&◌, List, [], ◌∷◌, ltb, leb, ◌==◌, if◌then◌else◌, ◌∙◌, All, arith,
  Bool-cases, inl, inr,
}
use mathlib.Core.Path.{subst}
use cognitora_inference.Infer.Llama.{LayerRange, Result, ok, new, coverage_loop, validate_coverage}
use cognitora_inference.Infer.Llama.Stages.{bind-ok, ok-same}
use cognitora_inference.Infer.Coordinator.{connect, worker_ranges}

-- How many of the ranges have the layer.
abbrev pub owners : ℕ → List LayerRange → ℕ
owners l [] = 0
owners l (r ∷ ranges) = (if leb r.start l && ltb l r.end then 1 else 0) + owners l ranges

abbrev pub IsNonempty : LayerRange → Type 0
IsNonempty r = r.start < r.end

coverage_loop-owners :
    (total next l : ℕ) (ranges : List LayerRange)
    → All IsNonempty ranges
    → coverage_loop total next ranges ≡ ok tt
    → (next ≤ total) × (owners l ranges ≡ (if leb next l && ltb l total then 1 else 0))
unfolding coverage_loop
coverage_loop-owners total next l [] a h = ground (arith, h)
coverage_loop-owners total next l (r ∷ ranges) (lt, a) h =
    let at : r.start ≡ next = ground (arith, h) in
    let rest : coverage_loop total r.end ranges ≡ ok tt = ground (arith, h) in
    let (le, own) = coverage_loop-owners total r.end l ranges a rest in
    (omega (arith, at, lt, le), ground (arith, at, lt, le, own))

validate_coverage-owners :
    (total l : ℕ) (ranges : List LayerRange) {u : Unit {0}}
    → All IsNonempty ranges
    → validate_coverage total ranges ≡ ok u
    → owners l ranges ≡ (if ltb l total then 1 else 0)
unfolding validate_coverage
validate_coverage-owners total l ranges a h =
    (coverage_loop-owners total 0 l ranges a h).1 ∙ ground arith

new-IsNonempty : (a b : ℕ) (r : LayerRange) → new a b ≡ ok r → IsNonempty r
unfolding new
new-IsNonempty a b r h = elim (Bool-cases (leb b a)) [
  | inl e ↦ absurd (ground (arith, e, h))
  | inr e ↦ ground (arith, e, h)
]

worker_ranges-All :
    (infos : List (Result (ℕ × ℕ))) (ranges : List LayerRange)
    → worker_ranges infos ≡ ok ranges
    → All IsNonempty ranges
unfolding worker_ranges
worker_ranges-All [] ranges h = subst (All IsNonempty) (ok-same h) tt
worker_ranges-All (info ∷ infos) ranges h =
    let (layers, e1, h1) = bind-ok info _ h in
    let (r, e2, h2) = bind-ok (new layers.0 layers.1) _ h1 in
    let (rs, e3, h3) = bind-ok (worker_ranges infos) _ h2 in
    let split : r ∷ rs ≡ ranges = ok-same h3 in
    subst (All IsNonempty) split
      (new-IsNonempty layers.0 layers.1 r e2, worker_ranges-All infos rs e3)

-- A pipeline is accepted only if every layer of the model is run by exactly one process of the line.
pub connect-owners :
    (n_layers : ℕ) (layers : LayerRange) (infos : List (Result (ℕ × ℕ))) (ranges : List LayerRange)
    → IsNonempty layers
    → connect n_layers layers infos ≡ ok ranges
    → (l : ℕ) → l < n_layers
    → owners l (layers ∷ ranges) ≡ 1
unfolding connect
connect-owners n_layers layers infos ranges lt h l below = elim (Bool-cases (layers.start == 0)) [
  | inr e ↦ absurd (ground (arith, e, h))
  | inl e ↦
      let (rs, e1, h1) = bind-ok (worker_ranges infos) _ (rw e at h) in
      let (u, e2, h2) = bind-ok (validate_coverage n_layers (layers ∷ rs)) _ h1 in
      let own =
        validate_coverage-owners n_layers l (layers ∷ rs) (lt, worker_ranges-All infos rs e1) e2 in
      subst (λ (k : List LayerRange). owners l (layers ∷ k) ≡ 1) (ok-same h2)
        (own ∙ ground (arith, below))
]
