-- ===== src/Infer/Llama/Ranges.antt =====
-- The ranges of layers of rust/services/cgn-infer/src/model/llama.rs.
use cognitora_inference.Prelude.{
  ℕ, suc, zero, ◌+◌, ◌-◌, ◌*◌, ◌/◌, ◌%◌, ◌≤◌, ◌<◌, ◌≡◌, refl, List, ltb, if◌then◌else◌, length, All,
  arith,
}
use cognitora_inference.Infer.Llama.{
  LayerRange, ok, split_loop, split_layers, coverage_loop, validate_coverage,
}

-- A range with `share` layers, or one more.
abbrev pub IsShare : ℕ → LayerRange → Type 0
IsShare share r = (r.start + share ≤ r.end) × (r.end ≤ r.start + share + 1)

split_loop-covers :
    (left i base rem start total : ℕ)
    → start + left * base + (rem - i) ≡ total
    → rem ≤ i + left
    → coverage_loop total start (split_loop left i base rem start) ≡ ok tt
unfolding split_loop coverage_loop
split_loop-covers zero i base rem start total e le = ground arith
split_loop-covers (suc left) i base rem start total e le =
    let n : ℕ = if ltb i rem then 1 else 0 in
    let left_over : (rem - i) ≡ n + (rem - (i + 1)) = ground arith in
    let e' : start + (base + n) + left * base + (rem - (i + 1)) ≡ total = grind arith in
    ground (arith, split_loop-covers left (i + 1) base rem (start + (base + n)) total e')

split_loop-shares :
    (left i base rem start : ℕ)
    → (length (split_loop left i base rem start) ≡ left)
      × All (IsShare base) (split_loop left i base rem start)
unfolding split_loop
split_loop-shares zero i base rem start = (refl, tt)
split_loop-shares (suc left) i base rem start =
    let n : ℕ = if ltb i rem then 1 else 0 in
    let (l, a) = split_loop-shares left (i + 1) base rem (start + (base + n)) in
    (omega (arith, l), ((ground arith, ground arith), a))

-- A model with at least as many layers as parts is split into so many ranges that they tile the
-- model in order, and no two of them differ by more than one layer.
pub split_layers-covers :
    (total parts : ℕ)
    → 0 < parts
    → parts ≤ total
    → (rs : List LayerRange) × (split_layers total parts ≡ ok rs)
      × (validate_coverage total rs ≡ ok tt)
      × (length rs ≡ parts)
      × All (IsShare (total / parts)) rs
unfolding split_layers validate_coverage
split_layers-covers total parts pos le =
    let rs = split_loop parts 0 (total / parts) (total % parts) 0 in
    let whole : 0 + parts * (total / parts) + (total % parts - 0) ≡ total = grind arith in
    let (l, a) = split_loop-shares parts 0 (total / parts) (total % parts) 0 in
    (
      rs,
      ground arith,
      split_loop-covers parts 0 (total / parts) (total % parts) 0 total whole (grind arith),
      l,
      a,
    )
