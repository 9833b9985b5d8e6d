-- ===== src/Infer/Llama.antt =====
-- A model of rust/services/cgn-infer/src/model/llama.rs that binds a slice of the layers: the ranges
-- of layers, the cache of keys and values of one sequence, and a run of the bound layers.
--
-- `Candle` stands for the tensors of the candle crate with the operations the source uses, and for
-- the weights of a layer. Each operation may fail.
pub mod Ranges
pub mod Stages
use cognitora_inference.Prelude.{
  ℕ, suc, zero, ◌+◌, ◌/◌, ◌%◌, Bool, true, false, Option, none, some, List, [], ◌∷◌, ◌||◌, length,
  ltb, leb, ◌==◌, if◌then◌else◌, not,
}

pub data Error : Type 0 where
  invalid_argument internal unavailable config : Error

pub data Result (A : Type 0) : Type 0 where
  err : Error → Result A
  ok : A → Result A

-- `?` and `and_then`.
infixl 5 ◌>>=◌
abbrev pub ◌>>=◌ : {A B : Type 0} → Result A → (A → Result B) → Result B
err why >>= next = err why
ok value >>= next = next value

pub record LayerRange : Type 0 where
  pub start : ℕ
  pub end : ℕ

unfoldable pub new : ℕ → ℕ → Result LayerRange
new start end =
    if leb end start then err invalid_argument else ok (record { start = start; end = end })

-- The loop of `split_layers` from the `i`-th of `parts` ranges on, with the number of ranges left.
unfoldable pub split_loop : ℕ → ℕ → ℕ → ℕ → ℕ → List LayerRange
split_loop zero i base rem start = []
split_loop (suc left) i base rem start =
    let len = base + (if ltb i rem then 1 else 0) in
    record { start = start; end = start + len } ∷ split_loop left (i + 1) base rem (start + len)

unfoldable pub split_layers : ℕ → ℕ → Result (List LayerRange)
unfolding split_loop
split_layers total parts =
    if (parts == 0) || ltb total parts
    then err invalid_argument
    else ok (split_loop parts 0 (total / parts) (total % parts) 0)

unfoldable pub coverage_loop : ℕ → ℕ → List LayerRange → Result (Unit {0})
coverage_loop total next [] = if not (next == total) then err invalid_argument else ok tt
coverage_loop total next (r ∷ ranges) =
    if not (r.start == next) then err invalid_argument else coverage_loop total r.end ranges

unfoldable pub validate_coverage : ℕ → List LayerRange → Result (Unit {0})
unfolding coverage_loop
validate_coverage total ranges = coverage_loop total 0 ranges

pub record Candle : Type 1 where
  pub Tensor : Type 0
  pub Block : Type 0
  pub Mask : Type 0
  pub Logits : Type 0
  -- The number of positions of hidden states, from `dims3`.
  pub rows : Tensor → Result ℕ
  -- The weights of a layer, applied; `heads` and `kv_heads` are the reshapes, `merge` undoes `heads`.
  pub attn_norm : Block → Tensor → Result Tensor
  pub wq : Block → Tensor → Result Tensor
  pub wk : Block → Tensor → Result Tensor
  pub wv : Block → Tensor → Result Tensor
  pub wo : Block → Tensor → Result Tensor
  pub ffn_norm : Block → Tensor → Result Tensor
  pub mlp : Block → Tensor → Result Tensor
  pub heads : ℕ → Tensor → Result Tensor
  pub kv_heads : ℕ → Tensor → Result Tensor
  pub merge : ℕ → Tensor → Result Tensor
  pub rope : Tensor → ℕ → ℕ → Result Tensor
  pub cat : Tensor → Tensor → Result Tensor
  pub attend : Tensor → Tensor → Tensor → Option Mask → Result Tensor
  pub plus : Tensor → Tensor → Result Tensor
  pub causal_mask : ℕ → ℕ → Result (Option Mask)
  -- The embedding of token ids, and the logits of the last position as numbers.
  pub embed_tokens : List ℕ → Result Tensor
  pub output : Tensor → Result Logits

module _ (candle : Candle) where
  open candle use {
    Tensor, Block, Mask, rows, attn_norm, wq, wk, wv, wo, ffn_norm, mlp, heads, kv_heads, merge,
    rope, cat, attend, plus, causal_mask,
  }

  -- The keys and values of one layer.
  abbrev pub Slot : Type 0
  Slot = Option (Tensor × Tensor)

  pub record SeqKv : Type 0 where
    pub entries : List Slot
    pub tokens : ℕ

  -- `vec![None; n_layers]`.
  abbrev pub empty_entries : {A : Type 0} → List A → List Slot
  empty_entries [] = []
  empty_entries (b ∷ bs) = none ∷ empty_entries bs

  unfoldable pub new_kv : List Block → SeqKv
  new_kv blocks = record { entries = empty_entries blocks; tokens = 0 }

  unfoldable pub clear : SeqKv → SeqKv
  clear kv = record { entries = empty_entries kv.entries; tokens = 0 }

  -- The three projections of a layer.
  unfoldable pub project : Block → Tensor → ℕ → ℕ → Result (Tensor × Tensor × Tensor)
  project block x start_pos t = do
    xn ← attn_norm block x
    q ← wq block xn
    k ← wk block xn
    v ← wv block xn
    q' ← heads t q
    k' ← kv_heads t k
    v' ← kv_heads t v
    q'' ← rope q' start_pos t
    k'' ← rope k' start_pos t
    ok (q'', k'', v')

  -- The keys and values so far, with the new ones behind them.
  unfoldable pub grown : ℕ → Slot → Tensor → Tensor → Result (Tensor × Tensor)
  grown start_pos none k v = ok (k, v)
  grown start_pos (some (kc, vc)) k v =
      if ltb 0 start_pos then (do k' ← cat kc k; v' ← cat vc v; ok (k', v')) else ok (k, v)

  unfoldable pub mix : Block → Tensor → ℕ → Option Mask → Tensor → Tensor → Tensor → Result Tensor
  mix block residual t mask q k v = do
    y ← attend q k v mask
    joined ← merge t y
    o ← wo block joined
    x ← plus o residual
    xn ← ffn_norm block x
    z ← mlp block xn
    plus z x

  -- The slot is emptied before the new keys and values are joined to it.
  unfoldable pub block_forward_single :
      Block → Tensor → ℕ → ℕ → Option Mask → Slot → Result Tensor × Slot
  unfolding project grown mix
  block_forward_single block x start_pos t mask slot = elim (project block x start_pos t) [
    | err e ↦ (err e, slot)
    | ok (q, k, v) ↦ elim (grown start_pos slot k v) [
      | err e ↦ (err e, none)
      | ok (k', v') ↦ (mix block x t mask q k' v', some (k', v'))
    ]
  ]

  -- The loop of `forward_hidden`: the blocks with their slots.
  unfoldable pub layers :
      List Block → ℕ → ℕ → Option Mask → Tensor → List Slot → Result Tensor × List Slot
  layers [] start_pos t mask x slots = (ok x, slots)
  layers (block ∷ blocks) start_pos t mask x [] = (ok x, [])
  layers (block ∷ blocks) start_pos t mask x (slot ∷ slots) =
      let (out, slot') = block_forward_single block x start_pos t mask slot in
      elim out [
        | err e ↦ (err internal, slot' ∷ slots)
        | ok y ↦
            let (result, slots') = layers blocks start_pos t mask y slots in
            (result, slot' ∷ slots')
      ]

  unfoldable pub forward_hidden : List Block → Tensor → ℕ → SeqKv → Result Tensor × SeqKv
  unfolding layers
  forward_hidden blocks hidden start_pos kv =
      if not (length kv.entries == length blocks) then (err internal, kv) else elim (rows hidden) [
        | err e ↦ (err internal, kv)
        | ok t ↦ elim (causal_mask t start_pos) [
          | err e ↦ (err e, kv)
          | ok mask ↦
              let (result, entries) = layers blocks start_pos t mask hidden kv.entries in
              elim result [
                | err e ↦ (err e, record { entries = entries; tokens = kv.tokens })
                | ok x ↦ (ok x, record { entries = entries; tokens = start_pos + t })
              ]
        ]
      ]
