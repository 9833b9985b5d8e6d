-- ===== src/Tests/Lines.antt =====
-- The layer pipeline of rust/services/cgn-infer at concrete inputs.
use cognitora_inference.Prelude.{
  ℕ, suc, ◌+◌, ◌≡◌, refl, ap, sym, ◌∙◌, none, List, [], ◌∷◌, ◌++◌, length, map, arith, All,
}
use cognitora_inference.Infer.Llama.{
  Candle, Result, ok, SeqKv, LayerRange, new, split_layers, validate_coverage, new_kv,
  forward_hidden, layers, block_forward_single,
}
use cognitora_inference.Infer.Llama.Ranges.{IsShare, split_layers-covers}
use cognitora_inference.Infer.Llama.Stages.{ok-same, KeepsRows, forward_hidden-append}
use cognitora_inference.Infer.Coordinator.{connect}
use cognitora_inference.Infer.Coordinator.Ranges.{owners, connect-owners}

split_layers-covers_example :
    (rs : List LayerRange) × (split_layers 32 5 ≡ ok rs)
    × (validate_coverage 32 rs ≡ ok tt)
    × (length rs ≡ 5)
    × All (IsShare 6) rs
split_layers-covers_example = split_layers-covers 32 5 (omega arith) (omega arith)

-- The coordinator has two layers, two workers have two and three.
abbrev local_layers : LayerRange
local_layers = record { start = 0; end = 2 }

abbrev first_worker_layers : LayerRange
first_worker_layers = record { start = 2; end = 4 }

abbrev second_worker_layers : LayerRange
second_worker_layers = record { start = 4; end = 7 }

connect-owners_example :
    owners 3 (local_layers ∷ first_worker_layers ∷ second_worker_layers ∷ []) ≡ 1
unfolding connect new validate_coverage
connect-owners_example =
    connect-owners 7 local_layers (ok (2, 4) ∷ ok (4, 7) ∷ [])
      (first_worker_layers ∷ second_worker_layers ∷ []) (omega arith) refl 3 (omega arith)

-- Hidden states have one number for each position; a layer adds its weight and the number of positions
-- that it has seen.
abbrev add_rows : List ℕ → List ℕ → List ℕ
add_rows xs [] = []
add_rows [] (y ∷ ys) = y ∷ ys
add_rows (x ∷ xs) (y ∷ ys) = (x + y) ∷ add_rows xs ys

abbrev candle : Candle
candle = record {
  Tensor = List ℕ;
  Block = ℕ;
  Mask = Unit {0};
  Logits = List ℕ;
  rows = λ x. ok (length x);
  attn_norm = λ b x. ok x;
  wq = λ b x. ok x;
  wk = λ b x. ok x;
  wv = λ b x. ok x;
  wo = λ b x. ok x;
  ffn_norm = λ b x. ok x;
  mlp = λ b x. ok (map (λ n. n + b) x);
  heads = λ t x. ok x;
  kv_heads = λ t x. ok x;
  merge = λ t x. ok x;
  rope = λ x pos t. ok x;
  cat = λ x y. ok (x ++ y);
  attend = λ q k v mask. ok (map (λ n. n + length k) q);
  plus = λ x y. ok (add_rows x y);
  causal_mask = λ t pos. ok none;
  embed_tokens = λ tokens. ok tokens;
  output = λ x. ok x;
}

length-add_rows : (xs ys : List ℕ) → length (add_rows xs ys) ≡ length ys
length-add_rows xs [] = refl
length-add_rows [] (y ∷ ys) = refl
length-add_rows (x ∷ xs) (y ∷ ys) = ap suc (length-add_rows xs ys)

candle-KeepsRows : KeepsRows candle
candle-KeepsRows x y z e =
    ap (λ (xs : List ℕ). ok (length xs)) (sym (ok-same e)) ∙ ap ok (length-add_rows x y)

-- One stage with one layer and one with two.
abbrev first_kv : SeqKv candle
first_kv = new_kv candle (30 ∷ [])

abbrev second_kv : SeqKv candle
second_kv = new_kv candle (40 ∷ 50 ∷ [])

abbrev whole_run : Result (List ℕ) × SeqKv candle
whole_run =
    forward_hidden candle (30 ∷ 40 ∷ 50 ∷ []) (3 ∷ 4 ∷ []) 0
      (record { entries = first_kv.entries ++ second_kv.entries; tokens = 0 })

forward_hidden-append_example :
    (y : List ℕ) × ((forward_hidden candle (30 ∷ []) (3 ∷ 4 ∷ []) 0 first_kv).0 ≡ ok y)
    × ((forward_hidden candle (40 ∷ 50 ∷ []) y 0 second_kv).0 ≡ ok (966 ∷ 1030 ∷ []))
    × (whole_run.1.entries
        ≡ (forward_hidden candle (30 ∷ []) (3 ∷ 4 ∷ []) 0 first_kv).1.entries
          ++ (forward_hidden candle (40 ∷ 50 ∷ []) y 0 second_kv).1.entries)
    × (whole_run.1.tokens ≡ (forward_hidden candle (30 ∷ []) (3 ∷ 4 ∷ []) 0 first_kv).1.tokens)
    × (whole_run.1.tokens ≡ (forward_hidden candle (40 ∷ 50 ∷ []) y 0 second_kv).1.tokens)
unfolding new_kv forward_hidden layers block_forward_single
forward_hidden-append_example =
    forward_hidden-append candle (30 ∷ []) (40 ∷ 50 ∷ []) (3 ∷ 4 ∷ []) 0 first_kv second_kv
      candle-KeepsRows refl refl
