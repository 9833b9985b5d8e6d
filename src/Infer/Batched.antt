-- ===== src/Infer/Batched.antt =====
-- The runtime with the whole model in one process, `BatchedLlama` of
-- rust/services/cgn-infer/src/runtime/mod.rs: its prefill and what it drops. `decode`, which runs a batch
-- through another path of the tensors, is left out.
use cognitora_inference.Prelude.{
  ℕ, Bool, Option, none, some, List, ◌==◌, not, if◌then◌else◌, ℕ_discrete,
}
use cognitora_inference.Prelude.Maps.{insert, remove}
use cognitora_inference.Infer.Llama.{Result, ok, err, ◌>>=◌, SeqKv, forward_hidden, internal}
use cognitora_inference.Infer.Pipeline.{Wire, started}

module _ (wire : Wire) where
  open wire use {candle}
  open candle use {Tensor, Block, Logits, embed_tokens, output}

  unfoldable pub read_out : Bool → Tensor → Result (Option Logits)
  read_out want_logits hidden =
      if not want_logits then ok none else (output hidden >>= λ l. ok (some l))

  pub record BatchedLlama : Type 0 where
    pub model : List Block
    pub kvs : List (ℕ × SeqKv candle)

  unfoldable pub prefill :
      BatchedLlama → ℕ → List ℕ → ℕ → Bool → Result (Option Logits) × BatchedLlama
  unfolding started read_out
  prefill b seq tokens start_pos want_logits =
      let kv = started wire b.model b.kvs seq start_pos in
      let kvs = insert ℕ_discrete seq kv b.kvs in
      if not (kv.tokens == start_pos)
      then (err internal, record b { kvs = kvs })
      else elim (embed_tokens tokens) [
        | err e ↦ (err e, record b { kvs = kvs })
        | ok embedded ↦
            let (result, kv') = forward_hidden candle b.model embedded start_pos kv in
            (result >>= read_out want_logits, record b { kvs = insert ℕ_discrete seq kv' kvs })
      ]

  unfoldable pub drop_seq : BatchedLlama → ℕ → BatchedLlama
  drop_seq b seq = record b { kvs = remove ℕ_discrete seq b.kvs }
