-- ===== src/Infer/Coordinator.antt =====
-- The coordinator of a layer pipeline, `PipelinedModel` of
-- rust/services/cgn-infer/src/pipeline/mod.rs.
--
-- A `Contact` says how one call of a worker ends; `net` gives that of each worker of the line.
pub mod Ranges
use cognitora_inference.Prelude.{
  ℕ, zero, suc, ◌+◌, ◌%◌, ◌^◌, Bool, true, false, Option, none, some, List, [], ◌∷◌, ◌==◌, not,
  if◌then◌else◌, length, map, ℕ_discrete,
}
use cognitora_inference.Prelude.Maps.{get, insert, remove}
use cognitora_inference.Infer.Llama.{
  Candle, Result, ok, err, Error, ◌>>=◌, SeqKv, new_kv, forward_hidden, LayerRange, new,
  validate_coverage, internal, unavailable, config,
}
use cognitora_inference.Infer.Pipeline.{
  Wire, Encoding, wire_encoding, ActivationChunk, Worker, encode_activation, decode_activation,
  serve, reset_sequence,
}
use cognitora_inference.Infer.Batched.{read_out}

pub data Contact : Type 0 where
  answered unsent unanswered : Contact

-- The ranges of the workers, asked one after the other; a worker that cannot be reached is an error.
unfoldable pub worker_ranges : List (Result (ℕ × ℕ)) → Result (List LayerRange)
worker_ranges [] = ok []
worker_ranges (info ∷ infos) = do
  layers ← info
  range ← new layers.0 layers.1
  ranges ← worker_ranges infos
  ok (range ∷ ranges)

-- The checks of `PipelinedModel::connect` on the ranges of layers.
unfoldable pub connect : ℕ → LayerRange → List (Result (ℕ × ℕ)) → Result (List LayerRange)
unfolding worker_ranges
connect n_layers layers infos = if not (layers.start == 0) then err config else (do
  ranges ← worker_ranges infos
  _ ← validate_coverage n_layers (layers ∷ ranges)
  ok ranges)

module _ (wire : Wire) where
  open wire use {candle, F32}
  open candle use {Tensor, Block, Logits, embed_tokens, output}

  pub record PipelinedModel : Type 0 where
    pub head : List Block
    pub embedding_length : ℕ
    pub kvs : List (ℕ × SeqKv candle)
    pub workers : List (Worker wire)
    pub encoding : Encoding
    pub next_request_id : ℕ

  unfoldable pub chunk_of : ℕ → ℕ → ℕ → ℕ → ℕ → Encoding → List ℕ × F32 → ActivationChunk wire
  chunk_of request_id seq index_pos seq_len hidden_dim encoding encoded = record {
    request_id = request_id;
    seq_id = seq;
    index_pos = index_pos % 2 ^ 32;
    seq_len = seq_len % 2 ^ 32;
    hidden = hidden_dim % 2 ^ 32;
    encoding = wire_encoding encoding;
    bytes = encoded.0;
    int8_scale = encoded.1;
    error = none;
  }

  unfoldable pub read_reply : ActivationChunk wire → Result Tensor
  read_reply reply = elim reply.error [
    | some e ↦ err internal
    | none ↦
        decode_activation wire reply.bytes reply.encoding reply.int8_scale reply.seq_len
          reply.hidden
  ]

  module _ (request_id seq index_pos seq_len hidden_dim : ℕ) (encoding : Encoding)
      (net : ℕ → Contact) where
    -- The loop of `forward_remote`, from the `i`-th worker on.
    unfoldable pub forward_loop :
        ℕ → List (Worker wire) → Tensor → Result Tensor × List (Worker wire)
    unfolding chunk_of read_reply
    forward_loop i [] current = (ok current, [])
    forward_loop i (w ∷ ws) current = elim (encode_activation wire current encoding) [
      | err e ↦ (err e, w ∷ ws)
      | ok encoded ↦
          let chunk = chunk_of request_id seq index_pos seq_len hidden_dim encoding encoded in
          let (reply, w') = serve wire w chunk in
          elim (net i) [
            | unsent ↦ (err unavailable, w ∷ ws)
            | unanswered ↦ (err unavailable, w' ∷ ws)
            | answered ↦ elim (read_reply reply) [
              | err e ↦ (err e, w' ∷ ws)
              | ok next ↦ let (result, ws') = forward_loop (i + 1) ws next in (result, w' ∷ ws')
            ]
          ]
    ]

  unfoldable pub forward_remote :
      PipelinedModel → Tensor → ℕ → ℕ → ℕ → (ℕ → Contact) → Result Tensor × PipelinedModel
  unfolding forward_loop
  forward_remote p hidden seq index_pos seq_len net =
      let (result, workers) =
        forward_loop p.next_request_id seq index_pos seq_len p.embedding_length p.encoding net 0
          p.workers hidden in
      (result, record p { next_request_id = p.next_request_id + 1; workers = workers })

  -- The part of `prefill` and `decode` between taking a cache out and putting it back.
  unfoldable pub run_line :
      PipelinedModel
      → ℕ
      → List ℕ
      → ℕ
      → Bool
      → SeqKv candle
      → (ℕ → Contact)
      → Result (Option Logits) × SeqKv candle × PipelinedModel
  unfolding forward_remote
  run_line p seq tokens pos want_logits kv net = elim (embed_tokens tokens) [
    | err e ↦ (err e, kv, p)
    | ok embedded ↦
        let (local, kv') = forward_hidden candle p.head embedded pos kv in
        elim local [
          | err e ↦ (err e, kv', p)
          | ok hidden ↦
              let (remote, p') = forward_remote p hidden seq pos (length tokens) net in
              (remote >>= read_out wire want_logits, kv', p')
        ]
  ]

  unfoldable pub prefill :
      PipelinedModel
      → ℕ
      → List ℕ
      → ℕ
      → Bool
      → (ℕ → Contact)
      → Result (Option Logits) × PipelinedModel
  unfolding run_line
  prefill p seq tokens start_pos want_logits net =
      let kvs =
        if start_pos == 0 then insert ℕ_discrete seq (new_kv candle p.head) p.kvs else p.kvs in
      elim (get ℕ_discrete seq kvs) [
        | none ↦ (err internal, record p { kvs = kvs })
        | some kv ↦
            if not (kv.tokens == start_pos)
            then (err internal, record p { kvs = kvs })
            else let (result, kv', p') = run_line p seq tokens start_pos want_logits kv net in
              (result, record p' { kvs = insert ℕ_discrete seq kv' (remove ℕ_discrete seq kvs) })
      ]

  unfoldable pub only_logits : Result (Option Logits) → Result (List Logits)
  only_logits (ok (some l)) = ok (l ∷ [])
  only_logits (ok none) = ok []
  only_logits (err e) = err e

  unfoldable pub decode :
      PipelinedModel → List (ℕ × ℕ) → (ℕ → Contact) → Result (List Logits) × PipelinedModel
  unfolding run_line only_logits
  decode p [] net = (ok [], p)
  decode p ((seq, token) ∷ []) net = elim (get ℕ_discrete seq p.kvs) [
    | none ↦ (err internal, p)
    | some kv ↦
        let (result, kv', p') = run_line p seq (token ∷ []) kv.tokens true kv net in
        (
          only_logits result,
          record p' { kvs = insert ℕ_discrete seq kv' (remove ℕ_discrete seq p.kvs) },
        )
  ]
  decode p (one ∷ another ∷ batch) net = (err internal, p)

  -- A reset that does not arrive is only logged.
  unfoldable pub reset_remote : List (Worker wire) → ℕ → ℕ → (ℕ → Contact) → List (Worker wire)
  reset_remote [] i seq net = []
  reset_remote (w ∷ ws) i seq net =
      (elim (net i) [ unsent ↦ w | _ ↦ reset_sequence wire w seq ])
      ∷ reset_remote ws (i + 1) seq net

  unfoldable pub drop_seq : PipelinedModel → ℕ → (ℕ → Contact) → PipelinedModel
  unfolding reset_remote
  drop_seq p seq net = elim (get ℕ_discrete seq p.kvs) [
    | none ↦ p
    | some kv ↦ record p {
      kvs = remove ℕ_discrete seq p.kvs;
      workers = reset_remote p.workers 0 seq net;
    }
  ]
