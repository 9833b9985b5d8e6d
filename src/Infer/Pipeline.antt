-- ===== src/Infer/Pipeline.antt =====
-- The layer pipeline, rust/services/cgn-infer/src/pipeline/mod.rs: a coordinator runs the first layers
-- of a model and streams the hidden states through workers that run the others. Beside it the runtime
-- that it stands in for, `BatchedLlama` of runtime/mod.rs, with the model in one process.
--
-- `Wire` adds what the codecs take as given: numbers in 16 and 8 bits, and tensors made of numbers.
-- Each call of a worker meets a `Contact`. An error message is never empty, so that the `error` of a
-- chunk is an `Option`.
use cognitora_inference.Prelude.{
  ℕ, ◌*◌, Bool, Option, none, some, List, [], ◌∷◌, ◌==◌, not, if◌then◌else◌, length, map,
  ℕ_discrete,
}
use cognitora_inference.Prelude.Maps.{get, insert, remove}
use cognitora_inference.Infer.Llama.{
  Candle, Result, ok, err, Error, ◌>>=◌, SeqKv, new_kv, clear, forward_hidden, invalid_argument,
  internal,
}

pub data Encoding : Type 0 where
  f16 int8 : Encoding

pub data ActivationEncoding : Type 0 where
  f16 int8 unspecified : ActivationEncoding

unfoldable pub wire_encoding : Encoding → ActivationEncoding
wire_encoding Encoding.f16 = ActivationEncoding.f16
wire_encoding Encoding.int8 = ActivationEncoding.int8

pub record Wire : Type 1 where
  pub candle : Candle
  pub F32 : Type 0
  pub zero_f : F32
  pub one_f : F32
  pub abs : F32 → F32
  pub max_f : F32 → F32 → F32
  pub is_positive : F32 → Bool
  -- `max / 127.0`.
  pub over_127 : F32 → F32
  -- `f16::from_f32(v).to_le_bytes()`, and back.
  pub to_f16 : F32 → ℕ × ℕ
  pub of_f16 : ℕ → ℕ → F32
  -- `(v / scale).round().clamp(-127.0, 127.0) as i8 as u8`, and `b as i8 as f32 * scale`.
  pub to_i8 : F32 → F32 → ℕ
  pub of_i8 : F32 → ℕ → F32
  -- The numbers of hidden states, and hidden states of some positions and a width.
  pub to_vec : Candle.Tensor candle → Result (List F32)
  pub from_vec : List F32 → ℕ → ℕ → Result (Candle.Tensor candle)

module _ (wire : Wire) where
  open wire use {
    candle, F32, zero_f, one_f, abs, max_f, is_positive, over_127, to_f16, of_f16, to_i8, of_i8,
    to_vec, from_vec,
  }
  open candle use {Tensor, Block, Logits, embed_tokens, output}

  unfoldable pub max_abs : F32 → List F32 → F32
  max_abs m [] = m
  max_abs m (v ∷ vs) = max_abs (max_f m (abs v)) vs

  unfoldable pub f16_bytes : List F32 → List ℕ
  f16_bytes [] = []
  f16_bytes (v ∷ vs) = let (lo, hi) = to_f16 v in lo ∷ hi ∷ f16_bytes vs

  unfoldable pub encode_values : List F32 → Encoding → List ℕ × F32
  unfolding max_abs f16_bytes
  encode_values values Encoding.f16 = (f16_bytes values, zero_f)
  encode_values values Encoding.int8 =
      let max = max_abs zero_f values in
      let scale = if is_positive max then over_127 max else one_f in
      (map (λ v. to_i8 scale v) values, scale)

  unfoldable pub encode_activation : Tensor → Encoding → Result (List ℕ × F32)
  unfolding encode_values
  encode_activation t enc = elim (to_vec t) [
    | ok values ↦ ok (encode_values values enc)
    | err e ↦ err internal
  ]

  -- `chunks_exact(2)`.
  unfoldable pub f16_values : List ℕ → List F32
  f16_values [] = []
  f16_values (lo ∷ []) = []
  f16_values (lo ∷ hi ∷ bytes) = of_f16 lo hi ∷ f16_values bytes

  unfoldable pub tensor_of : List F32 → ℕ → ℕ → Result Tensor
  tensor_of values seq_len hidden = elim (from_vec values seq_len hidden) [
    | ok t ↦ ok t
    | err e ↦ err internal
  ]

  unfoldable pub decode_activation : List ℕ → ActivationEncoding → F32 → ℕ → ℕ → Result Tensor
  unfolding f16_values tensor_of
  decode_activation bytes ActivationEncoding.f16 int8_scale seq_len hidden =
      if not (length bytes == seq_len * hidden * 2)
      then err invalid_argument
      else tensor_of (f16_values bytes) seq_len hidden
  decode_activation bytes ActivationEncoding.int8 int8_scale seq_len hidden =
      if not (length bytes == seq_len * hidden)
      then err invalid_argument
      else tensor_of (map (of_i8 int8_scale) bytes) seq_len hidden
  decode_activation bytes ActivationEncoding.unspecified int8_scale seq_len hidden =
      err invalid_argument

  pub record ActivationChunk : Type 0 where
    pub request_id : ℕ
    pub seq_id : ℕ
    pub index_pos : ℕ
    pub seq_len : ℕ
    pub hidden : ℕ
    pub encoding : ActivationEncoding
    pub bytes : List ℕ
    pub int8_scale : F32
    pub error : Option Error

  pub record Worker : Type 0 where
    pub blocks : List Block
    pub kvs : List (ℕ × SeqKv candle)
    pub enc_out : Encoding

  -- The cache that a step starts from: what is held, or a new one, and emptied at the beginning.
  unfoldable pub held : List Block → List (ℕ × SeqKv candle) → ℕ → SeqKv candle
  held blocks kvs seq = elim (get ℕ_discrete seq kvs) [ none ↦ new_kv candle blocks | some kv ↦ kv ]

  unfoldable pub started : List Block → List (ℕ × SeqKv candle) → ℕ → ℕ → SeqKv candle
  unfolding held
  started blocks kvs seq pos =
      if pos == 0 then clear candle (held blocks kvs seq) else held blocks kvs seq

  unfoldable pub answer : ActivationChunk → Encoding → Tensor → Result ActivationChunk
  answer chunk enc_out out = do
    encoded ← encode_activation out enc_out
    ok (record {
      request_id = chunk.request_id;
      seq_id = chunk.seq_id;
      index_pos = chunk.index_pos;
      seq_len = chunk.seq_len;
      hidden = chunk.hidden;
      encoding = wire_encoding enc_out;
      bytes = encoded.0;
      int8_scale = encoded.1;
      error = none;
    })

  -- `WorkerService::step`.
  unfoldable pub step : Worker → ActivationChunk → Result ActivationChunk × Worker
  unfolding started answer decode_activation
  step w chunk =
      let decoded =
        decode_activation chunk.bytes chunk.encoding chunk.int8_scale chunk.seq_len chunk.hidden in
      elim decoded [
        | err e ↦ (err e, w)
        | ok hidden ↦
            let kv = started w.blocks w.kvs chunk.seq_id chunk.index_pos in
            let kvs = insert ℕ_discrete chunk.seq_id kv w.kvs in
            if not (kv.tokens == chunk.index_pos)
            then (err invalid_argument, record w { kvs = kvs })
            else let (result, kv') = forward_hidden candle w.blocks hidden chunk.index_pos kv in
              let w' = record w { kvs = insert ℕ_discrete chunk.seq_id kv' kvs } in
              elim result [ err e ↦ (err e, w') | ok out ↦ (answer chunk w.enc_out out, w') ]
      ]

  -- One message of `forward`: an error is answered with a chunk that says so.
  unfoldable pub serve : Worker → ActivationChunk → ActivationChunk × Worker
  unfolding step
  serve w chunk =
      let (result, w') = step w chunk in
      elim result [
        | ok reply ↦ (reply, w')
        | err e ↦ (
          record {
            request_id = chunk.request_id;
            seq_id = chunk.seq_id;
            index_pos = 0;
            seq_len = 0;
            hidden = 0;
            encoding = ActivationEncoding.unspecified;
            bytes = [];
            int8_scale = zero_f;
            error = some e;
          },
          w',
        )
      ]

  unfoldable pub reset_sequence : Worker → ℕ → Worker
  reset_sequence w seq = record w { kvs = remove ℕ_discrete seq w.kvs }
