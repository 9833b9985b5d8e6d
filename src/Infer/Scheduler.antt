-- ===== src/Infer/Scheduler.antt =====
-- The continuous-batching scheduler, rust/services/cgn-infer/src/scheduler/mod.rs.
--
-- `Runtime` stands for what the scheduler is handed: the `BatchModel` trait object of
-- runtime/mod.rs, the sampler over floating-point logits, the tokenizer of the `tokenizers` crate,
-- and the channel to a client. Token ids, sequence ids and counters are numbers and do not wrap.
-- An index that the source would panic on leaves the state as it is.
pub mod Steps
pub mod View
pub mod Tokens
pub mod Refinement
pub mod Run
pub mod Limits
use cognitora_inference.Prelude.{
  ℕ, suc, zero, ◌+◌, ◌-◌, ◌≡◌, Bool, true, false, ◌&&◌, ◌||◌, not, Option, none, some, List, [],
  ◌∷◌, ◌++◌, ltb, leb, ◌==◌, if◌then◌else◌, length, min, max, get_elem?, set, remove_at, take, drop,
}
use cognitora_inference.Infer.Pool.{KvPool}
use cognitora_inference.Infer.Pool
use cognitora_inference.Infer.Text.{first_stop, ends_with_fffd, held_back_len}

pub data Reason : Type 0 where
  stop length_limit error : Reason

pub record StreamEvent : Type 0 where
  pub delta : List ℕ
  pub finish_reason : Option Reason
  pub prompt_tokens : ℕ
  pub completion_tokens : ℕ

-- What a client's channel sees: a frame with whether it was delivered, and the end of the stream,
-- when the scheduler drops the sender. Newest first.
pub data Output : Type 0 where
  frame : ℕ → StreamEvent → Bool → Output
  closed : ℕ → Output

pub record SchedulerConfig : Type 0 where
  pub max_batch : ℕ
  pub prefill_chunk : ℕ
  pub kv_pool_tokens : ℕ

pub data Phase : Type 0 where
  prefilling : ℕ → Phase
  decoding : Phase

-- `prefill` and `decode` return `none` for an error. `delivers out id` says whether a send to `id`
-- succeeds after the outputs `out`.
pub record Runtime : Type 1 where
  pub Kv : Type 0
  pub Logits : Type 0
  pub Params : Type 0
  pub Sampler : Type 0
  pub Tokenizer : Type 0
  pub model_max_batch : ℕ
  pub max_seq_len : ℕ
  pub prefill : Kv → ℕ → List ℕ → ℕ → Bool → Option (Option Logits) × Kv
  pub decode : Kv → List (ℕ × ℕ) → Option (List Logits) × Kv
  pub drop_seq : Kv → ℕ → Kv
  pub new_sampler : Params → Sampler
  pub sample : Sampler → Logits → List ℕ → ℕ × Sampler
  pub detokenize : Tokenizer → List ℕ → Option (List ℕ)
  pub delivers : List Output → ℕ → Bool

module _ (r : Runtime) where
  open r use {
    Kv, Params, Sampler, Tokenizer, model_max_batch, max_seq_len, drop_seq, new_sampler, detokenize,
    delivers,
  }

  pub record Request : Type 0 where
    pub prompt_tokens : List ℕ
    pub max_tokens : ℕ
    pub stops : List (List ℕ)
    pub params : Params
    pub tokenizer : Tokenizer
    pub eos_token_id : Option ℕ

  pub record Sequence : Type 0 where
    pub id : ℕ
    pub req : Request
    pub phase : Phase
    pub tokens : List ℕ
    pub prompt_len : ℕ
    pub generated : List ℕ
    pub sampler : Sampler
    pub emitted_len : ℕ
    pub admitted_at : ℕ

  pub record Scheduler : Type 0 where
    pub kv : Kv
    pub cfg : SchedulerConfig
    pub pool : KvPool
    pub waiting : List Sequence
    pub running : List Sequence
    pub next_id : ℕ
    pub tick : ℕ
    pub out : List Output

  unfoldable pub budget : Sequence → ℕ
  budget seq = min seq.req.max_tokens (max_seq_len - seq.prompt_len)

  abbrev pub initial : Kv → SchedulerConfig → Scheduler
  initial kv cfg = record {
    kv = kv;
    cfg = record cfg {
      max_batch = min (max cfg.max_batch 1) model_max_batch;
      prefill_chunk = max cfg.prefill_chunk 1;
    };
    pool = Pool.new (max (Pool.blocks_for cfg.kv_pool_tokens) 1);
    waiting = [];
    running = [];
    next_id = 1;
    tick = 0;
    out = [];
  }

  -- `clamp(1, max_batch)` panics on a runtime whose batch limit is 0.
  unfoldable pub new : Kv → SchedulerConfig → Option Scheduler
  unfolding Pool.new
  new kv cfg = if model_max_batch == 0 then none else some (initial kv cfg)

  -- `tx.blocking_send(ev)`: whether it succeeded, and the new state.
  unfoldable pub send : Scheduler → ℕ → StreamEvent → Bool × Scheduler
  send s id ev = (delivers s.out id, record s { out = frame id ev (delivers s.out id) ∷ s.out })

  abbrev pub fresh : Scheduler → Request → Sequence
  fresh s req = record {
    id = s.next_id;
    req = req;
    phase = prefilling 0;
    tokens = req.prompt_tokens;
    prompt_len = length req.prompt_tokens;
    generated = [];
    sampler = new_sampler req.params;
    emitted_len = 0;
    admitted_at = 0;
  }

  unfoldable pub enqueue : Scheduler → Request → Scheduler
  unfolding send
  enqueue s req =
      let id = s.next_id in
      let s₁ : Scheduler = record s { next_id = s.next_id + 1 } in
      if length req.prompt_tokens == 0 || leb max_seq_len (length req.prompt_tokens)
      then (let s₂ =
            (send s₁ id (record {
              delta = [];
              finish_reason = some error;
              prompt_tokens = length req.prompt_tokens;
              completion_tokens = 0;
            })).1 in
          record s₂ { out = closed id ∷ s₂.out })
      else record s₁ { waiting = s.waiting ++ fresh s req ∷ [] }

  abbrev pub event : Sequence → List ℕ → Option Reason → StreamEvent
  event seq delta reason = record {
    delta = delta;
    finish_reason = reason;
    prompt_tokens = seq.prompt_len;
    completion_tokens = length seq.generated;
  }

  -- Take `running[idx]` out, free its blocks and its runtime state.
  unfoldable pub retire : Scheduler → ℕ → Sequence → Scheduler
  retire s idx seq = record s {
    running = remove_at s.running idx;
    pool = Pool.release s.pool seq.id;
    kv = drop_seq s.kv seq.id;
  }

  abbrev pub unsent : Sequence → Option (List ℕ) → List ℕ
  unsent seq none = []
  unsent seq (some text) = drop seq.emitted_len text

  -- On "length" the text that was held back for a stop string is sent.
  unfoldable pub flush_tail : Scheduler → Sequence → Reason → Scheduler
  unfolding send
  flush_tail s seq length_limit =
      let rest = unsent seq (detokenize seq.req.tokenizer seq.generated) in
      if length rest == 0 then s else (send s seq.id (event seq rest none)).1
  flush_tail s seq stop = s
  flush_tail s seq error = s

  unfoldable pub finish_seq : Scheduler → ℕ → Sequence → Reason → Scheduler
  unfolding retire flush_tail send
  finish_seq s idx seq reason =
      let s₁ = flush_tail (retire s idx seq) seq reason in
      let s₂ = (send s₁ seq.id (event seq [] (some reason))).1 in
      record s₂ { out = closed seq.id ∷ s₂.out }

  unfoldable pub finish : Scheduler → ℕ → Reason → Scheduler
  unfolding finish_seq
  finish s idx reason = elim (get_elem? s.running idx) [
    | none ↦ s
    | some seq ↦ finish_seq s idx seq reason
  ]

  unfoldable pub finish_silent : Scheduler → ℕ → Scheduler
  unfolding retire
  finish_silent s idx = elim (get_elem? s.running idx) [
    | none ↦ s
    | some seq ↦ record (retire s idx seq) { out = closed seq.id ∷ s.out }
  ]
