-- ===== src/Tests/Engine.antt =====
-- The engine of rust/services/cgn-infer on a runtime that answers every prefill and every decode
-- step with one token, as the mock model of the scheduler's own tests does.
use cognitora_inference.Prelude.{
  ℕ, suc, zero, ◌+◌, ◌*◌, ◌≤◌, ◌<◌, ◌≡◌, ◌⊎◌, inl, inr, refl, ap, sym, ◌∙◌, ◌++◌, All, true, false,
  ◌&&◌, none, some, List, [], ◌∷◌, length, map, arith, ltb, leb, any, count, if◌then◌else◌,
  ℕ_discrete,
}
use cognitora_inference.Prelude.Maps.{get, insert, remove}
use cognitora_inference.Infer.Pool
use cognitora_inference.Infer.Pool.Laws.{IsValid}
use cognitora_inference.Router.PrefixHash.{token_bytes}
use cognitora_inference.Router.PrefixHash.Bytes.{IsWord}
use cognitora_inference.Infer.Prefix.{
  Hasher, PrefixCache, match_prefix, recorded, hash_block, parent_bytes,
}
use cognitora_inference.Infer.Prefix.Laws.{
  IsCollisionFree, agreement, hashed_by, complete_blocks, blocks-discrete, match_prefix-recorded,
}
use cognitora_inference.Infer.Text.{held_back_len, first_stop, ends_with_fffd}
use cognitora_inference.Infer.Text.Laws.{held_back_len-least, holds_back}
use cognitora_inference.Infer.Scheduler.{
  Runtime, SchedulerConfig, Request, Sequence, Scheduler, decoding, initial, new, fresh, send,
  enqueue, budget, retire, flush_tail, finish_seq, finish,
}
use cognitora_inference.Infer.Scheduler.Steps.{
  step, admit, admit_loop, prefill_one_chunk, prefill_at, prefilled, decode_step, make_room,
  room_for, ensure_room, decode_batch, batch_from, model_batch, advance_all, advance, push_token,
  emit, emit_safe, after_send, check_budget,
}
use cognitora_inference.Infer.Scheduler.View.{Reach, IsSafe, accounted}
use cognitora_inference.Infer.Scheduler.Tokens.{view, ids}
use cognitora_inference.Infer.Scheduler.Refinement.{step-Reach}
use cognitora_inference.Infer.Scheduler.Run.{run, turn, enqueue_all, run-accounted, run-IsSafe}
use cognitora_inference.Infer.Scheduler.Limits.{Stuck, ensure_room_lem}

abbrev repeat : ℕ → ℕ → List ℕ
repeat zero x = []
repeat (suc n) x = x ∷ repeat n x

abbrev engine : Runtime
engine = record {
  Kv = ℕ;
  Logits = ℕ;
  Params = ℕ;
  Sampler = ℕ;
  Tokenizer = Unit;
  model_max_batch = 2;
  max_seq_len = 128;
  prefill = λ kv id chunk done last. (some (if last then some 7 else none), kv + length chunk);
  decode = λ kv batch. (some (map (λ p. 5) batch), kv + length batch);
  drop_seq = λ kv id. kv;
  new_sampler = λ p. p;
  sample = λ state logits tokens. (logits, suc state);
  detokenize = λ t ids. some ids;
  delivers = λ out id. true;
}

abbrev config : SchedulerConfig
config = record { max_batch = 4; prefill_chunk = 2; kv_pool_tokens = 48 }

abbrev request : List ℕ → ℕ → Request engine
request prompt max_tokens = record {
  prompt_tokens = prompt;
  max_tokens = max_tokens;
  stops = [];
  params = 0;
  tokenizer = tt;
  eos_token_id = none;
}

abbrev start : Scheduler engine
start = initial engine 0 config

abbrev three : List (Request engine)
three = request (1 ∷ 2 ∷ 3 ∷ []) 2 ∷ request (4 ∷ []) 3 ∷ request (6 ∷ 7 ∷ []) 1 ∷ []

abbrev history : List (List (Request engine))
history = three ∷ [] ∷ [] ∷ [] ∷ []

new-start : new engine 0 config ≡ some start
unfolding new
new-start = refl

-- Three requests for a batch of two have all finished after four turns.
run-three :
    (ids engine (run engine history start).running ≡ [])
    × (ids engine (run engine history start).waiting ≡ [])
unfolding run turn enqueue_all enqueue send step admit admit_loop prefill_one_chunk prefill_at
    prefilled decode_step make_room room_for ensure_room decode_batch batch_from model_batch
    advance_all advance push_token emit emit_safe after_send check_budget budget finish finish_seq
    retire flush_tail held_back_len Pool.reserve Pool.release Pool.free_blocks Pool.held_by
    Pool.blocks_for Pool.new get insert remove ℕ_discrete first_stop ends_with_fffd
run-three = (refl, refl)

step-Reach_example :
    Reach
      (view engine (enqueue_all engine three start))
      (view engine (step engine (enqueue_all engine three start)))
step-Reach_example = step-Reach engine (enqueue_all engine three start)

run-accounted_example :
    accounted 2 (view engine (run engine history start))
    ≡ (if leb 1 2 && ltb 2 (run engine history start).next_id then 1 else 0)
run-accounted_example = run-accounted engine 0 config history {s = start} new-start 2

run-IsSafe_example :
    IsSafe (view engine (run engine history start)) × ((run engine history start).cfg.max_batch ≤ 2)
run-IsSafe_example = run-IsSafe engine 0 config history {s = start} new-start

-- A prompt of 64 tokens, for which the pool of 3 blocks is too small.
abbrev oversized : Request engine
oversized = request (repeat 64 1) 4

abbrev blocked : Scheduler engine
blocked = record start { waiting = fresh engine start oversized ∷ []; next_id = 2 }

blocked-Stuck : Stuck engine (fresh engine start oversized) blocked
unfolding Pool.held_by Pool.blocks_for Pool.new get
blocked-Stuck = record {
  idle = refl;
  unheld = refl;
  too_large = omega arith;
  rest = [];
  first = refl;
}

-- A sequence with a prompt of three tokens and two generated ones.
abbrev decoder : ℕ → Sequence engine
decoder id = record (fresh engine start (request (1 ∷ 2 ∷ 3 ∷ []) 9)) {
  id = id;
  phase = decoding;
  tokens = 1 ∷ 2 ∷ 3 ∷ 7 ∷ 5 ∷ [];
  generated = 7 ∷ 5 ∷ [];
  admitted_at = id;
}

abbrev busy : Scheduler engine
busy = record start { running = decoder 1 ∷ decoder 2 ∷ []; next_id = 3 }

ensure_room_lem_example :
    (((ensure_room engine 3 busy 1 40).0 ≡ true)
      × (Pool.blocks_for 40 ≤ Pool.held_by (ensure_room engine 3 busy 1 40).1.pool 1))
    ⊎ (((ensure_room engine 3 busy 1 40).0 ≡ false)
        × (count 1 (ids engine (ensure_room engine 3 busy 1 40).1.running)
            < count 1 (ids engine busy.running)))
ensure_room_lem_example = ensure_room_lem engine 3 busy 1 40 (omega arith) refl

abbrev pool : Pool.KvPool
pool = record { total_blocks = 8; used_blocks = 5; held = (1, 2) ∷ (2, 3) ∷ [] }

pool-IsValid : IsValid pool
unfolding get ℕ_discrete
pool-IsValid = record { within = omega arith; counted = refl; unique = (refl, (refl, tt)) }

-- The bytes of "ab</" and the stop string "</s>".
abbrev typed : List ℕ
typed = 97 ∷ 98 ∷ 60 ∷ 47 ∷ []

abbrev stop_strings : List (List ℕ)
stop_strings = (60 ∷ 47 ∷ 115 ∷ 62 ∷ []) ∷ []

held_back_len-typed : held_back_len typed stop_strings ≡ 2
unfolding held_back_len
held_back_len-typed = refl

held_back_len-least_example :
    (held_back_len typed stop_strings ≤ 4)
    × ((ltb 1 (held_back_len typed stop_strings) && any (holds_back typed 1) stop_strings) ≡ false)
    × ((held_back_len typed stop_strings ≡ 4)
        ⊎ (any (holds_back typed (held_back_len typed stop_strings)) stop_strings ≡ true))
held_back_len-least_example = held_back_len-least typed stop_strings 1

-- For the bytes that are hashed here, the sum is a digest without a collision.
abbrev sum_of_bytes : List ℕ → ℕ
sum_of_bytes [] = 0
sum_of_bytes (x ∷ xs) = x + sum_of_bytes xs

abbrev chain_hasher : Hasher
chain_hasher = record {
  Digest = ℕ;
  same = ℕ_discrete;
  finalize = sum_of_bytes;
  as_bytes = λ d. d ∷ repeat 31 0;
}

abbrev typed_tokens : List ℕ
typed_tokens = repeat 20 3

abbrev prompt : List ℕ
prompt = repeat 40 3

abbrev IsTyped : List ℕ → Type 0
IsTyped bytes =
    (bytes ≡ token_bytes (repeat 16 3)) ⊎ (bytes ≡ (48 ∷ repeat 31 0) ++ token_bytes (repeat 16 3))

chain_hasher-IsCollisionFree : IsCollisionFree chain_hasher IsTyped
unfolding token_bytes
chain_hasher-IsCollisionFree = record {
  apart = λ xs ys u v e. elim u [
    | inl p ↦ elim v [
      | inl q ↦ p ∙ sym q
      | inr q ↦ absurd (omega (arith, ap sum_of_bytes p, ap sum_of_bytes q, e))
    ]
    | inr p ↦ elim v [
      | inl q ↦ absurd (omega (arith, ap sum_of_bytes p, ap sum_of_bytes q, e))
      | inr q ↦ p ∙ sym q
    ]
  ];
  long = λ d. refl;
  whole = λ d e p. cc p;
}

repeat-IsWord : (n : ℕ) → All IsWord (repeat n 3)
repeat-IsWord zero = tt
repeat-IsWord (suc n) = (omega arith, repeat-IsWord n)

abbrev empty_cache : PrefixCache chain_hasher
empty_cache = record { resident = []; cached_tokens = 0 }

prompt-IsTyped : All IsTyped (hashed_by chain_hasher prompt)
unfolding hash_block parent_bytes token_bytes
prompt-IsTyped = (inl refl, (inr refl, tt))

typed_tokens-IsTyped : All IsTyped (hashed_by chain_hasher typed_tokens)
unfolding hash_block parent_bytes token_bytes
typed_tokens-IsTyped = (inl refl, tt)

match_prefix-recorded_example :
    ((match_prefix chain_hasher (recorded chain_hasher empty_cache typed_tokens) prompt).blocks
      ≡ agreement blocks-discrete (complete_blocks prompt) (complete_blocks typed_tokens))
    × ((match_prefix chain_hasher (recorded chain_hasher empty_cache typed_tokens) prompt).tokens
        ≡ (match_prefix chain_hasher (recorded chain_hasher empty_cache typed_tokens) prompt).blocks
          * 16)
match_prefix-recorded_example =
    match_prefix-recorded chain_hasher IsTyped empty_cache typed_tokens prompt
      chain_hasher-IsCollisionFree typed_tokens-IsTyped prompt-IsTyped (repeat-IsWord 20)
      (repeat-IsWord 40)
