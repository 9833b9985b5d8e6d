-- ===== src/Infer/Scheduler/Steps.antt =====
-- The scheduler's iteration, rust/services/cgn-infer/src/scheduler/mod.rs: admission, chunked
-- prefill, batched decode, preemption, and what happens to a sampled token.
use cognitora_inference.Prelude.{
  ℕ, suc, zero, ◌+◌, ◌-◌, Bool, true, false, ◌&&◌, not, Option, none, some, List, [], ◌∷◌, ◌++◌,
  ltb, leb, ◌==◌, if◌then◌else◌, length, min, get_elem?, set, remove_at, take, drop, position, any,
}
use cognitora_inference.Infer.Pool
use cognitora_inference.Infer.Text.{first_stop, ends_with_fffd, held_back_len, text_from}
use cognitora_inference.Infer.Scheduler.{
  Runtime, Scheduler, Sequence, Phase, prefilling, decoding, stop, length_limit, error, event,
  budget, send, finish, finish_silent,
}

module _ (r : Runtime) where
  open r use {Logits, max_seq_len, prefill, decode, drop_seq, sample, detokenize}

  abbrev pub put : Scheduler r → ℕ → Sequence r → Scheduler r
  put s idx seq = record s { running = set s.running idx seq }

  unfoldable pub check_budget : Scheduler r → ℕ → Sequence r → Scheduler r
  check_budget s idx seq =
      if leb (budget r seq) (length seq.generated) then finish r s idx length_limit else s

  -- A stop string was found at the byte `hit`: the text before it is sent.
  unfoldable pub flush_stop : Scheduler r → ℕ → Sequence r → List ℕ → ℕ → Scheduler r
  flush_stop s idx seq text hit =
      let delta = text_from seq.emitted_len (take hit text) in
      if length delta == 0
      then s
      else (send r (put s idx (record seq { emitted_len = hit })) seq.id (event r seq delta none)).1

  -- A failed send means that the client went away.
  unfoldable pub after_send : Scheduler r → ℕ → Sequence r → Bool → Scheduler r
  after_send s idx seq true = check_budget s idx seq
  after_send s idx seq false = finish_silent r s idx

  unfoldable pub emit_safe : Scheduler r → ℕ → Sequence r → List ℕ → Scheduler r
  emit_safe s idx seq text =
      let safe_len = held_back_len text seq.req.stops in
      if not (ends_with_fffd text)
        && (ltb seq.emitted_len (length text) && ltb seq.emitted_len safe_len)
      then (let seq' : Sequence r = record seq { emitted_len = safe_len } in
          let delta = drop seq.emitted_len (take safe_len text) in
          let (sent, s') = send r (put s idx seq') seq.id (event r seq delta none) in
          after_send s' idx seq' sent)
      else check_budget s idx seq

  unfoldable pub emit : Scheduler r → ℕ → Sequence r → Option (List ℕ) → Scheduler r
  emit s idx seq none = finish r s idx error
  emit s idx seq (some text) = elim (first_stop seq.req.stops text) [
    | none ↦ emit_safe s idx seq text
    | some hit ↦ finish r (flush_stop s idx seq text hit) idx stop
  ]

  abbrev pub is_eos : Option ℕ → ℕ → Bool
  is_eos none token = false
  is_eos (some eos) token = token == eos

  abbrev pub grow : Sequence r → ℕ → Sequence r
  grow seq token = record seq {
    generated = seq.generated ++ token ∷ [];
    tokens = seq.tokens ++ token ∷ [];
  }

  unfoldable pub push_token : Scheduler r → ℕ → Sequence r → ℕ → Scheduler r
  push_token s idx seq token =
      if is_eos seq.req.eos_token_id token
      then finish r s idx stop
      else emit (put s idx (grow seq token)) idx (grow seq token)
          (detokenize seq.req.tokenizer (seq.generated ++ token ∷ []))

  -- Sample from the logits with the sequence's own sampler, and push the token.
  unfoldable pub advance : Scheduler r → ℕ → Logits → Scheduler r
  advance s idx logits = elim (get_elem? s.running idx) [
    | none ↦ s
    | some seq ↦
        let (token, sampler') = sample seq.sampler logits seq.tokens in
        let seq' : Sequence r = record seq { sampler = sampler' } in
        push_token (put s idx seq') idx seq' token
  ]

  -- `while running.len() < max_batch`, over the sequences that wait.
  unfoldable pub admit_loop : List (Sequence r) → Scheduler r → Scheduler r
  admit_loop [] s = s
  admit_loop (seq ∷ rest) s =
      let (fits, pool') = Pool.reserve s.pool seq.id (seq.prompt_len + 1) in
      let later = admit_loop rest (record s {
        pool = pool';
        waiting = rest;
        tick = s.tick + 1;
        running = s.running ++ record seq { admitted_at = s.tick + 1 } ∷ [];
      }) in
      if ltb (length s.running) s.cfg.max_batch && fits then later else s

  unfoldable pub admit : Scheduler r → Scheduler r
  unfolding admit_loop
  admit s = admit_loop s.waiting s

  abbrev pub is_prefilling : Sequence r → Bool
  is_prefilling seq = elim seq.phase [ prefilling d ↦ true | decoding ↦ false ]

  abbrev pub done_of : Phase → ℕ
  done_of (prefilling d) = d
  done_of decoding = 0

  -- What the runtime's answer to a chunk of `size` tokens does.
  unfoldable pub prefilled : Scheduler r → ℕ → Sequence r → ℕ → Option (Option Logits) → Scheduler r
  prefilled s idx seq reached none = finish r s idx error
  prefilled s idx seq reached (some none) = put s idx (record seq { phase = prefilling reached })
  prefilled s idx seq reached (some (some logits)) =
      advance (put s idx (record seq { phase = decoding })) idx logits

  abbrev pub chunk_size : Scheduler r → Sequence r → ℕ
  chunk_size s seq = min (seq.prompt_len - done_of seq.phase) s.cfg.prefill_chunk

  abbrev pub chunk_of : Scheduler r → Sequence r → List ℕ
  chunk_of s seq = take (chunk_size s seq) (drop (done_of seq.phase) seq.tokens)

  unfoldable pub prefill_at : Scheduler r → ℕ → Sequence r → Scheduler r
  unfolding prefilled
  prefill_at s idx seq =
      let done = done_of seq.phase in
      let size = chunk_size s seq in
      let last_chunk = size == seq.prompt_len - done in
      let (answer, kv') = prefill s.kv seq.id (chunk_of s seq) done last_chunk in
      prefilled (record s { kv = kv' }) idx seq (done + size) answer

  unfoldable pub prefill_one_chunk : Scheduler r → Scheduler r
  unfolding prefill_at
  prefill_one_chunk s = elim (position is_prefilling s.running) [
    | none ↦ s
    | some idx ↦ elim (get_elem? s.running idx) [ none ↦ s | some seq ↦ prefill_at s idx seq ]
  ]

  -- Move a running sequence back to the front of the queue, without its KV.
  unfoldable pub preempt_at : Scheduler r → ℕ → Sequence r → Scheduler r
  preempt_at s idx seq = record s {
    running = remove_at s.running idx;
    pool = Pool.release s.pool seq.id;
    kv = drop_seq s.kv seq.id;
    waiting = record seq { phase = prefilling 0 } ∷ s.waiting;
  }

  unfoldable pub preempt : Scheduler r → ℕ → Scheduler r
  unfolding preempt_at
  preempt s id = elim (position (λ q. q.id == id) s.running) [
    | none ↦ s
    | some idx ↦ elim (get_elem? s.running idx) [ none ↦ s | some seq ↦ preempt_at s idx seq ]
  ]

  -- `max_by_key(|s| s.admitted_at)` over the sequences other than `id`: of equals, the last.
  unfoldable pub youngest_other : ℕ → List (Sequence r) → Option (Sequence r)
  youngest_other id [] = none
  youngest_other id (q ∷ qs) =
      let best = youngest_other id qs in
      if q.id == id then best else (elim best [
        | none ↦ some q
        | some b ↦ if ltb b.admitted_at q.admitted_at then some q else some b
      ])

  -- Each round that finds no room takes a sequence out of `running`, so its length plus one is
  -- fuel enough.
  unfoldable pub ensure_room : ℕ → Scheduler r → ℕ → ℕ → Bool × Scheduler r
  ensure_room zero s id need = (false, s)
  ensure_room (suc fuel) s id need =
      let (fits, pool') = Pool.reserve s.pool id need in
      let s' : Scheduler r = record s { pool = pool' } in
      let again = λ (v : Sequence r). ensure_room fuel (preempt s' v.id) id need in
      if fits then (true, s') else (elim (youngest_other id s'.running) [
        | none ↦ (false, preempt s' id)
        | some v ↦ again v
      ])

  abbrev pub runs : List (Sequence r) → ℕ → Bool
  runs running id = any (λ q. q.id == id) running

  unfoldable pub room_for : Scheduler r → ℕ → ℕ → Scheduler r
  unfolding ensure_room
  room_for s id need =
      if runs s.running id then (ensure_room (suc (length s.running)) s id need).1 else s

  unfoldable pub make_room : List (ℕ × ℕ) → Scheduler r → Scheduler r
  unfolding room_for
  make_room [] s = s
  make_room ((id, need) ∷ rest) s = make_room rest (room_for s id need)

  abbrev pub candidates : List (Sequence r) → List (ℕ × ℕ)
  candidates [] = []
  candidates (q ∷ qs) =
      let rest = candidates qs in
      if is_prefilling q then rest else (q.id, length q.tokens + 1) ∷ rest

  abbrev last_token : List ℕ → ℕ
  last_token [] = 0
  last_token (t ∷ []) = t
  last_token (t ∷ u ∷ ts) = last_token (u ∷ ts)

  -- The decoding sequences with their indices; `start` is the index of the head.
  unfoldable pub batch_from : ℕ → List (Sequence r) → List (ℕ × ℕ × ℕ)
  batch_from start [] = []
  batch_from start (q ∷ qs) =
      let rest = batch_from (suc start) qs in
      if is_prefilling q then rest else (start, q.id, last_token q.tokens) ∷ rest

  unfoldable pub model_batch : List (ℕ × ℕ × ℕ) → List (ℕ × ℕ)
  model_batch [] = []
  model_batch ((idx, id, token) ∷ rest) = (id, token) ∷ model_batch rest

  -- From the back, as `finish` shifts the indices behind it.
  unfoldable pub fail_all : List (ℕ × ℕ × ℕ) → Scheduler r → Scheduler r
  fail_all [] s = s
  fail_all ((idx, _, _) ∷ rest) s = finish r (fail_all rest s) idx error

  unfoldable pub advance_all : List (ℕ × ℕ × ℕ) → List Logits → Scheduler r → Scheduler r
  advance_all ((idx, _, _) ∷ rest) (l ∷ ls) s = advance (advance_all rest ls s) idx l
  advance_all _ _ s = s

  unfoldable pub decode_batch : Scheduler r → List (ℕ × ℕ × ℕ) → Scheduler r
  unfolding model_batch fail_all advance_all
  decode_batch s [] = s
  decode_batch s (b ∷ bs) =
      let (answer, kv') = decode s.kv (model_batch (b ∷ bs)) in
      let s' : Scheduler r = record s { kv = kv' } in
      elim answer [ none ↦ fail_all (b ∷ bs) s' | some ls ↦ advance_all (b ∷ bs) ls s' ]

  -- With no candidate `make_room` does nothing and the batch is empty, so the source's early
  -- return is this function on an empty list.
  unfoldable pub decode_step : Scheduler r → Scheduler r
  unfolding make_room batch_from decode_batch
  decode_step s =
      let s' = make_room (candidates s.running) s in decode_batch s' (batch_from 0 s'.running)

  unfoldable pub step : Scheduler r → Scheduler r
  unfolding admit prefill_one_chunk decode_step
  step s = decode_step (prefill_one_chunk (admit s))
