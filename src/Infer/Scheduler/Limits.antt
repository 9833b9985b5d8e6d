-- ===== src/Infer/Scheduler/Limits.antt =====
-- Two limits of rust/services/cgn-infer/src/scheduler/mod.rs: a prompt larger than the block pool,
-- and the prefill of a preempted sequence; and the loop that makes room.
use cognitora_inference.Prelude.{
  ℕ, suc, zero, ◌+◌, ◌-◌, ◌≤◌, ◌<◌, ◌≡◌, refl, ap, ◌⊎◌, true, false, ◌&&◌, ◌||◌, some, List, [],
  ◌∷◌, ◌++◌, arith, leb, ◌==◌, length, count, Bool-cases, Option-cases, inl, inr, length-take,
  length-drop, drop, ◌↔◌, position-any, position_sound, length-remove_at, count-remove_at,
}
use cognitora_inference.Infer.Pool
use cognitora_inference.Infer.Pool.Laws.{reserve_lem}
use cognitora_inference.Infer.Scheduler.{
  Runtime, Scheduler, Sequence, Request, enqueue, send, fresh, prefilling,
}
use cognitora_inference.Infer.Scheduler.Steps.{
  step, admit_loop, prefill_one_chunk, decode_step, chunk_size, chunk_of, preempt, preempt_at, runs,
  youngest_other, ensure_room,
}
use cognitora_inference.Infer.Scheduler.Tokens.{ids, ids-remove_at, get_elem?-ids}
use cognitora_inference.Infer.Scheduler.Refinement.{youngest_other-ne, runs-preempt, runs-count}
use cognitora_inference.Infer.Scheduler.Run.{turn, enqueue_all, run}

module _ (r : Runtime) where
  -- Nothing runs, the pool is free, and the first in line needs more blocks than there are.
  pub record Stuck (q : Sequence r) (s : Scheduler r) : Type 0 where
    pub idle : s.running ≡ []
    pub unheld : Pool.held_by s.pool q.id ≡ 0
    pub too_large : s.pool.total_blocks < Pool.blocks_for (q.prompt_len + 1)
    pub rest : List (Sequence r)
    pub first : s.waiting ≡ q ∷ rest

  reserve_too_large :
      (p : Pool.KvPool) (id need : ℕ)
      → Pool.held_by p id ≡ 0
      → p.total_blocks < Pool.blocks_for need
      → (Pool.reserve p id need).0 ≡ false
  unfolding Pool.reserve
  reserve_too_large p id need h l = ground arith

  admit_loop_stuck :
      (waiting : List (Sequence r)) (q : Sequence r) (rest : List (Sequence r)) (s : Scheduler r)
      → waiting ≡ q ∷ rest
      → (Pool.reserve s.pool q.id (q.prompt_len + 1)).0 ≡ false
      → admit_loop r waiting s ≡ s
  unfolding admit_loop
  admit_loop_stuck [] q rest s e f = refl
  admit_loop_stuck (x ∷ xs) q rest s e f =
      elim (Bool-cases ((Pool.reserve s.pool x.id (x.prompt_len + 1)).0)) [
        | inl t ↦ absurd (ground arith)
        | inr g ↦ ground arith
      ]

  prefill_idle : (s : Scheduler r) → s.running ≡ [] → prefill_one_chunk r s ≡ s
  unfolding prefill_one_chunk
  prefill_idle s e = ground arith

  decode_idle : (s : Scheduler r) → s.running ≡ [] → decode_step r s ≡ s
  unfolding decode_step
  decode_idle s e = ground arith

  step-Stuck : (q : Sequence r) (s : Scheduler r) → Stuck q s → step r s ≡ s
  unfolding step
  step-Stuck q s h =
      let a =
        admit_loop_stuck s.waiting q h.rest s h.first
          (reserve_too_large s.pool q.id (q.prompt_len + 1) h.unheld h.too_large) in
      rw a (rw (prefill_idle s h.idle) (decode_idle s h.idle))

  enqueue-Stuck :
      (q : Sequence r) (s : Scheduler r) (req : Request r) → Stuck q s → Stuck q (enqueue r s req)
  unfolding enqueue send
  enqueue-Stuck q s req h =
      elim (Bool-cases
        (length req.prompt_tokens == 0 || leb r.max_seq_len (length req.prompt_tokens))) [
          | inl e ↦ rw e (record {
            idle = h.idle;
            unheld = h.unheld;
            too_large = h.too_large;
            rest = h.rest;
            first = h.first;
          })
          | inr e ↦ rw e (record {
            idle = h.idle;
            unheld = h.unheld;
            too_large = h.too_large;
            rest = h.rest ++ fresh r s req ∷ [];
            first = ap (λ w. w ++ fresh r s req ∷ []) h.first;
          })
        ]

  enqueue_all-Stuck :
      (q : Sequence r) (reqs : List (Request r)) (s : Scheduler r)
      → Stuck q s
      → Stuck q (enqueue_all r reqs s)
  unfolding enqueue_all
  enqueue_all-Stuck q [] s h = h
  enqueue_all-Stuck q (req ∷ reqs) s h =
      enqueue_all-Stuck q reqs (enqueue r s req) (enqueue-Stuck q s req h)

  turn-Stuck :
      (q : Sequence r) (reqs : List (Request r)) (s : Scheduler r)
      → Stuck q s
      → Stuck q (turn r s reqs)
  unfolding turn
  turn-Stuck q reqs s h =
      let later = enqueue_all-Stuck q reqs s h in
      elim (Bool-cases ((length s.waiting == 0 && length s.running == 0) && length reqs == 0)) [
        | inl e ↦ rw e h
        | inr e ↦ rw e (rw (step-Stuck q (enqueue_all r reqs s) later) later)
      ]

  -- While nothing runs and the request at the head of the queue needs more blocks than the pool has
  -- in all, the scheduler never runs anything again: whatever arrives later waits behind it.
  run-Stuck :
      (q : Sequence r) (turns : List (List (Request r))) (s : Scheduler r)
      → Stuck q s
      → Stuck q (run r turns s)
  unfolding run
  run-Stuck q [] s h = h
  run-Stuck q (reqs ∷ rest) s h = run-Stuck q rest (turn r s reqs) (turn-Stuck q reqs s h)

  -- A preempted sequence goes to the head of the queue with nothing prefilled. From then on, at any
  -- point `done` of its prefill, the tokens that the runtime is given end at the prompt's length,
  -- and logits are asked for exactly there, although the sequence has more tokens than that: what
  -- it had generated is not prefilled again.
  preempt-prefill :
      (s t : Scheduler r) (idx : ℕ) (q : Sequence r) (done : ℕ)
      → q.prompt_len < length q.tokens
      → done ≤ q.prompt_len
      → let again : ℕ → Sequence r = λ d. record q { phase = prefilling d } in
        ((preempt_at r s idx q).waiting ≡ again 0 ∷ s.waiting)
        × (done + length (chunk_of r t (again done)) ≤ q.prompt_len)
        × (((chunk_size r t (again done) == q.prompt_len - done) ≡ true)
            ↔ (done + length (chunk_of r t (again done)) ≡ q.prompt_len))
        × (q.prompt_len < length (again done).tokens)
  unfolding preempt_at
  preempt-prefill s t idx q done more below =
      let again : Sequence r = record q { phase = prefilling done } in
      let size = length-take (chunk_size r t again) (drop done q.tokens) in
      let left = length-drop done q.tokens in
      (refl, omega (arith, size, left), ground (arith, size, left), more)

  preempt_self :
      (s : Scheduler r) (id : ℕ)
      → runs r s.running id ≡ true
      → (length (preempt r s id).running < length s.running)
        × (count id (ids r (preempt r s id).running) < count id (ids r s.running))
  unfolding preempt preempt_at
  preempt_self s id h =
      let (i, q, p, g) = position-any (λ (q : Sequence r). q.id == id) s.running h in
      let found = position_sound (λ (q : Sequence r). q.id == id) s.running i {x = q} p g in
      (
        rw (p, preempt) (rw (g, preempt) (omega (arith, length-remove_at s.running i g))),
        rw (p, preempt)
            (rw (g, preempt)
              (ground (
                arith,
                ids-remove_at r s.running i,
                count-remove_at id (ids r s.running) i (get_elem?-ids r s.running i g),
                found,
              ))),
      )

  youngest_other-runs :
      (id : ℕ) (qs : List (Sequence r)) {v : Sequence r}
      → youngest_other r id qs ≡ some v
      → runs r qs v.id ≡ true
  unfolding youngest_other
  youngest_other-runs id [] e = absurd (ground arith)
  youngest_other-runs id (q ∷ qs) {v} e = elim (Option-cases (youngest_other r id qs)) [
    | inl n ↦ ground (arith)
    | inr (b, n) ↦ ground (arith, youngest_other-runs id qs n)
  ]

  count-runs : (id : ℕ) (qs : List (Sequence r)) → 0 < count id (ids r qs) → runs r qs id ≡ true
  count-runs id [] h = absurd (omega arith)
  count-runs id (q ∷ qs) h = ground (arith, count-runs id qs)

  -- Making room for a running sequence ends within the fuel that `decode_step` gives it. Either the
  -- sequence then holds the blocks for its tokens, or it has been preempted itself.
  pub ensure_room_lem :
      (fuel : ℕ) (s : Scheduler r) (id need : ℕ)
      → length s.running < fuel
      → runs r s.running id ≡ true
      → (((ensure_room r fuel s id need).0 ≡ true)
          × (Pool.blocks_for need ≤ Pool.held_by (ensure_room r fuel s id need).1.pool id))
        ⊎ (((ensure_room r fuel s id need).0 ≡ false)
            × (count id (ids r (ensure_room r fuel s id need).1.running)
                < count id (ids r s.running)))
  unfolding ensure_room
  ensure_room_lem zero s id need lt h = absurd (omega arith)
  ensure_room_lem (suc fuel) s id need lt h =
      let s' : Scheduler r = record s { pool = (Pool.reserve s.pool id need).1 } in
      elim (Bool-cases (Pool.reserve s.pool id need).0) [
        | inl e ↦
            rw (e, ensure_room)
              (inl (refl, ground (arith, reserve_lem s.pool id (suc id) need (omega arith), e)))
        | inr e ↦ elim (Option-cases (youngest_other r id s.running)) [
          | inl g ↦ rw (e, g, ensure_room) (inr (refl, (preempt_self s' id h).1))
          | inr (v, g) ↦
              let kept = runs-preempt r s' v.id id (youngest_other-ne r id s.running g) in
              let shorter = (preempt_self s' v.id (youngest_other-runs id s.running g)).0 in
              let busy = runs-count r id s.running h in
              let ih =
                ensure_room_lem fuel (preempt r s' v.id) id need (omega (arith, shorter))
                  (count-runs id (preempt r s' v.id).running (omega (arith, kept, busy))) in
              rw (e, g, ensure_room)
                (elim ih [
                  | inl done ↦ inl done
                  | inr (f, less) ↦ inr (f, omega (arith, less, kept))
                ])
        ]
      ]
