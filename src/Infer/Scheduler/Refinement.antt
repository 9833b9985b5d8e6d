-- ===== src/Infer/Scheduler/Refinement.antt =====
-- The scheduler's operations, rust/services/cgn-infer/src/scheduler/mod.rs, take only steps of the
-- specification in View.
use cognitora_inference.Prelude.{
  ℕ, suc, zero, ◌+◌, ◌-◌, ◌<◌, ◌≡◌, refl, ap, true, Option, none, some, List, [], ◌∷◌, ◌++◌, arith,
  ltb, ◌==◌, length, get_elem?, position, Bool-cases, Option-cases, inl, inr, count,
  count-remove_at, position_sound, ◌≢◌, ◌&&◌,
}
use cognitora_inference.Infer.Pool
use cognitora_inference.Infer.Scheduler.{Runtime, Scheduler, Sequence, prefilling, decoding, error}
use cognitora_inference.Infer.Scheduler.Steps.{
  put, admit_loop, prefilled, done_of, chunk_size, chunk_of, prefill_at, prefill_one_chunk, preempt,
  ensure_room, room_for, make_room, fail_all, advance_all, decode_batch, runs, step, batch_from,
  candidates, youngest_other, model_batch, is_prefilling,
}
use cognitora_inference.Infer.Scheduler.View.{
  admits, grows, preempts, Reach, here, Reach-trans, Reach-one,
}
use cognitora_inference.Infer.Scheduler.Tokens.{
  ids, view, ids-append, ids-remove_at, get_elem?-ids, length-ids, Holds, Goes, Goes-put,
  finish-Goes, advance-Goes,
}

module _ (r : Runtime) where
  admit_loop-Goes :
      (waiting : List (Sequence r)) (s : Scheduler r)
      → s.waiting ≡ waiting
      → Goes r s (admit_loop r waiting s)
  unfolding admit_loop
  admit_loop-Goes [] s e = here
  admit_loop-Goes (q ∷ rest) s e =
      let (fits, pool') = Pool.reserve s.pool q.id (q.prompt_len + 1) in
      let q' : Sequence r = record q { admitted_at = s.tick + 1 } in
      let s' : Scheduler r = record s {
        pool = pool';
        waiting = rest;
        tick = s.tick + 1;
        running = s.running ++ q' ∷ [];
      } in
      elim (Bool-cases (ltb (length s.running) s.cfg.max_batch && fits)) [
        | inl go ↦ rw go (
            Reach-trans
              (Reach-one (
                admits q.id (q.prompt_len + 1) (ids r rest) (ap (ids r) e)
                  (ground (arith, length-ids r s.running)) (ground arith)
                  (ground (arith, ids-append r s.running (q' ∷ [])))))
              (admit_loop-Goes rest s' refl))
        | inr full ↦ rw full here
      ]

  prefilled-Goes :
      (s : Scheduler r) (idx : ℕ) (q : Sequence r) (reached : ℕ) (answer : Option (Option r.Logits))
      → Holds r s idx q.id
      → Goes r s (prefilled r s idx q reached answer)
  unfolding prefilled
  prefilled-Goes s idx q reached none h = finish-Goes r s idx error
  prefilled-Goes s idx q reached (some none) h =
      Goes-put r s idx (record q { phase = prefilling reached }) h here
  prefilled-Goes s idx q reached (some (some logits)) h =
      Goes-put r s idx (record q { phase = decoding }) h
        (advance-Goes r (put r s idx (record q { phase = decoding })) idx logits)

  prefill_at-Goes :
      (s : Scheduler r) (idx : ℕ) (q : Sequence r)
      → Holds r s idx q.id
      → Goes r s (prefill_at r s idx q)
  unfolding prefill_at
  prefill_at-Goes s idx q h =
      let done = done_of r q.phase in
      let size = chunk_size r s q in
      let (answer, kv') = r.prefill s.kv q.id (chunk_of r s q) done (size == q.prompt_len - done) in
      prefilled-Goes (record s { kv = kv' }) idx q (done + size) answer h

  prefill_one_chunk-Goes : (s : Scheduler r) → Goes r s (prefill_one_chunk r s)
  unfolding prefill_one_chunk
  prefill_one_chunk-Goes s = elim (Option-cases (position (is_prefilling r) s.running)) [
    | inl e ↦ rw (e, prefill_one_chunk) here
    | inr (idx, e) ↦ elim (Option-cases (get_elem? s.running idx)) [
      | inl g ↦ rw (e, prefill_one_chunk) (rw (g, prefill_one_chunk) here)
      | inr (q, g) ↦
          rw (e, prefill_one_chunk)
            (rw (g, prefill_one_chunk) (prefill_at-Goes s idx q (get_elem?-ids r s.running idx g)))
    ]
  ]

  preempt-Goes : (s : Scheduler r) (victim : ℕ) → Goes r s (preempt r s victim)
  unfolding preempt
  preempt-Goes s victim = elim (Option-cases (position (λ q. q.id == victim) s.running)) [
    | inl e ↦ rw (e, preempt) here
    | inr (idx, e) ↦ elim (Option-cases (get_elem? s.running idx)) [
      | inl g ↦ rw (e, preempt) (rw (g, preempt) here)
      | inr (q, g) ↦
          rw (e, preempt)
            (rw (g, preempt)
              (Reach-one (
                preempts idx q.id (get_elem?-ids r s.running idx g)
                  (ground (arith, ids-remove_at r s.running idx)))))
    ]
  ]

  -- Sequences other than a preempted one keep running.
  pub runs-preempt :
      (s : Scheduler r) (victim id : ℕ)
      → victim ≢ id
      → count id (ids r (preempt r s victim).running) ≡ count id (ids r s.running)
  unfolding preempt
  runs-preempt s victim id ne = elim (Option-cases (position (λ q. q.id == victim) s.running)) [
    | inl e ↦ rw (e, preempt) refl
    | inr (idx, e) ↦ elim (Option-cases (get_elem? s.running idx)) [
      | inl g ↦ rw (e, preempt) (rw (g, preempt) refl)
      | inr (q, g) ↦
          rw (e, preempt)
            (rw (g, preempt)
              (ground (
                arith,
                position_sound (λ (q' : Sequence r). q'.id == victim) s.running idx {x = q} e g,
                ids-remove_at r s.running idx,
                count-remove_at id (ids r s.running) idx (get_elem?-ids r s.running idx g),
              )))
    ]
  ]

  pub youngest_other-ne :
      (id : ℕ) (qs : List (Sequence r)) {v : Sequence r}
      → youngest_other r id qs ≡ some v
      → v.id ≢ id
  unfolding youngest_other
  youngest_other-ne id [] e = absurd (ground arith)
  youngest_other-ne id (q ∷ qs) {v} e = elim (Option-cases (youngest_other r id qs)) [
    | inl n ↦ ground (arith)
    | inr (b, n) ↦ ground (arith, youngest_other-ne id qs n)
  ]

  ensure_room-Goes :
      (fuel : ℕ) (s : Scheduler r) (id need : ℕ)
      → 0 < count id (ids r s.running)
      → Goes r s (ensure_room r fuel s id need).1
  unfolding ensure_room
  ensure_room-Goes zero s id need h = here
  ensure_room-Goes (suc fuel) s id need h =
      let s' : Scheduler r = record s { pool = (Pool.reserve s.pool id need).1 } in
      let grown : Goes r s s' = Reach-one (grows id need h refl) in
      elim (Bool-cases (Pool.reserve s.pool id need).0) [
        | inl e ↦ rw (e, ensure_room) grown
        | inr e ↦ elim (Option-cases (youngest_other r id s.running)) [
          | inl g ↦ rw (e, g, ensure_room) (Reach-trans grown (preempt-Goes s' id))
          | inr (v, g) ↦
              rw (e, g, ensure_room)
                (Reach-trans grown (
                  Reach-trans (preempt-Goes s' v.id) (
                    ensure_room-Goes fuel (preempt r s' v.id) id need
                      (rw (runs-preempt s' v.id id (youngest_other-ne id s.running g)) h))))
        ]
      ]

  pub runs-count : (id : ℕ) (qs : List (Sequence r)) → runs r qs id ≡ true → 0 < count id (ids r qs)
  runs-count id [] h = cc
  runs-count id (q ∷ qs) h = ground (arith, runs-count id qs)

  room_for-Goes : (s : Scheduler r) (id need : ℕ) → Goes r s (room_for r s id need)
  unfolding room_for
  room_for-Goes s id need = elim (Bool-cases (runs r s.running id)) [
    | inl e ↦ rw e (ensure_room-Goes (suc (length s.running)) s id need (runs-count id s.running e))
    | inr e ↦ rw e here
  ]

  make_room-Goes : (wants : List (ℕ × ℕ)) (s : Scheduler r) → Goes r s (make_room r wants s)
  unfolding make_room
  make_room-Goes [] s = here
  make_room-Goes ((id, need) ∷ rest) s =
      Reach-trans (room_for-Goes s id need) (make_room-Goes rest (room_for r s id need))

  fail_all-Goes : (batch : List (ℕ × ℕ × ℕ)) (s : Scheduler r) → Goes r s (fail_all r batch s)
  unfolding fail_all
  fail_all-Goes [] s = here
  fail_all-Goes ((idx, a, b) ∷ rest) s =
      Reach-trans (fail_all-Goes rest s) (finish-Goes r (fail_all r rest s) idx error)

  advance_all-Goes :
      (batch : List (ℕ × ℕ × ℕ)) (ls : List r.Logits) (s : Scheduler r)
      → Goes r s (advance_all r batch ls s)
  unfolding advance_all
  advance_all-Goes [] ls s = here
  advance_all-Goes ((idx, a, b) ∷ rest) [] s = here
  advance_all-Goes ((idx, a, b) ∷ rest) (l ∷ ls) s =
      Reach-trans (advance_all-Goes rest ls s) (advance-Goes r (advance_all r rest ls s) idx l)

  decode_batch-Goes :
      (s : Scheduler r) (batch : List (ℕ × ℕ × ℕ)) → Goes r s (decode_batch r s batch)
  unfolding decode_batch
  decode_batch-Goes s [] = here
  decode_batch-Goes s (b ∷ bs) =
      let s' : Scheduler r = record s { kv = (r.decode s.kv (model_batch r (b ∷ bs))).1 } in
      elim (Option-cases (r.decode s.kv (model_batch r (b ∷ bs))).0) [
        | inl e ↦ rw (e, decode_batch) (fail_all-Goes (b ∷ bs) s')
        | inr (ls, e) ↦ rw (e, decode_batch) (advance_all-Goes (b ∷ bs) ls s')
      ]

  -- An iteration of the scheduler, whatever the runtime and the clients answer, is a sequence of
  -- steps of the specification on the view.
  pub step-Reach : (s : Scheduler r) → Reach (view r s) (view r (step r s))
  unfolding step
  step-Reach s =
      let a = admit_loop r s.waiting s in
      let p = prefill_one_chunk r a in
      let m = make_room r (candidates r p.running) p in
      Reach-trans (admit_loop-Goes s.waiting s refl) (
        Reach-trans (prefill_one_chunk-Goes a) (
          Reach-trans (make_room-Goes (candidates r p.running) p)
            (decode_batch-Goes m (batch_from r 0 m.running))))
