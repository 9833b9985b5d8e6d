-- ===== src/Infer/Scheduler/Tokens.antt =====
-- The path of a sampled token, rust/services/cgn-infer/src/scheduler/mod.rs, takes only steps of the
-- specification in View.
use cognitora_inference.Prelude.{
  ℕ, suc, zero, ◌≡◌, refl, ap, ◌∙◌, Bool, true, false, Option, none, some, List, [], ◌∷◌, ◌++◌,
  arith, ltb, leb, ◌==◌, length, get_elem?, set, remove_at, Bool-cases, Option-cases, inl, inr,
  set_same, take, drop, not, ◌&&◌,
}
use cognitora_inference.Infer.Text.{first_stop, ends_with_fffd, held_back_len, text_from}
use cognitora_inference.Infer.Scheduler.{
  Runtime, Scheduler, Sequence, Reason, stop, length_limit, error, Output, frame, closed, send,
  finish, finish_silent, budget, event,
}
use cognitora_inference.Infer.Scheduler.Steps.{
  is_eos, put, check_budget, flush_stop, after_send, emit_safe, emit, grow, push_token, advance,
}
use cognitora_inference.Infer.Scheduler.View.{View, retires, Reach, here, Reach-trans, Reach-one}

abbrev pub closed_ids : List Output → List ℕ
closed_ids [] = []
closed_ids (frame _ _ _ ∷ out) = closed_ids out
closed_ids (closed id ∷ out) = id ∷ closed_ids out

module _ (r : Runtime) where
  abbrev pub ids : List (Sequence r) → List ℕ
  ids [] = []
  ids (q ∷ qs) = q.id ∷ ids qs

  abbrev pub view : Scheduler r → View
  view s = record {
    waiting = ids s.waiting;
    running = ids s.running;
    done = closed_ids s.out;
    pool = s.pool;
    max_batch = s.cfg.max_batch;
    next_id = s.next_id;
  }

  pub ids-append : (xs ys : List (Sequence r)) → ids (xs ++ ys) ≡ ids xs ++ ids ys
  ids-append [] ys = refl
  ids-append (x ∷ xs) ys = ap (◌∷◌ x.id) (ids-append xs ys)

  ids-set :
      (xs : List (Sequence r)) (i : ℕ) (q : Sequence r) → ids (set xs i q) ≡ set (ids xs) i q.id
  ids-set [] i q = refl
  ids-set (x ∷ xs) zero q = refl
  ids-set (x ∷ xs) (suc i) q = ap (◌∷◌ x.id) (ids-set xs i q)

  pub ids-remove_at : (xs : List (Sequence r)) (i : ℕ) → ids (remove_at xs i) ≡ remove_at (ids xs) i
  ids-remove_at [] i = refl
  ids-remove_at (x ∷ xs) zero = refl
  ids-remove_at (x ∷ xs) (suc i) = ap (◌∷◌ x.id) (ids-remove_at xs i)

  pub get_elem?-ids :
      (xs : List (Sequence r)) (i : ℕ) {q : Sequence r}
      → get_elem? xs i ≡ some q
      → get_elem? (ids xs) i ≡ some q.id
  get_elem?-ids [] i h = absurd (ground arith)
  get_elem?-ids (x ∷ xs) zero h = ground arith
  get_elem?-ids (x ∷ xs) (suc i) h = get_elem?-ids xs i h

  pub length-ids : (xs : List (Sequence r)) → length (ids xs) ≡ length xs
  length-ids [] = refl
  length-ids (x ∷ xs) = ap suc (length-ids xs)

  abbrev pub Holds : Scheduler r → ℕ → ℕ → Type 0
  Holds s idx id = get_elem? (ids s.running) idx ≡ some id

  abbrev pub Goes : Scheduler r → Scheduler r → Type 0
  Goes s t = Reach (view s) (view t)

  ids-put :
      (s : Scheduler r) (idx : ℕ) (q : Sequence r)
      → Holds s idx q.id
      → ids (set s.running idx q) ≡ ids s.running
  ids-put s idx q h = ids-set s.running idx q ∙ set_same (ids s.running) idx h

  -- A sequence rewritten in its place does not show in the view.
  pub Goes-put :
      (s : Scheduler r) (idx : ℕ) (q : Sequence r) {w : View}
      → Holds s idx q.id
      → Reach (view (put r s idx q)) w
      → Reach (view s) w
  Goes-put s idx q h g = rw (ids-put s idx q h) at g

  Holds-put :
      (s : Scheduler r) (idx : ℕ) (q : Sequence r)
      → Holds s idx q.id
      → Holds (put r s idx q) idx q.id
  Holds-put s idx q h = rw (ids-put s idx q h) h

  pub finish-Goes : (s : Scheduler r) (idx : ℕ) (why : Reason) → Goes s (finish r s idx why)
  unfolding finish
  finish-Goes s idx why = elim (Option-cases (get_elem? s.running idx)) [
    | inl e ↦ rw (e, finish) here
    | inr (q, e) ↦
        rw (e, finish)
          (Reach-one (
            retires idx q.id (get_elem?-ids s.running idx e)
              (ground (arith, ids-remove_at s.running idx))))
  ]

  finish_silent-Goes : (s : Scheduler r) (idx : ℕ) → Goes s (finish_silent r s idx)
  unfolding finish_silent
  finish_silent-Goes s idx = elim (Option-cases (get_elem? s.running idx)) [
    | inl e ↦ rw (e, finish_silent) here
    | inr (q, e) ↦
        rw (e, finish_silent)
          (Reach-one (
            retires idx q.id (get_elem?-ids s.running idx e)
              (ground (arith, ids-remove_at s.running idx))))
  ]

  check_budget-Goes : (s : Scheduler r) (idx : ℕ) (q : Sequence r) → Goes s (check_budget r s idx q)
  unfolding check_budget
  check_budget-Goes s idx q = elim (Bool-cases (leb (budget r q) (length q.generated))) [
    | inl e ↦ rw e (finish-Goes s idx length_limit)
    | inr e ↦ rw e here
  ]

  flush_stop-Goes :
      (s : Scheduler r) (idx : ℕ) (q : Sequence r) (text : List ℕ) (hit : ℕ)
      → Holds s idx q.id
      → Goes s (flush_stop r s idx q text hit)
  unfolding flush_stop send
  flush_stop-Goes s idx q text hit h =
      elim (Bool-cases (length (text_from q.emitted_len (take hit text)) == 0)) [
        | inl e ↦ rw e here
        | inr e ↦ rw e (rw (ids-put s idx (record q { emitted_len = hit }) h) here)
      ]

  after_send-Goes :
      (s : Scheduler r) (idx : ℕ) (q : Sequence r) (sent : Bool)
      → Goes s (after_send r s idx q sent)
  unfolding after_send
  after_send-Goes s idx q true = check_budget-Goes s idx q
  after_send-Goes s idx q false = finish_silent-Goes s idx

  emit_safe-Goes :
      (s : Scheduler r) (idx : ℕ) (q : Sequence r) (text : List ℕ)
      → Holds s idx q.id
      → Goes s (emit_safe r s idx q text)
  unfolding emit_safe send
  emit_safe-Goes s idx q text h =
      let q' : Sequence r = record q { emitted_len = held_back_len text q.req.stops } in
      let delta = drop q.emitted_len (take (held_back_len text q.req.stops) text) in
      let s' = (send r (put r s idx q') q.id (event r q delta none)).1 in
      elim (Bool-cases (
        not (ends_with_fffd text)
        && (ltb q.emitted_len (length text)
            && ltb q.emitted_len (held_back_len text q.req.stops)))) [
              | inl e ↦
                  rw e (Goes-put s idx q' h (after_send-Goes s' idx q' (r.delivers s.out q.id)))
              | inr e ↦ rw e (check_budget-Goes s idx q)
            ]

  emit-Goes :
      (s : Scheduler r) (idx : ℕ) (q : Sequence r) (text : Option (List ℕ))
      → Holds s idx q.id
      → Goes s (emit r s idx q text)
  unfolding emit
  emit-Goes s idx q none h = finish-Goes s idx error
  emit-Goes s idx q (some text) h = elim (Option-cases (first_stop q.req.stops text)) [
    | inl e ↦ rw (e, emit) (emit_safe-Goes s idx q text h)
    | inr (hit, e) ↦
        rw (e, emit)
          (Reach-trans (flush_stop-Goes s idx q text hit h)
            (finish-Goes (flush_stop r s idx q text hit) idx stop))
  ]

  push_token-Goes :
      (s : Scheduler r) (idx : ℕ) (q : Sequence r) (token : ℕ)
      → Holds s idx q.id
      → Goes s (push_token r s idx q token)
  unfolding push_token
  push_token-Goes s idx q token h = elim (Bool-cases (is_eos r q.req.eos_token_id token)) [
    | inl e ↦ rw e (finish-Goes s idx stop)
    | inr e ↦ rw e (
        Goes-put s idx (grow r q token) h (
          emit-Goes (put r s idx (grow r q token)) idx (grow r q token)
            (r.detokenize q.req.tokenizer (q.generated ++ token ∷ []))
            (Holds-put s idx (grow r q token) h)))
  ]

  pub advance-Goes :
      (s : Scheduler r) (idx : ℕ) (logits : r.Logits) → Goes s (advance r s idx logits)
  unfolding advance
  advance-Goes s idx logits = elim (Option-cases (get_elem? s.running idx)) [
    | inl e ↦ rw (e, advance) here
    | inr (q, e) ↦
        let (token, sampler') = r.sample q.sampler logits q.tokens in
        let q' : Sequence r = record q { sampler = sampler' } in
        let h = get_elem?-ids s.running idx e in
        rw (e, advance)
          (Goes-put s idx q' h
            (push_token-Goes (put r s idx q') idx q' token (Holds-put s idx q' h)))
  ]
