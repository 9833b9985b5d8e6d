-- ===== src/Infer/Scheduler/Run.antt =====
-- The engine loop `run` of rust/services/cgn-infer/src/scheduler/mod.rs, and what holds after any
-- history of it.
use cognitora_inference.Prelude.{
  ℕ, ◌+◌, ◌≤◌, ◌≡◌, refl, Bool, ◌&&◌, ◌||◌, some, List, [], ◌∷◌, arith, leb, ◌==◌, if◌then◌else◌,
  length, count-append, Bool-cases, inl, inr, ltb, max,
}
use mathlib.Core.Path.{subst}
use cognitora_inference.Prelude.Maps.{get}
use cognitora_inference.Infer.Pool
use cognitora_inference.Infer.Pool.Laws.{new-IsValid}
use cognitora_inference.Infer.Scheduler.{
  Runtime, Scheduler, SchedulerConfig, Request, send, enqueue, new, initial,
}
use cognitora_inference.Infer.Scheduler.Steps.{step}
use cognitora_inference.Infer.Scheduler.View.{
  View, IsSafe, accounted, Reach-accounted, Reach-IsSafe,
}
use cognitora_inference.Infer.Scheduler.Tokens.{view, ids-append}
use cognitora_inference.Infer.Scheduler.Refinement.{step-Reach}

module _ (r : Runtime) where
  unfoldable pub enqueue_all : List (Request r) → Scheduler r → Scheduler r
  enqueue_all [] s = s
  enqueue_all (req ∷ reqs) s = enqueue_all reqs (enqueue r s req)

  abbrev is_idle : Scheduler r → Bool
  is_idle s = length s.waiting == 0 && length s.running == 0

  -- One turn of the loop with the requests that it receives. An idle loop that receives none
  -- blocks, and nothing changes.
  unfoldable pub turn : Scheduler r → List (Request r) → Scheduler r
  unfolding enqueue_all
  turn s reqs = if is_idle s && length reqs == 0 then s else step r (enqueue_all reqs s)

  unfoldable pub run : List (List (Request r)) → Scheduler r → Scheduler r
  unfolding turn
  run [] s = s
  run (reqs ∷ rest) s = run rest (turn s reqs)

  -- Every id below `next_id` was handed out once, and its request stands in one place.
  abbrev pub Accounted : View → Type 0
  Accounted v = (id : ℕ) → accounted id v ≡ (if leb 1 id && ltb id v.next_id then 1 else 0)

  accounted-enqueue :
      (id : ℕ) (s : Scheduler r) (req : Request r)
      → (accounted id (view r (enqueue r s req))
          ≡ (if s.next_id == id then 1 else 0) + accounted id (view r s))
        × ((enqueue r s req).next_id ≡ s.next_id + 1)
        × ((enqueue r s req).cfg.max_batch ≡ s.cfg.max_batch)
  unfolding enqueue send
  accounted-enqueue id s req =
      elim (Bool-cases
        (length req.prompt_tokens == 0 || leb r.max_seq_len (length req.prompt_tokens))) [
          | inl e ↦ (rw e (omega arith), rw e refl, rw e refl)
          | inr e ↦ (rw e (simp (ids-append, count-append) (omega arith)), rw e refl, rw e refl)
        ]

  enqueue-Accounted :
      (s : Scheduler r) (req : Request r)
      → 1 ≤ s.next_id
      → Accounted (view r s)
      → Accounted (view r (enqueue r s req))
  enqueue-Accounted s req pos h = λ id. ground (arith, accounted-enqueue id s req, h id)

  enqueue-IsSafe :
      (s : Scheduler r) (req : Request r) → IsSafe (view r s) → IsSafe (view r (enqueue r s req))
  unfolding enqueue send
  enqueue-IsSafe s req h =
      elim (Bool-cases
        (length req.prompt_tokens == 0 || leb r.max_seq_len (length req.prompt_tokens))) [
          | inl e ↦ rw e (record { fits = h.fits; pool_valid = h.pool_valid; holders = h.holders })
          | inr e ↦ rw e (record { fits = h.fits; pool_valid = h.pool_valid; holders = h.holders })
        ]

  pub record Good (s : Scheduler r) : Type 0 where
    pub started : 1 ≤ s.next_id
    pub limit : s.cfg.max_batch ≤ r.model_max_batch
    pub counted : Accounted (view r s)
    pub safe : IsSafe (view r s)

  enqueue_all-Good :
      (reqs : List (Request r)) (s : Scheduler r) → Good s → Good (enqueue_all reqs s)
  unfolding enqueue_all
  enqueue_all-Good [] s g = g
  enqueue_all-Good (req ∷ reqs) s g = enqueue_all-Good reqs (enqueue r s req) (record {
    started = omega (arith, (accounted-enqueue 0 s req).1, g.started);
    limit = omega (arith, (accounted-enqueue 0 s req).2, g.limit);
    counted = enqueue-Accounted s req g.started g.counted;
    safe = enqueue-IsSafe s req g.safe;
  })

  step-Good : (s : Scheduler r) → Good s → Good (step r s)
  step-Good s g = record {
    started = omega (arith, (Reach-accounted 0 (step-Reach r s)).1, g.started);
    limit = omega (arith, (Reach-accounted 0 (step-Reach r s)).2, g.limit);
    counted = λ id. ground (arith, Reach-accounted id (step-Reach r s), g.counted id);
    safe = Reach-IsSafe (step-Reach r s) g.safe;
  }

  turn-Good : (s : Scheduler r) (reqs : List (Request r)) → Good s → Good (turn s reqs)
  unfolding turn
  turn-Good s reqs g = elim (Bool-cases (is_idle s && length reqs == 0)) [
    | inl e ↦ rw e g
    | inr e ↦ rw e (step-Good (enqueue_all reqs s) (enqueue_all-Good reqs s g))
  ]

  run-Good : (turns : List (List (Request r))) (s : Scheduler r) → Good s → Good (run turns s)
  unfolding run
  run-Good [] s g = g
  run-Good (reqs ∷ rest) s g = run-Good rest (turn s reqs) (turn-Good s reqs g)

  initial-Good : (kv : r.Kv) (cfg : SchedulerConfig) → Good (initial r kv cfg)
  unfolding Pool.new Pool.held_by get
  initial-Good kv cfg = record {
    started = omega arith;
    limit = omega arith;
    counted = λ id. ground arith;
    safe = record {
      fits = omega arith;
      pool_valid = new-IsValid (max (Pool.blocks_for cfg.kv_pool_tokens) 1);
      holders = λ id h. refl;
    };
  }

  new-Good : (kv : r.Kv) (cfg : SchedulerConfig) {s : Scheduler r} → new r kv cfg ≡ some s → Good s
  unfolding new
  new-Good kv cfg {s} e = elim (Bool-cases (r.model_max_batch == 0)) [
    | inl z ↦ absurd (ground arith)
    | inr nz ↦
        let p : initial r kv cfg ≡ s = (let e' = rw nz at e in cc) in
        subst Good p (initial-Good kv cfg)
  ]

  -- After any history, every id handed out so far is in exactly one place, waiting, running or
  -- closed, and once; no other id is anywhere.
  pub run-accounted :
      (kv : r.Kv) (cfg : SchedulerConfig) (turns : List (List (Request r))) {s : Scheduler r}
      → new r kv cfg ≡ some s
      → (id : ℕ)
      → accounted id (view r (run turns s))
        ≡ (if leb 1 id && ltb id (run turns s).next_id then 1 else 0)
  run-accounted kv cfg turns {s} e = (run-Good turns s (new-Good kv cfg e)).counted

  -- After any history, the running sequences fit the configured batch and the runtime's own limit,
  -- the pool's used blocks are the sum of what the sequences hold and at most its total, and a
  -- sequence that does not run holds none.
  pub run-IsSafe :
      (kv : r.Kv) (cfg : SchedulerConfig) (turns : List (List (Request r))) {s : Scheduler r}
      → new r kv cfg ≡ some s
      → IsSafe (view r (run turns s)) × ((run turns s).cfg.max_batch ≤ r.model_max_batch)
  run-IsSafe kv cfg turns {s} e = let g = run-Good turns s (new-Good kv cfg e) in (g.safe, g.limit)
