-- ===== src/Infer/Scheduler/View.antt =====
-- The scheduler of rust/services/cgn-infer/src/scheduler/mod.rs seen from outside: which requests
-- wait, run or are closed, and the block pool. The specification is a step relation on that view.
use cognitora_inference.Prelude.{
  ℕ, suc, ◌+◌, ◌≤◌, ◌<◌, ◌≡◌, refl, ap, ◌∙◌, ◌≢◌, true, List, [], ◌∷◌, ◌++◌, arith, some, length,
  get_elem?, remove_at, count, count-append, count-remove_at, ℕ_discrete, length-append,
  length-remove_at-le,
}
use cognitora_inference.Infer.Pool.{KvPool}
use cognitora_inference.Infer.Pool
use cognitora_inference.Infer.Pool.Laws.{
  IsValid, reserve-IsValid, release-IsValid, reserve_lem, release_lem,
}

pub record View : Type 0 where
  pub waiting : List ℕ
  pub running : List ℕ
  pub done : List ℕ
  pub pool : KvPool
  pub max_batch : ℕ
  pub next_id : ℕ

-- What the scheduler may do to the view.
pub data Step (v w : View) : Type 0 where
  admits :
      (id tokens : ℕ) (rest : List ℕ)
      → v.waiting ≡ id ∷ rest
      → length v.running < v.max_batch
      → (Pool.reserve v.pool id tokens).0 ≡ true
      → w ≡ record v {
        waiting = rest;
        running = v.running ++ id ∷ [];
        pool = (Pool.reserve v.pool id tokens).1;
      }
      → Step v w
  grows :
      (id tokens : ℕ)
      → 0 < count id v.running
      → w ≡ record v { pool = (Pool.reserve v.pool id tokens).1 }
      → Step v w
  preempts :
      (i id : ℕ)
      → get_elem? v.running i ≡ some id
      → w ≡ record v {
        running = remove_at v.running i;
        waiting = id ∷ v.waiting;
        pool = Pool.release v.pool id;
      }
      → Step v w
  retires :
      (i id : ℕ)
      → get_elem? v.running i ≡ some id
      → w ≡ record v {
        running = remove_at v.running i;
        done = id ∷ v.done;
        pool = Pool.release v.pool id;
      }
      → Step v w

pub data Reach (v : View) : View → Type 0 where
  here : Reach v v
  next : {w u : View} → Reach v w → Step w u → Reach v u

pub Reach-trans : {u v w : View} → Reach u v → Reach v w → Reach u w
Reach-trans p here = p
Reach-trans p (next q s) = next (Reach-trans p q) s

pub Reach-one : {v w : View} → Step v w → Reach v w
Reach-one s = next here s

-- How often `id` waits, runs or has been closed.
abbrev pub accounted : ℕ → View → ℕ
accounted id v = count id v.waiting + count id v.running + count id v.done

pub record IsSafe (v : View) : Type 0 where
  pub fits : length v.running ≤ v.max_batch
  pub pool_valid : IsValid v.pool
  pub holders : (id : ℕ) → count id v.running ≡ 0 → Pool.held_by v.pool id ≡ 0

accounted-Step : (id : ℕ) {v w : View} → Step v w → accounted id w ≡ accounted id v
accounted-Step id {v} (admits j t rest e l f q) =
    rw q (ground (arith, count-append id v.running (j ∷ []), ap (count id) e))
accounted-Step id (grows j t e q) = rw q refl
accounted-Step id {v} (preempts i j e q) = rw q (ground (arith, count-remove_at id v.running i e))
accounted-Step id {v} (retires i j e q) = rw q (ground (arith, count-remove_at id v.running i e))

abbrev Keeps : View → View → Type 0
Keeps v w = (w.next_id ≡ v.next_id) × (w.max_batch ≡ v.max_batch)

Keeps-Step : {v w : View} → Step v w → Keeps v w
Keeps-Step (admits j t rest e l f q) = rw q (refl, refl)
Keeps-Step (grows j t e q) = rw q (refl, refl)
Keeps-Step (preempts i j e q) = rw q (refl, refl)
Keeps-Step (retires i j e q) = rw q (refl, refl)

pub Reach-accounted :
    (id : ℕ) {v w : View}
    → Reach v w
    → (accounted id w ≡ accounted id v) × (w.next_id ≡ v.next_id) × (w.max_batch ≡ v.max_batch)
Reach-accounted id here = (refl, refl, refl)
Reach-accounted id (next p s) =
    let (a, n, m) = Reach-accounted id p in
    let (n', m') = Keeps-Step s in (accounted-Step id s ∙ a, n' ∙ n, m' ∙ m)

-- A reservation for `j` changes nobody else's share.
reserve_other :
    (p : KvPool) (j id t : ℕ) → j ≢ id → Pool.held_by (Pool.reserve p j t).1 id ≡ Pool.held_by p id
reserve_other p j id t ne = (reserve_lem p j id t ne).3

release_other :
    (p : KvPool) (j id : ℕ)
    → IsValid p
    → (j ≢ id → Pool.held_by p id ≡ 0)
    → Pool.held_by (Pool.release p j) id ≡ 0
release_other p j id v h = elim (ℕ_discrete j id) [
  | yes e ↦ rw (← e) (release_lem p j (suc j) v (omega arith)).1
  | no ne ↦ (release_lem p j id v ne).2 ∙ h ne
]

IsSafe-Step : {v w : View} → Step v w → IsSafe v → IsSafe w
IsSafe-Step {v} (admits j t rest e l f q) s = rw q (record {
  fits = ground (arith, length-append v.running (j ∷ []));
  pool_valid = reserve-IsValid v.pool j t s.pool_valid;
  holders = λ id none_run.
      ground (arith, count-append id v.running (j ∷ []), reserve_other v.pool j id t, s.holders id);
})
IsSafe-Step {v} (grows j t e q) s = rw q (record {
  fits = s.fits;
  pool_valid = reserve-IsValid v.pool j t s.pool_valid;
  holders = λ id none_run. ground (arith, reserve_other v.pool j id t, s.holders id);
})
IsSafe-Step {v} (preempts i j e q) s = rw q (record {
  fits = omega (arith, length-remove_at-le v.running i, s.fits);
  pool_valid = release-IsValid v.pool j s.pool_valid;
  holders = λ id none_run.
      release_other v.pool j id s.pool_valid
        λ ne. s.holders id (ground (arith, count-remove_at id v.running i e));
})
IsSafe-Step {v} (retires i j e q) s = rw q (record {
  fits = omega (arith, length-remove_at-le v.running i, s.fits);
  pool_valid = release-IsValid v.pool j s.pool_valid;
  holders = λ id none_run.
      release_other v.pool j id s.pool_valid
        λ ne. s.holders id (ground (arith, count-remove_at id v.running i e));
})

-- The specification keeps the batch within its limit, the pool's books in order, and blocks in the
-- hands of running sequences only.
pub Reach-IsSafe : {v w : View} → Reach v w → IsSafe v → IsSafe w
Reach-IsSafe here s = s
Reach-IsSafe (next p st) s = IsSafe-Step st (Reach-IsSafe p s)
