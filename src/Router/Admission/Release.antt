-- ===== src/Router/Admission/Release.antt =====
-- How a slot of rust/services/cgn-router/src/admission.rs passes on.
use cognitora_inference.Prelude.{
  ℕ, suc, zero, ◌+◌, ◌-◌, ◌≤◌, ◌<◌, ◌≡◌, refl, ◌∙◌, sym, inl, inr, Bool, true, Option, none, some,
  List, [], ◌∷◌, ◌++◌, arith, if◌then◌else◌, length, Bool-cases, Option-cases, length-append,
}
use mathlib.Core.Path.{subst}
use mathlib.Core.List.{append-nil}
use mathlib.Core.Logic.{if_pos, if_neg}
use cognitora_inference.Prelude.Maps.{get, insert, remove, get-insert, get-remove}
use cognitora_inference.Router.Admission.{
  Limits, PoolInner, is_empty, queue_of, take_turn, is_live, release_loop, queued, release,
}
use cognitora_inference.Router.Admission.Invariant.{IsValid, Matches, turns, turns-append}

module _ {T : Type 0} (dec : Discrete T) where
  take_turn-indexed :
      (tenant : T) (rest : List T) (queue : List ℕ) (p : PoolInner T)
      → ((t : T) → Matches dec (get dec t p.waiting) (turns dec t (tenant ∷ rest)))
      → get dec tenant p.waiting ≡ some queue
      → (t : T)
      → Matches dec
          (get dec t (take_turn dec tenant rest queue p).1.waiting)
          (turns dec t (take_turn dec tenant rest queue p).1.turn)
  unfolding take_turn
  take_turn-indexed tenant rest [] p ix g t = absurd (rw g at (ix tenant))
  take_turn-indexed tenant rest (w ∷ []) p ix g t =
      let one : turns dec tenant (tenant ∷ rest) ≡ 1 = rw g at (ix tenant) in
      rw (get-remove dec tenant t p.waiting) (elim (dec tenant t) [
        | yes e ↦ rw (if_pos _ e) (ground arith)
        | no ne ↦
            let same : turns dec t rest ≡ turns dec t (tenant ∷ rest) = ground arith in
            rw (if_neg _ ne) (rw same (ix t))
      ])
  take_turn-indexed tenant rest (w ∷ w' ∷ ws) p ix g t =
      let one : turns dec tenant (tenant ∷ rest) ≡ 1 = rw g at (ix tenant) in
      rw (get-insert dec tenant t (w' ∷ ws) p.waiting) (elim (dec tenant t) [
        | yes e ↦ rw (if_pos _ e) (ground (arith, turns-append dec t rest (tenant ∷ [])))
        | no ne ↦
            let same : turns dec t (rest ++ tenant ∷ []) ≡ turns dec t (tenant ∷ rest) =
              ground (arith, turns-append dec t rest (tenant ∷ [])) in
            rw (if_neg _ ne) (rw same (ix t))
      ])

  queued-remove-le :
      (tenant : T) (m : List (T × List ℕ)) → queued dec (remove dec tenant m) ≤ queued dec m
  unfolding remove queued
  queued-remove-le tenant [] = omega arith
  queued-remove-le tenant ((t, q) ∷ m) = ground (arith, queued-remove-le tenant m)

  queued-remove :
      (tenant : T) (m : List (T × List ℕ)) (queue : List ℕ)
      → get dec tenant m ≡ some queue
      → queued dec (remove dec tenant m) + length queue ≤ queued dec m
  unfolding get remove queued
  queued-remove tenant [] queue g = absurd (ground arith)
  queued-remove tenant ((t, q) ∷ m) queue g = elim (dec t tenant) [
    | yes e ↦ ground (arith, queued-remove-le tenant m)
    | no ne ↦ ground (arith, queued-remove tenant m queue)
  ]

  queued-insert :
      (tenant : T) (q' : List ℕ) (m : List (T × List ℕ)) (queue : List ℕ)
      → get dec tenant m ≡ some queue
      → queued dec (insert dec tenant q' m) + length queue ≡ queued dec m + length q'
  unfolding get insert queued
  queued-insert tenant q' [] queue g = absurd (ground arith)
  queued-insert tenant q' ((t, q) ∷ m) queue g = ground (arith, queued-insert tenant q' m queue)

  -- A turn taken leaves less to look through.
  take_turn-less :
      (tenant : T) (rest : List T) (queue : List ℕ) (p : PoolInner T)
      → get dec tenant p.waiting ≡ some queue
      → let q = (take_turn dec tenant rest queue p).1 in
        length q.turn + queued dec q.waiting < suc (length rest) + queued dec p.waiting
  unfolding take_turn
  take_turn-less tenant rest [] p g = omega (arith, queued-remove-le tenant p.waiting)
  take_turn-less tenant rest (w ∷ []) p g = omega (arith, queued-remove-le tenant p.waiting)
  take_turn-less tenant rest (w ∷ w' ∷ ws) p g = omega (
    arith,
    queued-insert tenant (w' ∷ ws) p.waiting (w ∷ w' ∷ ws) g,
    length-append rest (tenant ∷ []),
  )

  take_turn-inflight :
      (tenant : T) (rest : List T) (queue : List ℕ) (p : PoolInner T)
      → (take_turn dec tenant rest queue p).1.inflight ≡ p.inflight
  unfolding take_turn
  take_turn-inflight tenant rest [] p = refl
  take_turn-inflight tenant rest (w ∷ []) p = refl
  take_turn-inflight tenant rest (w ∷ w' ∷ ws) p = refl

  -- The slot went to a live waiter and stays counted, or nobody waits any more and it is free.
  abbrev pub Passed : (ℕ → Bool) → PoolInner T → Option ℕ × PoolInner T → Type 0
  Passed live p (none, q) = (q.inflight ≡ p.inflight - 1) × (q.turn ≡ [])
  Passed live p (some w, q) = (q.inflight ≡ p.inflight) × (live w ≡ true)

  Passed-on :
      (live : ℕ → Bool) (p q : PoolInner T) (r : Option ℕ × PoolInner T)
      → q.inflight ≡ p.inflight
      → Passed live q r
      → Passed live p r
  Passed-on live p q (none, t) e h = ground arith
  Passed-on live p q (some x, t) e h = ground arith

  -- A waiter that is live gets the slot; else the loop goes on.
  Passed-served :
      (limits : Limits) (live : ℕ → Bool) (o : Option ℕ) (p q : PoolInner T)
      (r : Option ℕ × PoolInner T)
      → IsValid dec limits q
      → q.inflight ≡ p.inflight
      → IsValid dec limits r.1 × Passed live q r
      → let result = (if is_live dec live o then (o, q) else r) in
        IsValid dec limits result.1 × Passed live p result
  Passed-served limits live none p q r v e (w, h) = (w, Passed-on live p q r e h)
  Passed-served limits live (some x) p q r v e (w, h) = elim (Bool-cases (live x)) [
    | inl l ↦ rw l (v, (e, l))
    | inr d ↦ rw d (w, Passed-on live p q r e h)
  ]

  release_loop_lem :
      (limits : Limits) (fuel : ℕ) (live : ℕ → Bool) (turn : List T) (p : PoolInner T)
      → IsValid dec limits p
      → p.turn ≡ turn
      → length turn + queued dec p.waiting < fuel
      → IsValid dec limits (release_loop dec fuel live turn p).1
        × Passed live p (release_loop dec fuel live turn p)
  unfolding release_loop
  release_loop_lem limits zero live turn p v t lt = absurd (omega arith)
  release_loop_lem limits (suc fuel) live [] p v t lt = (
    record {
      bounded = omega (arith, v.bounded);
      busy = λ z. cc;
      indexed = λ u. rw t at (v.indexed u);
    },
    (refl, refl),
  )
  release_loop_lem limits (suc fuel) live (tenant ∷ rest) p v t lt =
      elim (Option-cases (get dec tenant p.waiting)) [
        | inl e ↦
            let none_left : turns dec tenant p.turn ≡ 0 = rw e at (v.indexed tenant) in
            let here : turns dec tenant (tenant ∷ rest) ≡ 0 = rw t at none_left in
            absurd (ground arith)
        | inr (queue, e) ↦
            let q = (take_turn dec tenant rest queue p).1 in
            let same = take_turn-inflight tenant rest queue p in
            let valid : IsValid dec limits q = record {
              bounded = omega (arith, same, v.bounded);
              busy = λ _. same ∙ v.busy (rw t refl);
              indexed = take_turn-indexed tenant rest queue p (λ u. rw t at (v.indexed u)) e;
            } in
            rw (e, release_loop)
              (Passed-served limits live (take_turn dec tenant rest queue p).0 p q _ valid same (
                release_loop_lem limits fuel live q.turn q valid refl
                  (omega (arith, take_turn-less tenant rest queue p e))))
      ]

  -- Giving a slot back keeps the books. It goes to a waiter that is still there and stays counted,
  -- or, if no waiter is left, the count falls by one; the loop always ends.
  pub release-IsValid :
      (limits : Limits) (live : ℕ → Bool) (p : PoolInner T)
      → IsValid dec limits p
      → IsValid dec limits (release dec live p).1 × Passed live p (release dec live p)
  unfolding release
  release-IsValid limits live p v =
      release_loop_lem limits (suc (length p.turn + queued dec p.waiting)) live p.turn p v refl
        (omega arith)

  release_loop-first :
      (fuel : ℕ) (live : ℕ → Bool) (p : PoolInner T) (tenant : T) (rest : List T) (w : ℕ)
      (ws : List ℕ)
      → get dec tenant p.waiting ≡ some (w ∷ ws)
      → live w ≡ true
      → release_loop dec (suc fuel) live (tenant ∷ rest) p ≡ take_turn dec tenant rest (w ∷ ws) p
  unfolding release_loop take_turn
  release_loop-first fuel live p tenant rest w [] g l = rw (g, release_loop) (rw l)
  release_loop-first fuel live p tenant rest w (w' ∷ ws) g l = rw (g, release_loop) (rw l)

  release-take_turn :
      (live : ℕ → Bool) (p : PoolInner T) (tenant : T) (rest : List T) (w : ℕ) (ws : List ℕ)
      → p.turn ≡ tenant ∷ rest
      → get dec tenant p.waiting ≡ some (w ∷ ws)
      → live w ≡ true
      → release dec live p ≡ take_turn dec tenant rest (w ∷ ws) p
  unfolding release
  release-take_turn live p tenant rest w ws t g l =
      let fuel = length p.turn + queued dec p.waiting in
      subst (λ ts. release_loop dec (suc fuel) live ts p ≡ take_turn dec tenant rest (w ∷ ws) p)
        (sym t) (release_loop-first fuel live p tenant rest w ws g l)

  -- The tenant at the front of the line is served first, with its oldest request if that still
  -- waits; it then goes behind all other tenants, or leaves the line if it has no more.
  pub release-rotates :
      (live : ℕ → Bool) (p : PoolInner T) (tenant : T) (rest : List T) (w : ℕ) (ws : List ℕ)
      → p.turn ≡ tenant ∷ rest
      → get dec tenant p.waiting ≡ some (w ∷ ws)
      → live w ≡ true
      → ((release dec live p).0 ≡ some w)
        × ((release dec live p).1.turn ≡ rest ++ (if is_empty ws then [] else tenant ∷ []))
        × (queue_of dec tenant (release dec live p).1 ≡ ws)
  unfolding take_turn
  release-rotates live p tenant rest w [] t g l =
      rw (release-take_turn live p tenant rest w [] t g l) (
        refl,
        sym (append-nil rest),
        ground (arith, get-remove {V = List ℕ} dec tenant tenant p.waiting),
      )
  release-rotates live p tenant rest w (w' ∷ ws) t g l =
      rw (release-take_turn live p tenant rest w (w' ∷ ws) t g l)
        (refl, refl, ground (arith, get-insert {V = List ℕ} dec tenant tenant (w' ∷ ws) p.waiting))
