-- ===== src/Router/Admission/Invariant.antt =====
-- What the slot pool of rust/services/cgn-router/src/admission.rs keeps.
use cognitora_inference.Prelude.{
  ℕ, ◌+◌, ◌≤◌, ◌≡◌, ◌≢◌, refl, inl, inr, false, ◌||◌, not, Option, none, some, List, [], ◌∷◌, ◌++◌,
  arith, leb, ◌==◌, if◌then◌else◌, length, Bool-cases,
}
use mathlib.Core.Path.{subst}
use mathlib.Core.Logic.{ite, if_pos, if_neg}
use cognitora_inference.Prelude.Maps.{get, insert, remove, get-insert, get-remove}
use cognitora_inference.Router.Admission.{
  Limits, PoolInner, is_empty, or_empty, after, has_slot, try_admit, queue_of, park,
}

module _ {T : Type 0} (dec : Discrete T) where
  abbrev pub turns : T → List T → ℕ
  turns t [] = 0
  turns t (u ∷ us) = ite (dec u t) 1 0 + turns t us

  pub turns-append : (t : T) (us vs : List T) → turns t (us ++ vs) ≡ turns t us + turns t vs
  turns-append t [] vs = omega arith
  turns-append t (u ∷ us) vs = omega (arith, turns-append t us vs)

  -- A tenant has a turn exactly while it has a queue, and no queue is empty.
  abbrev pub Matches : Option (List ℕ) → ℕ → Type 0
  Matches none n = n ≡ 0
  Matches (some []) n = ⊥
  Matches (some (w ∷ ws)) n = n ≡ 1

  pub record IsValid (limits : Limits) (p : PoolInner T) : Type 0 where
    pub bounded : p.inflight ≤ limits.max_queue
    pub busy : is_empty p.turn ≡ false → p.inflight ≡ limits.max_queue
    pub indexed : (t : T) → Matches (get dec t p.waiting) (turns t p.turn)

  Matches-queue :
      (o : Option (List ℕ)) (n : ℕ) → Matches o n → length (or_empty o) ≡ 0 → (o ≡ none) × (n ≡ 0)
  Matches-queue none n m e = (refl, m)
  Matches-queue (some []) n m e = absurd m
  Matches-queue (some (w ∷ ws)) n m e = absurd (omega arith)

  Matches-some : (o : Option (List ℕ)) (n : ℕ) → Matches o n → length (or_empty o) ≢ 0 → n ≡ 1
  Matches-some none n m e = absurd (e refl)
  Matches-some (some []) n m e = absurd m
  Matches-some (some (w ∷ ws)) n m e = m

  Matches-snoc : (ws : List ℕ) (w n : ℕ) → n ≡ 1 → Matches (some (ws ++ w ∷ [])) n
  Matches-snoc [] w n e = e
  Matches-snoc (x ∷ ws) w n e = e

  park-indexed :
      (tenant : T) (w : ℕ) (p : PoolInner T)
      → ((t : T) → Matches (get dec t p.waiting) (turns t p.turn))
      → (t : T)
      → Matches
          (get dec t (insert dec tenant (queue_of dec tenant p ++ w ∷ []) p.waiting))
          (turns t (if length (queue_of dec tenant p) == 0 then p.turn ++ tenant ∷ [] else p.turn))
  park-indexed tenant w p ix t =
      rw (get-insert dec tenant t (queue_of dec tenant p ++ w ∷ []) p.waiting)
        (elim (dec tenant t) [
          | yes e ↦ rw (if_pos _ e) (
              Matches-snoc (queue_of dec tenant p) w _
                (elim (Bool-cases (length (queue_of dec tenant p) == 0)) [
                  | inl z ↦
                      let (_, none_yet) = Matches-queue _ _ (ix tenant) (ground arith) in
                      rw z (ground (arith, turns-append t p.turn (tenant ∷ []), none_yet))
                  | inr nz ↦ rw nz (rw (← e) (Matches-some _ _ (ix tenant) (ground arith)))
                ]))
          | no ne ↦ rw (if_neg _ ne) (elim (Bool-cases (length (queue_of dec tenant p) == 0)) [
            | inl z ↦
                let same : turns t (p.turn ++ tenant ∷ []) ≡ turns t p.turn =
                  ground (arith, turns-append t p.turn (tenant ∷ [])) in
                rw z (rw same (ix t))
            | inr nz ↦ rw nz (ix t)
          ])
        ])

  remove-indexed :
      (tenant : T) (p : PoolInner T)
      → ((t : T) → Matches (get dec t p.waiting) (turns t p.turn))
      → length (queue_of dec tenant p) ≡ 0
      → (t : T) → Matches (get dec t (remove dec tenant p.waiting)) (turns t p.turn)
  remove-indexed tenant p ix e t = rw (get-remove dec tenant t p.waiting) (elim (dec tenant t) [
    | yes q ↦ rw (if_pos _ q) (rw (← q) (Matches-queue _ _ (ix tenant) e).1)
    | no ne ↦ rw (if_neg _ ne) (ix t)
  ])

  -- Without a free slot the pool is exactly full.
  no_slot :
      (limits : Limits) (p : PoolInner T)
      → IsValid limits p
      → has_slot dec limits p ≡ false
      → p.inflight ≡ limits.max_queue
  unfolding has_slot
  no_slot limits p v e = elim (Bool-cases (is_empty p.turn)) [
    | inl z ↦ ground (arith, v.bounded)
    | inr nz ↦ v.busy nz
  ]

  -- The locked part of `admit` keeps the pool's books: at most `max_queue` slots are out, all of
  -- them while anybody waits, and a tenant has one turn exactly while its queue is not empty.
  park-IsValid :
      (limits : Limits) (tenant : T) (w : ℕ) (p : PoolInner T)
      → IsValid limits p
      → IsValid limits (after (park dec limits tenant w p))
  unfolding park has_slot
  park-IsValid limits tenant w p v = elim (Bool-cases (has_slot dec limits p)) [
    | inl e ↦
        rw (e, park) (record { bounded = ground arith; busy = ground arith; indexed = v.indexed })
    | inr e ↦
        elim (Bool-cases (leb limits.wait_queue_per_tenant (length (queue_of dec tenant p)))) [
          | inl full ↦ elim (Bool-cases (is_empty (queue_of dec tenant p))) [
            | inl z ↦
                rw (e, park)
                  (rw full (
                    rw z (record {
                      bounded = v.bounded;
                      busy = v.busy;
                      indexed = remove-indexed tenant p v.indexed (ground arith);
                    })))
            | inr nz ↦ rw (e, park) (rw full (rw nz v))
          ]
          | inr room ↦
              rw (e, park)
                (rw room (record {
                  bounded = v.bounded;
                  busy = λ q. no_slot limits p v e;
                  indexed = park-indexed tenant w p v.indexed;
                }))
        ]
  ]

  try_admit-IsValid :
      (limits : Limits) (p : PoolInner T) {q : PoolInner T}
      → IsValid limits p
      → try_admit dec limits p ≡ some q
      → IsValid limits q × (q.inflight ≡ p.inflight + 1)
  unfolding try_admit
  try_admit-IsValid limits p {q} v e =
      elim (Bool-cases (leb limits.max_queue p.inflight || not (is_empty p.turn))) [
        | inl full ↦ absurd (ground arith)
        | inr free ↦
            let p' : PoolInner T = record p { inflight = p.inflight + 1 } in
            let e' = rw free at e in
            let made : p' ≡ q = cc in
            subst (λ q. IsValid limits q × (q.inflight ≡ p.inflight + 1)) made
              (record { bounded = ground arith; busy = ground arith; indexed = v.indexed }, refl)
      ]
