-- ===== src/Infer/Text/Laws.antt =====
-- What `held_back_len` of rust/services/cgn-infer/src/scheduler/mod.rs computes.
use cognitora_inference.Prelude.{
  ℕ, suc, zero, ◌+◌, ◌≤◌, ◌<◌, ◌≡◌, refl, ◌⊎◌, inl, inr, Bool, true, false, ◌&&◌, List, [], ◌∷◌,
  arith, ltb, if◌then◌else◌, length, any, Bool-cases,
}
use cognitora_inference.Infer.Text.{starts_with, is_char_start, hold_for, hold_all, held_back_len}

-- At the byte `i` of the text a character begins, and the rest of the text begins `stop`.
abbrev pub holds_back : List ℕ → ℕ → List ℕ → Bool
holds_back [] i stop = false
holds_back (c ∷ cs) zero stop = is_char_start c && starts_with stop (c ∷ cs)
holds_back (c ∷ cs) (suc i) stop = holds_back cs i stop

holds_back-lt :
    (text : List ℕ) (i : ℕ) (stop : List ℕ) → holds_back text i stop ≡ true → i < length text
holds_back-lt [] i stop h = absurd (ground arith)
holds_back-lt (c ∷ cs) zero stop h = omega arith
holds_back-lt (c ∷ cs) (suc i) stop h = omega (arith, holds_back-lt cs i stop h)

hold_for-le :
    (stop : List ℕ) (start : ℕ) (text : List ℕ) (safe : ℕ) → hold_for stop start text safe ≤ safe
unfolding hold_for
hold_for-le stop start [] safe = omega arith
hold_for-le stop start (c ∷ cs) safe =
    let safe' =
      if is_char_start c && (starts_with stop (c ∷ cs) && ltb start safe) then start else safe in
    let step : safe' ≤ safe = ground arith in
    omega (arith, hold_for-le stop (suc start) cs safe', step)

hold_for-least :
    (stop : List ℕ) (start : ℕ) (text : List ℕ) (safe i : ℕ)
    → holds_back text i stop ≡ true
    → hold_for stop start text safe ≤ start + i
unfolding hold_for
hold_for-least stop start [] safe i h = absurd (ground arith)
hold_for-least stop start (c ∷ cs) safe zero h =
    let safe' =
      if is_char_start c && (starts_with stop (c ∷ cs) && ltb start safe) then start else safe in
    let step : safe' ≤ start = ground arith in
    omega (arith, hold_for-le stop (suc start) cs safe', step)
hold_for-least stop start (c ∷ cs) safe (suc i) h =
    omega (arith, hold_for-least stop (suc start) cs _ i h)

hold_for-attained :
    (stop : List ℕ) (start : ℕ) (text : List ℕ) (safe : ℕ)
    → (hold_for stop start text safe ≡ safe)
      ⊎ ((i : ℕ) × (hold_for stop start text safe ≡ start + i) × (holds_back text i stop ≡ true))
unfolding hold_for
hold_for-attained stop start [] safe = inl refl
hold_for-attained stop start (c ∷ cs) safe =
    elim (Bool-cases (is_char_start c && (starts_with stop (c ∷ cs) && ltb start safe))) [
      | inl e ↦ rw e (elim (hold_for-attained stop (suc start) cs start) [
        | inl q ↦ inr (0, omega (arith, q), ground arith)
        | inr (i, q, h) ↦ inr (suc i, omega (arith, q), h)
      ])
      | inr e ↦ rw e (elim (hold_for-attained stop (suc start) cs safe) [
        | inl q ↦ inl q
        | inr (i, q, h) ↦ inr (suc i, omega (arith, q), h)
      ])
    ]

hold_all_lem :
    (text : List ℕ) (stops : List (List ℕ)) (safe : ℕ)
    → (hold_all text stops safe ≤ safe)
      × ((i : ℕ) → any (holds_back text i) stops ≡ true → hold_all text stops safe ≤ i)
      × ((hold_all text stops safe ≡ safe)
          ⊎ (any (holds_back text (hold_all text stops safe)) stops ≡ true))
unfolding hold_all
hold_all_lem text [] safe = (omega arith, λ i h. absurd (ground arith), inl refl)
hold_all_lem text (stop ∷ stops) safe =
    let safe' = hold_for stop 0 text safe in
    let (below, least, attained) = hold_all_lem text stops safe' in
    (
      omega (arith, below, hold_for-le stop 0 text safe),
      λ i h. elim (Bool-cases (holds_back text i stop)) [
        | inl e ↦ omega (arith, below, hold_for-least stop 0 text safe i e)
        | inr e ↦ least i (ground arith)
      ],
      elim attained [
        | inr found ↦ inr (ground arith)
        | inl q ↦ elim (hold_for-attained stop 0 text safe) [
          | inl p ↦ inl (omega (arith, q, p))
          | inr (i, p, h) ↦
              let at : hold_all text stops safe' ≡ i = omega (arith, q, p) in inr (rw at (rw h))
        ]
      ],
    )

-- The held-back length is the least byte offset at which a character begins and the rest of the
-- text begins one of the stop strings; it is the length of the text if there is none.
pub held_back_len-least :
    (text : List ℕ) (stops : List (List ℕ)) (i : ℕ)
    → (held_back_len text stops ≤ length text)
      × ((ltb i (held_back_len text stops) && any (holds_back text i) stops) ≡ false)
      × ((held_back_len text stops ≡ length text)
          ⊎ (any (holds_back text (held_back_len text stops)) stops ≡ true))
unfolding held_back_len
held_back_len-least text stops i =
    let (below, least, attained) = hold_all_lem text stops (length text) in
    (
      below,
      elim (Bool-cases (any (holds_back text i) stops)) [
        | inl e ↦ ground (arith, least i e)
        | inr e ↦ ground (arith, e)
      ],
      attained,
    )
