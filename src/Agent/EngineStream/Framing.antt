-- ===== src/Agent/EngineStream/Framing.antt =====
-- Where the frames of rust/services/cgn-agent/src/engine/openai_http.rs end.
use cognitora_inference.Prelude.{
  ℕ, suc, zero, ◌≤◌, ◌≡◌, refl, sym, ◌∙◌, none, some, List, [], ◌∷◌, ◌++◌, ◌⊎◌, length, take, drop,
  arith, Option-cases, inl, inr, length-drop,
}
use cognitora_inference.Agent.EngineStream.{
  Decoder, Reader, Progress, going, over, Verdict, find_frame_end, frame_step, drain,
}

-- A frame has at least two bytes, all of them read.
pub find_frame_end_bounds :
    (buf : List ℕ) (e : ℕ) → find_frame_end buf ≡ some e → (2 ≤ e) × (e ≤ length buf)
unfolding find_frame_end
find_frame_end_bounds [] e h = absurd (ground (arith, h))
find_frame_end_bounds (a ∷ []) e h = absurd (ground (arith, h))
find_frame_end_bounds (a ∷ b ∷ []) e h = ground (arith, h)
find_frame_end_bounds (a ∷ b ∷ c ∷ buf) e h = elim (Option-cases (find_frame_end (b ∷ c ∷ buf))) [
  | inl n ↦ ground (arith, h, n)
  | inr (i, s) ↦ ground (arith, h, s, find_frame_end_bounds (b ∷ c ∷ buf) i s)
]

-- More bytes do not move an end that is found.
pub find_frame_end-append :
    (buf more : List ℕ) (e : ℕ)
    → find_frame_end buf ≡ some e
    → find_frame_end (buf ++ more) ≡ some e
unfolding find_frame_end
find_frame_end-append [] more e h = absurd (ground (arith, h))
find_frame_end-append (a ∷ []) more e h = absurd (ground (arith, h))
find_frame_end-append (a ∷ b ∷ []) [] e h = h
find_frame_end-append (a ∷ b ∷ []) (c ∷ more) e h = ground (arith, h)
find_frame_end-append (a ∷ b ∷ c ∷ buf) more e h =
    elim (Option-cases (find_frame_end (b ∷ c ∷ buf))) [
      | inl n ↦ ground (arith, h, n)
      | inr (i, s) ↦ ground (arith, h, s, find_frame_end-append (b ∷ c ∷ buf) more i s)
    ]

pub none_in_empty : find_frame_end [] ≡ none
unfolding find_frame_end
none_in_empty = refl

module _ (decoder : Decoder) where
  -- One round of the loop.
  abbrev pub round : Progress decoder → List ℕ → ℕ → Progress decoder × List ℕ
  round (over r v) rest fuel = (over r v, rest)
  round (going r) rest fuel = drain decoder fuel rest r

  pub Progress-cases :
      (p : Progress decoder)
      → ((r : Reader decoder) × (p ≡ going r))
        ⊎ ((r : Reader decoder) × (v : Verdict) × (p ≡ over r v))
  Progress-cases (going r) = inl (r, refl)
  Progress-cases (over r v) = inr (r, v, refl)

  pub drain-some :
      (fuel : ℕ) (buf : List ℕ) (r : Reader decoder) (e : ℕ)
      → find_frame_end buf ≡ some e
      → drain decoder (suc fuel) buf r ≡ round (frame_step decoder (take e buf) r) (drop e buf) fuel
  unfolding drain
  drain-some fuel buf r e h = elim (Progress-cases (frame_step decoder (take e buf) r)) [
    | inl (r', p) ↦ ground (arith, h, p)
    | inr (r', v, p) ↦ ground (arith, h, p)
  ]

  pub drain-none :
      (fuel : ℕ) (buf : List ℕ) (r : Reader decoder)
      → find_frame_end buf ≡ none
      → drain decoder fuel buf r ≡ (going r, buf)
  unfolding drain
  drain-none zero buf r h = refl
  drain-none (suc fuel) buf r h = ground (arith, h)

  -- Any fuel that is enough gives the same.
  pub drain-fuel :
      (f g : ℕ) (buf : List ℕ) (r : Reader decoder)
      → length buf ≤ f
      → length buf ≤ g
      → drain decoder f buf r ≡ drain decoder g buf r
  drain-fuel zero g [] r lf lg =
      drain-none zero [] r none_in_empty ∙ sym (drain-none g [] r none_in_empty)
  drain-fuel zero g (b ∷ buf) r lf lg = absurd (omega arith)
  drain-fuel (suc f) zero [] r lf lg =
      drain-none (suc f) [] r none_in_empty ∙ sym (drain-none zero [] r none_in_empty)
  drain-fuel (suc f) zero (b ∷ buf) r lf lg = absurd (omega arith)
  drain-fuel (suc f) (suc g) buf r lf lg = elim (Option-cases (find_frame_end buf)) [
    | inl n ↦ drain-none (suc f) buf r n ∙ sym (drain-none (suc g) buf r n)
    | inr (e, s) ↦
        let (two, within) = find_frame_end_bounds buf e s in
        let shorter = length-drop e buf in
        let next : (p : Progress decoder) → round p (drop e buf) f ≡ round p (drop e buf) g = λ p.
          elim p as (λ q. round q (drop e buf) f ≡ round q (drop e buf) g) [
            | going r' ↦
                drain-fuel f g (drop e buf) r' (omega (arith, shorter, two, lf))
                  (omega (arith, shorter, two, lg))
            | over r' v ↦ refl
          ] in
        drain-some f buf r e s
        ∙ next (frame_step decoder (take e buf) r)
        ∙ sym (drain-some g buf r e s)
  ]
