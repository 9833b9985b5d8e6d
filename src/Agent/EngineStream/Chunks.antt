-- ===== src/Agent/EngineStream/Chunks.antt =====
-- How the connection cuts the stream of rust/services/cgn-agent/src/engine/openai_http.rs does not
-- matter.
use cognitora_inference.Prelude.{
  false, ℕ, suc, zero, ◌≤◌, ◌≡◌, refl, sym, ap, ◌∙◌, Option, some, List, [], ◌∷◌, ◌++◌, length,
  take, drop, map, arith, Option-cases, inl, inr, length-drop, length-append, take-front,
  drop-front,
}
use mathlib.Core.List.{append_assoc, append-nil}
use cognitora_inference.Agent.EngineStream.{
  Decoder, Reader, Progress, Verdict, going, over, find_frame_end, frame_step, drain, read,
  generate,
}
use cognitora_inference.Agent.EngineStream.Framing.{
  find_frame_end_bounds, find_frame_end-append, none_in_empty, round, drain-some, drain-none,
  drain-fuel, Progress-cases,
}

abbrev pub concat : List (List ℕ) → List ℕ
concat [] = []
concat (x ∷ xs) = x ++ concat xs

module _ (decoder : Decoder) where
  abbrev drained : List ℕ → Reader decoder → Progress decoder × List ℕ
  drained buf r = drain decoder (length buf) buf r

  -- More bytes arrive after a buffer was read as far as it goes.
  abbrev resume : Progress decoder × List ℕ → List ℕ → Progress decoder × List ℕ
  resume (over r v, rest) more = (over r v, rest ++ more)
  resume (going r, rest) more = drained (rest ++ more) r

  drained-append :
      (n : ℕ) (buf more : List ℕ) (r : Reader decoder)
      → length buf ≤ n
      → drained (buf ++ more) r ≡ resume (drained buf r) more
  drained-append zero [] more r le =
      ap (λ (p : Progress decoder × List ℕ). resume p more) (sym none_left)
    where
      none_left : drained [] r ≡ (going r, [])
      none_left = drain-none decoder zero [] r none_in_empty
  drained-append zero (b ∷ buf) more r le = absurd (omega arith)
  drained-append (suc n) buf more r le = elim (Option-cases (find_frame_end buf)) [
    | inl h ↦
        ap (λ (p : Progress decoder × List ℕ). resume p more)
          (sym (drain-none decoder (length buf) buf r h))
    | inr (e, h) ↦
        let (two, within) = find_frame_end_bounds buf e h in
        let total = length (buf ++ more) in
        let rest = drop e buf in
        let shorter = length-drop e buf in
        let whole = length-append buf more in
        let few : length (rest ++ more) ≤ total =
          omega (arith, shorter, whole, two, length-append rest more) in
        let step = frame_step decoder (take e buf) r in
        let left : drained (buf ++ more) r ≡ round decoder step (rest ++ more) total =
          drain-fuel decoder total (suc total) (buf ++ more) r (omega arith) (omega arith)
          ∙ drain-some decoder total (buf ++ more) r e (find_frame_end-append buf more e h)
          ∙ ap (λ (u : List ℕ). round decoder (frame_step decoder u r) (drop e (buf ++ more)) total)
              (take-front e buf more within)
          ∙ ap (λ (u : List ℕ). round decoder step u total) (drop-front e buf more within) in
        let right : drained buf r ≡ round decoder step rest n =
          drain-fuel decoder (length buf) (suc n) buf r (omega arith) le
          ∙ drain-some decoder n buf r e h in
        let next : (p : Progress decoder)
            → round decoder p (rest ++ more) total ≡ resume (round decoder p rest n) more =
          λ p.
            elim p
              as (λ q.
                round decoder q (rest ++ more) total ≡ resume (round decoder q rest n) more) [
                  | over r' v ↦ refl
                  | going r' ↦
                      drain-fuel decoder total (length (rest ++ more)) (rest ++ more) r' few
                        (omega arith)
                      ∙ drained-append n rest more r' (omega (arith, shorter, two, le))
                      ∙ ap (λ (p' : Progress decoder × List ℕ). resume p' more)
                          (drain-fuel decoder (length rest) n rest r' (omega arith)
                            (omega (arith, shorter, two, le)))
                ] in
        left ∙ next step ∙ ap (λ (p : Progress decoder × List ℕ). resume p more) (sym right)
  ]

  -- What a piece leads to.
  abbrev settle : Progress decoder × List ℕ → List (Option (List ℕ)) → Reader decoder × Verdict
  settle (over r v, rest) items = (r, v)
  settle (going r, rest) items = read decoder rest r items

  read-some :
      (buf x : List ℕ) (r : Reader decoder) (items : List (Option (List ℕ)))
      → read decoder buf r (some x ∷ items) ≡ settle (drained (buf ++ x) r) items
  unfolding read
  read-some buf x r items = elim (Progress-cases decoder (drained (buf ++ x) r).0) [
    | inl (r', p) ↦ ground (arith, p)
    | inr (r', v, p) ↦ ground (arith, p)
  ]

  settle-resume :
      (q : Progress decoder × List ℕ) (y : List ℕ) (items : List (Option (List ℕ)))
      → settle q (some y ∷ items) ≡ settle (resume q y) items
  settle-resume (over r v, rest) y items = refl
  settle-resume (going r, rest) y items = read-some rest y r items

  read-merge :
      (buf x y : List ℕ) (r : Reader decoder) (items : List (Option (List ℕ)))
      → read decoder buf r (some x ∷ some y ∷ items) ≡ read decoder buf r (some (x ++ y) ∷ items)
  read-merge buf x y r items =
      read-some buf x r (some y ∷ items)
      ∙ settle-resume (drained (buf ++ x) r) y items
      ∙ ap (λ (q : Progress decoder × List ℕ). settle q items)
          (sym (drained-append (length (buf ++ x)) (buf ++ x) y r (omega arith))
            ∙ ap (λ (u : List ℕ). drained u r) (append_assoc buf x y))
      ∙ sym (read-some buf (x ++ y) r items)

  read-all :
      (buf x : List ℕ) (xs : List (List ℕ)) (r : Reader decoder) (items : List (Option (List ℕ)))
      → read decoder buf r (some x ∷ (map some xs ++ items))
        ≡ read decoder buf r (some (x ++ concat xs) ∷ items)
  read-all buf x [] r items =
      ap (λ (u : List ℕ). read decoder buf r (some u ∷ items)) (sym (append-nil x))
  read-all buf x (y ∷ ys) r items =
      read-merge buf x y r (map some ys ++ items)
      ∙ read-all buf (x ++ y) ys r items
      ∙ ap (λ (u : List ℕ). read decoder buf r (some u ∷ items)) (append_assoc x y (concat ys))

  -- The tokens and the outcome depend on the bytes before an error or the end of the connection, not on
  -- the pieces in which they come.
  pub generate-chunks :
      (xs : List (List ℕ)) (items : List (Option (List ℕ)))
      → generate decoder (map some xs ++ items) ≡ generate decoder (some (concat xs) ∷ items)
  unfolding generate
  generate-chunks xs items =
      let r : Reader decoder = record { saw_finish = false; usage = (0, 0); out = [] } in
      let empty : read decoder [] r (some [] ∷ (map some xs ++ items))
          ≡ read decoder [] r (map some xs ++ items) =
        read-some [] [] r (map some xs ++ items)
        ∙ ap (λ (q : Progress decoder × List ℕ). settle q (map some xs ++ items))
            (drain-none decoder zero [] r none_in_empty) in
      sym empty ∙ read-all [] [] xs r items
