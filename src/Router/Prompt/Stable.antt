-- ===== src/Router/Prompt/Stable.antt =====
-- The approximate tokens of rust/services/cgn-router/src/routing/prompt.rs depend on what stands before
-- them.
use cognitora_inference.Prelude.{
  ℕ, ◌≤◌, ◌≡◌, refl, sym, ap, ◌∙◌, List, [], ◌∷◌, ◌++◌, length, arith,
}
use mathlib.Core.List.{append_assoc, append-nil}
use cognitora_inference.Router.Prompt.{
  Text, Message, scan, token_loop, approximate_token_ids, join_messages,
}

module _ (text : Text) where
  -- The loop over the characters `s`: the tokens it adds, and what it leaves of a piece.
  abbrev after : List ℕ → List ℕ → ℕ → List ℕ × List ℕ × ℕ
  after [] piece chars = ([], piece, chars)
  after (c ∷ s) piece chars =
      let (out, piece', chars') = scan text c piece chars in
      let (outs, piece'', chars'') = after s piece' chars' in (out ++ outs, piece'', chars'')

  token_loop-append :
      (s t piece : List ℕ) (chars : ℕ)
      → token_loop text (s ++ t) piece chars
        ≡ (after s piece chars).0
          ++ token_loop text t (after s piece chars).1 (after s piece chars).2
  unfolding token_loop
  token_loop-append [] t piece chars = refl
  token_loop-append (c ∷ s) t piece chars =
      let (out, piece', chars') = scan text c piece chars in
      ap (λ ts. out ++ ts) (token_loop-append s t piece' chars')
      ∙ sym (
          append_assoc out (after s piece' chars').0
            (token_loop text t (after s piece' chars').1 (after s piece' chars').2))

  length-rest : (piece : List ℕ) (chars : ℕ) → length (token_loop text [] piece chars) ≤ 1
  unfolding token_loop
  length-rest piece chars = ground arith

  -- All tokens of a text but the last stay where they are, whatever is written behind it.
  pub approximate_token_ids-stable :
      (s : List ℕ)
      → (done last : List ℕ) × (approximate_token_ids text s ≡ done ++ last)
        × (length last ≤ 1)
        × ((t : List ℕ) → (rest : List ℕ) × (approximate_token_ids text (s ++ t) ≡ done ++ rest))
  unfolding approximate_token_ids
  approximate_token_ids-stable s =
      let (done, piece, chars) = after s [] 0 in
      (
        done,
        token_loop text [] piece chars,
        ap (λ (u : List ℕ). token_loop text u [] 0) (sym (append-nil s))
            ∙ token_loop-append s [] [] 0,
        length-rest piece chars,
        λ t. (token_loop text t piece chars, token_loop-append s t [] 0),
      )

  pub join_messages-append :
      (ms ns : List Message)
      → join_messages text (ms ++ ns) ≡ join_messages text ms ++ join_messages text ns
  unfolding join_messages
  join_messages-append [] ns = refl
  join_messages-append (m ∷ ms) ns = simp (join_messages-append ms ns, append_assoc)
