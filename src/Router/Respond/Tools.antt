-- ===== src/Router/Respond/Tools.antt =====
-- The tool calls that `ToolCallAggregator` of rust/services/cgn-router/src/gateway/generate.rs puts
-- together.
use cognitora_inference.Prelude.{
  ℕ, ◌+◌, ◌≤◌, ◌<◌, ◌≡◌, refl, sym, ap, ◌∙◌, List, [], ◌∷◌, ◌++◌, ◌==◌, if◌then◌else◌, arith,
  Option-cases, inl, inr,
}
use mathlib.Core.List.{append_assoc, append-nil}
use cognitora_inference.Router.Respond.{Fragment, Call, blank, merge, push_one, push, or}

-- The arguments of a call.
abbrev pub arguments_at : ℕ → List (ℕ × Call) → List ℕ
arguments_at i [] = []
arguments_at i ((j, c) ∷ calls) = if j == i then c.arguments else arguments_at i calls

-- What the fragments with an index say of arguments, in their order.
abbrev pub fragments_at : ℕ → List Fragment → List ℕ
fragments_at i [] = []
fragments_at i (e ∷ es) = (if or e.index 0 == i then or e.arguments [] else []) ++ fragments_at i es

-- The calls stand by rising index, from `b` on.
abbrev pub Rises : ℕ → List (ℕ × Call) → Type 0
Rises b [] = Unit
Rises b ((i, c) ∷ calls) = (b ≤ i) × Rises (i + 1) calls

arguments_at-above :
    (b i : ℕ) (calls : List (ℕ × Call)) → Rises b calls → i < b → arguments_at i calls ≡ []
arguments_at-above b i [] s lt = refl
arguments_at-above b i ((j, c) ∷ calls) (le, s) lt =
    ground (arith, arguments_at-above (j + 1) i calls s (omega (arith, le, lt)), le, lt)

merge-arguments :
    (c : Call) (e : Fragment) → (merge c e).arguments ≡ c.arguments ++ or e.arguments []
unfolding merge
merge-arguments c e = elim (Option-cases e.arguments) [
  | inl n ↦ ground (arith, n, append-nil c.arguments)
  | inr (args, h) ↦ ground (arith, h)
]

push_one-Rises :
    (b : ℕ) (calls : List (ℕ × Call)) (e : Fragment)
    → Rises b calls
    → b ≤ or e.index 0
    → Rises b (push_one calls e)
unfolding push_one
push_one-Rises b [] e s le = (le, tt)
push_one-Rises b ((i, c) ∷ calls) e (le', s) le =
    ground (arith, λ (p : i + 1 ≤ or e.index 0). push_one-Rises (i + 1) calls e s p)

push_one-arguments_at :
    (b : ℕ) (calls : List (ℕ × Call)) (e : Fragment) (i : ℕ)
    → Rises b calls
    → arguments_at i (push_one calls e)
      ≡ arguments_at i calls ++ (if or e.index 0 == i then or e.arguments [] else [])
unfolding push_one
push_one-arguments_at b [] e i s = ground (arith, merge-arguments blank e)
push_one-arguments_at b ((j, c) ∷ calls) e i (le, s) = ground (
  arith,
  s,
  le,
  arguments_at-above (j + 1) i calls s,
  merge-arguments blank e,
  merge-arguments c e,
  push_one-arguments_at (j + 1) calls e i s,
  append-nil c.arguments,
  append-nil (arguments_at i calls),
)

push-from :
    (calls : List (ℕ × Call)) (es : List Fragment) (i : ℕ)
    → Rises 0 calls
    → arguments_at i (push calls es) ≡ arguments_at i calls ++ fragments_at i es
unfolding push
push-from calls [] i s = sym (append-nil (arguments_at i calls))
push-from calls (e ∷ es) i s =
    push-from (push_one calls e) es i (push_one-Rises 0 calls e s (omega arith))
    ∙ ap (λ (u : List ℕ). u ++ fragments_at i es) (push_one-arguments_at 0 calls e i s)
    ∙ append_assoc (arguments_at i calls) _ (fragments_at i es)

-- For every index, the arguments of the call are the pieces of its fragments put together in order.
pub push-arguments_at :
    (es : List Fragment) (i : ℕ) → arguments_at i (push [] es) ≡ fragments_at i es
push-arguments_at es i = push-from [] es i tt
