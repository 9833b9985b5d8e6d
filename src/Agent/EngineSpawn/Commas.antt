-- ===== src/Agent/EngineSpawn/Commas.antt =====
-- A text with commas and its pieces, rust/services/cgn-agent/src/engine/spawn.rs.
use cognitora_inference.Prelude.{
  ◌≡◌, refl, ap, ◌∙◌, ℕ, false, List, [], ◌∷◌, ◌++◌, any, All, arith, ◌==◌, if◌then◌else◌,
}
use cognitora_inference.Agent.EngineConfig.{Text}
use cognitora_inference.Agent.EngineSpawn.Workers.{join}

abbrev pub prepend : ℕ → List Text → List Text
prepend c [] = (c ∷ []) ∷ []
prepend c (p ∷ ps) = (c ∷ p) ∷ ps

abbrev pub pieces : Text → List Text
pieces [] = [] ∷ []
pieces (c ∷ s) = let rest = pieces s in if c == b',' then [] ∷ rest else prepend c rest

pieces-append :
    (a b : Text) → any (λ c. c == b',') a ≡ false → pieces (a ++ (b',' ∷ b)) ≡ a ∷ pieces b
pieces-append [] b h = refl
pieces-append (c ∷ a) b h = ground (arith, h, pieces-append a b)

pieces_alone : (a : Text) → any (λ c. c == b',') a ≡ false → pieces a ≡ a ∷ []
pieces_alone [] h = refl
pieces_alone (c ∷ a) h = ground (arith, h, pieces_alone a)

pub pieces-join :
    (v : Text) (vs : List Text)
    → All (λ a. any (λ c. c == b',') a ≡ false) (v ∷ vs)
    → pieces (join (v ∷ vs)) ≡ v ∷ vs
unfolding join
pieces-join v [] h = pieces_alone v h.0
pieces-join v (w ∷ vs) h =
    pieces-append v (join (w ∷ vs)) h.0 ∙ ap (λ ps. v ∷ ps) (pieces-join w vs h.1)
