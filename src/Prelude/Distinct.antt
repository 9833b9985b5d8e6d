-- ===== src/Prelude/Distinct.antt =====
-- Lists over a type with decidable equality in which nothing stands twice.
use mathlib.Core.Logic.{ite}
use mathlib.Core.Path.{◌≡◌, refl}
use mathlib.Core.Bool.{Bool, true, false, not}
use mathlib.Core.List.{List, [], ◌∷◌, ◌++◌}
use native.Mathlib.Omega.{arith}
use cognitora_inference.Prelude.Lists.{any, keep}

module _ {A : Type 0} (dec : Discrete A) where
  abbrev pub same : A → A → Bool
  same a b = ite (dec a b) true false

  abbrev pub has : A → List A → Bool
  has a xs = any (λ x. same x a) xs

  abbrev pub IsDistinct : List A → Type 0
  IsDistinct [] = Unit
  IsDistinct (x ∷ xs) = (has x xs ≡ false) × IsDistinct xs

  same-turn : (a b : A) → same a b ≡ false → same b a ≡ false
  same-turn a b h = ground (arith, h)

  has-append :
      (a : A) (xs : List A) (y : A)
      → has a xs ≡ false
      → same y a ≡ false
      → has a (xs ++ (y ∷ [])) ≡ false
  has-append a [] y h e = ground (arith, e)
  has-append a (x ∷ xs) y h e = ground (arith, has-append a xs y, h, e)

  pub append-IsDistinct :
      (xs : List A) (y : A) → IsDistinct xs → has y xs ≡ false → IsDistinct (xs ++ (y ∷ []))
  append-IsDistinct [] y d h = (refl, tt)
  append-IsDistinct (x ∷ xs) y (out, d) h =
      let apart : same x y ≡ false = ground (arith, h) in
      let rest : has y xs ≡ false = ground (arith, h) in
      (has-append x xs y out (same-turn x y apart), append-IsDistinct xs y d rest)

  -- Taking out what is not there changes nothing.
  pub keep-absent : (a : A) (xs : List A) → has a xs ≡ false → keep (λ x. not (same x a)) xs ≡ xs
  keep-absent a [] h = refl
  keep-absent a (x ∷ xs) h = ground (arith, keep-absent a xs, h)
