-- ===== src/Prelude/Lists.antt =====
-- Lists measured and indexed by native numbers, under the library's names.
use Prim.Native.Nat.{ℕ, zero, suc, ◌+◌, ◌-◌, ◌≤◌, ◌<◌, min}
use mathlib.Core.Path.{◌≡◌, refl, ap}
use mathlib.Core.Bool.{Bool, true, false, ◌&&◌}
use mathlib.Core.List.{List, [], ◌∷◌, ◌++◌}
use mathlib.Core.Option.{Option, none, some}
use native.Mathlib.Omega.{arith}
use cognitora_inference.Prelude.Tests.{◌==◌, if◌then◌else◌, Bool-cases}
use mathlib.Core.Logic.{inl, inr}

module _ {ℓ} {A : Type ℓ} where
  abbrev pub length : List A → ℕ
  length [] = 0
  length (x ∷ xs) = suc (length xs)

  abbrev pub get_elem? : List A → ℕ → Option A
  get_elem? [] i = none
  get_elem? (x ∷ xs) zero = some x
  get_elem? (x ∷ xs) (suc i) = get_elem? xs i

  -- A write out of bounds changes nothing.
  abbrev pub set : List A → ℕ → A → List A
  set [] i v = []
  set (x ∷ xs) zero v = v ∷ xs
  set (x ∷ xs) (suc i) v = x ∷ set xs i v

  -- `Vec::remove`, for an index in range.
  abbrev pub remove_at : List A → ℕ → List A
  remove_at [] i = []
  remove_at (x ∷ xs) zero = xs
  remove_at (x ∷ xs) (suc i) = x ∷ remove_at xs i

  abbrev pub take : ℕ → List A → List A
  take zero xs = []
  take (suc n) [] = []
  take (suc n) (x ∷ xs) = x ∷ take n xs

  abbrev pub drop : ℕ → List A → List A
  drop zero xs = xs
  drop (suc n) [] = []
  drop (suc n) (x ∷ xs) = drop n xs

  abbrev pub get_last? : List A → Option A
  get_last? [] = none
  get_last? (x ∷ []) = some x
  get_last? (x ∷ y ∷ xs) = get_last? (y ∷ xs)

  -- `iter().position(test)`.
  abbrev pub position : (A → Bool) → List A → Option ℕ
  position test [] = none
  position test (x ∷ xs) =
      if test x then some 0 else (elim (position test xs) [ none ↦ none | some i ↦ some (suc i) ])

  abbrev pub keep : (A → Bool) → List A → List A
  keep test [] = []
  keep test (x ∷ xs) = let rest = keep test xs in if test x then x ∷ rest else rest

  abbrev pub any : (A → Bool) → List A → Bool
  any test [] = false
  any test (x ∷ xs) = if test x then true else any test xs

  abbrev pub All {κ} : (A → Type κ) → List A → Type κ
  All P [] = Unit {κ}
  All P (x ∷ xs) = P x × All P xs

  pub length-append : (xs ys : List A) → length (xs ++ ys) ≡ length xs + length ys
  length-append [] ys = omega arith
  length-append (x ∷ xs) ys = omega (arith, length-append xs ys)

  length-set : (xs : List A) (i : ℕ) (v : A) → length (set xs i v) ≡ length xs
  length-set [] i v = refl
  length-set (x ∷ xs) zero v = refl
  length-set (x ∷ xs) (suc i) v = ap suc (length-set xs i v)

  pub length-remove_at-le : (xs : List A) (i : ℕ) → length (remove_at xs i) ≤ length xs
  length-remove_at-le [] i = omega arith
  length-remove_at-le (x ∷ xs) zero = omega arith
  length-remove_at-le (x ∷ xs) (suc i) = omega (arith, length-remove_at-le xs i)

  pub length-remove_at :
      (xs : List A) (i : ℕ) {x : A}
      → get_elem? xs i ≡ some x
      → length (remove_at xs i) + 1 ≡ length xs
  length-remove_at [] i h = ground arith
  length-remove_at (x ∷ xs) zero h = omega arith
  length-remove_at (x ∷ xs) (suc i) h = omega (arith, length-remove_at xs i h)

  pub length-take : (n : ℕ) (xs : List A) → length (take n xs) ≡ min n (length xs)
  length-take zero xs = omega arith
  length-take (suc n) [] = omega arith
  length-take (suc n) (x ∷ xs) = omega (arith, length-take n xs)

  pub length-drop : (n : ℕ) (xs : List A) → length (drop n xs) ≡ length xs - n
  length-drop zero xs = omega arith
  length-drop (suc n) [] = omega arith
  length-drop (suc n) (x ∷ xs) = omega (arith, length-drop n xs)

  pub take-append-drop : (n : ℕ) (xs : List A) → take n xs ++ drop n xs ≡ xs
  take-append-drop zero xs = refl
  take-append-drop (suc n) [] = refl
  take-append-drop (suc n) (x ∷ xs) = ap (◌∷◌ x) (take-append-drop n xs)

  pub take-front : (n : ℕ) (xs ys : List A) → n ≤ length xs → take n (xs ++ ys) ≡ take n xs
  take-front zero xs ys le = refl
  take-front (suc n) [] ys le = absurd (omega arith)
  take-front (suc n) (x ∷ xs) ys le = ap (◌∷◌ x) (take-front n xs ys (omega arith))

  pub drop-front : (n : ℕ) (xs ys : List A) → n ≤ length xs → drop n (xs ++ ys) ≡ drop n xs ++ ys
  drop-front zero xs ys le = refl
  drop-front (suc n) [] ys le = absurd (omega arith)
  drop-front (suc n) (x ∷ xs) ys le = drop-front n xs ys (omega arith)

  pub get-take : (k i : ℕ) (xs : List A) → i < k → get_elem? (take k xs) i ≡ get_elem? xs i
  get-take zero i xs lt = absurd (omega arith)
  get-take (suc k) i [] lt = refl
  get-take (suc k) zero (x ∷ xs) lt = refl
  get-take (suc k) (suc i) (x ∷ xs) lt = get-take k i xs (omega arith)

  length-keep-le : (test : A → Bool) (xs : List A) → length (keep test xs) ≤ length xs
  length-keep-le test [] = omega arith
  length-keep-le test (x ∷ xs) = ground (arith, length-keep-le test xs)

  pub All-map {κ μ} :
      (P : A → Type κ) (Q : A → Type μ)
      → ((x : A) → P x → Q x)
      → (xs : List A) → All P xs
      → All Q xs
  All-map P Q f [] a = tt
  All-map P Q f (x ∷ xs) (p, a) = (f x p, All-map P Q f xs a)

  abbrev pub is_nonempty : List A → Bool
  is_nonempty [] = false
  is_nonempty (x ∷ xs) = true

  pub is_nonempty-keep : (test : A → Bool) (xs : List A) → is_nonempty (keep test xs) ≡ any test xs
  is_nonempty-keep test [] = refl
  is_nonempty-keep test (x ∷ xs) = ground (arith, is_nonempty-keep test xs)

  pub any-keep :
      (test first : A → Bool) (xs : List A)
      → any test (keep first xs) ≡ any (λ x. first x && test x) xs
  any-keep test first [] = refl
  any-keep test first (x ∷ xs) = ground (arith, any-keep test first xs)

  pub All-keep :
      (P : A → Type 0) (test : A → Bool) (xs : List A)
      → All P xs
      → All (λ x. P x × (test x ≡ true)) (keep test xs)
  All-keep P test [] a = tt
  All-keep P test (x ∷ xs) (p, a) =
      let rest = All-keep P test xs a in
      elim (Bool-cases (test x)) [ inl e ↦ rw e ((p, e), rest) | inr e ↦ rw e rest ]

  pub position_sound :
      (test : A → Bool) (xs : List A) (i : ℕ) {x : A}
      → position test xs ≡ some i
      → get_elem? xs i ≡ some x
      → test x ≡ true
  position_sound test [] i e g = absurd (ground arith)
  position_sound test (y ∷ xs) zero e g = ground arith
  position_sound test (y ∷ xs) (suc i) {x} e g =
      ground (arith, λ (h : position test xs ≡ some i). position_sound test xs i {x = x} h g)

module _ {ℓ} {A : Type ℓ} where
  pub position-any :
      (test : A → Bool) (xs : List A)
      → any test xs ≡ true
      → (i : ℕ) × (x : A) × (position test xs ≡ some i) × (get_elem? xs i ≡ some x)
  position-any test [] h = absurd (ground arith)
  position-any test (y ∷ xs) h = elim (Bool-cases (test y)) [
    | inl e ↦ (0, y, rw e, refl)
    | inr e ↦ let (i, x, p, g) = position-any test xs (rw e at h) in (suc i, x, rw e (rw p), g)
  ]

abbrev pub count : ℕ → List ℕ → ℕ
count a [] = 0
count a (b ∷ bs) = (if b == a then 1 else 0) + count a bs

pub count-append : (id : ℕ) (us vs : List ℕ) → count id (us ++ vs) ≡ count id us + count id vs
count-append id [] vs = omega arith
count-append id (u ∷ us) vs = ground (arith, count-append id us vs)

pub count-remove_at :
    (a : ℕ) (xs : List ℕ) (i : ℕ) {b : ℕ}
    → get_elem? xs i ≡ some b
    → count a (remove_at xs i) + (if b == a then 1 else 0) ≡ count a xs
count-remove_at a [] i h = absurd (ground arith)
count-remove_at a (x ∷ xs) zero h = ground arith
count-remove_at a (x ∷ xs) (suc i) h = omega (arith, count-remove_at a xs i h)

pub set_same {ℓ} :
    {A : Type ℓ} (xs : List A) (i : ℕ) {b : A} → get_elem? xs i ≡ some b → set xs i b ≡ xs
set_same [] i h = refl
set_same (x ∷ xs) zero h = ground arith
set_same (x ∷ xs) (suc i) h = ap (◌∷◌ x) (set_same xs i h)
