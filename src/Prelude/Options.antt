-- ===== src/Prelude/Options.antt =====
-- When a chain of optional results has a result.
use mathlib.Core.Path.{◌≡◌, refl}
use mathlib.Core.Bool.{Bool, true, false, not, ◌&&◌, ◌||◌}
use mathlib.Core.Option.{Option, none, some}
use cognitora_inference.Prelude.Tests.{if◌then◌else◌, is_some}

-- A chain of optional results is there where its links are.
pub is_some-map {ℓ κ} :
    {A : Type ℓ} {B : Type κ} (o : Option A) (f : A → B)
    → is_some (elim o [ none ↦ none | some x ↦ some (f x) ]) ≡ is_some o
is_some-map none f = refl
is_some-map (some x) f = refl

pub is_some-bind {ℓ κ} :
    {A : Type ℓ} {B : Type κ} (o : Option A) (f : A → Option B) (b : Bool)
    → ((x : A) → is_some (f x) ≡ b)
    → is_some (elim o [ none ↦ none | some x ↦ f x ]) ≡ is_some o && b
is_some-bind none f b h = refl
is_some-bind (some x) f b h = h x

pub is_some-else {ℓ κ} :
    {A : Type ℓ} {B : Type κ} (o : Option A) (c : B) (f : A → Option B) (b : A → Bool)
    → ((x : A) → is_some (f x) ≡ b x)
    → is_some (elim o [ none ↦ some c | some x ↦ f x ]) ≡ (elim o [ none ↦ true | some x ↦ b x ])
is_some-else none c f b h = refl
is_some-else (some x) c f b h = h x

pub is_some-unless {ℓ} :
    {A : Type ℓ} (test : Bool) (o : Option A)
    → is_some (if not test then none else o) ≡ test && is_some o
is_some-unless true o = refl
is_some-unless false o = refl

pub is_some-if {ℓ} :
    {A : Type ℓ} (test : Bool) (o : Option A)
    → is_some (if test then none else o) ≡ not test && is_some o
is_some-if true o = refl
is_some-if false o = refl

pub is_some-or {ℓ} :
    {A : Type ℓ} (test : Bool) (x : A) (o : Option A)
    → is_some (if test then some x else o) ≡ test || is_some o
is_some-or true x o = refl
is_some-or false x o = refl
