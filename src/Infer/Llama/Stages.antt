-- ===== src/Infer/Llama/Stages.antt =====
-- A run of layers of rust/services/cgn-infer/src/model/llama.rs is a run of its stages.
use cognitora_inference.Prelude.{
  ℕ, ◌+◌, ◌≡◌, refl, ap, ◌∙◌, Option, List, [], ◌∷◌, ◌++◌, length, length-append, arith, ◌==◌, ◌⊎◌,
  inl, inr, Bool-cases,
}
use cognitora_inference.Infer.Llama.{
  Candle, Error, Result, project, grown, ok, err, SeqKv, Slot, layers, forward_hidden,
  block_forward_single, mix, ◌>>=◌,
}

pub Result-cases :
    {A : Type 0} (r : Result A) → ((a : A) × (r ≡ ok a)) ⊎ ((e : Error) × (r ≡ err e))
Result-cases (ok a) = inl (a, refl)
Result-cases (err e) = inr (e, refl)

-- Both halves of a chain that succeeds.
pub bind-ok :
    {A B : Type 0} (first : Result A) (next : A → Result B) {last : B}
    → (first >>= next) ≡ ok last
    → (mid : A) × (first ≡ ok mid) × (next mid ≡ ok last)
bind-ok (err why) next done = cc
bind-ok (ok mid) next done = (mid, refl, done)

pub ok-same : {A : Type 0} {a b : A} → Result.ok a ≡ ok b → a ≡ b
ok-same h = cc

module _ (candle : Candle) where
  open candle use {Tensor, Block, Mask, rows, causal_mask, plus}

  -- A sum has the positions of its second summand.
  abbrev pub KeepsRows : Type 0
  KeepsRows = (x y z : Tensor) → plus x y ≡ ok z → rows z ≡ rows y

  mix-rows :
      (b : Block) (x : Tensor) (t : ℕ) (mask : Option Mask) (q k v : Tensor) {z : Tensor}
      → KeepsRows
      → mix candle b x t mask q k v ≡ ok z
      → rows z ≡ rows x
  unfolding mix
  mix-rows b x t mask q k v {z} keeps e =
      let (y1, e1, h1) = bind-ok (candle.attend q k v mask) _ e in
      let (y2, e2, h2) = bind-ok (candle.merge t y1) _ h1 in
      let (y3, e3, h3) = bind-ok (candle.wo b y2) _ h2 in
      let (y4, e4, h4) = bind-ok (plus y3 x) _ h3 in
      let (y5, e5, h5) = bind-ok (candle.ffn_norm b y4) _ h4 in
      let (y6, e6, h6) = bind-ok (candle.mlp b y5) _ h5 in keeps y6 y4 z h6 ∙ keeps y3 x y4 e4

  block_forward_single-rows :
      (b : Block) (x : Tensor) (pos t : ℕ) (mask : Option Mask) (s : Slot candle) {z : Tensor}
      → KeepsRows
      → (block_forward_single candle b x pos t mask s).0 ≡ ok z
      → rows z ≡ rows x
  unfolding block_forward_single
  block_forward_single-rows b x pos t mask s {z} keeps h =
      elim (Result-cases (project candle b x pos t)) [
        | inr (e, p) ↦ absurd (ground (arith, p, h))
        | inl ((q, k, v), p) ↦ elim (Result-cases (grown candle pos s k v)) [
          | inr (e, g) ↦ absurd (ground (arith, p, g, h))
          | inl ((k', v'), g) ↦ mix-rows b x t mask q k' v' keeps (ground (arith, p, g, h))
        ]
      ]

  -- The stages before and after a point.
  pub layers-append :
      (bs cs : List Block) (pos t : ℕ) (mask : Option Mask) (x : Tensor)
      (ss ts : List (Slot candle)) {z : Tensor}
      → length ss ≡ length bs
      → (layers candle (bs ++ cs) pos t mask x (ss ++ ts)).0 ≡ ok z
      → (y : Tensor) × ((layers candle bs pos t mask x ss).0 ≡ ok y)
        × ((layers candle cs pos t mask y ts).0 ≡ ok z)
        × ((layers candle (bs ++ cs) pos t mask x (ss ++ ts)).1
            ≡ (layers candle bs pos t mask x ss).1 ++ (layers candle cs pos t mask y ts).1)
  unfolding layers
  layers-append [] cs pos t mask x [] ts l h = (x, refl, h, refl)
  layers-append [] cs pos t mask x (s ∷ ss) ts l h = absurd (omega arith)
  layers-append (b ∷ bs) cs pos t mask x [] ts l h = absurd (omega arith)
  layers-append (b ∷ bs) cs pos t mask x (s ∷ ss) ts l h =
      elim (Result-cases (block_forward_single candle b x pos t mask s).0) [
        | inr (e, r) ↦ absurd (ground (arith, r, h))
        | inl (w, r) ↦
            let (y, e1, e2, e3) =
              layers-append bs cs pos t mask w ss ts (omega arith) (ground (arith, r, h)) in
            (y, ground (arith, r, e1), e2, ground (arith, r, e3))
      ]

  pub layers-rows :
      (bs : List Block) (pos t : ℕ) (mask : Option Mask) (x : Tensor) (ss : List (Slot candle))
      {z : Tensor}
      → KeepsRows
      → (layers candle bs pos t mask x ss).0 ≡ ok z
      → rows z ≡ rows x
  unfolding layers
  layers-rows [] pos t mask x ss keeps h = ground (arith, h)
  layers-rows (b ∷ bs) pos t mask x [] keeps h = ground (arith, h)
  layers-rows (b ∷ bs) pos t mask x (s ∷ ss) keeps h =
      elim (Result-cases (block_forward_single candle b x pos t mask s).0) [
        | inr (e, r) ↦ absurd (ground (arith, r, h))
        | inl (w, r) ↦
            layers-rows bs pos t mask w ss keeps (ground (arith, r, h))
            ∙ block_forward_single-rows b x pos t mask s keeps r
      ]

  -- A run that succeeds, taken apart.
  pub forward_hidden-ok :
      (bs : List Block) (x : Tensor) (pos : ℕ) (kv : SeqKv candle) {z : Tensor}
      → (forward_hidden candle bs x pos kv).0 ≡ ok z
      → (t : ℕ) × (mask : Option Mask) × (length kv.entries ≡ length bs)
        × (rows x ≡ ok t)
        × (causal_mask t pos ≡ ok mask)
        × ((layers candle bs pos t mask x kv.entries).0 ≡ ok z)
        × ((forward_hidden candle bs x pos kv).1
            ≡ record { entries = (layers candle bs pos t mask x kv.entries).1; tokens = pos + t })
  unfolding forward_hidden
  forward_hidden-ok bs x pos kv h = elim (Bool-cases (length kv.entries == length bs)) [
    | inr e ↦ absurd (ground (arith, e, h))
    | inl e ↦ elim (Result-cases (rows x)) [
      | inr (_, r) ↦ absurd (ground (arith, e, r, h))
      | inl (t, r) ↦ elim (Result-cases (causal_mask t pos)) [
        | inr (_, c) ↦ absurd (ground (arith, e, r, c, h))
        | inl (mask, c) ↦ elim (Result-cases (layers candle bs pos t mask x kv.entries).0) [
          | inr (_, l) ↦ absurd (ground (arith, e, r, c, l, h))
          | inl (y, l) ↦ (
            t,
            mask,
            ground (arith, e),
            r,
            c,
            ground (arith, e, r, c, l, h),
            ground (arith, e, r, c, l),
          )
        ]
      ]
    ]
  ]

  pub forward_hidden-runs :
      (bs : List Block) (x : Tensor) (pos : ℕ) (kv : SeqKv candle) (t : ℕ) (mask : Option Mask)
      {z : Tensor}
      → length kv.entries ≡ length bs
      → rows x ≡ ok t
      → causal_mask t pos ≡ ok mask
      → (layers candle bs pos t mask x kv.entries).0 ≡ ok z
      → forward_hidden candle bs x pos kv ≡ (
        ok z,
        record { entries = (layers candle bs pos t mask x kv.entries).1; tokens = pos + t },
      )
  unfolding forward_hidden
  forward_hidden-runs bs x pos kv t mask e r c l = ground (arith, e, r, c, l)

  -- Where a sum has the positions of its second summand: a run of all layers that succeeds is a run of
  -- the first layers and one of the others on what that gives, each with its own part of the cache, and
  -- leaves the parts that they leave.
  pub forward_hidden-append :
      (bs cs : List Block) (x : Tensor) (pos : ℕ) (kv kv' : SeqKv candle) {z : Tensor}
      → KeepsRows
      → length kv.entries ≡ length bs
      → let whole =
          forward_hidden candle
            (bs ++ cs)
            x
            pos
            (record { entries = kv.entries ++ kv'.entries; tokens = kv.tokens }) in
        whole.0 ≡ ok z
        → (y : Tensor) × ((forward_hidden candle bs x pos kv).0 ≡ ok y)
          × ((forward_hidden candle cs y pos kv').0 ≡ ok z)
          × (whole.1.entries
              ≡ (forward_hidden candle bs x pos kv).1.entries
                ++ (forward_hidden candle cs y pos kv').1.entries)
          × (whole.1.tokens ≡ (forward_hidden candle bs x pos kv).1.tokens)
          × (whole.1.tokens ≡ (forward_hidden candle cs y pos kv').1.tokens)
  forward_hidden-append bs cs x pos kv kv' keeps len run =
      let (t, mask, long, r, c, l, after) = forward_hidden-ok (bs ++ cs) x pos _ run in
      let (y, first, second, caches) =
        layers-append bs cs pos t mask x kv.entries kv'.entries len l in
      let rest : length kv'.entries ≡ length cs =
        omega (arith, long, len, length-append kv.entries kv'.entries, length-append bs cs) in
      let here = forward_hidden-runs bs x pos kv t mask len r c first in
      let there =
        forward_hidden-runs cs y pos kv' t mask rest
          (layers-rows bs pos t mask x kv.entries keeps first ∙ r) c second in
      (
        y,
        ap (λ p. p.0) here,
        ap (λ p. p.0) there,
        ground (arith, after, here, there, caches),
        ground (arith, after, here),
        ground (arith, after, there),
      )
