-- ===== src/Router/PrefixHash/Chains.antt =====
-- A digest of rust/libraries/cgn-core/src/hash.rs names the prompt up to its chunk.
use cognitora_inference.Prelude.{
  ℕ, suc, zero, ◌≤◌, ◌≡◌, ◌≢◌, refl, sym, ap, ◌∙◌, Option, some, List, [], ◌∷◌, ◌++◌, length, take,
  drop, get_elem?, All, arith, take-append-drop, length-drop,
}
use mathlib.Core.Path.{subst}
use cognitora_inference.Router.PrefixHash.{
  Blake3, tokens_per_chunk, chunks_of, chunks, chain, hash_seq_chunk,
}
use cognitora_inference.Router.PrefixHash.Bytes.{
  IsWord, zeros, IsCollisionFree, hash_seq_chunk-same, hash_seq_chunk-root,
}

abbrev pub join : List (List ℕ) → List ℕ
join [] = []
join (c ∷ cs) = c ++ join cs

-- The chunks are the whole list of tokens.
chunks_of-join :
    (fuel : ℕ) (tokens : List ℕ) → length tokens ≤ fuel → join (chunks_of fuel tokens) ≡ tokens
unfolding chunks_of
chunks_of-join fuel [] le = refl
chunks_of-join zero (t ∷ tokens) le = absurd (omega arith)
chunks_of-join (suc fuel) (t ∷ tokens) le =
    let rest = drop tokens_per_chunk (t ∷ tokens) in
    ap (λ ts. take tokens_per_chunk (t ∷ tokens) ++ ts)
      (chunks_of-join fuel rest (omega (arith, length-drop tokens_per_chunk (t ∷ tokens), le)))
    ∙ take-append-drop tokens_per_chunk (t ∷ tokens)

chunks-join : (tokens : List ℕ) → join (chunks tokens) ≡ tokens
unfolding chunks
chunks-join tokens = chunks_of-join (length tokens) tokens (omega arith)

All-take : (P : ℕ → Type 0) (n : ℕ) (xs : List ℕ) → All P xs → All P (take n xs)
All-take P zero xs a = tt
All-take P (suc n) [] a = tt
All-take P (suc n) (x ∷ xs) (p, a) = (p, All-take P n xs a)

All-drop : (P : ℕ → Type 0) (n : ℕ) (xs : List ℕ) → All P xs → All P (drop n xs)
All-drop P zero xs a = a
All-drop P (suc n) [] a = tt
All-drop P (suc n) (x ∷ xs) (p, a) = All-drop P n xs a

chunks_of-All :
    (P : ℕ → Type 0) (fuel : ℕ) (tokens : List ℕ)
    → All P tokens
    → All (All P) (chunks_of fuel tokens)
unfolding chunks_of
chunks_of-All P fuel [] a = tt
chunks_of-All P zero (t ∷ tokens) a = tt
chunks_of-All P (suc fuel) (t ∷ tokens) a = (
  All-take P tokens_per_chunk (t ∷ tokens) a,
  chunks_of-All P fuel (drop tokens_per_chunk (t ∷ tokens))
      (All-drop P tokens_per_chunk (t ∷ tokens) a),
)

pub chunks-All : (P : ℕ → Type 0) (tokens : List ℕ) → All P tokens → All (All P) (chunks tokens)
unfolding chunks
chunks-All P tokens a = chunks_of-All P (length tokens) tokens a

All-get :
    {A : Type 0} (P : A → Type 0) (xs : List A) (i : ℕ) {x : A}
    → All P xs
    → get_elem? xs i ≡ some x
    → P x
All-get P [] i a e = absurd (ground (arith, e))
All-get P (y ∷ xs) zero (p, a) e = subst P (cc e) p
All-get P (y ∷ xs) (suc i) (p, a) e = All-get P xs i a e

module _ (blake3 : Blake3) where
  open blake3 use {Digest, root}

  -- The digest before position `i`.
  abbrev before : Digest → List Digest → ℕ → Option Digest
  before parent ds zero = some parent
  before parent ds (suc i) = get_elem? ds i

  chain-get :
      (model : List ℕ) (parent : Digest) (cs : List (List ℕ)) (i : ℕ) {d : Digest}
      → get_elem? (chain blake3 model parent cs) i ≡ some d
      → (p : Digest) × (c : List ℕ) × (before parent (chain blake3 model parent cs) i ≡ some p)
        × (get_elem? cs i ≡ some c)
        × (hash_seq_chunk blake3 model p c ≡ d)
  unfolding chain
  chain-get model parent [] i e = absurd (ground (arith, e))
  chain-get model parent (c ∷ cs) zero e = (parent, c, refl, refl, ground (arith, e))
  chain-get model parent (c ∷ cs) (suc zero) e =
      chain-get model (hash_seq_chunk blake3 model parent c) cs zero e
  chain-get model parent (c ∷ cs) (suc (suc i)) e =
      chain-get model (hash_seq_chunk blake3 model parent c) cs (suc i) e

  -- Chunks agree up to a position.
  abbrev pub Agree : ℕ → List (List ℕ) → List (List ℕ) → Type 0
  Agree zero cs cs' = get_elem? cs 0 ≡ get_elem? cs' 0
  Agree (suc i) cs cs' = Agree i cs cs' × (get_elem? cs (suc i) ≡ get_elem? cs' (suc i))

  module _ (free : IsCollisionFree blake3) (m m' : List ℕ) (cs cs' : List (List ℕ))
      (salts : zeros m ≡ zeros m') (v : All (All IsWord) cs) (v' : All (All IsWord) cs') where
    -- Two digests of the prompts that are the same, one chunk back.
    back :
        (i j : ℕ) {d d' : Digest}
        → get_elem? (chain blake3 m root cs) i ≡ some d
        → get_elem? (chain blake3 m' root cs') j ≡ some d'
        → d ≡ d'
        → (p : Digest) × (before root (chain blake3 m root cs) i ≡ some p)
          × (before root (chain blake3 m' root cs') j ≡ some p)
          × (m ≡ m')
          × (get_elem? cs i ≡ get_elem? cs' j)
    back i j e e' same =
        let (p, c, b, g, h) = chain-get m root cs i e in
        let (p', c', b', g', h') = chain-get m' root cs' j e' in
        let (models, parents, chunk) =
          hash_seq_chunk-same blake3 m m' p p' c c' free salts (All-get (All IsWord) cs i v g)
            (All-get (All IsWord) cs' j v' g') (h ∙ same ∙ sym h') in
        (p, b, b' ∙ ap some (sym parents), models, g ∙ ap some chunk ∙ sym g')

    -- No digest of a chunk is that of the beginning.
    not_begin :
        (model : List ℕ) (ks : List (List ℕ)) (i : ℕ) {d : Digest}
        → get_elem? (chain blake3 model root ks) i ≡ some d
        → d ≢ root
    not_begin model ks i e same =
        let (p, c, b, g, h) = chain-get model root ks i e in
        hash_seq_chunk-root blake3 model p c free (h ∙ same)

    pub chain-Agree :
        (i j : ℕ) {d d' : Digest}
        → get_elem? (chain blake3 m root cs) i ≡ some d
        → get_elem? (chain blake3 m' root cs') j ≡ some d'
        → d ≡ d'
        → (i ≡ j) × (m ≡ m') × Agree i cs cs'
    chain-Agree zero zero e e' same =
        let (p, b, b', models, here) = back zero zero e e' same in (refl, models, here)
    chain-Agree zero (suc j) e e' same =
        let (p, b, b', models, here) = back zero (suc j) e e' same in
        absurd (not_begin m' cs' j b' (ground (arith, b)))
    chain-Agree (suc i) zero e e' same =
        let (p, b, b', models, here) = back (suc i) zero e e' same in
        absurd (not_begin m cs i b (ground (arith, b')))
    chain-Agree (suc i) (suc j) e e' same =
        let (p, b, b', models, here) = back (suc i) (suc j) e e' same in
        let (at, same_model, rest) = chain-Agree i j b b' refl in
        (ap suc at, models, (rest, here ∙ ap (λ n. get_elem? cs' (suc n)) (sym at)))
