-- ===== src/Router/PrefixHash/Bytes.antt =====
-- The bytes that rust/libraries/cgn-core/src/hash.rs hashes can be read in one way.
use cognitora_inference.Prelude.{
  ℕ, ◌+◌, ◌==◌, if◌then◌else◌, ◌/◌, ◌%◌, ◌<◌, ◌≡◌, ◌≢◌, refl, List, [], ◌∷◌, ◌++◌, All, arith,
}
use cognitora_inference.Router.PrefixHash.{Blake3, token_bytes, hash_seq_chunk, seq_tag}

-- A token is a number of 32 bits.
abbrev pub IsWord : ℕ → Type 0
IsWord t = t < 4294967296

-- The number of zero bytes in a salt: none in the name of a model, one between a model and a tenant.
abbrev pub zeros : List ℕ → ℕ
zeros [] = 0
zeros (b ∷ m) = (if b == 0 then 1 else 0) + zeros m

four_bytes :
    (s t : ℕ)
    → IsWord s
    → IsWord t
    → s % 256 ≡ t % 256
    → s / 256 % 256 ≡ t / 256 % 256
    → s / 65536 % 256 ≡ t / 65536 % 256
    → s / 16777216 % 256 ≡ t / 16777216 % 256
    → s ≡ t
four_bytes s t hs ht a b c d = omega arith

pub token_bytes-same :
    (xs ys : List ℕ) → All IsWord xs → All IsWord ys → token_bytes xs ≡ token_bytes ys → xs ≡ ys
unfolding token_bytes
token_bytes-same [] [] a b e = refl
token_bytes-same [] (y ∷ ys) a b e = absurd (cc e)
token_bytes-same (x ∷ xs) [] a b e = absurd (cc e)
token_bytes-same (x ∷ xs) (y ∷ ys) (p, a) (q, b) e =
    let rest = token_bytes-same xs ys a b (cc e) in
    let first = four_bytes x y p q (cc e) (cc e) (cc e) (cc e) in ground (arith, first, rest)

after_same : (t xs ys : List ℕ) → t ++ xs ≡ t ++ ys → xs ≡ ys
after_same [] xs ys e = e
after_same (b ∷ t) xs ys e = after_same t xs ys (cc e)

salt-same :
    (m m' xs ys : List ℕ)
    → zeros m ≡ zeros m'
    → m ++ (0 ∷ xs) ≡ m' ++ (0 ∷ ys)
    → (m ≡ m') × (xs ≡ ys)
salt-same [] [] xs ys z e = (refl, cc e)
salt-same [] (c ∷ m') xs ys z e = absurd (ground (arith, z, e))
salt-same (c ∷ m) [] xs ys z e = absurd (ground (arith, z, e))
salt-same (c ∷ m) (c' ∷ m') xs ys z e =
    let head : c ≡ c' = cc e in
    let rest = salt-same m m' xs ys (ground (arith, z, head)) (cc e) in
    (ground (arith, head, rest), rest.1)

module _ (blake3 : Blake3) where
  open blake3 use {Digest, finalize, as_bytes, root}

  -- Different bytes have different digests, none of them is all zero, and digests are of one length,
  -- so that one can be split off.
  pub record IsCollisionFree : Type 0 where
    pub apart : (xs ys : List ℕ) → finalize xs ≡ finalize ys → xs ≡ ys
    pub nonzero : (xs : List ℕ) → finalize xs ≢ root
    pub split :
        (d e : Digest) (xs ys : List ℕ) → as_bytes d ++ xs ≡ as_bytes e ++ ys → (d ≡ e) × (xs ≡ ys)

  pub hash_seq_chunk-same :
      (m m' : List ℕ) (p p' : Digest) (c c' : List ℕ)
      → IsCollisionFree
      → zeros m ≡ zeros m'
      → All IsWord c
      → All IsWord c'
      → hash_seq_chunk blake3 m p c ≡ hash_seq_chunk blake3 m' p' c'
      → (m ≡ m') × (p ≡ p') × (c ≡ c')
  unfolding hash_seq_chunk
  hash_seq_chunk-same m m' p p' c c' free z w w' e =
      let (models, rest) = salt-same m m' _ _ z (after_same seq_tag _ _ (free.apart _ _ e)) in
      let (parents, bytes) = free.split p p' _ _ rest in
      (models, parents, token_bytes-same c c' w w' bytes)

  pub hash_seq_chunk-root :
      (m : List ℕ) (p : Digest) (c : List ℕ) → IsCollisionFree → hash_seq_chunk blake3 m p c ≢ root
  unfolding hash_seq_chunk
  hash_seq_chunk-root m p c free = free.nonzero _
