-- ===== src/Infer/Prefix.antt =====
-- `PrefixCache` of rust/services/cgn-infer/src/kv/mod.rs. `Hasher` stands for the blake3 crate: the digest
-- of bytes, and the 32 bytes of a digest.
pub mod Laws
use cognitora_inference.Prelude.{
  ℕ, suc, zero, ◌+◌, ◌*◌, ◌/◌, ◌≡◌, Bool, true, false, Option, none, some, List, [], ◌∷◌, ◌==◌,
  if◌then◌else◌, length, take, drop, ◌++◌,
}
use cognitora_inference.Router.PrefixHash.{token_bytes}
use cognitora_inference.Prelude.Maps.{get, insert}
use cognitora_inference.Infer.Pool.{block_tokens}

pub record Hasher : Type 1 where
  pub Digest : Type 0
  pub same : Discrete Digest
  pub finalize : List ℕ → Digest
  pub as_bytes : Digest → List ℕ

module _ (h : Hasher) where
  open h use {Digest, same, finalize, as_bytes}

  -- The bytes of a parent block, if there is one.
  unfoldable pub parent_bytes : Option Digest → List ℕ
  parent_bytes none = []
  parent_bytes (some p) = as_bytes p

  unfoldable pub hash_block : Option Digest → List ℕ → Digest
  unfolding parent_bytes token_bytes
  hash_block parent tokens = finalize (parent_bytes parent ++ token_bytes tokens)

  -- The digests of the first `n` blocks, for `chunks_exact`.
  unfoldable pub hash_chain : ℕ → Option Digest → List ℕ → List Digest
  hash_chain zero parent tokens = []
  hash_chain (suc n) parent tokens =
      let digest = hash_block parent (take block_tokens tokens) in
      digest ∷ hash_chain n (some digest) (drop block_tokens tokens)

  unfoldable pub block_hashes : List ℕ → List Digest
  unfolding hash_chain
  block_hashes tokens = hash_chain (length tokens / block_tokens) none tokens

  pub record PrefixCache : Type 0 where
    pub resident : List (Digest × ℕ)
    pub cached_tokens : ℕ

  pub record PrefixMatch : Type 0 where
    pub tokens : ℕ
    pub blocks : ℕ

  -- The loop of `match_prefix`: `i` is the index of the head.
  unfoldable pub matched : List (Digest × ℕ) → ℕ → List Digest → ℕ
  matched resident i [] = i
  matched resident i (d ∷ ds) =
      let rest = matched resident (suc i) ds in
      elim (get same d resident) [ none ↦ i | some depth ↦ if depth == suc i then rest else i ]

  unfoldable pub match_prefix : PrefixCache → List ℕ → PrefixMatch
  unfolding block_hashes matched
  match_prefix c prompt =
      let blocks = matched c.resident 0 (block_hashes prompt) in
      record { tokens = blocks * block_tokens; blocks = blocks }

  unfoldable pub insert_chain : ℕ → List Digest → List (Digest × ℕ) → List (Digest × ℕ)
  insert_chain i [] resident = resident
  insert_chain i (d ∷ ds) resident = insert_chain (suc i) ds (insert same d (suc i) resident)

  unfoldable pub recorded : PrefixCache → List ℕ → PrefixCache
  unfolding block_hashes insert_chain
  recorded c tokens = record {
    resident = insert_chain 0 (block_hashes tokens) [];
    cached_tokens = length tokens;
  }

  unfoldable pub clear : PrefixCache → PrefixCache
  clear c = record { resident = []; cached_tokens = 0 }
