-- ===== src/Router/PrefixHash.antt =====
-- The digests of a prompt, rust/libraries/cgn-core/src/hash.rs. `Blake3` stands for the blake3 crate: the
-- digest of bytes, and the 32 bytes of a digest.
pub mod Bytes
pub mod Chains
pub mod Shared
use cognitora_inference.Prelude.{
  ℕ, suc, zero, ◌+◌, ◌/◌, ◌%◌, List, [], ◌∷◌, ◌++◌, map, length, take, drop,
}

pub record Blake3 : Type 1 where
  pub Digest : Type 0
  pub digests : Discrete Digest
  pub finalize : List ℕ → Digest
  pub as_bytes : Digest → List ℕ
  -- 32 bytes of zero.
  pub root : Digest

abbrev pub tokens_per_chunk : ℕ
tokens_per_chunk = 32

-- `to_le_bytes` of the tokens, one after the other.
unfoldable pub token_bytes : List ℕ → List ℕ
token_bytes [] = []
token_bytes (t ∷ tokens) =
    (t % 256) ∷ (t / 256 % 256) ∷ (t / 65536 % 256) ∷ (t / 16777216 % 256) ∷ token_bytes tokens

-- `tokens.chunks(TOKENS_PER_CHUNK)`: every chunk takes a token at least, so that the number of tokens
-- is fuel enough.
unfoldable pub chunks_of : ℕ → List ℕ → List (List ℕ)
chunks_of fuel [] = []
chunks_of zero (t ∷ tokens) = []
chunks_of (suc fuel) (t ∷ tokens) =
    take tokens_per_chunk (t ∷ tokens) ∷ chunks_of fuel (drop tokens_per_chunk (t ∷ tokens))

unfoldable pub chunks : List ℕ → List (List ℕ)
unfolding chunks_of
chunks tokens = chunks_of (length tokens) tokens

-- `b"cognitora.v1\0"` and `b"cognitora.seq.v1\0"`.
abbrev pub chunk_tag : List ℕ
chunk_tag =
    b'c' ∷ b'o' ∷ b'g' ∷ b'n' ∷ b'i' ∷ b't' ∷ b'o' ∷ b'r' ∷ b'a' ∷ b'.' ∷ b'v' ∷ b'1' ∷ 0 ∷ []

abbrev pub seq_tag : List ℕ
seq_tag =
    b'c' ∷ b'o' ∷ b'g' ∷ b'n' ∷ b'i' ∷ b't' ∷ b'o' ∷ b'r' ∷ b'a' ∷ b'.' ∷ b's' ∷ b'e' ∷ b'q' ∷ b'.'
    ∷ b'v' ∷ b'1' ∷ 0 ∷ []

module _ (blake3 : Blake3) where
  open blake3 use {Digest, finalize, as_bytes, root}

  -- A model is the bytes of its name.
  unfoldable pub hash_chunk : List ℕ → List ℕ → Digest
  unfolding token_bytes
  hash_chunk model tokens = finalize (chunk_tag ++ (model ++ (0 ∷ token_bytes tokens)))

  unfoldable pub hash_seq_chunk : List ℕ → Digest → List ℕ → Digest
  unfolding token_bytes
  hash_seq_chunk model parent tokens =
      finalize (seq_tag ++ (model ++ (0 ∷ (as_bytes parent ++ token_bytes tokens))))

  unfoldable pub hash_chunks : List ℕ → List ℕ → List Digest
  unfolding chunks
  hash_chunks model tokens = map (hash_chunk model) (chunks tokens)

  -- The loop of `hash_seq_chunks`.
  unfoldable pub chain : List ℕ → Digest → List (List ℕ) → List Digest
  chain model parent [] = []
  chain model parent (c ∷ cs) = let d = hash_seq_chunk model parent c in d ∷ chain model d cs

  unfoldable pub hash_seq_chunks : List ℕ → List ℕ → List Digest
  unfolding chunks chain
  hash_seq_chunks model tokens = chain model root (chunks tokens)
