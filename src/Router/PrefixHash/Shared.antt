-- ===== src/Router/PrefixHash/Shared.antt =====
-- What an overlap in the prefix index of rust/libraries/cgn-core/src/prefix.rs says of the prompts
-- behind the digests of rust/libraries/cgn-core/src/hash.rs.
use cognitora_inference.Prelude.{
  ℕ, suc, zero, ◌<◌, ◌≡◌, refl, sym, ap, ◌∙◌, ◌⊎◌, inl, inr, true, false, some, List, [], ◌∷◌,
  get_elem?, arith, All, Bool-cases,
}
use cognitora_inference.Prelude.Maps.{get, get-insert}
use cognitora_inference.Router.PrefixIndex.{
  NodeEntry, PrefixIndex, new, look_up, live, contains, entries_of, seen, add, insert_many,
  longest_prefix_overlap,
}
use cognitora_inference.Router.PrefixIndex.Overlap.{holds, leading, longest_prefix_overlap-leading}
use cognitora_inference.Router.PrefixHash.{Blake3, chunks, hash_seq_chunks}
use cognitora_inference.Router.PrefixHash.Bytes.{IsWord, zeros, IsCollisionFree}
use cognitora_inference.Router.PrefixHash.Chains.{Agree, chain-Agree, chunks-All}

module _ {Digest Name : Type 0} (digests : Discrete Digest) (names : Discrete Name) where
  add-apart :
      (index : PrefixIndex digests names) (d e : Digest) (n m : Name) (now later : ℕ)
      → ¬ (d ≡ e)
      → holds digests names (add digests names index d n now) later m e
        ≡ holds digests names index later m e
  unfolding add look_up entries_of
  add-apart index d e n m now later ne =
      let after = seen digests names n now (entries_of digests names (get digests d index.inner)) in
      ground
        (arith, get-insert {V = List (NodeEntry digests names)} digests d e after index.inner, ne)

  -- A node is live only for digests that it was live for before, or that were recorded.
  insert_many-member :
      (index : PrefixIndex digests names) (ds : List Digest) (e : Digest) (n m : Name)
      (now later : ℕ)
      → holds digests names (insert_many digests names index ds n now) later m e ≡ true
      → (holds digests names index later m e ≡ true) ⊎ ((j : ℕ) × (get_elem? ds j ≡ some e))
  unfolding insert_many
  insert_many-member index [] e n m now later h = inl h
  insert_many-member index (d ∷ ds) e n m now later h =
      elim (insert_many-member (add digests names index d n now) ds e n m now later h) [
        | inl held ↦ elim (digests d e) [
          | yes p ↦ inr (zero, ap some p)
          | no q ↦ inl (sym (add-apart index d e n m now later q) ∙ held)
        ]
        | inr (j, g) ↦ inr (suc j, g)
      ]

  leading-held :
      (index : PrefixIndex digests names) (now : ℕ) (n : Name) (ds : List Digest) (i : ℕ)
      → i < leading digests names index now n ds
      → (d : Digest) × (get_elem? ds i ≡ some d) × (holds digests names index now n d ≡ true)
  unfolding leading
  leading-held index now n [] i lt = absurd (omega (arith, lt))
  leading-held index now n (d ∷ ds) zero lt =
      elim (Bool-cases (holds digests names index now n d)) [
        | inl h ↦ (d, refl, h)
        | inr h ↦ absurd (ground (arith, lt, h))
      ]
  leading-held index now n (d ∷ ds) (suc i) lt =
      elim (Bool-cases (holds digests names index now n d)) [
        | inl h ↦ leading-held index now n ds i (ground (arith, lt, h))
        | inr h ↦ absurd (ground (arith, lt, h))
      ]

module _ (blake3 : Blake3) {Name : Type 0} (names : Discrete Name) where
  open blake3 use {Digest, digests, root}

  new-holds :
      (ttl now : ℕ) (n : Name) (e : Digest)
      → holds digests names (new digests names ttl) now n e ≡ false
  unfolding look_up entries_of live contains get
  new-holds ttl now n e = refl

  -- If BLAKE3 digests do not collide, and a node has the claims of one prompt and no others, then an
  -- overlap of `k + 1` that the router reads for the node and another prompt means that the prompts
  -- have the same salt and that their first `k + 1` chunks are the same. Tokens have 32 bits, and the
  -- salts have as many zero bytes: none where a salt is a model, one where it is a model and a tenant;
  -- a salt with a tenant against one without is left open.
  pub overlap-Agree :
      (ttl now later k : ℕ) (n : Name) (model model' held asked : List ℕ)
      → IsCollisionFree blake3
      → zeros model' ≡ zeros model
      → All IsWord held
      → All IsWord asked
      → get names n (
          longest_prefix_overlap digests names
            (insert_many digests names
              (new digests names ttl)
              (hash_seq_chunks blake3 model held)
              n
              now)
            (hash_seq_chunks blake3 model' asked)
            later)
        ≡ some (suc k)
      → (model' ≡ model) × Agree blake3 k (chunks asked) (chunks held)
  unfolding hash_seq_chunks
  overlap-Agree ttl now later k n model model' held asked free salts words words' o =
      let empty = new digests names ttl in
      let ds = hash_seq_chunks blake3 model held in
      let es = hash_seq_chunks blake3 model' asked in
      let index = insert_many digests names empty ds n now in
      let front : k < leading digests names index later n es =
        ground (arith, sym (longest_prefix_overlap-leading digests names index es later n) ∙ o) in
      let (d, g, h) = leading-held digests names index later n es k front in
      elim (insert_many-member digests names empty ds d n n now later h) [
        | inl before ↦ absurd (ground (arith, before, new-holds ttl later n d))
        | inr (j, g') ↦
            let (at, models, agree) =
              chain-Agree blake3 free model' model (chunks asked) (chunks held) salts
                (chunks-All IsWord asked words') (chunks-All IsWord held words) k j g g' refl in
            (models, agree)
      ]
