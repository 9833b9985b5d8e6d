-- ===== src/Router/Prompt/Reuse.antt =====
-- A conversation that goes on finds what it left in the prefix index: the text of
-- rust/services/cgn-router/src/routing/prompt.rs, its digests by rust/libraries/cgn-core/src/hash.rs and
-- the overlap of rust/libraries/cgn-core/src/prefix.rs together.
use cognitora_inference.Prelude.{
  ℕ, suc, zero, ◌+◌, ◌-◌, ◌*◌, ◌≤◌, ◌<◌, ◌≡◌, refl, sym, ap, ◌∙◌, some, List, [], ◌∷◌, ◌++◌, length,
  take, drop, take-front, drop-front, get-take, get_elem?, arith, length-append, length-drop, true,
}
use cognitora_inference.Prelude.Maps.{get}
use cognitora_inference.Router.PrefixIndex.{PrefixIndex, insert_many, longest_prefix_overlap}
use cognitora_inference.Router.PrefixIndex.Overlap.{holds, leading, longest_prefix_overlap-leading}
use cognitora_inference.Router.PrefixIndex.Inserts.{insert_many-holds}
use cognitora_inference.Router.PrefixHash.{
  Blake3, tokens_per_chunk, chunks_of, chunks, chain, hash_seq_chunk, hash_seq_chunks,
}
use cognitora_inference.Router.Prompt.{
  Text, Message, approximate_token_ids, join_messages, request_text,
}
use cognitora_inference.Router.Prompt.Stable.{approximate_token_ids-stable, join_messages-append}

-- The complete chunks at the front do not depend on what follows, nor on the fuel.
chunks_of-front :
    (k f g : ℕ) (done rest : List ℕ)
    → length done + length rest ≤ f
    → length done ≤ g
    → k * tokens_per_chunk ≤ length done
    → take k (chunks_of f (done ++ rest)) ≡ take k (chunks_of g done)
unfolding chunks_of
chunks_of-front zero f g done rest lf lg le = refl
chunks_of-front (suc k) f g [] rest lf lg le = absurd (omega arith)
chunks_of-front (suc k) zero g (t ∷ done) rest lf lg le = absurd (omega arith)
chunks_of-front (suc k) (suc f) zero (t ∷ done) rest lf lg le = absurd (omega arith)
chunks_of-front (suc k) (suc f) (suc g) (t ∷ done) rest lf lg le =
    let same : t ∷ take 31 (done ++ rest) ≡ t ∷ take 31 done =
      ap (◌∷◌ t) (take-front 31 done rest (omega arith)) in
    let later =
      chunks_of-front k f g (drop 31 done) rest (omega (arith, length-drop 31 done))
        (omega (arith, length-drop 31 done)) (omega (arith, length-drop 31 done)) in
    rw (drop-front 31 done rest (omega arith), same, later) refl

chunks_of-length :
    (k g : ℕ) (tokens : List ℕ)
    → length tokens ≤ g
    → k * tokens_per_chunk ≤ length tokens
    → k ≤ length (chunks_of g tokens)
unfolding chunks_of
chunks_of-length zero g tokens lg le = omega arith
chunks_of-length (suc k) g [] lg le = absurd (omega arith)
chunks_of-length (suc k) zero (t ∷ tokens) lg le = absurd (omega arith)
chunks_of-length (suc k) (suc g) (t ∷ tokens) lg le = omega (
  arith,
  chunks_of-length k g (drop 31 tokens) (omega (arith, length-drop 31 tokens))
      (omega (arith, length-drop 31 tokens)),
)

module _ (blake3 : Blake3) where
  open blake3 use {Digest, digests, root}

  take-chain :
      (k : ℕ) (model : List ℕ) (parent : Digest) (cs : List (List ℕ))
      → take k (chain blake3 model parent cs) ≡ chain blake3 model parent (take k cs)
  unfolding chain
  take-chain zero model parent cs = refl
  take-chain (suc k) model parent [] = refl
  take-chain (suc k) model parent (c ∷ cs) =
      let d = hash_seq_chunk blake3 model parent c in ap (◌∷◌ d) (take-chain k model d cs)

  length-chain :
      (model : List ℕ) (parent : Digest) (cs : List (List ℕ))
      → length (chain blake3 model parent cs) ≡ length cs
  unfolding chain
  length-chain model parent [] = refl
  length-chain model parent (c ∷ cs) =
      ap suc (length-chain model (hash_seq_chunk blake3 model parent c) cs)

  -- Prompts that begin with the same tokens have the same digests for the complete chunks of these.
  hash_seq_chunks-front :
      (k : ℕ) (model done rest : List ℕ)
      → k * tokens_per_chunk ≤ length done
      → take k (hash_seq_chunks blake3 model (done ++ rest))
        ≡ take k (hash_seq_chunks blake3 model done)
  unfolding hash_seq_chunks chunks
  hash_seq_chunks-front k model done rest le =
      take-chain k model root (chunks (done ++ rest))
      ∙ ap (chain blake3 model root) (
          chunks_of-front k (length (done ++ rest)) (length done) done rest
            (omega (arith, length-append done rest)) (omega arith) le)
      ∙ sym (take-chain k model root (chunks done))

  length-front :
      (k : ℕ) (model done : List ℕ)
      → k * tokens_per_chunk ≤ length done
      → k ≤ length (hash_seq_chunks blake3 model done)
  unfolding hash_seq_chunks chunks
  length-front k model done le =
      let n = chunks_of-length k (length done) done (omega arith) le in
      omega (arith, length-chain model root (chunks done), n)

module _ {Digest Name : Type 0} (digests : Discrete Digest) (names : Discrete Name) where
  leading-at_least :
      (index : PrefixIndex digests names) (now k : ℕ) (n : Name) (ds : List Digest)
      → k ≤ length ds
      → ((i : ℕ) (d : Digest)
          → i < k
          → get_elem? ds i ≡ some d
          → holds digests names index now n d ≡ true)
      → k ≤ leading digests names index now n ds
  unfolding leading
  leading-at_least index now zero n ds le h = omega arith
  leading-at_least index now (suc k) n [] le h = absurd (omega arith)
  leading-at_least index now (suc k) n (d ∷ ds) le h =
      let rest =
        leading-at_least index now k n ds (omega arith) (λ i e lt g. h (suc i) e (omega arith) g) in
      rw (h zero d (omega arith) refl) (omega (arith, rest))

module _ (text : Text) (blake3 : Blake3) {Name : Type 0} (names : Discrete Name) where
  open blake3 use {Digest, digests}

  -- The digests that the router asks the index for.
  abbrev pub prompt_digests : List ℕ → List Message → List Digest
  prompt_digests model ms =
      hash_seq_chunks blake3 model (approximate_token_ids text (request_text text [] ms))

  -- After the digests of a conversation have been recorded for a node, and while less time than the
  -- lifetime of an entry has passed, the node's overlap with any continuation of the conversation is
  -- not less than the number of complete chunks in the conversation's tokens, its last token apart.
  -- The tokens are the approximate ones, which the router takes where it has no tokenizer.
  pub prompt_digests-reused :
      (index : PrefixIndex digests names) (model : List ℕ) (ms more : List Message) (n : Name)
      (now later k : ℕ)
      → later - now < index.ttl
      → 0 < k
      → k * tokens_per_chunk < length (approximate_token_ids text (request_text text [] ms))
      → (o : ℕ) × (get names n (
            longest_prefix_overlap digests names
              (insert_many digests names index (prompt_digests model ms) n now)
              (prompt_digests model (ms ++ more))
              later)
          ≡ some o)
        × (k ≤ o)
  unfolding request_text
  prompt_digests-reused index model ms more n now later k ttl some_chunk enough =
      let (done, last, e, short, stable) =
        approximate_token_ids-stable text (join_messages text ms) in
      let (rest, e') = stable (join_messages text more) in
      let long : k * tokens_per_chunk ≤ length done =
        omega (arith, ap length e, length-append done last, short, enough) in
      let ds = prompt_digests model ms in
      let es = prompt_digests model (ms ++ more) in
      let index' = insert_many digests names index ds n now in
      let ds-done : take k ds ≡ take k (hash_seq_chunks blake3 model done) =
        ap (λ (ts : List ℕ). take k (hash_seq_chunks blake3 model ts)) e
        ∙ hash_seq_chunks-front blake3 k model done last long in
      let es-tokens : es ≡ hash_seq_chunks blake3 model (done ++ rest) =
        ap (λ (ts : List ℕ). hash_seq_chunks blake3 model ts)
          (ap (approximate_token_ids text) (join_messages-append text ms more) ∙ e') in
      let same : take k es ≡ take k ds =
        ap (take k) es-tokens ∙ hash_seq_chunks-front blake3 k model done rest long ∙ sym ds-done in
      let many : k ≤ length es = omega (
        arith,
        ap length es-tokens,
        length-front blake3 k model (done ++ rest) (omega (arith, length-append done rest, long)),
      ) in
      let front : k ≤ leading digests names index' later n es =
        leading-at_least digests names index' later k n es many (λ i d lt g.
          insert_many-holds digests names index ds i d n now later ttl (
            sym (get-take k i ds lt)
            ∙ ap (λ (xs : List Digest). get_elem? xs i) (sym same)
            ∙ get-take k i es lt
            ∙ g)) in
      (
        leading digests names index' later n es,
        longest_prefix_overlap-leading digests names index' es later n
            ∙ ground (arith, front, some_chunk),
        front,
      )
