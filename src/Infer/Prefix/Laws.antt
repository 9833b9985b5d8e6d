-- ===== src/Infer/Prefix/Laws.antt =====
-- What a prefix lookup finds, rust/services/cgn-infer/src/kv/mod.rs.
use cognitora_inference.Prelude.{
  ℕ, suc, zero, ◌++◌, ◌≤◌, All, length-append, length-drop, ◌+◌, ◌*◌, ◌/◌, ◌<◌, ◌≡◌, ◌≢◌, refl, sym,
  ap, ◌∙◌, ◌⊎◌, ◌↔◌, inl, inr, Option, none, some, List, [], ◌∷◌, arith, length, take, drop,
  get_elem?, ℕ_discrete,
}
use mathlib.Core.Path.{subst}
use mathlib.Core.Logic.{ite, if_pos, if_neg}
use cognitora_inference.Prelude.Maps.{get, insert, get-insert}
use cognitora_inference.Router.PrefixHash.{token_bytes}
use cognitora_inference.Router.PrefixHash.Bytes.{IsWord, token_bytes-same}
use cognitora_inference.Infer.Pool.{block_tokens}
use cognitora_inference.Infer.Prefix.{
  Hasher, hash_block, parent_bytes, hash_chain, block_hashes, PrefixCache, matched, match_prefix,
  insert_chain, recorded,
}

-- The number of leading positions at which two lists agree.
abbrev pub agreement {ℓ} : {A : Type ℓ} → Discrete A → List A → List A → ℕ
agreement dec [] ys = 0
agreement dec (x ∷ xs) [] = 0
agreement dec (x ∷ xs) (y ∷ ys) = let rest = agreement dec xs ys in ite (dec x y) (suc rest) 0

-- The complete blocks of a token sequence.
abbrev pub chunks : ℕ → List ℕ → List (List ℕ)
chunks zero tokens = []
chunks (suc n) tokens = take block_tokens tokens ∷ chunks n (drop block_tokens tokens)

abbrev pub complete_blocks : List ℕ → List (List ℕ)
complete_blocks tokens = chunks (length tokens / block_tokens) tokens

pub blocks-discrete : Discrete (List ℕ)
blocks-discrete = hlevel ℕ_discrete

-- Sixteen tokens of 32 bits.
abbrev pub IsBlock : List ℕ → Type 0
IsBlock ts = (length ts ≡ 16) × All IsWord ts

-- Lists with fronts of one length can be taken apart.
apart_at : (a b xs ys : List ℕ) → length a ≡ length b → a ++ xs ≡ b ++ ys → (a ≡ b) × (xs ≡ ys)
apart_at [] [] xs ys l e = (refl, e)
apart_at [] (c ∷ b) xs ys l e = absurd (omega (arith, l))
apart_at (c ∷ a) [] xs ys l e = absurd (omega (arith, l))
apart_at (c ∷ a) (d ∷ b) xs ys l e =
    let (p, q) = apart_at a b xs ys (omega (arith, l)) (cc e) in (ground (arith, e, p), q)

length-token_bytes : (ts : List ℕ) → length (token_bytes ts) ≡ length ts * 4
unfolding token_bytes
length-token_bytes [] = refl
length-token_bytes (t ∷ ts) = omega (arith, length-token_bytes ts)

All-take : (n : ℕ) (ts : List ℕ) → All IsWord ts → All IsWord (take n ts)
All-take zero ts a = tt
All-take (suc n) [] a = tt
All-take (suc n) (t ∷ ts) (p, a) = (p, All-take n ts a)

All-drop : (n : ℕ) (ts : List ℕ) → All IsWord ts → All IsWord (drop n ts)
All-drop zero ts a = a
All-drop (suc n) [] a = tt
All-drop (suc n) (t ∷ ts) (p, a) = All-drop n ts a

length-take : (n : ℕ) (ts : List ℕ) → n ≤ length ts → length (take n ts) ≡ n
length-take zero ts le = refl
length-take (suc n) [] le = absurd (omega (arith, le))
length-take (suc n) (t ∷ ts) le = omega (arith, length-take n ts (omega (arith, le)))

take-IsBlock : (ts : List ℕ) → 16 ≤ length ts → All IsWord ts → IsBlock (take block_tokens ts)
take-IsBlock ts le a = (length-take 16 ts le, All-take 16 ts a)

-- The bytes that a chain hashes, block after block.
abbrev pub hashed : (h : Hasher) → ℕ → Option h.Digest → List ℕ → List (List ℕ)
hashed h zero p xs = []
hashed h (suc n) p xs =
    (parent_bytes h p ++ token_bytes (take block_tokens xs))
    ∷ hashed h n (some (hash_block h p (take block_tokens xs))) (drop block_tokens xs)

abbrev pub hashed_by : Hasher → List ℕ → List (List ℕ)
hashed_by h tokens = hashed h (length tokens / block_tokens) none tokens

module _ (h : Hasher) (Hashed : List ℕ → Type 0) where
  open h use {Digest, same, finalize, as_bytes}

  -- What is hashed has no collision, and distinct digests have distinct bytes, 32 each.
  pub record IsCollisionFree : Type 0 where
    pub apart : (xs ys : List ℕ) → Hashed xs → Hashed ys → finalize xs ≡ finalize ys → xs ≡ ys
    pub long : (d : Digest) → length (as_bytes d) ≡ 32
    pub whole : (d e : Digest) → as_bytes d ≡ as_bytes e → d ≡ e

  -- The bytes of a block of tokens after its parent are among what is hashed.
  abbrev IsHashed : Option Digest → List ℕ → Type 0
  IsHashed p ts = IsBlock ts × Hashed (parent_bytes h p ++ token_bytes ts)

  -- Distinct blocks, or equal blocks after distinct prefixes, have distinct digests.
  hash_block-same :
      (p q : Option Digest) (xs ys : List ℕ)
      → IsCollisionFree
      → IsHashed p xs
      → IsHashed q ys
      → hash_block h p xs ≡ hash_block h q ys
      → (p ≡ q) × (xs ≡ ys)
  unfolding hash_block parent_bytes
  hash_block-same none none xs ys free ((l, a), u) ((m, b), v) e =
      (refl, token_bytes-same xs ys a b (free.apart _ _ u v e))
  hash_block-same none (some q) xs ys free ((l, a), u) ((m, b), v) e = absurd (
      omega (
        arith,
        ap length (free.apart _ _ u v e),
        length-append (as_bytes q) (token_bytes ys),
        length-token_bytes xs,
        length-token_bytes ys,
        l,
        m,
        free.long q,
      ))
  hash_block-same (some p) none xs ys free ((l, a), u) ((m, b), v) e = absurd (
      omega (
        arith,
        ap length (free.apart _ _ u v e),
        length-append (as_bytes p) (token_bytes xs),
        length-token_bytes xs,
        length-token_bytes ys,
        l,
        m,
        free.long p,
      ))
  hash_block-same (some p) (some q) xs ys free ((l, a), u) ((m, b), v) e =
      let (parents, tokens) =
        apart_at (as_bytes p) (as_bytes q) (token_bytes xs) (token_bytes ys)
          (free.long p ∙ sym (free.long q)) (free.apart _ _ u v e) in
      (ap some (free.whole p q parents), token_bytes-same xs ys a b tokens)

  -- Enough tokens for some blocks, all of which are hashed.
  abbrev HasBlocks : ℕ → Option Digest → List ℕ → Type 0
  HasBlocks n p xs = (n * 16 ≤ length xs) × All IsWord xs × All Hashed (hashed h n p xs)

  HasBlocks-drop :
      (n : ℕ) (p : Option Digest) (xs : List ℕ)
      → HasBlocks (suc n) p xs
      → HasBlocks n (some (hash_block h p (take block_tokens xs))) (drop block_tokens xs)
  HasBlocks-drop n p xs (le, a, (u, us)) =
      (omega (arith, le, length-drop 16 xs), All-drop 16 xs a, us)

  HasBlocks-take :
      (n : ℕ) (p : Option Digest) (xs : List ℕ)
      → HasBlocks (suc n) p xs
      → IsHashed p (take block_tokens xs)
  HasBlocks-take n p xs (le, a, (u, us)) = (take-IsBlock xs (omega (arith, le)) a, u)

  -- A chain goes on from the digest before.
  chain_next :
      (n : ℕ) (p : Option Digest) (xs : List ℕ) (k : ℕ) {d : Digest}
      → HasBlocks n p xs
      → get_elem? (hash_chain h n p xs) (suc k) ≡ some d
      → (e : Digest) × (ts : List ℕ) × (get_elem? (hash_chain h n p xs) k ≡ some e)
        × (d ≡ hash_block h (some e) ts)
        × IsHashed (some e) ts
  unfolding hash_chain
  chain_next zero p xs k has g = absurd (ground arith)
  chain_next (suc zero) p xs zero has g = absurd (ground arith)
  chain_next (suc (suc n)) p xs zero {d} has g =
      let later = HasBlocks-drop (suc n) p xs has in
      (
        hash_block h p (take block_tokens xs),
        take block_tokens (drop block_tokens xs),
        refl,
        ground arith,
        HasBlocks-take n _ (drop block_tokens xs) later,
      )
  chain_next (suc n) p xs (suc k) has g =
      let (e, ts, q, r, v) =
        chain_next n _ (drop block_tokens xs) k (HasBlocks-drop n p xs has) g in
      (e, ts, q, r, v)

  chain_first :
      (n : ℕ) (p : Option Digest) (xs : List ℕ) {d : Digest}
      → HasBlocks n p xs
      → get_elem? (hash_chain h n p xs) 0 ≡ some d
      → (d ≡ hash_block h p (take block_tokens xs)) × IsHashed p (take block_tokens xs)
  unfolding hash_chain
  chain_first zero p xs has g = absurd (ground arith)
  chain_first (suc n) p xs has g = (ground arith, HasBlocks-take n p xs has)

  abbrev Once : List Digest → Type 0
  Once ds = (j l : ℕ) (d : Digest) → j < l → get_elem? ds j ≡ some d → get_elem? ds l ≢ some d

  chain_distinct :
      IsCollisionFree → (n : ℕ) (xs : List ℕ) → HasBlocks n none xs → Once (hash_chain h n none xs)
  chain_distinct free n xs has j zero d lt g g' = absurd (omega (arith))
  chain_distinct free n xs has zero (suc l) d lt g g' =
      let (e, ts, q, r, v') = chain_next n none xs l has g' in
      let (s, v) = chain_first n none xs has g in
      let (same_parent, _) =
        hash_block-same none (some e) (take block_tokens xs) ts free v v' (sym s ∙ r) in
      cc
  chain_distinct free n xs has (suc k) (suc l) d lt g g' =
      let (e, ts, q, r, v) = chain_next n none xs k has g in
      let (e', ts', q', r', v') = chain_next n none xs l has g' in
      let (same_parent, _) = hash_block-same (some e) (some e') ts ts' free v v' (sym r ∙ r') in
      chain_distinct free n xs has k l e (omega arith) q (q' ∙ sym same_parent)

  insert_chain_absent :
      (i : ℕ) (ds : List Digest) (m : List (Digest × ℕ)) (e : Digest)
      → ((k : ℕ) → get_elem? ds k ≢ some e)
      → get same e (insert_chain h i ds m) ≡ get same e m
  unfolding insert_chain
  insert_chain_absent i [] m e out = refl
  insert_chain_absent i (d ∷ ds) m e out =
      insert_chain_absent (suc i) ds (insert same d (suc i) m) e (λ k. out (suc k))
      ∙ ground (arith, get-insert {V = ℕ} same d e (suc i) m, out 0)

  insert_chain_sound :
      (i : ℕ) (ds : List Digest) (m : List (Digest × ℕ)) (e : Digest) (j : ℕ)
      → get same e (insert_chain h i ds m) ≡ some j
      → (get same e m ≡ some j) ⊎ ((k : ℕ) × (j ≡ suc (i + k)) × (get_elem? ds k ≡ some e))
  unfolding insert_chain
  insert_chain_sound i [] m e j g = inl g
  insert_chain_sound i (d ∷ ds) m e j g =
      elim (insert_chain_sound (suc i) ds (insert same d (suc i) m) e j g) [
        | inl old ↦ elim (same d e) [
          | yes p ↦ inr (0, ground (arith, get-insert {V = ℕ} same d e (suc i) m), ap some p)
          | no p ↦ inl (ground (arith, get-insert {V = ℕ} same d e (suc i) m))
        ]
        | inr (k, p, q) ↦ inr (suc k, omega (arith, p), q)
      ]

  insert_chain_complete :
      (i : ℕ) (ds : List Digest) (m : List (Digest × ℕ)) (e : Digest) (k : ℕ)
      → Once ds
      → get_elem? ds k ≡ some e
      → get same e (insert_chain h i ds m) ≡ some (suc (i + k))
  unfolding insert_chain
  insert_chain_complete i [] m e k once g = absurd (ground arith)
  insert_chain_complete i (d ∷ ds) m e zero once g =
      insert_chain_absent (suc i) ds (insert same d (suc i) m) e
        (λ l. once 0 (suc l) e (omega arith) g)
      ∙ ground (arith, get-insert {V = ℕ} same d e (suc i) m)
  insert_chain_complete i (d ∷ ds) m e (suc k) once g =
      insert_chain_complete (suc i) ds (insert same d (suc i) m) e k
        (λ j l d' lt. once (suc j) (suc l) d' (omega arith)) g
      ∙ ground arith

  -- The table of a recorded chain answers an index exactly for the digest at it.
  abbrev Answers : List (Digest × ℕ) → List Digest → Type 0
  Answers m ds = (e : Digest) (j : ℕ) → (get same e m ≡ some (suc j)) ↔ (get_elem? ds j ≡ some e)

  recorded-Answers : (ds : List Digest) → Once ds → Answers (insert_chain h 0 ds []) ds
  unfolding get
  recorded-Answers ds once e j = (
    λ g. elim (insert_chain_sound 0 ds [] e (suc j) g) [
      | inl old ↦ cc
      | inr (k, p, q) ↦ let at : j ≡ k = omega (arith, p) in rw at q
    ],
    λ g. insert_chain_complete 0 ds [] e j once g ∙ ground arith,
  )

  matched-agreement :
      (m : List (Digest × ℕ)) (all : List Digest) (i : ℕ) (es ds : List Digest)
      → Answers m all
      → ((j : ℕ) → get_elem? all (i + j) ≡ get_elem? ds j)
      → matched h m i es ≡ i + agreement same es ds
  unfolding matched
  matched-agreement m all i [] ds ans at = omega arith
  matched-agreement m all i (e ∷ es) [] ans at = ground (arith, ans e i, at 0)
  matched-agreement m all i (e ∷ es) (d ∷ ds) ans at = elim (same e d) [
    | yes p ↦
        let later =
          matched-agreement m all (suc i) es ds ans
            (λ j. (let move : suc i + j ≡ i + suc j = omega arith in rw move (at (suc j)))) in
        ground (arith, (ans e i).1, at 0, later)
    | no p ↦ ground (arith, ans e i, at 0)
  ]

  chain-agreement :
      IsCollisionFree
      → (n m : ℕ) (p : Option Digest) (xs ys : List ℕ) → HasBlocks n p xs
      → HasBlocks m p ys
      → agreement same (hash_chain h n p xs) (hash_chain h m p ys)
        ≡ agreement blocks-discrete (chunks n xs) (chunks m ys)
  unfolding hash_chain
  chain-agreement free zero m p xs ys v w = refl
  chain-agreement free (suc n) zero p xs ys v w = refl
  chain-agreement free (suc n) (suc m) p xs ys v w =
      let x = take block_tokens xs in
      let y = take block_tokens ys in
      elim (same (hash_block h p x) (hash_block h p y)) [
        | yes e ↦
            let (_, t) =
              hash_block-same p p x y free (HasBlocks-take n p xs v) (HasBlocks-take m p ys w) e in
            let later : HasBlocks n (some (hash_block h p y)) (drop block_tokens xs) =
              subst (λ d. HasBlocks n (some d) (drop block_tokens xs)) e
                (HasBlocks-drop n p xs v) in
            let ih =
              chain-agreement free n m (some (hash_block h p y)) (drop block_tokens xs)
                (drop block_tokens ys) later (HasBlocks-drop m p ys w) in
            rw (if_pos _ e) (rw (if_pos _ t) (rw e (ap suc ih)))
        | no ne ↦ rw (if_neg _ ne) (rw (if_neg _ (λ t. ne (ap (hash_block h p) t))) refl)
      ]

  -- For a set of byte strings that has all that the two chains hash and in which BLAKE3 has no
  -- collision, and for tokens of 32 bits: a lookup after a recording finds exactly the leading complete
  -- blocks in which the prompt agrees with what was recorded, 16 tokens for each.
  pub match_prefix-recorded :
      (c : PrefixCache h) (tokens prompt : List ℕ)
      → IsCollisionFree
      → All Hashed (hashed_by h tokens)
      → All Hashed (hashed_by h prompt)
      → All IsWord tokens
      → All IsWord prompt
      → let found = match_prefix h (recorded h c tokens) prompt in
        (found.blocks ≡ agreement blocks-discrete (complete_blocks prompt) (complete_blocks tokens))
        × (found.tokens ≡ found.blocks * 16)
  unfolding match_prefix recorded
  match_prefix-recorded c tokens prompt free u v words asked =
      let ds = block_hashes h tokens in
      let has : HasBlocks (length tokens / block_tokens) none tokens = (omega arith, words, u) in
      let of_prompt : HasBlocks (length prompt / block_tokens) none prompt =
        (omega arith, asked, v) in
      let once = chain_distinct free (length tokens / block_tokens) tokens has in
      let found =
        matched-agreement (insert_chain h 0 ds []) ds 0 (block_hashes h prompt) ds
          (recorded-Answers ds once) (λ j. ground arith) in
      let agree =
        chain-agreement free (length prompt / block_tokens) (length tokens / block_tokens) none
          prompt tokens of_prompt has in
      (omega (arith, found, agree), refl)
