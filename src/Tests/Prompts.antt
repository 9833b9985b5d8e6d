-- ===== src/Tests/Prompts.antt =====
-- Prompts, their digests and what the prefix index says of them, at concrete inputs.
use cognitora_inference.Prelude.{
  ℕ, suc, zero, ◌≡◌, ◌≤◌, refl, none, some, List, [], ◌∷◌, ◌++◌, length, arith, ℕ_discrete, ◌==◌,
}
use mathlib.Core.List.{List-discrete}
use cognitora_inference.Prelude.Maps.{get}
use cognitora_inference.Router.PrefixIndex.{new, insert_many, longest_prefix_overlap}
use cognitora_inference.Router.PrefixIndex.Inserts.{insert_many-overlap}
use cognitora_inference.Router.PrefixHash.{Blake3, chunks, hash_seq_chunks}
use cognitora_inference.Router.PrefixHash.Bytes.{IsCollisionFree}
use cognitora_inference.Router.PrefixHash.Chains.{Agree}
use cognitora_inference.Router.PrefixHash.Shared.{overlap-Agree}
use cognitora_inference.Router.Prompt.{Text, Message, approximate_token_ids, request_text, scan}
use cognitora_inference.Router.Prompt.Reuse.{prompt_digests, prompt_digests-reused}

abbrev same_bytes : Discrete (List ℕ)
same_bytes = List-discrete ℕ_discrete

-- A digest is what was hashed, with a mark in front, and its bytes begin with its length.
abbrev blake3 : Blake3
blake3 = record {
  Digest = List ℕ;
  digests = same_bytes;
  finalize = λ bytes. 1 ∷ bytes;
  as_bytes = λ d. length d ∷ d;
  root = [];
}

append_split :
    (xs ys us vs : List ℕ) → length xs ≡ length ys → xs ++ us ≡ ys ++ vs → (xs ≡ ys) × (us ≡ vs)
append_split [] [] us vs l e = (refl, e)
append_split [] (y ∷ ys) us vs l e = absurd (omega arith)
append_split (x ∷ xs) [] us vs l e = absurd (omega arith)
append_split (x ∷ xs) (y ∷ ys) us vs l e =
    let rest = append_split xs ys us vs (omega arith) (cc e) in (ground (arith, e, rest), rest.1)

blake3-IsCollisionFree : IsCollisionFree blake3
blake3-IsCollisionFree = record {
  apart = λ xs ys e. cc e;
  nonzero = λ xs e. cc e;
  split = λ d d' xs ys e. append_split d d' xs ys (cc e) (cc e);
}

abbrev repeat : ℕ → ℕ → List ℕ
repeat zero x = []
repeat (suc n) x = x ∷ repeat n x

abbrev model : List ℕ
model = b'm' ∷ []

-- Two chunks.
abbrev tokens : List ℕ
tokens = repeat 40 3

abbrev digests_of : List ℕ → List (List ℕ)
digests_of ts = hash_seq_chunks blake3 model ts

overlap-Agree_example : (model ≡ model) × Agree blake3 1 (chunks tokens) (chunks tokens)
unfolding hash_seq_chunks
overlap-Agree_example =
    overlap-Agree blake3 ℕ_discrete 60 5 5 1 2 model model tokens tokens blake3-IsCollisionFree refl
      (omega arith) (omega arith)
      (insert_many-overlap same_bytes ℕ_discrete (new same_bytes ℕ_discrete 60) _ _ 2 5
        (omega arith))

abbrev text : Text
text = record {
  is_whitespace = λ c. c == b' ';
  piece_id = length;
  hex_digest = λ s. s;
  parts = λ s. none;
}

abbrev user : List ℕ
user = b'u' ∷ b's' ∷ b'e' ∷ b'r' ∷ []

abbrev question : Message
question = record { role = user; content = repeat 140 b'a'; content_json = [] }

abbrev reply : Message
reply = record { role = user; content = b'o' ∷ b'k' ∷ []; content_json = [] }

question_tokens : length (approximate_token_ids text (request_text text [] (question ∷ []))) ≡ 37
unfolding request_text approximate_token_ids scan
question_tokens = refl

prompt_digests-reused_example :
    (o : ℕ) × (get ℕ_discrete 2 (
        longest_prefix_overlap same_bytes ℕ_discrete
          (insert_many same_bytes ℕ_discrete
            (new same_bytes ℕ_discrete 60)
            (prompt_digests text blake3 ℕ_discrete model (question ∷ []))
            2
            5)
          (prompt_digests text blake3 ℕ_discrete model (question ∷ reply ∷ []))
          50)
      ≡ some o)
    × (1 ≤ o)
prompt_digests-reused_example =
    prompt_digests-reused text blake3 ℕ_discrete (new same_bytes ℕ_discrete 60) model
      (question ∷ []) (reply ∷ []) 2 5 50 1 (omega arith) (omega arith)
      (omega (arith, question_tokens))
