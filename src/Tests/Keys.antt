-- ===== src/Tests/Keys.antt =====
-- Files of API keys at concrete inputs.
use cognitora_inference.Prelude.{
  ℕ, zero, suc, ◌≡◌, ◌%◌, refl, List, [], ◌∷◌, ◌++◌, length, arith, ℕ_discrete,
}
use mathlib.Core.List.{List-discrete}
use mathlib.Core.Option
use cognitora_inference.Router.Authz.{Text}
use cognitora_inference.Router.ApiKeys.{Outside, split_on, to_hex, parse_loop, content, is_digest}
use cognitora_inference.Router.ApiKeys.Hex.{IsHash}
use cognitora_inference.Router.ApiKeys.File.{parse_loop-hashed}

abbrev zeros : ℕ → List ℕ
zeros zero = []
zeros (suc n) = 0 ∷ zeros n

abbrev outside : Outside
outside = record {
  texts = List-discrete ℕ_discrete;
  sha256 = λ s. length s % 256 ∷ zeros 31;
  trim = λ s. s;
  split_whitespace = split_on b' ' [];
}

outside-IsHash : IsHash outside
outside-IsHash s = (refl, ground arith)

-- A comment, and a key with two scopes.
abbrev file : Text
file =
    b'#' ∷ b'k' ∷ b'\n' ∷ b'k' ∷ b'e' ∷ b'y' ∷ b' ' ∷ b'c' ∷ b'h' ∷ b'a' ∷ b't' ∷ b',' ∷ b'*'
    ∷ b'\n' ∷ []

abbrev key : Text
key = b'k' ∷ b'e' ∷ b'y' ∷ []

abbrev words : List Text
words = (b'c' ∷ b'h' ∷ b'a' ∷ b't' ∷ []) ∷ []

abbrev plain : Text
plain = key ++ (b' ' ∷ b'c' ∷ b'h' ∷ b'a' ∷ b't' ∷ [])

abbrev hashed : Text
hashed = to_hex (outside.sha256 key) ++ (b' ' ∷ b'c' ∷ b'h' ∷ b'a' ∷ b't' ∷ [])

parse_loop-hashed_example : parse_loop outside (plain ∷ []) [] ≡ parse_loop outside (hashed ∷ []) []
unfolding content split_on to_hex is_digest
parse_loop-hashed_example =
    parse_loop-hashed outside plain hashed key words [] [] outside-IsHash refl refl refl refl refl
