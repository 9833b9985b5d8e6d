-- ===== src/Router/ApiKeys/Hex.antt =====
-- Digests in hexadecimal, rust/libraries/cgn-auth/src/api_key.rs.
use cognitora_inference.Prelude.{
  ℕ, ◌*◌, ◌/◌, ◌%◌, ◌<◌, ◌≡◌, refl, ap, ◌∙◌, true, Option, none, some, List, [], ◌∷◌, ◌==◌, length,
  arith, All, is_some, Bool-cases, inl, inr,
}
use cognitora_inference.Router.Authz.{Text}
use cognitora_inference.Router.ApiKeys.{
  Outside, digit, is_hex_digit, all, from_hex, nibble, to_hex, is_digest, digest_of, pair,
}

digit-nibble : (n : ℕ) → n < 16 → digit (nibble n) ≡ some n
unfolding digit nibble
digit-nibble n h = ground arith

is_hex_digit-nibble : (n : ℕ) → n < 16 → is_hex_digit (nibble n) ≡ true
unfolding is_hex_digit nibble
is_hex_digit-nibble n h = ground arith

digit-some : (c : ℕ) → is_hex_digit c ≡ true → is_some (digit c) ≡ true
unfolding digit is_hex_digit
digit-some c h = ground arith

from_hex-to_hex : (bytes : List ℕ) → All (λ b. b < 256) bytes → from_hex (to_hex bytes) ≡ some bytes
unfolding from_hex to_hex pair
from_hex-to_hex [] h = refl
from_hex-to_hex (b ∷ bytes) (h, hs) =
    ap (λ x. pair x (digit (nibble (b % 16))) (from_hex (to_hex bytes)))
      (digit-nibble (b / 16) (omega arith))
    ∙ ap (λ y. pair (some (b / 16)) y (from_hex (to_hex bytes)))
        (digit-nibble (b % 16) (omega arith))
    ∙ ap (pair (some (b / 16)) (some (b % 16))) (from_hex-to_hex bytes hs)
    ∙ ap (λ k. some (k ∷ bytes)) (omega arith)

length-to_hex : (bytes : List ℕ) → length (to_hex bytes) ≡ 2 * length bytes
unfolding to_hex
length-to_hex [] = refl
length-to_hex (b ∷ bytes) = omega (arith, length-to_hex bytes)

all-to_hex : (bytes : List ℕ) → All (λ b. b < 256) bytes → all is_hex_digit (to_hex bytes) ≡ true
unfolding all to_hex
all-to_hex [] h = refl
all-to_hex (b ∷ bytes) (h, hs) =
    rw (is_hex_digit-nibble (b / 16) (omega arith))
      (rw (is_hex_digit-nibble (b % 16) (omega arith)) (all-to_hex bytes hs))

pair-some :
    (x y : Option ℕ) (bytes : Option (List ℕ))
    → is_some x ≡ true
    → is_some y ≡ true
    → is_some bytes ≡ true
    → is_some (pair x y bytes) ≡ true
unfolding pair
pair-some none y bytes h i j = h
pair-some (some x) none bytes h i j = i
pair-some (some x) (some y) none h i j = j
pair-some (some x) (some y) (some bytes) h i j = refl

-- A text of digits is read without an error.
from_hex-some : (s : Text) → all is_hex_digit s ≡ true → is_some (from_hex s) ≡ true
unfolding from_hex all
from_hex-some [] h = refl
from_hex-some (a ∷ []) h =
    pair-some (some 0) (digit a) (some []) refl (digit-some a (ground (arith, h))) refl
from_hex-some (a ∷ b ∷ s) h =
    pair-some (digit a) (digit b) (from_hex s) (digit-some a (ground (arith, h)))
      (digit-some b (ground (arith, h))) (from_hex-some s (ground (arith, h)))

module _ (outside : Outside) where
  -- The digest of 32 bytes that is written in hexadecimal is read back, and not hashed again.
  pub digest_of-to_hex :
      (d : List ℕ) → length d ≡ 32 → All (λ b. b < 256) d → digest_of outside (to_hex d) ≡ some d
  unfolding digest_of is_digest
  digest_of-to_hex d l h = rw (all-to_hex d h) (rw (length-to_hex d) (rw l (from_hex-to_hex d h)))

  -- No token is refused.
  pub digest_of-some : (token : Text) → is_some (digest_of outside token) ≡ true
  unfolding digest_of is_digest
  digest_of-some token = elim (Bool-cases (all is_hex_digit token)) [
    | inl e ↦ elim (Bool-cases (length token == 64)) [
      | inl f ↦ rw e (rw f (from_hex-some token e))
      | inr f ↦ rw f refl
    ]
    | inr e ↦ ground (arith, e)
  ]

  -- The hash has 32 bytes.
  abbrev pub IsHash : Type 0
  IsHash = (s : Text) → (length (outside.sha256 s) ≡ 32) × All (λ b. b < 256) (outside.sha256 s)
