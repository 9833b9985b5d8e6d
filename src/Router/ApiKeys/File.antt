-- ===== src/Router/ApiKeys/File.antt =====
-- What a file of keys grants, rust/libraries/cgn-auth/src/api_key.rs.
use cognitora_inference.Prelude.{
  ℕ, ◌≡◌, refl, sym, ◌∙◌, true, false, Option, none, some, List, [], ◌∷◌, is_nonempty,
  if◌then◌else◌, ◌++◌,
}
use cognitora_inference.Agent.EngineSpawn.Commas.{pieces}
use mathlib.Core.Logic.{ite}
use mathlib.Core.Option
use cognitora_inference.Prelude.Maps.{insert}
use cognitora_inference.Router.Authz.{Text}
use cognitora_inference.Router.ApiKeys.{
  Outside, Store, digest_of, scopes_of, content, parse_loop, from_hex, is_digest, to_hex,
}
use cognitora_inference.Router.ApiKeys.Hex.{digest_of-to_hex, IsHash}

abbrev or_else : {A : Type 0} → Option A → Option A → Option A
or_else (some a) o = some a
or_else none o = o

-- What splitting leaves, the piece so far in front of the first piece.
abbrev glue : Text → List Text → List Text
glue piece [] = piece ∷ []
glue piece (p ∷ ps) = (piece ++ p) ∷ ps

module _ (outside : Outside) where
  open outside use {texts, sha256, trim, split_whitespace}

  -- The scopes that a word lists: its pieces between commas, trimmed, the empty ones left out.
  abbrev pub named : List Text → List Text
  named [] = []
  named (p ∷ ps) = if is_nonempty (trim p) then trim p ∷ named ps else named ps

  abbrev pub listed : List Text → List Text
  listed [] = []
  listed (s ∷ words) = named (pieces s)

  -- What a line's first word stands for: sixty-four hexadecimal digits for the digest that they
  -- write, any other for the hash of itself.
  abbrev pub stands_for : Text → Option (List ℕ)
  stands_for token = if is_digest outside token then from_hex token else some (sha256 token)

  -- A text that is more than white space has a word.
  abbrev pub HasWords : Type 0
  HasWords =
      (s : Text)
      → is_nonempty (trim s) ≡ true
      → (token : Text) × (words : List Text) × (split_whitespace (trim s) ≡ token ∷ words)

  -- What one line grants to the key with a digest.
  abbrev granted_by : List ℕ → List Text → Option (List Text)
  granted_by digest [] = none
  granted_by digest (token ∷ words) = elim (stands_for token) [
    | none ↦ none
    | some d ↦ ite (texts d digest) (some (listed words)) none
  ]

  abbrev pub grant : List ℕ → Text → Option (List Text)
  grant digest raw =
      if is_nonempty (content outside raw)
      then granted_by digest (split_whitespace (content outside raw))
      else none

  -- The last line for a digest counts.
  abbrev pub last_grant : List ℕ → List Text → Option (List Text)
  last_grant digest [] = none
  last_grant digest (raw ∷ lines) = or_else (last_grant digest lines) (grant digest raw)

  digest_of-key :
      (key : Text) → is_digest outside key ≡ false → digest_of outside key ≡ some (sha256 key)
  unfolding digest_of
  digest_of-key key plain = rw plain refl

  parse_loop-line :
      (raw token : Text) (words lines : List Text) (out : Store outside) (d : List ℕ)
      → is_nonempty (content outside raw) ≡ true
      → split_whitespace (content outside raw) ≡ token ∷ words
      → digest_of outside token ≡ some d
      → parse_loop outside (raw ∷ lines) out
        ≡ parse_loop outside lines (insert texts d (scopes_of outside words) out)
  unfolding parse_loop
  parse_loop-line raw token words lines out d e w h = rw e (rw w (rw h refl))

  -- Where the hash has 32 bytes and a key is not itself sixty-four hexadecimal digits, it makes no
  -- difference whether a line of the file has the key or its digest in hexadecimal.
  pub parse_loop-hashed :
      (raw raw' key : Text) (words lines : List Text) (out : Store outside)
      → IsHash outside
      → is_digest outside key ≡ false
      → is_nonempty (content outside raw) ≡ true
      → is_nonempty (content outside raw') ≡ true
      → split_whitespace (content outside raw) ≡ key ∷ words
      → split_whitespace (content outside raw') ≡ to_hex (sha256 key) ∷ words
      → parse_loop outside (raw ∷ lines) out ≡ parse_loop outside (raw' ∷ lines) out
  parse_loop-hashed raw raw' key words lines out hash plain e e' w w' =
      let (l, h) = hash key in
      parse_loop-line raw key words lines out (sha256 key) e w (digest_of-key key plain)
      ∙ sym (
          parse_loop-line raw' (to_hex (sha256 key)) words lines out (sha256 key) e' w'
            (digest_of-to_hex outside (sha256 key) l h))
