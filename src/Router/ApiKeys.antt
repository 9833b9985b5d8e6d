-- ===== src/Router/ApiKeys.antt =====
-- Who calls: the store of API keys of rust/libraries/cgn-auth/src/api_key.rs and the check of a request's
-- header in rust/libraries/cgn-auth/src/middleware.rs.
--
-- A text is its bytes. SHA-256, the white space of the standard library and the OIDC verifier are
-- parameters. `none` stands for a configuration error.
pub mod Hex
pub mod File
use cognitora_inference.Prelude.{
  ℕ, suc, zero, ◌+◌, ◌-◌, ◌*◌, ◌/◌, ◌%◌, Bool, true, false, not, ◌&&◌, ◌||◌, Option, none, some,
  List, [], ◌∷◌, ◌++◌, ◌==◌, length, take, map, leb, keep, if◌then◌else◌, is_nonempty,
}
use cognitora_inference.Prelude.Maps.{get, insert}
use cognitora_inference.Agent.EngineStream.{lines_from}
use cognitora_inference.Router.Authz.{
  Text, Principal, PrincipalKind, api_key, anonymous, strip_prefix,
}

-- `raw.split('#').next()`.
unfoldable pub before : ℕ → Text → Text
before mark [] = []
before mark (c ∷ s) = let rest = before mark s in if c == mark then [] else c ∷ rest

-- `s.split(',')`, the piece so far first.
unfoldable pub split_on : ℕ → Text → Text → List Text
split_on mark piece [] = piece ∷ []
split_on mark piece (c ∷ s) =
    let next = split_on mark [] s in
    let more = split_on mark (piece ++ (c ∷ [])) s in if c == mark then piece ∷ next else more

unfoldable pub all : (ℕ → Bool) → Text → Bool
all test [] = true
all test (c ∷ s) = test c && all test s

abbrev between : ℕ → ℕ → ℕ → Bool
between low high c = leb low c && leb c high

-- The value of a digit in base 16.
unfoldable pub digit : ℕ → Option ℕ
digit c =
    if between b'0' b'9' c
    then some (c - b'0')
    else if between b'a' b'f' c
    then some (c - b'a' + 10)
    else if between b'A' b'F' c
    then some (c - b'A' + 10)
    else none

-- `is_ascii_hexdigit`.
unfoldable pub is_hex_digit : ℕ → Bool
is_hex_digit c = between b'0' b'9' c || (between b'a' b'f' c || between b'A' b'F' c)

-- One byte of two digits before the others.
unfoldable pub pair : Option ℕ → Option ℕ → Option (List ℕ) → Option (List ℕ)
pair none y bytes = none
pair (some x) none bytes = none
pair (some x) (some y) none = none
pair (some x) (some y) (some bytes) = some ((16 * x + y) ∷ bytes)

-- The loop over the pairs of digits; a pair that cannot be read is an error. The last pair may be short.
unfoldable pub from_hex : Text → Option (List ℕ)
unfolding pair digit
from_hex [] = some []
from_hex (a ∷ []) = pair (some 0) (digit a) (some [])
from_hex (a ∷ b ∷ s) = pair (digit a) (digit b) (from_hex s)

-- `{b:02x}`.
unfoldable pub nibble : ℕ → ℕ
nibble n = if leb n 9 then b'0' + n else b'a' + (n - 10)

unfoldable pub to_hex : List ℕ → Text
unfolding nibble
to_hex [] = []
to_hex (b ∷ bytes) = nibble (b / 16) ∷ nibble (b % 16) ∷ to_hex bytes

unfoldable pub hex_short : List ℕ → Text
unfolding to_hex
hex_short d = to_hex (take 8 d)

-- `"apikey:"` and `"Bearer "`.
abbrev pub subject_prefix : Text
subject_prefix = b'a' ∷ b'p' ∷ b'i' ∷ b'k' ∷ b'e' ∷ b'y' ∷ b':' ∷ []

abbrev pub bearer : Text
bearer = b'B' ∷ b'e' ∷ b'a' ∷ b'r' ∷ b'e' ∷ b'r' ∷ b' ' ∷ []

pub record Outside : Type 0 where
  pub texts : Discrete Text
  pub sha256 : Text → List ℕ
  pub trim : Text → Text
  pub split_whitespace : Text → List Text

module _ (outside : Outside) where
  open outside use {texts, sha256, trim, split_whitespace}

  abbrev pub Store : Type 0
  Store = List (List ℕ × List Text)

  -- Sixty-four digits are a digest; anything else is a key in plain text.
  unfoldable pub is_digest : Text → Bool
  unfolding all is_hex_digit
  is_digest token = (length token == 64) && all is_hex_digit token

  unfoldable pub digest_of : Text → Option (List ℕ)
  unfolding is_digest from_hex
  digest_of token = if is_digest token then from_hex token else some (sha256 token)

  unfoldable pub scopes_of : List Text → List Text
  unfolding split_on
  scopes_of [] = []
  scopes_of (s ∷ words) = keep is_nonempty (map trim (split_on b',' [] s))

  -- The part of a line before a comment.
  unfoldable pub content : Text → Text
  unfolding before
  content raw = trim (before b'#' raw)

  unfoldable pub parse_loop : List Text → Store → Option Store
  unfolding digest_of scopes_of content
  parse_loop [] out = some out
  parse_loop (raw ∷ lines) out =
      if not (is_nonempty (content raw))
      then parse_loop lines out
      else elim (split_whitespace (content raw)) [
        | [] ↦ none
        | token ∷ words ↦ elim (digest_of token) [
          | none ↦ none
          | some digest ↦ parse_loop lines (insert texts digest (scopes_of words) out)
        ]
      ]

  unfoldable pub parse : Text → Option Store
  unfolding parse_loop lines_from
  parse txt = parse_loop (lines_from [] txt) []

  -- `reload`, with what reading the file brings; without a path nothing happens. The result says whether
  -- it went well.
  unfoldable pub reload : Bool → Option Text → Store → Bool × Store
  unfolding parse
  reload has_path read store = if not has_path then (true, store) else elim read [
    | none ↦ (false, store)
    | some txt ↦ elim (parse txt) [ none ↦ (false, store) | some new ↦ (true, new) ]
  ]

  unfoldable pub principal_of : List ℕ → List Text → Principal
  unfolding hex_short
  principal_of digest scopes = record {
    subject = subject_prefix ++ hex_short digest;
    scopes = scopes;
    kind = api_key;
  }

  unfoldable pub check : Store → Text → Option Principal
  unfolding principal_of
  check store presented = elim (get texts (sha256 presented) store) [
    | none ↦ none
    | some scopes ↦ some (principal_of (sha256 presented) scopes)
  ]

  pub record AuthState : Type 0 where
    pub api_keys : Option Store
    pub oidc : Option (Text → Option Principal)
    pub required : Bool

  abbrev of_keys : Option Store → Text → Option Principal
  of_keys none token = none
  of_keys (some store) token = check store token

  abbrev of_oidc : Option (Text → Option Principal) → Text → Option Principal
  of_oidc none token = none
  of_oidc (some verify) token = verify token

  unfoldable pub principal : AuthState → Option Text → Option Principal
  unfolding check
  principal state none = none
  principal state (some token) = elim (of_keys state.api_keys token) [
    | some p ↦ some p
    | none ↦ of_oidc state.oidc token
  ]

  -- The token in the header.
  unfoldable pub presented : Option Text → Option Text
  unfolding strip_prefix
  presented none = none
  presented (some header) = elim (strip_prefix header bearer) [
    | none ↦ none
    | some s ↦ some (trim s)
  ]

  -- The caller that a request goes on with; `none` is the answer 401.
  unfoldable pub auth_middleware : Principal → AuthState → Option Text → Option Principal
  unfolding principal presented
  auth_middleware nobody state header = elim (principal state (presented header)) [
    | some p ↦ some p
    | none ↦ if state.required then none else some nobody
  ]
