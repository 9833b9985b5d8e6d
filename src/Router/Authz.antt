-- ===== src/Router/Authz.antt =====
-- What a caller may do: `Principal` of rust/libraries/cgn-auth/src/lib.rs and `authorize` of
-- rust/services/cgn-router/src/gateway/authz.rs. A string is the list of its bytes; the standard
-- library's reading of a number is a parameter.
pub mod Models
use cognitora_inference.Prelude.{
  ℕ, suc, zero, Bool, true, false, not, ◌&&◌, ◌||◌, Option, none, some, List, [], ◌∷◌, ◌==◌, length,
  drop, any, if◌then◌else◌, ltb,
}
use mathlib.Core.Logic.{ite}
use cognitora_inference.Infer.Text.{starts_with}
use cognitora_inference.Router.Usage
use cognitora_inference.Router.Usage.{
  Entry, Exceeded, budget_exhausted, rate_exceeded, check_at, charge_at,
}

abbrev pub Text : Type 0
Text = List ℕ

-- `"*"`, `"model:"`, `"tenant:"`, `"tpm"`, `"budget"` and `":"`.
abbrev pub star : Text
star = 42 ∷ []

abbrev pub model_scope : Text
model_scope = 109 ∷ 111 ∷ 100 ∷ 101 ∷ 108 ∷ 58 ∷ []

abbrev pub tenant_scope : Text
tenant_scope = 116 ∷ 101 ∷ 110 ∷ 97 ∷ 110 ∷ 116 ∷ 58 ∷ []

abbrev pub tpm_scope : Text
tpm_scope = 116 ∷ 112 ∷ 109 ∷ []

abbrev pub budget_scope : Text
budget_scope = 98 ∷ 117 ∷ 100 ∷ 103 ∷ 101 ∷ 116 ∷ []

abbrev pub colon : Text
colon = 58 ∷ []

unfoldable pub strip_prefix : Text → Text → Option Text
unfolding starts_with
strip_prefix text prefix =
    if starts_with text prefix then some (drop (length prefix) text) else none

-- `strip_suffix('*')`.
unfoldable pub strip_star : Text → Option Text
strip_star [] = none
strip_star (c ∷ cs) = elim cs [
  | [] ↦ if c == 42 then some [] else none
  | d ∷ ds ↦ elim (strip_star cs) [ none ↦ none | some rest ↦ some (c ∷ rest) ]
]

pub data PrincipalKind : Type 0 where
  api_key oidc anonymous : PrincipalKind

pub record Principal : Type 0 where
  pub subject : Text
  pub scopes : List Text
  pub kind : PrincipalKind

pub record Caller : Type 0 where
  pub subject : Text
  pub tenant : Text

abbrev pub no_caller : Caller
no_caller = record { subject = []; tenant = [] }

-- The three refusals, the last with the seconds of the header `Retry-After`, where there is one.
pub data Refusal : Type 0 where
  lacks_scope may_not_use_model : Refusal
  too_many_requests : Option ℕ → Refusal

pub data Result : Type 0 where
  granted : Caller → Result
  refused : Refusal → Result

module _ (texts : Discrete Text) (parse_u64 : Text → Option ℕ) where
  abbrev pub equals : Text → Text → Bool
  equals s t = ite (texts s t) true false

  unfoldable pub has_scope : Principal → Text → Bool
  has_scope p scope = any (λ s. equals s scope || equals s star) p.scopes

  unfoldable pub matches : Text → Text → Bool
  unfolding strip_star starts_with
  matches model pat = elim (strip_star pat) [
    | none ↦ equals pat model
    | some prefix ↦ starts_with model prefix
  ]

  -- The loop of `allows_model` over the scopes; `restricted` is whether one was for models.
  unfoldable pub allow_loop : Principal → Text → List Text → Bool → Bool
  unfolding matches strip_prefix has_scope
  allow_loop p model [] restricted = not restricted || has_scope p star
  allow_loop p model (s ∷ scopes) restricted =
      let rest = allow_loop p model scopes in
      elim (strip_prefix s model_scope) [
        | none ↦ rest restricted
        | some pat ↦ if matches model pat then true else rest true
      ]

  unfoldable pub allows_model : Principal → Text → Bool
  unfolding allow_loop
  allows_model p model = allow_loop p model p.scopes false

  abbrev first_stripped : Text → List Text → Text → Text
  first_stripped prefix [] default = default
  first_stripped prefix (s ∷ scopes) default =
      let rest = first_stripped prefix scopes default in
      elim (strip_prefix s prefix) [ none ↦ rest | some t ↦ t ]

  unfoldable pub tenant : Principal → Text
  unfolding strip_prefix
  tenant p = elim p.kind [
    | api_key ↦ first_stripped tenant_scope p.scopes p.subject
    | oidc ↦ first_stripped tenant_scope p.scopes p.subject
    | anonymous ↦ []
  ]

  abbrev number_of : Option Text → Option ℕ
  number_of none = none
  number_of (some t) = parse_u64 t

  abbrev after_colon : Option Text → Option Text
  after_colon none = none
  after_colon (some t) = strip_prefix t colon

  abbrev limit_of : Text → List Text → Option ℕ
  limit_of name [] = none
  limit_of name (s ∷ scopes) =
      let rest = limit_of name scopes in
      elim (number_of (after_colon (strip_prefix s name))) [ none ↦ rest | some n ↦ some n ]

  unfoldable pub limit : Principal → Text → Option ℕ
  unfolding strip_prefix
  limit p name = limit_of name p.scopes

  -- The principal with its limits, as the ledger reads it.
  abbrev pub limited : Principal → Usage.Principal Text
  limited p = record { subject = p.subject; tpm = limit p tpm_scope; budget = limit p budget_scope }

  -- `Retry-After` of an exceeded limit.
  abbrev pub retry_after : Exceeded → Option ℕ
  retry_after (budget_exhausted budget) = none
  retry_after (rate_exceeded tpm secs) = if ltb 0 secs then some secs else none

  -- The last step: the limits of the ledger.
  abbrev pub billed : Principal → Option Exceeded → Result
  billed p none = granted (record { subject = p.subject; tenant = tenant p })
  billed p (some e) = refused (too_many_requests (retry_after e))

  unfoldable pub authorize :
      List (Text × Entry) → Bool → Option Principal → Text → Text → ℕ → Result
  unfolding has_scope allows_model tenant limit check_at
  authorize usage enforce_scopes none scope model now = granted no_caller
  authorize usage enforce_scopes (some p) scope model now =
      if enforce_scopes && not (has_scope p scope)
      then refused lacks_scope
      else if not (allows_model p model)
      then refused may_not_use_model
      else billed p (check_at texts usage (limited p) now)

  abbrev is_empty : Text → Bool
  is_empty [] = true
  is_empty (c ∷ cs) = false

  -- A request without a caller is not charged.
  unfoldable pub charge : List (Text × Entry) → Caller → ℕ → ℕ → ℕ → List (Text × Entry)
  unfolding charge_at
  charge usage caller prompt completion now =
      if is_empty caller.subject
      then usage
      else charge_at texts usage caller.subject prompt completion now
