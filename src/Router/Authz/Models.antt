-- ===== src/Router/Authz/Models.antt =====
-- Which models a caller may use, rust/libraries/cgn-auth/src/lib.rs and
-- rust/services/cgn-router/src/gateway/authz.rs.
use cognitora_inference.Prelude.{
  ℕ, ◌≡◌, refl, sym, ap, ◌∙◌, Bool, true, false, not, ◌&&◌, ◌||◌, Option, none, some, is_some, List,
  [], ◌∷◌, any, arith, Option-cases, Bool-cases, inl, inr,
}
use cognitora_inference.Router.Usage.{Entry, Exceeded, check_at}
use cognitora_inference.Router.Authz.{
  Text, star, model_scope, strip_prefix, Principal, Result, granted, refused, has_scope, matches,
  allow_loop, allows_model, billed, authorize, limited,
}

or-true : (b : Bool) → (b || true) ≡ true
or-true true = refl
or-true false = refl

module _ (texts : Discrete Text) (parse_u64 : Text → Option ℕ) where
  -- A scope that is for models, and one that lets a model through.
  abbrev pub is_model_scope : Text → Bool
  is_model_scope s = is_some (strip_prefix s model_scope)

  abbrev pub lets : Text → Option Text → Bool
  lets model none = false
  lets model (some pat) = matches texts parse_u64 model pat

  abbrev pub lets_model : Text → Text → Bool
  lets_model model s = lets model (strip_prefix s model_scope)

  allow_loop-any :
      (p : Principal) (model : Text) (scopes : List Text) (restricted : Bool)
      → allow_loop texts parse_u64 p model scopes restricted ≡ (
          any (lets_model model) scopes
          || (not (restricted || any is_model_scope scopes) || has_scope texts parse_u64 p star))
  unfolding allow_loop
  allow_loop-any p model [] restricted = ground arith
  allow_loop-any p model (s ∷ scopes) restricted =
      let rest = allow_loop-any p model scopes in
      elim (Option-cases (strip_prefix s model_scope)) [
        | inl e ↦ rw (e, allow_loop) (rest restricted)
        | inr (pat, e) ↦ elim (Bool-cases (matches texts parse_u64 model pat)) [
          | inl m ↦ rw (e, allow_loop) (rw m refl)
          | inr m ↦
              rw (e, allow_loop)
                (rw m (
                  rest true
                  ∙ ap
                      (λ z.
                        any (lets_model model) scopes
                        || (not z || has_scope texts parse_u64 p star))
                      (sym (or-true restricted))))
        ]
      ]

  -- A model is allowed where a scope lets it through, where no scope is for models, and to a caller
  -- with the scope for everything.
  allows_model-any :
      (p : Principal) (model : Text)
      → allows_model texts parse_u64 p model ≡ (
          any (lets_model model) p.scopes
          || (not (any is_model_scope p.scopes) || has_scope texts parse_u64 p star))
  unfolding allows_model
  allows_model-any p model = allow_loop-any p model p.scopes false

  abbrev pub is_granted : Result → Bool
  is_granted (granted caller) = true
  is_granted (refused why) = false

  is_granted-billed :
      (p : Principal) (e : Option Exceeded)
      → is_granted (billed texts parse_u64 p e) ≡ not (is_some e)
  is_granted-billed p none = refl
  is_granted-billed p (some e) = refl

  -- A caller is granted a request exactly where it has the scope, if scopes are enforced, where one of
  -- its scopes lets the model through or none is for models or it may do everything, and where the
  -- ledger finds none of its limits exceeded.
  pub authorize-granted :
      (usage : List (Text × Entry)) (enforce_scopes : Bool) (p : Principal) (scope model : Text)
      (now : ℕ)
      → is_granted (authorize texts parse_u64 usage enforce_scopes (some p) scope model now) ≡ (
          (not enforce_scopes || has_scope texts parse_u64 p scope)
          && ((any (lets_model model) p.scopes
                || (not (any is_model_scope p.scopes) || has_scope texts parse_u64 p star))
              && not (is_some (check_at texts usage (limited texts parse_u64 p) now))))
  unfolding authorize
  authorize-granted usage enforce_scopes p scope model now =
      let e = check_at texts usage (limited texts parse_u64 p) now in
      rw (sym (allows_model-any p model), sym (is_granted-billed p e))
        (elim (Bool-cases enforce_scopes) [
          | inl f ↦ elim (Bool-cases (has_scope texts parse_u64 p scope)) [
            | inl h ↦ elim (Bool-cases (allows_model texts parse_u64 p model)) [
              | inl m ↦ rw (f, authorize) (rw (h, authorize) (rw (m, authorize) refl))
              | inr m ↦ rw (f, authorize) (rw (h, authorize) (rw (m, authorize) refl))
            ]
            | inr h ↦ rw (f, authorize) (rw (h, authorize) refl)
          ]
          | inr f ↦ elim (Bool-cases (allows_model texts parse_u64 p model)) [
            | inl m ↦ rw (f, authorize) (rw (m, authorize) refl)
            | inr m ↦ rw (f, authorize) (rw (m, authorize) refl)
          ]
        ])
