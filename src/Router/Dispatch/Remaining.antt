-- ===== src/Router/Dispatch/Remaining.antt =====
-- Counting the nodes that are left to try, for rust/services/cgn-router/src/gateway/generate.rs.
use cognitora_inference.Prelude.{
  ℕ, ◌+◌, ◌≤◌, ◌<◌, ◌≡◌, refl, ap, inl, inr, true, false, List, [], ◌∷◌, ◌++◌, length, All, arith,
  Bool-cases, if◌then◌else◌,
}
use cognitora_inference.Router.Selector.{Policy, is_id}
use cognitora_inference.Router.Dispatch.Retries.{has}

module _ (policy : Policy) where
  open policy use {fleet, Digest, digests}
  open fleet use {NodeId, ids}

  -- How many nodes of a list are not excluded yet.
  abbrev pub remaining : List NodeId → List NodeId → ℕ
  remaining exclude [] = 0
  remaining exclude (b ∷ bad) = (if has policy b exclude then 0 else 1) + remaining exclude bad

  has-same :
      (a b : NodeId) (exclude : List NodeId)
      → is_id policy a b ≡ true
      → has policy a exclude ≡ has policy b exclude
  has-same a b exclude h = elim (ids a b) [
    | yes p ↦ ap (λ z. has policy z exclude) p
    | no q ↦ absurd (ground (arith, h, q))
  ]

  is_id-turn : (a b : NodeId) → is_id policy a b ≡ true → is_id policy b a ≡ true
  is_id-turn a b h = ground (arith, h)

  has-last :
      (id y : NodeId) (exclude : List NodeId)
      → has policy id (exclude ++ (y ∷ []))
        ≡ (if has policy id exclude then true else is_id policy y id)
  has-last id y [] = ground arith
  has-last id y (x ∷ exclude) = ground (arith, has-last id y exclude)

  remaining-append-le :
      (exclude bad : List NodeId) (id : NodeId)
      → remaining (exclude ++ (id ∷ [])) bad ≤ remaining exclude bad
  remaining-append-le exclude [] id = omega arith
  remaining-append-le exclude (b ∷ bad) id =
      ground (arith, remaining-append-le exclude bad id, has-last b id exclude)

  pub remaining-append-lt :
      (exclude bad : List NodeId) (id : NodeId)
      → has policy id exclude ≡ false
      → has policy id bad ≡ true
      → remaining (exclude ++ (id ∷ [])) bad < remaining exclude bad
  remaining-append-lt exclude [] id out h = absurd (ground (arith, h))
  remaining-append-lt exclude (b ∷ bad) id out h = elim (Bool-cases (is_id policy b id)) [
    | inl e ↦ ground (
      arith,
      out,
      has-same b id exclude e,
      has-last b id exclude,
      is_id-turn b id e,
      remaining-append-le exclude bad id,
    )
    | inr e ↦
        let rest = remaining-append-lt exclude bad id out (ground (arith, h, e)) in
        ground (arith, rest, has-last b id exclude)
  ]

  pub has-subset :
      (exclude bad : List NodeId) (id : NodeId)
      → All (λ x. has policy x bad ≡ true) exclude
      → has policy id bad ≡ false
      → has policy id exclude ≡ false
  has-subset [] bad id a h = refl
  has-subset (x ∷ exclude) bad id (p, a) h = elim (Bool-cases (is_id policy x id)) [
    | inl e ↦ absurd (ground (arith, has-same x id bad e, p, h))
    | inr e ↦ rw e (has-subset exclude bad id a h)
  ]

  pub append-All :
      (bad exclude : List NodeId) (id : NodeId)
      → All (λ x. has policy x bad ≡ true) exclude
      → has policy id bad ≡ true
      → All (λ x. has policy x bad ≡ true) (exclude ++ (id ∷ []))
  append-All bad [] id a h = (h, tt)
  append-All bad (x ∷ exclude) id (p, a) h = (p, append-All bad exclude id a h)

  pub remaining-length : (bad : List NodeId) → remaining [] bad ≡ length bad
  remaining-length [] = refl
  remaining-length (b ∷ bad) = omega (arith, remaining-length bad)
