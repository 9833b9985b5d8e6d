-- ===== src/Agent/KvConfirmed/Mirror.antt =====
-- What the agent tracks of its confirmed claims is what the store has,
-- rust/services/cgn-agent/src/health.rs.
use cognitora_inference.Prelude.{
  ℕ, ◌≤◌, ◌≡◌, refl, ap, ◌∙◌, Bool, true, false, not, ◌&&◌, List, [], ◌∷◌, ◌++◌, length, ltb, arith,
  Bool-cases, inl, inr, keep, if◌then◌else◌, any,
}
use mathlib.Core.Logic.{ite}
use cognitora_inference.Prelude.Distinct.{same, has, IsDistinct, append-IsDistinct, keep-absent}
use cognitora_inference.Agent.KvConfirmed.{
  ClaimStore, KvEvent, put, delete, Pass, confirm, shrink, target_of, under_pressure,
  publish_kv_confirmed, replay,
}

module _ (store : ClaimStore) where
  open store use {Digest, digests, is_digest, puts, deletes}

  replay-append :
      (es fs : List (KvEvent store)) (keys : List Digest)
      → replay store (es ++ fs) keys ≡ replay store fs (replay store es keys)
  unfolding replay
  replay-append [] fs keys = refl
  replay-append (put d ∷ es) fs keys =
      replay-append es fs (if has digests d keys then keys else keys ++ (d ∷ []))
  replay-append (delete d ∷ es) fs keys =
      replay-append es fs (keep (λ k. not (same digests k d)) keys)

  -- The tracked keys stand once, and replaying the events gives them.
  abbrev pub Mirrors : List Digest → Pass store → Type 0
  Mirrors published p =
      IsDistinct digests p.published × (replay store p.events published ≡ p.published)

  confirm-Mirrors :
      (published pending : List Digest)
      → IsDistinct digests published
      → Mirrors published (confirm store published pending)
  unfolding confirm replay
  confirm-Mirrors published [] d = (d, refl)
  confirm-Mirrors published (x ∷ pending) d =
      elim (Bool-cases (is_digest x && not (has digests x published))) [
        | inl fresh ↦
            let absent : has digests x published ≡ false = ground (arith, fresh) in
            let rest =
              confirm-Mirrors (published ++ (x ∷ [])) pending
                (append-IsDistinct digests published x d absent) in
            elim (Bool-cases (puts x)) [
              | inl yes_put ↦ rw (fresh, confirm) (rw yes_put (rest.0, rw (absent, replay) rest.1))
              | inr no_put ↦ rw (fresh, confirm) (rw no_put (d, refl))
            ]
        | inr known ↦ rw (known, confirm) (confirm-Mirrors published pending d)
      ]

  shrink-Mirrors :
      (target : ℕ) (keys : List Digest)
      → ((k : Digest) → deletes k ≡ true)
      → IsDistinct digests keys
      → Mirrors keys (shrink store target keys)
  unfolding shrink replay
  shrink-Mirrors target [] works d = (tt, refl)
  shrink-Mirrors target (k ∷ keys) works (out, d) =
      elim (Bool-cases (ltb target (length (k ∷ keys)))) [
        | inl more ↦
            let rest = shrink-Mirrors target keys works d in
            let gone : keep (λ x. not (same digests x k)) (k ∷ keys) ≡ keys =
              ground (arith, keep-absent digests k keys out) in
            rw (more, shrink)
              (rw (works k)
                (rest.0, ap (replay store (shrink store target keys).events) gone ∙ rest.1))
        | inr enough ↦ rw (enough, shrink) ((out, d), refl)
      ]

  length-shrink :
      (target : ℕ) (keys : List Digest)
      → (shrink store target keys).completed ≡ true
      → length (shrink store target keys).published ≤ target
  unfolding shrink
  length-shrink target [] c = omega arith
  length-shrink target (k ∷ keys) c = ground (arith, length-shrink target keys, c)

  -- While the store deletes what it is asked to, a pass over any queue, whether it comes to its end or a
  -- put fails on the way, keeps the agent's list of keys in step with the store, and no key stands
  -- twice in it.
  pub publish_kv_confirmed-Mirrors :
      (low : ℕ → ℕ → Bool) (free total : ℕ) (published pending : List Digest)
      → ((k : Digest) → deletes k ≡ true)
      → IsDistinct digests published
      → Mirrors published (publish_kv_confirmed store low free total published pending)
  unfolding publish_kv_confirmed
  publish_kv_confirmed-Mirrors low free total published pending works d =
      let p = confirm store published pending in
      let kept = confirm-Mirrors published pending d in
      let target = target_of store (under_pressure store low free total) p.published in
      elim (Bool-cases p.completed) [
        | inl e ↦
            let q = shrink store target p.published in
            let rest = shrink-Mirrors target p.published works kept.0 in
            rw (e, publish_kv_confirmed)
              (
                rest.0,
                replay-append p.events q.events published
                    ∙ ap (replay store q.events) kept.1
                    ∙ rest.1,
              )
        | inr e ↦ rw (e, publish_kv_confirmed) kept
      ]

  abbrev is_put : Digest → KvEvent store → Bool
  is_put d (put k) = same digests k d
  is_put d (delete k) = false

  -- Whether a pass announces a digest.
  abbrev pub announces : Digest → List (KvEvent store) → Bool
  announces d events = any (is_put d) events

  announces-append :
      (d : Digest) (es fs : List (KvEvent store))
      → announces d es ≡ false
      → announces d fs ≡ false
      → announces d (es ++ fs) ≡ false
  announces-append d [] fs h k = k
  announces-append d (e ∷ es) fs h k = ground (arith, announces-append d es fs, h, k)

  announces-shrink :
      (d : Digest) (target : ℕ) (keys : List Digest)
      → announces d (shrink store target keys).events ≡ false
  unfolding shrink
  announces-shrink d target [] = refl
  announces-shrink d target (k ∷ keys) = ground (arith, announces-shrink d target keys)

  has-more :
      (d x : Digest) (keys : List Digest)
      → has digests d keys ≡ true
      → has digests d (keys ++ (x ∷ [])) ≡ true
  has-more d x [] h = absurd (ground (arith, h))
  has-more d x (k ∷ keys) h = ground (arith, has-more d x keys, h)

  has-apart :
      (d x : Digest) (keys : List Digest)
      → has digests d keys ≡ true
      → has digests x keys ≡ false
      → same digests x d ≡ false
  has-apart d x keys h out = elim (digests x d) as (λ c. ite c true false ≡ false) [
    | yes p ↦ absurd (ground (arith, h, out, ap (λ z. has digests z keys) p))
    | no q ↦ refl
  ]

  announces-confirm :
      (d : Digest) (published pending : List Digest)
      → has digests d published ≡ true
      → announces d (confirm store published pending).events ≡ false
  unfolding confirm
  announces-confirm d published [] h = refl
  announces-confirm d published (x ∷ pending) h =
      elim (Bool-cases (is_digest x && not (has digests x published))) [
        | inl fresh ↦
            let absent : has digests x published ≡ false = ground (arith, fresh) in
            let rest =
              announces-confirm d (published ++ (x ∷ [])) pending (has-more d x published h) in
            elim (Bool-cases (puts x)) [
              | inl yes_put ↦
                  rw (fresh, confirm) (rw yes_put (rw (has-apart d x published h absent) rest))
              | inr no_put ↦ rw (fresh, confirm) (rw no_put refl)
            ]
        | inr known ↦ rw (known, confirm) (announces-confirm d published pending h)
      ]

  -- A digest that the agent tracks is not announced by a pass, however often it is confirmed again.
  publish_kv_confirmed-known :
      (low : ℕ → ℕ → Bool) (free total : ℕ) (published pending : List Digest) (d : Digest)
      → has digests d published ≡ true
      → announces d (publish_kv_confirmed store low free total published pending).events ≡ false
  unfolding publish_kv_confirmed
  publish_kv_confirmed-known low free total published pending d h =
      let p = confirm store published pending in
      let quiet = announces-confirm d published pending h in
      let target = target_of store (under_pressure store low free total) p.published in
      elim (Bool-cases p.completed) [
        | inl e ↦
            rw (e, publish_kv_confirmed)
              (announces-append d p.events (shrink store target p.published).events quiet
                (announces-shrink d target p.published))
        | inr e ↦ rw (e, publish_kv_confirmed) quiet
      ]
