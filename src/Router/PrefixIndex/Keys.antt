-- ===== src/Router/PrefixIndex/Keys.antt =====
-- No digest of the prefix index of rust/libraries/cgn-core/src/prefix.rs is tracked twice.
use cognitora_inference.Prelude.{
  ℕ, ◌≡◌, refl, Bool, not, none, List, [], ◌∷◌, keep, arith, Option-cases, inl, inr,
}
use cognitora_inference.Prelude.Maps.{get, Unique, insert-Unique, remove-Unique}
use cognitora_inference.Router.PrefixIndex.{
  NodeEntry, PrefixIndex, is, seen, entries_of, add, retain, forget_claim,
}
use cognitora_inference.Router.PrefixIndex.Updates.{List-cases}

module _ {Digest Name : Type 0} (digests : Discrete Digest) (names : Discrete Name) where
  abbrev pub IsKeyed : PrefixIndex digests names → Type 0
  IsKeyed index = Unique digests index.inner

  retain-absent :
      (test : NodeEntry digests names → Bool)
      (inner : List (Digest × List (NodeEntry digests names))) (d : Digest)
      → get digests d inner ≡ none
      → get digests d (retain digests names test inner) ≡ none
  unfolding retain get
  retain-absent test [] d g = refl
  retain-absent test ((e, entries) ∷ inner) d g = ground (arith, retain-absent test inner d, g)

  pub retain-IsKeyed :
      (test : NodeEntry digests names → Bool)
      (inner : List (Digest × List (NodeEntry digests names)))
      → Unique digests inner
      → Unique digests (retain digests names test inner)
  unfolding retain
  retain-IsKeyed test [] u = tt
  retain-IsKeyed test ((d, entries) ∷ inner) (a, u) =
      let rest = retain-IsKeyed test inner u in
      elim (List-cases (keep test entries)) [
        | inl k ↦ rw (k, retain) rest
        | inr (x, xs, k) ↦ rw (k, retain) (retain-absent test inner d a, rest)
      ]

  pub add-IsKeyed :
      (index : PrefixIndex digests names) (d : Digest) (n : Name) (now : ℕ)
      → IsKeyed index
      → IsKeyed (add digests names index d n now)
  unfolding add
  add-IsKeyed index d n now u =
      insert-Unique digests d
        (seen digests names n now (entries_of digests names (get digests d index.inner)))
        index.inner u

  pub forget_claim-IsKeyed :
      (index : PrefixIndex digests names) (d : Digest) (n : Name)
      → IsKeyed index
      → IsKeyed (forget_claim digests names index d n)
  unfolding forget_claim
  forget_claim-IsKeyed index d n u =
      let test = λ (x : NodeEntry digests names). not (is digests names x.node_id n) in
      elim (Option-cases (get digests d index.inner)) [
        | inl g ↦ rw (g, forget_claim) u
        | inr (entries, g) ↦ elim (List-cases (keep test entries)) [
          | inl k ↦ rw (g, forget_claim) (rw k (remove-Unique digests d index.inner u))
          | inr (x, xs, k) ↦
              rw (g, forget_claim) (rw k (insert-Unique digests d (x ∷ xs) index.inner u))
        ]
      ]
