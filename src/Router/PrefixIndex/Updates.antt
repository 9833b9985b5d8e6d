-- ===== src/Router/PrefixIndex/Updates.antt =====
-- How inserts, drains and garbage collection of rust/libraries/cgn-core/src/prefix.rs change what
-- the router reads from the prefix index.
use cognitora_inference.Prelude.{
  ℕ, ◌-◌, ◌≤◌, ◌<◌, ◌≡◌, refl, ap, Bool, true, List, [], ◌∷◌, ltb, if◌then◌else◌, Option-cases, inl,
  inr, ◌⊎◌, keep, not, arith,
}
use mathlib.Core.Logic.{ite}
use cognitora_inference.Prelude.Maps.{get, get-insert, get-remove, Unique}
use cognitora_inference.Router.PrefixIndex.{
  NodeEntry, PrefixIndex, is, look_up, contains, live, entries_of, seen, retain, forget_node,
  forget_claim, gc,
}

pub List-cases {ℓ} :
    {A : Type ℓ} (xs : List A) → (xs ≡ []) ⊎ ((y : A) × (ys : List A) × (xs ≡ y ∷ ys))
List-cases [] = inl refl
List-cases (x ∷ xs) = inr (x, xs, refl)

module _ {Digest Name : Type 0} (digests : Discrete Digest) (names : Discrete Name) where
  -- The entries behind a digest after `retain`.
  pub get-retain :
      (test : NodeEntry digests names → Bool)
      (inner : List (Digest × List (NodeEntry digests names))) (d : Digest)
      → Unique digests inner
      → entries_of digests names (get digests d (retain digests names test inner))
        ≡ keep test (entries_of digests names (get digests d inner))
  unfolding retain get entries_of
  get-retain test [] d u = refl
  get-retain test ((e, entries) ∷ inner) d u =
      let rest = get-retain test inner d u.1 in ground (arith, rest, u)

  live-keep :
      (n : Name) (ttl now : ℕ) (entries : List (NodeEntry digests names))
      → live digests names ttl now (keep (λ e. not (is digests names e.node_id n)) entries)
        ≡ keep (λ m. not (is digests names m n)) (live digests names ttl now entries)
  unfolding live
  live-keep n ttl now [] = refl
  live-keep n ttl now (e ∷ entries) = ground (arith, live-keep n ttl now entries)

  live-later :
      (ttl now later : ℕ) (entries : List (NodeEntry digests names))
      → now ≤ later
      → live digests names ttl later (keep (λ e. ltb (now - e.last_seen) ttl) entries)
        ≡ live digests names ttl later entries
  unfolding live
  live-later ttl now later [] le = refl
  live-later ttl now later (e ∷ entries) le = ground (arith, live-later ttl now later entries le)

  live-ite :
      {P : Type 0} (c : Dec P) (n : Name) (ttl now : ℕ) (entries : List (NodeEntry digests names))
      → live digests names ttl now
          (ite c (keep (λ x. not (is digests names x.node_id n)) entries) entries)
        ≡ ite c
            (keep (λ m. not (is digests names m n)) (live digests names ttl now entries))
            (live digests names ttl now entries)
  live-ite (yes p) n ttl now entries = live-keep n ttl now entries
  live-ite (no q) n ttl now entries = refl

  forget_claim-entries :
      (index : PrefixIndex digests names) (d e : Digest) (n : Name)
      → entries_of digests names (get digests e (forget_claim digests names index d n).inner)
        ≡ ite
            (digests d e)
            (keep
              (λ x. not (is digests names x.node_id n))
              (entries_of digests names (get digests e index.inner)))
            (entries_of digests names (get digests e index.inner))
  unfolding forget_claim entries_of
  forget_claim-entries index d e n =
      let test = λ (x : NodeEntry digests names). not (is digests names x.node_id n) in
      elim (Option-cases (get digests d index.inner)) [
        | inl g ↦ ground (arith, g)
        | inr (entries, g) ↦ elim (List-cases (keep test entries)) [
          | inl k ↦
              rw (g, forget_claim)
                (rw k (
                  ground (
                    arith,
                    g,
                    k,
                    get-remove {V = List (NodeEntry digests names)} digests d e index.inner,
                  )))
          | inr (x, xs, k) ↦
              rw (g, forget_claim)
                (rw k (
                  ground (
                    arith,
                    g,
                    k,
                    get-insert {V = List (NodeEntry digests names)} digests d e (x ∷ xs)
                        index.inner,
                  )))
        ]
      ]

  forget_claim-ttl :
      (index : PrefixIndex digests names) (d : Digest) (n : Name)
      → (forget_claim digests names index d n).ttl ≡ index.ttl
  unfolding forget_claim
  forget_claim-ttl index d n = elim (Option-cases (get digests d index.inner)) [
    | inl g ↦ rw (g, forget_claim) refl
    | inr (entries, g) ↦
        elim (List-cases
          (keep (λ (x : NodeEntry digests names). not (is digests names x.node_id n)) entries)) [
            | inl k ↦ rw (g, forget_claim) (rw k refl)
            | inr (x, xs, k) ↦ rw (g, forget_claim) (rw k refl)
          ]
  ]

  -- Dropping a claim removes the node from the lookups of that digest and changes no other lookup.
  forget_claim-look_up :
      (index : PrefixIndex digests names) (d e : Digest) (n : Name) (now : ℕ)
      → look_up digests names (forget_claim digests names index d n) e now
        ≡ ite
            (digests d e)
            (keep (λ m. not (is digests names m n)) (look_up digests names index e now))
            (look_up digests names index e now)
  unfolding look_up
  forget_claim-look_up index d e n now =
      rw (forget_claim-ttl index d n, forget_claim-entries index d e n)
        (live-ite (digests d e) n index.ttl now
          (entries_of digests names (get digests e index.inner)))

  -- Draining a node removes it from every lookup and leaves the other nodes, in their order.
  pub forget_node-look_up :
      (index : PrefixIndex digests names) (n : Name) (d : Digest) (now : ℕ)
      → Unique digests index.inner
      → look_up digests names (forget_node digests names index n) d now
        ≡ keep (λ m. not (is digests names m n)) (look_up digests names index d now)
  unfolding look_up forget_node
  forget_node-look_up index n d now u =
      rw (get-retain (λ e. not (is digests names e.node_id n)) index.inner d u)
        (live-keep n index.ttl now (entries_of digests names (get digests d index.inner)))

  -- Garbage collection changes no later lookup.
  gc-look_up :
      (index : PrefixIndex digests names) (d : Digest) (now later : ℕ)
      → Unique digests index.inner
      → now ≤ later
      → look_up digests names (gc digests names index now) d later
        ≡ look_up digests names index d later
  unfolding look_up gc
  gc-look_up index d now later u le =
      rw (get-retain (λ e. ltb (now - e.last_seen) index.ttl) index.inner d u)
        (live-later index.ttl now later (entries_of digests names (get digests d index.inner)) le)

  is_alike :
      (a n m : Name) → is digests names a n ≡ true → is digests names a m ≡ is digests names n m
  unfolding is
  is_alike a n m h = elim (names a n) [
    | yes p ↦ ap (λ z. is digests names z m) p
    | no q ↦ ground (arith, h, q)
  ]

  pub live-seen :
      (n m : Name) (ttl now later : ℕ) (entries : List (NodeEntry digests names))
      → later - now < ttl
      → contains digests names (live digests names ttl later (seen digests names n now entries)) m
        ≡ (if is digests names n m
            then true
            else contains digests names (live digests names ttl later entries) m)
  unfolding live seen contains
  live-seen n m ttl now later [] p = ground (arith, p)
  live-seen n m ttl now later (e ∷ entries) p =
      ground (arith, p, live-seen n m ttl now later entries p, is_alike e.node_id n m)
