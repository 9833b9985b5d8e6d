-- ===== src/Router/PrefixIndex/Inserts.antt =====
-- What `insert_many` of rust/libraries/cgn-core/src/prefix.rs leaves for a later lookup.
use cognitora_inference.Prelude.{
  ℕ, suc, zero, ◌-◌, ◌<◌, ◌≡◌, refl, true, false, some, List, [], ◌∷◌, if◌then◌else◌, arith, length,
  get_elem?,
}
use mathlib.Core.Logic.{ite}
use cognitora_inference.Prelude.Maps.{get, get-insert}
use cognitora_inference.Router.PrefixIndex.{
  NodeEntry, PrefixIndex, is, look_up, entries_of, seen, add, insert_many, longest_prefix_overlap,
}
use cognitora_inference.Router.PrefixIndex.Overlap.{holds, leading, longest_prefix_overlap-leading}
use cognitora_inference.Router.PrefixIndex.Updates.{live-seen}

module _ {Digest Name : Type 0} (digests : Discrete Digest) (names : Discrete Name) where
  is-same : (n : Name) → is digests names n n ≡ true
  unfolding is
  is-same n = ground arith

  add-holds :
      (index : PrefixIndex digests names) (d e : Digest) (n m : Name) (now later : ℕ)
      → later - now < index.ttl
      → holds digests names (add digests names index d n now) later m e ≡ (
          if ite (digests d e) (is digests names n m) false
          then true
          else holds digests names index later m e)
  unfolding add look_up entries_of
  add-holds index d e n m now later p =
      let entries = entries_of digests names (get digests d index.inner) in
      let after = seen digests names n now entries in
      ground (
        arith,
        get-insert {V = List (NodeEntry digests names)} digests d e after index.inner,
        live-seen digests names n m index.ttl now later entries p,
      )

  insert_many-keeps :
      (index : PrefixIndex digests names) (ds : List Digest) (e : Digest) (n : Name) (now later : ℕ)
      → later - now < index.ttl
      → holds digests names index later n e ≡ true
      → holds digests names (insert_many digests names index ds n now) later n e ≡ true
  unfolding insert_many
  insert_many-keeps index [] e n now later p h = h
  insert_many-keeps index (d ∷ ds) e n now later p h =
      let index' = add digests names index d n now in
      insert_many-keeps index' ds e n now later p
        (ground (arith, add-holds index d e n n now later p, h, p, is-same n))

  pub insert_many-holds :
      (index : PrefixIndex digests names) (ds : List Digest) (i : ℕ) (e : Digest) (n : Name)
      (now later : ℕ)
      → later - now < index.ttl
      → get_elem? ds i ≡ some e
      → holds digests names (insert_many digests names index ds n now) later n e ≡ true
  unfolding insert_many
  insert_many-holds index [] i e n now later p h = cc
  insert_many-holds index (d ∷ ds) zero e n now later p h =
      let index' = add digests names index d n now in
      insert_many-keeps index' ds e n now later p
        (ground (arith, add-holds index d e n n now later p, h, p, is-same n))
  insert_many-holds index (d ∷ ds) (suc i) e n now later p h =
      insert_many-holds (add digests names index d n now) ds i e n now later p h

  leading-length :
      (index : PrefixIndex digests names) (ds : List Digest) (n : Name) (now : ℕ)
      → ((i : ℕ) (e : Digest) → get_elem? ds i ≡ some e → holds digests names index now n e ≡ true)
      → leading digests names index now n ds ≡ length ds
  unfolding leading
  leading-length index [] n now held = refl
  leading-length index (d ∷ ds) n now held =
      let rest = leading-length index ds n now (λ i e h. held (suc i) e h) in
      rw (held zero d refl, rest) refl

  -- After a dispatch records a request's digests for a node, and while entries can live at all, the
  -- overlap of that node with the request is the whole list.
  pub insert_many-overlap :
      (index : PrefixIndex digests names) (d : Digest) (ds : List Digest) (n : Name) (now : ℕ)
      → 0 < index.ttl
      → get names n (
          longest_prefix_overlap digests names
            (insert_many digests names index (d ∷ ds) n now)
            (d ∷ ds)
            now)
        ≡ some (length (d ∷ ds))
  insert_many-overlap index d ds n now p =
      let index' = insert_many digests names index (d ∷ ds) n now in
      rw (longest_prefix_overlap-leading digests names index' (d ∷ ds) now n) (
        rw
          (leading-length index' (d ∷ ds) n now
            (λ i e h. insert_many-holds index (d ∷ ds) i e n now now (omega (arith, p)) h))
          (ground arith))
