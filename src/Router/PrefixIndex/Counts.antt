-- ===== src/Router/PrefixIndex/Counts.antt =====
-- How the two overlaps of the prefix index, rust/libraries/cgn-core/src/prefix.rs, compare.
use cognitora_inference.Prelude.{ℕ, ◌+◌, ◌≤◌, List, [], ◌∷◌, arith, if◌then◌else◌}
use cognitora_inference.Prelude.Maps.{get, insert, get-insert}
use cognitora_inference.Router.PrefixIndex.{
  PrefixIndex, is, look_up, contains, or_zero, bump, overlap_from, overlap,
}
use cognitora_inference.Router.PrefixIndex.Overlap.{leading}

module _ {Digest Name : Type 0} (digests : Discrete Digest) (names : Discrete Name) where
  abbrev tally : Name → List (Name × ℕ) → ℕ
  tally n out = or_zero digests names (get names n out)

  bump-tally :
      (holders : List Name) (out : List (Name × ℕ)) (n : Name)
      → (if contains digests names holders n then 1 else 0) + tally n out
        ≤ tally n (bump digests names holders out)
  unfolding bump contains is
  bump-tally [] out n = omega arith
  bump-tally (m ∷ holders) out n =
      let out' = insert names m (or_zero digests names (get names m out) + 1) out in
      ground (
        arith,
        bump-tally holders out' n,
        get-insert {V = ℕ} names m n (or_zero digests names (get names m out) + 1) out,
      )

  overlap_from-leading :
      (index : PrefixIndex digests names) (ds : List Digest) (now : ℕ) (out : List (Name × ℕ))
      (n : Name)
      → leading digests names index now n ds + tally n out
        ≤ tally n (overlap_from digests names index ds now out)
  unfolding overlap_from leading
  overlap_from-leading index [] now out n = omega arith
  overlap_from-leading index (d ∷ ds) now out n =
      let holders = look_up digests names index d now in
      let out' = bump digests names holders out in
      ground (arith, overlap_from-leading index ds now out' n, bump-tally holders out n)

  -- A node is credited with at least as many digests by the overlap that ignores positions as by the
  -- longest prefix.
  overlap-leading :
      (index : PrefixIndex digests names) (ds : List Digest) (now : ℕ) (n : Name)
      → leading digests names index now n ds
        ≤ or_zero digests names (get names n (overlap digests names index ds now))
  unfolding overlap get
  overlap-leading index ds now n = omega (arith, overlap_from-leading index ds now [] n)
