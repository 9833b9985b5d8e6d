-- ===== src/Router/PrefixIndex/Overlap.antt =====
-- What the router reads from the prefix index of rust/libraries/cgn-core/src/prefix.rs.
use cognitora_inference.Prelude.{
  ℕ, suc, ◌+◌, ◌≡◌, refl, Bool, none, some, List, [], ◌∷◌, ltb, if◌then◌else◌, keep, ◌&&◌, arith,
}
use cognitora_inference.Prelude.Maps.{get, insert, get-insert}
use cognitora_inference.Router.PrefixIndex.{
  PrefixIndex, is, look_up, contains, set_all, walk, longest_prefix_overlap,
}

module _ {Digest Name : Type 0} (digests : Discrete Digest) (names : Discrete Name) where
  abbrev pub holds : PrefixIndex digests names → ℕ → Name → Digest → Bool
  holds index now n d = contains digests names (look_up digests names index d now) n

  -- How many digests at the front of the list a node is live for.
  unfoldable pub leading : PrefixIndex digests names → ℕ → Name → List Digest → ℕ
  leading index now n [] = 0
  leading index now n (d ∷ ds) =
      let rest = leading index now n ds in if holds index now n d then suc rest else 0

  get-set_all :
      (active : List Name) (v : ℕ) (out : List (Name × ℕ)) (n : Name)
      → get names n (set_all digests names active v out)
        ≡ (if contains digests names active n then some v else get names n out)
  unfolding set_all contains is
  get-set_all [] v out n = refl
  get-set_all (m ∷ active) v out n =
      ground (arith, get-set_all active v (insert names m v out) n, get-insert names m n v out)

  contains-keep :
      (test : Name → Bool) (active : List Name) (n : Name)
      → contains digests names (keep test active) n ≡ (contains digests names active n && test n)
  unfolding contains is
  contains-keep test [] n = refl
  contains-keep test (m ∷ active) n = ground (arith, contains-keep test active n)

  walk_lem :
      (index : PrefixIndex digests names) (now i : ℕ) (active : List Name) (ds : List Digest)
      (out : List (Name × ℕ)) (n : Name)
      → get names n (walk digests names index now i active ds out) ≡ (
          if contains digests names active n && ltb 0 (leading index now n ds)
          then some (i + leading index now n ds)
          else get names n out)
  unfolding walk leading
  walk_lem index now i active [] out n = ground arith
  walk_lem index now i [] (d ∷ ds) out n = refl
  walk_lem index now i (m ∷ others) (d ∷ ds) out n =
      let held = contains digests names (look_up digests names index d now) in
      let active = keep held (m ∷ others) in
      let out' = set_all digests names active (i + 1) out in
      ground (
        arith,
        walk_lem index now (suc i) active ds out' n,
        get-set_all active (i + 1) out n,
        contains-keep held (m ∷ others) n,
      )

  -- The overlap of a node is the number of digests at the front of the list that the node is live
  -- for, and a node that is not live for the first one is absent.
  pub longest_prefix_overlap-leading :
      (index : PrefixIndex digests names) (ds : List Digest) (now : ℕ) (n : Name)
      → get names n (longest_prefix_overlap digests names index ds now)
        ≡ (if ltb 0 (leading index now n ds) then some (leading index now n ds) else none)
  unfolding longest_prefix_overlap get leading
  longest_prefix_overlap-leading index [] now n = refl
  longest_prefix_overlap-leading index (d ∷ ds) now n =
      let active = look_up digests names index d now in
      ground (
        arith,
        walk_lem index now 1 active ds (set_all digests names active 1 []) n,
        get-set_all active 1 [] n,
      )
