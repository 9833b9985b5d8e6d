-- ===== src/Infer/Pool/Laws.antt =====
-- What the block pool keeps: the accounting of `KvPool` in rust/services/cgn-infer/src/kv/mod.rs.
use cognitora_inference.Prelude.{
  max, ◌↔◌, if◌then◌else◌, ℕ, ◌+◌, ◌*◌, ◌≤◌, ◌≡◌, refl, ◌≢◌, none, List, [], ◌∷◌, arith, leb,
  if◌then◌else◌, ℕ_discrete,
}
use cognitora_inference.Prelude.Maps.{
  get, insert, remove, get-insert, get-remove, Unique, insert-Unique, remove-Unique,
}
use cognitora_inference.Infer.Pool.{
  KvPool, new, blocks_for, or_zero, held_by, free_blocks, reserve, release,
}

abbrev pub total_held : List (ℕ × ℕ) → ℕ
total_held [] = 0
total_held ((k, v) ∷ m) = v + total_held m

pub record IsValid (p : KvPool) : Type 0 where
  pub within : p.used_blocks ≤ p.total_blocks
  pub counted : p.used_blocks ≡ total_held p.held
  pub unique : Unique ℕ_discrete p.held

total_held-insert :
    (k v : ℕ) (m : List (ℕ × ℕ))
    → total_held (insert ℕ_discrete k v m) + or_zero (get ℕ_discrete k m) ≡ total_held m + v
unfolding get insert
total_held-insert k v [] = omega arith
total_held-insert k v ((j, w) ∷ m) = ground (arith, total_held-insert k v m)

remove_absent : (k : ℕ) (m : List (ℕ × ℕ)) → get ℕ_discrete k m ≡ none → remove ℕ_discrete k m ≡ m
unfolding get remove
remove_absent k [] h = refl
remove_absent k ((j, w) ∷ m) h = ground (arith, remove_absent k m)

total_held-remove :
    (k : ℕ) (m : List (ℕ × ℕ))
    → Unique ℕ_discrete m
    → total_held (remove ℕ_discrete k m) + or_zero (get ℕ_discrete k m) ≡ total_held m
unfolding get remove
total_held-remove k [] u = omega arith
total_held-remove k ((j, w) ∷ m) u =
    ground (arith, total_held-remove k m u.1, remove_absent j m u.0)

pub new-IsValid : (total : ℕ) → IsValid (new total)
unfolding new
new-IsValid total = record { within = omega arith; counted = refl; unique = tt }

pub reserve-IsValid : (p : KvPool) (seq tokens : ℕ) → IsValid p → IsValid (reserve p seq tokens).1
unfolding reserve held_by
reserve-IsValid p seq tokens v = ground (
  arith,
  total_held-insert seq (blocks_for tokens) p.held,
  insert-Unique {V = ℕ} ℕ_discrete seq (blocks_for tokens) p.held v.unique,
)

pub release-IsValid : (p : KvPool) (seq : ℕ) → IsValid p → IsValid (release p seq)
unfolding release
release-IsValid p seq v = ground (
  arith,
  total_held-remove seq p.held v.unique,
  remove-Unique {V = ℕ} ℕ_discrete seq p.held v.unique,
)

-- A reservation succeeds exactly when the growth fits the free blocks. On success the sequence
-- holds the larger of what it held and what the tokens need, on a refusal what it held. The used
-- blocks grow by as much as its share, and no other sequence's share changes either way.
pub reserve_lem :
    (p : KvPool) (seq other tokens : ℕ)
    → seq ≢ other
    → let (granted, p') = reserve p seq tokens in
      (granted ≡ leb (blocks_for tokens) (held_by p seq + free_blocks p))
      × (held_by p' seq
          ≡ (if granted then max (held_by p seq) (blocks_for tokens) else held_by p seq))
      × (p'.used_blocks + held_by p seq ≡ p.used_blocks + held_by p' seq)
      × (held_by p' other ≡ held_by p other)
unfolding reserve held_by
reserve_lem p seq other tokens ne = (
  ground arith,
  ground (arith, get-insert {V = ℕ} ℕ_discrete seq seq (blocks_for tokens) p.held),
  ground (arith, get-insert {V = ℕ} ℕ_discrete seq seq (blocks_for tokens) p.held),
  ground (arith, get-insert {V = ℕ} ℕ_discrete seq other (blocks_for tokens) p.held),
)

-- A release returns exactly the blocks that the sequence held, leaves it with none, and changes
-- nobody else's share.
pub release_lem :
    (p : KvPool) (seq other : ℕ)
    → IsValid p
    → seq ≢ other
    → (free_blocks (release p seq) ≡ free_blocks p + held_by p seq)
      × (held_by (release p seq) seq ≡ 0)
      × (held_by (release p seq) other ≡ held_by p other)
unfolding release held_by free_blocks
release_lem p seq other v ne = (
  ground (arith, total_held-remove seq p.held v.unique),
  ground (arith, get-remove {V = ℕ} ℕ_discrete seq seq p.held),
  ground (arith, get-remove {V = ℕ} ℕ_discrete seq other p.held),
)

-- A number of blocks holds the tokens exactly when it is at least `blocks_for`.
blocks_for_least : (tokens blocks : ℕ) → (blocks_for tokens ≤ blocks) ↔ (tokens ≤ blocks * 16)
unfolding blocks_for
blocks_for_least tokens blocks = (λ h. omega arith, λ h. omega arith)
