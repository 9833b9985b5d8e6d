-- ===== src/Infer/Pool.antt =====
-- `KvPool` of rust/services/cgn-infer/src/kv/mod.rs: KV space counted in blocks of 16 tokens. The
-- map `held` is an association list from sequence ids to block counts.
pub mod Laws
use cognitora_inference.Prelude.{
  ℕ, ◌+◌, ◌-◌, ◌/◌, ◌≤◌, ◌≡◌, Bool, true, false, Option, none, some, List, [], ◌∷◌, arith, ltb, leb,
  if◌then◌else◌, ℕ_discrete,
}
use cognitora_inference.Prelude.Maps.{get, insert, remove}

abbrev pub block_tokens : ℕ
block_tokens = 16

pub record KvPool : Type 0 where
  pub total_blocks : ℕ
  pub used_blocks : ℕ
  pub held : List (ℕ × ℕ)

unfoldable pub new : ℕ → KvPool
new total = record { total_blocks = total; used_blocks = 0; held = [] }

-- `tokens.div_ceil(BLOCK_TOKENS)`.
unfoldable pub blocks_for : ℕ → ℕ
blocks_for tokens = (tokens + 15) / 16

abbrev pub or_zero : Option ℕ → ℕ
or_zero none = 0
or_zero (some n) = n

unfoldable pub held_by : KvPool → ℕ → ℕ
held_by p seq = or_zero (get ℕ_discrete seq p.held)

unfoldable pub free_blocks : KvPool → ℕ
free_blocks p = p.total_blocks - p.used_blocks

unfoldable pub reserve : KvPool → ℕ → ℕ → Bool × KvPool
unfolding free_blocks
reserve p seq tokens =
    let want = blocks_for tokens in
    let have = held_by p seq in
    if leb want have then (true, p) else if ltb (free_blocks p) (want - have) then (false, p) else (
      true,
      record p {
        used_blocks = p.used_blocks + (want - have);
        held = insert ℕ_discrete seq want p.held;
      },
    )

unfoldable pub release : KvPool → ℕ → KvPool
release p seq = elim (get ℕ_discrete seq p.held) [
  | none ↦ p
  | some blocks ↦ record p {
    used_blocks = p.used_blocks - blocks;
    held = remove ℕ_discrete seq p.held;
  }
]
