-- ===== src/Agent/KvCacheState.antt =====
-- The epoch that an agent reports for its engine's cache,
-- rust/services/cgn-agent/src/kv_cache_state.rs. Block counts are below 2^32, so that their
-- difference fits the source's `i64`: it is at least a positive threshold exactly where the
-- difference that stops at zero is.
pub mod Restart
use cognitora_inference.Prelude.{
  ℕ, ◌+◌, ◌-◌, ◌/◌, ◌^◌, max, min, Bool, true, false, not, ◌&&◌, List, [], ◌∷◌, ltb, leb, ◌==◌,
  if◌then◌else◌,
}

-- The two fields of `EngineStats` that are read.
pub record EngineStats : Type 0 where
  pub free_blocks : ℕ
  pub total_blocks : ℕ

pub record KvCacheState : Type 0 where
  pub kv_epoch : ℕ
  pub was_ready : Bool
  pub saw_ready : Bool
  pub last_free : ℕ
  pub last_total : ℕ

unfoldable pub new : KvCacheState
new = record { kv_epoch = 0; was_ready = false; saw_ready = false; last_free = 0; last_total = 0 }

-- `saturating_add(1)` on a `u64`.
unfoldable pub bump : KvCacheState → KvCacheState
bump s = record s { kv_epoch = min (s.kv_epoch + 1) (2 ^ 64 - 1) }

abbrev pub bump_if : Bool → KvCacheState → KvCacheState
bump_if b s = if b then bump s else s

-- The checks of the block counts.
unfoldable pub observe_blocks : KvCacheState → EngineStats → KvCacheState
unfolding bump
observe_blocks s stats =
    if ltb 0 stats.total_blocks
    then bump_if
        (ltb 0 s.last_total
          && (ltb 0 s.last_free
              && leb (max (stats.total_blocks / 6) 32) (stats.free_blocks - s.last_free)))
        (bump_if (ltb 0 s.last_total && not (stats.total_blocks == s.last_total)) s)
    else s

unfoldable pub observe_ready : KvCacheState → EngineStats → KvCacheState
unfolding bump observe_blocks
observe_ready s stats = record (observe_blocks (bump_if (s.saw_ready && not s.was_ready) s) stats) {
  saw_ready = true;
  last_free = stats.free_blocks;
  last_total = stats.total_blocks;
}

-- One heartbeat: the new state, whose `kv_epoch` is what the agent reports.
unfoldable pub observe : KvCacheState → Bool → EngineStats → KvCacheState
unfolding bump observe_ready
observe s ready stats =
    let s' = bump_if (s.saw_ready && (s.was_ready && not ready)) s in
    record (if ready then observe_ready s' stats else s') { was_ready = ready }

-- The heartbeats of one session with the store.
unfoldable pub run : KvCacheState → List (Bool × EngineStats) → KvCacheState
unfolding observe
run s [] = s
run s ((ready, stats) ∷ rest) = run (observe s ready stats) rest
