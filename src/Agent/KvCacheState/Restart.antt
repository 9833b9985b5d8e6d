-- ===== src/Agent/KvCacheState/Restart.antt =====
-- What the epoch of rust/services/cgn-agent/src/kv_cache_state.rs shows of a restart.
use cognitora_inference.Prelude.{
  ◌+◌, ◌-◌, ◌^◌, ◌<◌, ◌≤◌, ◌≡◌, Bool, true, false, not, ◌&&◌, List, [], ◌∷◌, arith,
}
use cognitora_inference.Agent.KvCacheState.{
  EngineStats, KvCacheState, bump, bump_if, observe_blocks, observe_ready, observe, run,
}

-- The epoch fits a `u64`, as its type in the source demands.
abbrev pub IsU64 : KvCacheState → Type 0
IsU64 s = s.kv_epoch < 2 ^ 64

abbrev Grows : KvCacheState → KvCacheState → Type 0
Grows s t = (s.kv_epoch ≤ t.kv_epoch) × IsU64 t

bump_if-Grows : (b : Bool) (s : KvCacheState) → IsU64 s → Grows s (bump_if b s)
unfolding bump
bump_if-Grows b s u = ground arith

observe_blocks-Grows :
    (s : KvCacheState) (stats : EngineStats) → IsU64 s → Grows s (observe_blocks s stats)
unfolding observe_blocks bump
observe_blocks-Grows s stats u = ground arith

observe-Grows :
    (s : KvCacheState) (ready : Bool) (stats : EngineStats)
    → IsU64 s
    → Grows s (observe s ready stats)
unfolding observe observe_ready
observe-Grows s ready stats u =
    let s' = bump_if (s.saw_ready && (s.was_ready && not ready)) s in
    let t = bump_if (s'.saw_ready && not s'.was_ready) s' in
    let g = bump_if-Grows (s.saw_ready && (s.was_ready && not ready)) s u in
    let h = bump_if-Grows (s'.saw_ready && not s'.was_ready) s' g.1 in
    ground (arith, g, h, observe_blocks-Grows t stats h.1)

run-Grows : (s : KvCacheState) (seen : List (Bool × EngineStats)) → IsU64 s → Grows s (run s seen)
unfolding run
run-Grows s [] u = omega (arith, u)
run-Grows s ((ready, stats) ∷ seen) u =
    let g = observe-Grows s ready stats u in
    let h = run-Grows (observe s ready stats) seen g.1 in omega (arith, g, h)

-- Once an engine that was ready is seen offline, every later epoch of the session is above the one
-- reported before.
pub run-offline :
    (s : KvCacheState) (stats : EngineStats) (seen : List (Bool × EngineStats))
    → s.kv_epoch < 2 ^ 64 - 1
    → s.saw_ready ≡ true
    → s.was_ready ≡ true
    → s.kv_epoch < (run s ((false, stats) ∷ seen)).kv_epoch
unfolding run observe bump
run-offline s stats seen u saw was =
    let s' = observe s false stats in
    let e : s'.kv_epoch ≡ s.kv_epoch + 1 = ground (arith, u, saw, was) in
    let h = run-Grows s' seen (omega (arith, e, u)) in omega (arith, e, h)
