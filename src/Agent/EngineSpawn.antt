-- ===== src/Agent/EngineSpawn.antt =====
-- The arguments of the engine processes, rust/services/cgn-agent/src/engine/spawn.rs. An error of the
-- configuration is `none`.
pub mod Flags
pub mod Engines
pub mod Workers
pub mod Lmcache
pub mod Connector
pub mod Needs
pub mod Accepts
pub mod Commas
pub mod Topology
pub mod Startup
pub mod Coordinate
pub mod Serves
pub mod Line
use cognitora_inference.Prelude.{
  ℕ, suc, zero, ◌-◌, Bool, true, false, ◌&&◌, ◌||◌, not, Option, none, some, List, [], ◌∷◌, ◌++◌,
  map, length, drop, if◌then◌else◌, is_nonempty,
}
use cognitora_inference.Agent.EngineStream.{starts_with}
use cognitora_inference.Agent.EngineConfig.{
  Text, bytes, Std, EngineKind, vllm, sglang, llama_cpp, mlx, tensorrt_llm, cgn_infer,
  openai_compat, KvOffload, no_offload, nixl, lmcache, hicache, kvbm, cgn, LmcacheMode, v1, mp,
  LlamaCppMode, python_server, binary, NodeRoleCfg, LmcacheEngineConfig, HostEngineConfig,
  PipelineWorkerConfig, PipelineTopologyConfig, ModelSpec, EngineConfig,
}
use cognitora_inference.Agent.EngineSpawn.Connector.{vllm_kv_transfer_config}
use cognitora_inference.Agent.EngineSpawn.Flags.{
  or_name, lora_pairs, lora_flags, or_ctx, is_lmcache, numbered, number_or,
}
use cognitora_inference.Agent.EngineSpawn.Engines.{
  sglang_hicache_args, sglang_lmcache_args, render_tensorrt_llm, prefix_flags, vllm_argv,
  render_vllm, render_sglang, llama_cpp_argv, render_llama_cpp, render_mlx,
}
use cognitora_inference.Agent.EngineSpawn.Workers.{
  join, endpoint_of, is_complete, coordinator_flags, is_cgn_infer, render_cgn_infer, worker_argv,
  worker_loop, render_pipeline_workers,
}
use cognitora_inference.Agent.EngineSpawn.Lmcache.{
  until, lmcache_host, is_vllm_mp, is_sglang, lmcache_server_argv, should_spawn_lmcache_server,
  engine_child_env,
}

unfoldable pub should_spawn : EngineKind → Bool
should_spawn openai_compat = false
should_spawn _ = true

-- The pairings of `validate_kv_offload`.
unfoldable pub pairs_with : EngineKind → KvOffload → Bool
pairs_with kind no_offload = true
pairs_with vllm nixl = true
pairs_with vllm lmcache = true
pairs_with vllm kvbm = true
pairs_with vllm cgn = true
pairs_with sglang hicache = true
pairs_with sglang nixl = true
pairs_with sglang lmcache = true
pairs_with _ _ = false

-- The second test of `validate_kv_offload`.
unfoldable pub is_sglang_mp : EngineKind → KvOffload → LmcacheMode → Bool
is_sglang_mp sglang lmcache mp = true
is_sglang_mp _ _ _ = false

-- `str::replace`; the number counts the bytes of a match that are left to skip.
unfoldable pub replace : Text → Text → ℕ → Text → Text
replace pat by k [] = []
replace pat by (suc k) (c ∷ s) = replace pat by k s
replace pat by zero (c ∷ s) =
    let hit = by ++ replace pat by (length pat - 1) s in
    let miss = c ∷ replace pat by zero s in if starts_with pat (c ∷ s) then hit else miss

module _ (std : Std) where
  open std use {to_string}

  unfoldable pub validate_kv_offload : EngineConfig std → Option (Unit {0})
  unfolding pairs_with is_sglang_mp
  validate_kv_offload cfg =
      if not (pairs_with cfg.kind cfg.kv_offload)
      then none
      else if is_sglang_mp cfg.kind cfg.kv_offload cfg.lmcache.mode
      then none
      else some tt

  unfoldable pub filled : ModelSpec → Text → Text
  unfolding replace
  filled spec arg =
      replace (bytes "{tp}") (to_string spec.tp) 0 (replace (bytes "{model}") spec.name 0 arg)

  unfoldable pub render_legacy : List Text → ModelSpec → List Text
  unfolding filled
  render_legacy template spec =
      map (filled spec) template
      ++ (numbered std (bytes "--max-model-len") spec.max_model_len ++ spec.extra_args)

  unfoldable pub render_kind :
      EngineKind → EngineConfig std → ModelSpec → NodeRoleCfg → Option (List Text)
  unfolding render_vllm render_sglang render_llama_cpp render_mlx render_tensorrt_llm
      render_cgn_infer
  render_kind vllm cfg spec role = render_vllm std cfg spec role
  render_kind sglang cfg spec role = some (render_sglang std cfg spec)
  render_kind llama_cpp cfg spec role = render_llama_cpp std cfg spec
  render_kind mlx cfg spec role = some (render_mlx std cfg spec)
  render_kind tensorrt_llm cfg spec role = some (render_tensorrt_llm std cfg spec)
  render_kind cgn_infer cfg spec role = render_cgn_infer std cfg spec
  render_kind openai_compat cfg spec role = none

  -- `legacy_cmd`, where an absent one is empty.
  unfoldable pub render_argv :
      EngineConfig std → ModelSpec → NodeRoleCfg → List Text → Option (List Text)
  unfolding validate_kv_offload render_legacy render_kind
  render_argv cfg spec role legacy = elim (validate_kv_offload cfg) [
    | none ↦ none
    | some _ ↦
        if is_nonempty legacy
        then some (render_legacy legacy spec)
        else render_kind cfg.kind cfg spec role
  ]

  -- The whole group, as the supervisor starts it: the workers first.
  unfoldable pub render_group :
      EngineConfig std → ModelSpec → NodeRoleCfg → List Text → Option (List (List Text))
  unfolding render_pipeline_workers render_argv
  render_group cfg spec role legacy = elim (render_pipeline_workers std cfg spec) [
    | none ↦ none
    | some workers ↦ elim (render_argv cfg spec role legacy) [
      | none ↦ none
      | some argv ↦ some (workers ++ (argv ∷ []))
    ]
  ]
