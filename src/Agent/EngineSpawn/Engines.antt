-- ===== src/Agent/EngineSpawn/Engines.antt =====
-- The arguments of the engines that are not the repository's own, rust/services/cgn-agent/src/engine/spawn.rs.
use cognitora_inference.Prelude.{◌&&◌, Option, none, some, List, [], ◌∷◌, ◌++◌, if◌then◌else◌}
use cognitora_inference.Agent.EngineConfig.{
  Text, bytes, Std, KvOffload, lmcache, hicache, LlamaCppMode, python_server, NodeRoleCfg,
  ModelSpec, EngineConfig,
}
use cognitora_inference.Agent.EngineSpawn.Connector.{vllm_kv_transfer_config}
use cognitora_inference.Agent.EngineSpawn.Flags.{
  or_name, lora_flags, is_lmcache, numbered, number_or,
}

unfoldable pub sglang_hicache_args : KvOffload → List Text
sglang_hicache_args hicache =
    bytes "--enable-hierarchical-cache"
    ∷ bytes "--hicache-ratio"
    ∷ bytes "2"
    ∷ bytes "--hicache-write-policy"
    ∷ bytes "write_through"
    ∷ bytes "--hicache-storage-backend"
    ∷ bytes "nixl"
    ∷ []
sglang_hicache_args _ = []

unfoldable pub sglang_lmcache_args : KvOffload → List Text
sglang_lmcache_args lmcache = bytes "--enable-lmcache" ∷ []
sglang_lmcache_args _ = []

module _ (std : Std) where
  open std use {to_string, i32_to_string, three_digits}

  unfoldable pub render_tensorrt_llm : EngineConfig std → ModelSpec → List Text
  unfolding or_name
  render_tensorrt_llm cfg spec =
      cfg.tensorrt_llm.program
      ∷ or_name spec.path spec.name
      ∷ bytes "--host"
      ∷ cfg.tensorrt_llm.host
      ∷ bytes "--port"
      ∷ to_string cfg.tensorrt_llm.port
      ∷ bytes "--tp_size"
      ∷ to_string spec.tp
      ∷ (numbered std (bytes "--max_seq_len") spec.max_model_len
          ++ (cfg.tensorrt_llm.extra_args ++ spec.extra_args))

  unfoldable pub prefix_flags : EngineConfig std → List Text
  unfolding is_lmcache
  prefix_flags cfg =
      (if is_lmcache cfg.kv_offload && cfg.lmcache.disable_prefix_caching
        then bytes "--no-enable-prefix-caching" ∷ []
        else [])
      ++ (if is_lmcache cfg.kv_offload && cfg.lmcache.disable_hybrid_kv_cache_manager
          then bytes "--disable-hybrid-kv-cache-manager" ∷ []
          else [])

  unfoldable pub vllm_argv : EngineConfig std → ModelSpec → Option Text → List Text
  unfolding prefix_flags lora_flags
  vllm_argv cfg spec connector =
      cfg.vllm.program
      ∷ bytes "serve"
      ∷ spec.name
      ∷ bytes "--tensor-parallel-size"
      ∷ to_string spec.tp
      ∷ (numbered std (bytes "--max-model-len") spec.max_model_len
          ++ ((elim connector [ none ↦ [] | some json ↦ bytes "--kv-transfer-config" ∷ json ∷ [] ])
              ++ (prefix_flags cfg
                  ++ (lora_flags (bytes "--enable-lora" ∷ bytes "--lora-modules" ∷ []) spec.lora
                      ++ (cfg.vllm.extra_args ++ spec.extra_args)))))

  unfoldable pub render_vllm : EngineConfig std → ModelSpec → NodeRoleCfg → Option (List Text)
  unfolding vllm_argv
  render_vllm cfg spec role = elim (vllm_kv_transfer_config std role cfg) [
    | none ↦ none
    | some connector ↦ some (vllm_argv cfg spec connector)
  ]

  unfoldable pub render_sglang : EngineConfig std → ModelSpec → List Text
  unfolding or_name sglang_hicache_args sglang_lmcache_args lora_flags
  render_sglang cfg spec =
      cfg.sglang.program
      ∷ bytes "-m"
      ∷ bytes "sglang.launch_server"
      ∷ bytes "--model-path"
      ∷ or_name spec.path spec.name
      ∷ bytes "--served-model-name"
      ∷ spec.name
      ∷ bytes "--tp"
      ∷ to_string spec.tp
      ∷ bytes "--host"
      ∷ cfg.sglang.host
      ∷ bytes "--port"
      ∷ to_string cfg.sglang.port
      ∷ bytes "--context-length"
      ∷ number_or std spec.max_model_len cfg.sglang.context_length
      ∷ bytes "--mem-fraction-static"
      ∷ three_digits cfg.sglang.mem_fraction_static
      ∷ (sglang_hicache_args cfg.kv_offload
          ++ (sglang_lmcache_args cfg.kv_offload
              ++ (lora_flags (bytes "--lora-paths" ∷ []) spec.lora
                  ++ (cfg.sglang.extra_args ++ spec.extra_args))))

  unfoldable pub llama_cpp_argv : LlamaCppMode → EngineConfig std → ModelSpec → Text → List Text
  llama_cpp_argv python_server cfg spec path =
      cfg.llama_cpp.program
      ∷ bytes "-m"
      ∷ bytes "llama_cpp.server"
      ∷ bytes "--host"
      ∷ cfg.llama_cpp.host
      ∷ bytes "--port"
      ∷ to_string cfg.llama_cpp.port
      ∷ bytes "--model"
      ∷ path
      ∷ bytes "--model_alias"
      ∷ spec.name
      ∷ bytes "--n_ctx"
      ∷ number_or std spec.max_model_len cfg.llama_cpp.n_ctx
      ∷ bytes "--n_threads"
      ∷ to_string cfg.llama_cpp.n_threads
      ∷ bytes "--n_gpu_layers"
      ∷ i32_to_string cfg.llama_cpp.n_gpu_layers
      ∷ []
  llama_cpp_argv LlamaCppMode.binary cfg spec path =
      cfg.llama_cpp.program
      ∷ bytes "--model"
      ∷ path
      ∷ bytes "--host"
      ∷ cfg.llama_cpp.host
      ∷ bytes "--port"
      ∷ to_string cfg.llama_cpp.port
      ∷ bytes "--ctx-size"
      ∷ number_or std spec.max_model_len cfg.llama_cpp.n_ctx
      ∷ bytes "--threads"
      ∷ to_string cfg.llama_cpp.n_threads
      ∷ bytes "--n-gpu-layers"
      ∷ i32_to_string cfg.llama_cpp.n_gpu_layers
      ∷ []

  unfoldable pub render_llama_cpp : EngineConfig std → ModelSpec → Option (List Text)
  unfolding llama_cpp_argv
  render_llama_cpp cfg spec = elim spec.path [
    | none ↦ none
    | some path ↦ some (
        llama_cpp_argv cfg.llama_cpp.mode cfg spec path
        ++ (cfg.llama_cpp.extra_args ++ spec.extra_args))
  ]

  unfoldable pub render_mlx : EngineConfig std → ModelSpec → List Text
  unfolding or_name
  render_mlx cfg spec =
      cfg.mlx_lm.program
      ∷ bytes "-m"
      ∷ bytes "mlx_lm.server"
      ∷ bytes "--model"
      ∷ or_name spec.path spec.name
      ∷ bytes "--host"
      ∷ cfg.mlx_lm.host
      ∷ bytes "--port"
      ∷ to_string cfg.mlx_lm.port
      ∷ (cfg.mlx_lm.extra_args ++ spec.extra_args)
