-- ===== src/Agent/EngineSpawn/Accepts.antt =====
-- Which configurations can be started, rust/services/cgn-agent/src/engine/spawn.rs.
use cognitora_inference.Prelude.Options.{
  is_some-map, is_some-bind, is_some-else, is_some-unless, is_some-if, is_some-or,
}
use mathlib.Core.Bool.{and_assoc, and-true}
use cognitora_inference.Prelude.{
  ◌≡◌, refl, ap, ◌∙◌, ◌&&◌, ◌||◌, not, Option, none, some, List, [], ◌∷◌, is_nonempty, is_some,
  if◌then◌else◌, arith,
}
use cognitora_inference.Agent.EngineConfig.{
  Text, Std, EngineKind, vllm, sglang, llama_cpp, mlx, tensorrt_llm, cgn_infer, openai_compat,
  KvOffload, no_offload, nixl, lmcache, hicache, kvbm, cgn, NodeRoleCfg, PipelineWorkerConfig,
  PipelineTopologyConfig, ModelSpec, EngineConfig,
}
use cognitora_inference.Agent.EngineSpawn.{
  pairs_with, is_sglang_mp, validate_kv_offload, render_kind, render_argv, render_group,
}
use cognitora_inference.Agent.EngineSpawn.Workers.{
  is_complete, coordinator_flags, render_cgn_infer, worker_loop, is_cgn_infer,
  render_pipeline_workers,
}
use cognitora_inference.Agent.EngineSpawn.Engines.{render_vllm, render_llama_cpp}
use cognitora_inference.Agent.EngineSpawn.Connector.{
  reads_file, from_file, vllm_kv_transfer_config, connector_json,
}
use cognitora_inference.Agent.EngineSpawn.Needs.{
  offers, is_line, are_launchable, has_workers, is_readable, has_needs, startable,
}

by_store :
    (P : KvOffload → Type 0)
    → P no_offload
    → P nixl
    → P lmcache
    → P hicache
    → P kvbm
    → P cgn
    → (offload : KvOffload) → P offload
by_store P a b c d e f no_offload = a
by_store P a b c d e f nixl = b
by_store P a b c d e f lmcache = c
by_store P a b c d e f hicache = d
by_store P a b c d e f kvbm = e
by_store P a b c d e f cgn = f

pairs_with-offers :
    (kind : EngineKind) (offload : KvOffload) → pairs_with kind offload ≡ offers kind offload
unfolding pairs_with
pairs_with-offers vllm offload =
    by_store (λ o. pairs_with vllm o ≡ offers vllm o) refl refl refl refl refl refl offload
pairs_with-offers sglang offload =
    by_store (λ o. pairs_with sglang o ≡ offers sglang o) refl refl refl refl refl refl offload
pairs_with-offers llama_cpp offload =
    by_store (λ o. pairs_with llama_cpp o ≡ offers llama_cpp o) refl refl refl refl refl refl
      offload
pairs_with-offers mlx offload =
    by_store (λ o. pairs_with mlx o ≡ offers mlx o) refl refl refl refl refl refl offload
pairs_with-offers tensorrt_llm offload =
    by_store (λ o. pairs_with tensorrt_llm o ≡ offers tensorrt_llm o) refl refl refl refl refl refl
      offload
pairs_with-offers cgn_infer offload =
    by_store (λ o. pairs_with cgn_infer o ≡ offers cgn_infer o) refl refl refl refl refl refl
      offload
pairs_with-offers openai_compat offload =
    by_store (λ o. pairs_with openai_compat o ≡ offers openai_compat o) refl refl refl refl refl
      refl offload

coordinator_flags-is_some :
    (pipe : Option PipelineTopologyConfig) → is_some (coordinator_flags pipe) ≡ is_line pipe
unfolding coordinator_flags is_complete
coordinator_flags-is_some none = refl
coordinator_flags-is_some (some pipe) = ground arith

module _ (std : Std) where
  open std use {trim, read_to_string}

  from_file-is_readable :
      (offload : KvOffload) (file : Text) (connector : Option Text)
      → is_some (if reads_file std offload file then from_file std file else some connector)
        ≡ is_readable std offload file
  unfolding reads_file from_file
  from_file-is_readable lmcache file connector = ground arith
  from_file-is_readable no_offload file connector = refl
  from_file-is_readable nixl file connector = refl
  from_file-is_readable hicache file connector = refl
  from_file-is_readable kvbm file connector = refl
  from_file-is_readable cgn file connector = refl

  render_vllm-is_some :
      (cfg : EngineConfig std) (spec : ModelSpec) (role : NodeRoleCfg)
      → is_some (render_vllm std cfg spec role)
        ≡ is_readable std cfg.kv_offload cfg.lmcache.config_file
  unfolding render_vllm vllm_kv_transfer_config
  render_vllm-is_some cfg spec role =
      is_some-map (vllm_kv_transfer_config std role cfg) _
      ∙ from_file-is_readable cfg.kv_offload cfg.lmcache.config_file
          (connector_json std role cfg.kv_offload cfg.lmcache)

  render_cgn_infer-is_some :
      (cfg : EngineConfig std) (spec : ModelSpec)
      → is_some (render_cgn_infer std cfg spec) ≡ is_some spec.path && is_line spec.pipeline
  unfolding render_cgn_infer
  render_cgn_infer-is_some cfg spec = is_some-bind spec.path _ (is_line spec.pipeline) (λ path.
      is_some-map (coordinator_flags spec.pipeline) _ ∙ coordinator_flags-is_some spec.pipeline)

  render_llama_cpp-is_some :
      (cfg : EngineConfig std) (spec : ModelSpec)
      → is_some (render_llama_cpp std cfg spec) ≡ is_some spec.path
  unfolding render_llama_cpp
  render_llama_cpp-is_some cfg spec = is_some-map spec.path _

  render_kind-is_some :
      (kind : EngineKind) (cfg : EngineConfig std) (spec : ModelSpec) (role : NodeRoleCfg)
      → is_some (render_kind std kind cfg spec role) ≡ has_needs std kind cfg spec
  unfolding render_kind
  render_kind-is_some vllm cfg spec role = render_vllm-is_some cfg spec role
  render_kind-is_some sglang cfg spec role = refl
  render_kind-is_some llama_cpp cfg spec role = render_llama_cpp-is_some cfg spec
  render_kind-is_some mlx cfg spec role = refl
  render_kind-is_some tensorrt_llm cfg spec role = refl
  render_kind-is_some cgn_infer cfg spec role = render_cgn_infer-is_some cfg spec
  render_kind-is_some openai_compat cfg spec role = refl

  validate-is_some :
      (cfg : EngineConfig std)
      → is_some (validate_kv_offload std cfg)
        ≡ offers cfg.kind cfg.kv_offload
          && not (is_sglang_mp cfg.kind cfg.kv_offload cfg.lmcache.mode)
  unfolding validate_kv_offload
  validate-is_some cfg =
      let paired = pairs_with-offers cfg.kind cfg.kv_offload in
      let excluded = is_sglang_mp cfg.kind cfg.kv_offload cfg.lmcache.mode in
      is_some-unless (pairs_with cfg.kind cfg.kv_offload) (if excluded then none else some tt)
      ∙ rw (paired, is_some-if {A = Unit {0}} excluded (some tt), and-true (not excluded)) refl

  render_argv-is_some :
      (cfg : EngineConfig std) (spec : ModelSpec) (role : NodeRoleCfg) (legacy : List Text)
      → is_some (render_argv std cfg spec role legacy) ≡ startable std cfg spec legacy
  unfolding render_argv
  render_argv-is_some cfg spec role legacy =
      is_some-bind (validate_kv_offload std cfg) _
        (is_nonempty legacy || has_needs std cfg.kind cfg spec)
        (λ x.
          is_some-or (is_nonempty legacy) _ (render_kind std cfg.kind cfg spec role)
          ∙ ap (λ b. is_nonempty legacy || b) (render_kind-is_some cfg.kind cfg spec role))
      ∙ ap (λ b. b && (is_nonempty legacy || has_needs std cfg.kind cfg spec))
          (validate-is_some cfg)
      ∙ and_assoc (offers cfg.kind cfg.kv_offload)
          (not (is_sglang_mp cfg.kind cfg.kv_offload cfg.lmcache.mode)) _

  worker_loop-is_some :
      (cfg : EngineConfig std) (path encoding : Text) (ws : List PipelineWorkerConfig)
      → is_some (worker_loop std cfg path encoding ws) ≡ are_launchable ws
  unfolding worker_loop
  worker_loop-is_some cfg path encoding [] = refl
  worker_loop-is_some cfg path encoding (w ∷ ws) =
      ground (arith, worker_loop-is_some cfg path encoding ws)

  render_pipeline_workers-is_some :
      (cfg : EngineConfig std) (spec : ModelSpec)
      → is_some (render_pipeline_workers std cfg spec) ≡ has_workers cfg.kind spec
  unfolding render_pipeline_workers
  render_pipeline_workers-is_some cfg spec =
      is_some-else spec.pipeline _ _
        (λ pipe. is_cgn_infer cfg.kind && (is_some spec.path && are_launchable pipe.workers))
        (λ pipe.
          is_some-unless (is_cgn_infer cfg.kind) _
          ∙ ap (λ b. is_cgn_infer cfg.kind && b)
              (is_some-bind spec.path _ (are_launchable pipe.workers)
                (λ path. worker_loop-is_some cfg path pipe.activation_encoding pipe.workers)))

  -- The processes of a model are rendered exactly where its workers and its engine can be: if it has
  -- a pipeline, the engine is cgn-infer, there is a path, and each worker that is spawned here has an
  -- address and layers; the store is one that the error message lists for the engine, so that
  -- SGLang may have NIXL, which config.md and the table above the code leave out, and it is not
  -- LMCache in MP mode under SGLang; and there is a command of the old schema, or the engine has what
  -- it needs. That is, for vLLM with LMCache and a file named for it, that the file can be read and
  -- is not blank; for llama.cpp and cgn-infer a path, for the latter with a complete pipeline, if
  -- any; for an external engine nothing is enough, and the others need nothing.
  pub render_group-is_some :
      (cfg : EngineConfig std) (spec : ModelSpec) (role : NodeRoleCfg) (legacy : List Text)
      → is_some (render_group std cfg spec role legacy)
        ≡ has_workers cfg.kind spec && startable std cfg spec legacy
  unfolding render_group
  render_group-is_some cfg spec role legacy =
      is_some-bind (render_pipeline_workers std cfg spec) _ (startable std cfg spec legacy)
        (λ workers.
          is_some-map (render_argv std cfg spec role legacy) _
          ∙ render_argv-is_some cfg spec role legacy)
      ∙ ap (λ b. b && startable std cfg spec legacy) (render_pipeline_workers-is_some cfg spec)
