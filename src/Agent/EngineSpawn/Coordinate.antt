-- ===== src/Agent/EngineSpawn/Coordinate.antt =====
-- The arguments of cgn-infer in a pipeline, rust/services/cgn-agent/src/engine/spawn.rs.
use cognitora_inference.Prelude.{◌≡◌, refl, true, some, List, [], ◌∷◌, ◌++◌}
use cognitora_inference.Agent.EngineConfig.{
  Text, bytes, Std, cgn_infer, no_offload, NodeRoleCfg, PipelineTopologyConfig, ModelSpec,
  EngineConfig,
}
use cognitora_inference.Agent.EngineSpawn.Flags.{or_ctx}
use cognitora_inference.Agent.EngineSpawn.Workers.{
  is_complete, coordinator_flags, render_cgn_infer, worker_loop, is_cgn_infer,
  render_pipeline_workers,
}
use cognitora_inference.Agent.EngineSpawn.{
  render_argv, render_group, render_kind, validate_kv_offload, pairs_with, is_sglang_mp,
}
use cognitora_inference.Agent.EngineSpawn.Topology.{
  flat, line_options, serve_options, flat-line_options,
}

coordinator_flags-is_complete :
    (pipe : PipelineTopologyConfig)
    → is_complete pipe ≡ true
    → coordinator_flags (some pipe) ≡ some (flat (line_options pipe))
unfolding coordinator_flags
coordinator_flags-is_complete pipe complete = rw complete refl

module _ (std : Std) where
  pub render_pipeline_workers-cgn_infer :
      (cfg : EngineConfig std) (spec : ModelSpec) (path : Text) (pipe : PipelineTopologyConfig)
      → cfg.kind ≡ cgn_infer
      → spec.path ≡ some path
      → spec.pipeline ≡ some pipe
      → render_pipeline_workers std cfg spec
        ≡ worker_loop std cfg path pipe.activation_encoding pipe.workers
  unfolding render_pipeline_workers is_cgn_infer
  render_pipeline_workers-cgn_infer cfg spec path pipe kind at line = rw (kind, at, line) refl

  render_cgn_infer-flat :
      (cfg : EngineConfig std) (spec : ModelSpec) (path : Text) (pipe : PipelineTopologyConfig)
      → spec.path ≡ some path
      → spec.pipeline ≡ some pipe
      → is_complete pipe ≡ true
      → cfg.cgn_infer.extra_args ≡ []
      → spec.extra_args ≡ []
      → render_cgn_infer std cfg spec
        ≡ some (
            cfg.cgn_infer.binary_path
            ∷ bytes "serve"
            ∷ flat (serve_options std cfg (or_ctx spec.max_model_len cfg.cgn_infer.ctx) path pipe))
  unfolding render_cgn_infer
  render_cgn_infer-flat cfg spec path pipe at line complete no_args no_extra = simp (
    render_cgn_infer,
    at,
    line,
    coordinator_flags-is_complete pipe complete,
    no_args,
    no_extra,
    flat-line_options std (or_ctx spec.max_model_len cfg.cgn_infer.ctx) cfg.cgn_infer.threads pipe,
  )

  pub render_argv-cgn_infer :
      (cfg : EngineConfig std) (spec : ModelSpec) (role : NodeRoleCfg) (path : Text)
      (pipe : PipelineTopologyConfig)
      → cfg.kind ≡ cgn_infer
      → cfg.kv_offload ≡ no_offload
      → spec.path ≡ some path
      → spec.pipeline ≡ some pipe
      → is_complete pipe ≡ true
      → cfg.cgn_infer.extra_args ≡ []
      → spec.extra_args ≡ []
      → render_argv std cfg spec role []
        ≡ some (
            cfg.cgn_infer.binary_path
            ∷ bytes "serve"
            ∷ flat (serve_options std cfg (or_ctx spec.max_model_len cfg.cgn_infer.ctx) path pipe))
  unfolding render_argv render_kind pairs_with is_sglang_mp validate_kv_offload
  render_argv-cgn_infer cfg spec role path pipe kind offload at line complete no_args no_extra =
      simp (
        render_argv,
        kind,
        offload,
        render_cgn_infer-flat cfg spec path pipe at line complete no_args no_extra,
      )

  pub render_group_lem :
      (cfg : EngineConfig std) (spec : ModelSpec) (role : NodeRoleCfg) (workers : List (List Text))
      (argv : List Text)
      → render_pipeline_workers std cfg spec ≡ some workers
      → render_argv std cfg spec role [] ≡ some argv
      → render_group std cfg spec role [] ≡ some (workers ++ (argv ∷ []))
  unfolding render_group
  render_group_lem cfg spec role workers argv p q = simp (render_group, p, q)
