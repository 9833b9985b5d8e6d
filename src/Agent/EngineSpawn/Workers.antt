-- ===== src/Agent/EngineSpawn/Workers.antt =====
-- The arguments of cgn-infer and of the workers of a pipeline, rust/services/cgn-agent/src/engine/spawn.rs.
use cognitora_inference.Prelude.{
  Bool, true, false, ◌&&◌, ◌||◌, not, Option, none, some, List, [], ◌∷◌, ◌++◌, map, if◌then◌else◌,
  is_nonempty,
}
use cognitora_inference.Agent.EngineConfig.{
  Text, bytes, Std, EngineKind, cgn_infer, PipelineWorkerConfig, PipelineTopologyConfig, ModelSpec,
  EngineConfig,
}
use cognitora_inference.Agent.EngineSpawn.Flags.{or_name, or_ctx, numbered}

-- `endpoints.join(",")`.
unfoldable pub join : List Text → Text
join [] = []
join (e ∷ []) = e
join (e ∷ f ∷ es) = e ++ (b',' ∷ join (f ∷ es))

unfoldable pub endpoint_of : PipelineWorkerConfig → Text
endpoint_of w = or_name w.endpoint (bytes "http://" ++ w.listen)

unfoldable pub is_complete : PipelineTopologyConfig → Bool
is_complete pipe = is_nonempty pipe.coordinator_layers && is_nonempty pipe.workers

-- The arguments that make a process the coordinator.
unfoldable pub coordinator_flags : Option PipelineTopologyConfig → Option (List Text)
unfolding is_complete join endpoint_of
coordinator_flags none = some []
coordinator_flags (some pipe) =
    if not (is_complete pipe)
    then none
    else some (
        bytes "--role"
        ∷ bytes "coordinator"
        ∷ bytes "--layers"
        ∷ pipe.coordinator_layers
        ∷ bytes "--workers"
        ∷ join (map endpoint_of pipe.workers)
        ∷ bytes "--activation-encoding"
        ∷ pipe.activation_encoding
        ∷ [])

unfoldable pub is_cgn_infer : EngineKind → Bool
is_cgn_infer cgn_infer = true
is_cgn_infer _ = false

module _ (std : Std) where
  open std use {to_string}

  unfoldable pub render_cgn_infer : EngineConfig std → ModelSpec → Option (List Text)
  unfolding coordinator_flags
  render_cgn_infer cfg spec = elim spec.path [
    | none ↦ none
    | some path ↦ elim (coordinator_flags spec.pipeline) [
      | none ↦ none
      | some flags ↦ some (
          cfg.cgn_infer.binary_path
          ∷ bytes "serve"
          ∷ bytes "--model"
          ∷ path
          ∷ bytes "--host"
          ∷ cfg.cgn_infer.host
          ∷ bytes "--port"
          ∷ to_string cfg.cgn_infer.port
          ∷ (numbered std (bytes "--ctx") (or_ctx spec.max_model_len cfg.cgn_infer.ctx)
              ++ (numbered std (bytes "--threads") cfg.cgn_infer.threads
                  ++ (flags ++ (cfg.cgn_infer.extra_args ++ spec.extra_args)))))
    ]
  ]

  unfoldable pub worker_argv : EngineConfig std → Text → Text → PipelineWorkerConfig → List Text
  worker_argv cfg path encoding w =
      cfg.cgn_infer.binary_path
      ∷ bytes "worker"
      ∷ bytes "--model"
      ∷ path
      ∷ bytes "--layers"
      ∷ w.layers
      ∷ bytes "--listen"
      ∷ w.listen
      ∷ bytes "--activation-encoding"
      ∷ encoding
      ∷ numbered std (bytes "--threads") cfg.cgn_infer.threads

  -- The loop over the workers that are spawned here.
  unfoldable pub worker_loop :
      EngineConfig std → Text → Text → List PipelineWorkerConfig → Option (List (List Text))
  unfolding worker_argv
  worker_loop cfg path encoding [] = some []
  worker_loop cfg path encoding (w ∷ ws) =
      let rest = worker_loop cfg path encoding ws in
      if not w.spawn
      then rest
      else if not (is_nonempty w.listen) || not (is_nonempty w.layers)
      then none
      else (elim rest [ none ↦ none | some argvs ↦ some (worker_argv cfg path encoding w ∷ argvs) ])

  unfoldable pub render_pipeline_workers : EngineConfig std → ModelSpec → Option (List (List Text))
  unfolding is_cgn_infer worker_loop
  render_pipeline_workers cfg spec = elim spec.pipeline [
    | none ↦ some []
    | some pipe ↦ if not (is_cgn_infer cfg.kind) then none else (elim spec.path [
      | none ↦ none
      | some path ↦ worker_loop cfg path pipe.activation_encoding pipe.workers
    ])
  ]
