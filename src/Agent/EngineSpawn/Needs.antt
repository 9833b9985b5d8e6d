-- ===== src/Agent/EngineSpawn/Needs.antt =====
-- What the engines of rust/services/cgn-agent/src/engine/spawn.rs need; the pairings with a store are
-- those that its error message lists.
use cognitora_inference.Prelude.{
  ℕ, Bool, true, false, ◌&&◌, ◌||◌, not, Option, none, some, List, [], ◌∷◌, is_nonempty, is_some,
  any, ◌==◌,
}
use cognitora_inference.Agent.EngineConfig.{
  Text, Std, EngineKind, vllm, sglang, llama_cpp, cgn_infer, openai_compat, KvOffload, no_offload,
  nixl, lmcache, hicache, kvbm, cgn, PipelineWorkerConfig, PipelineTopologyConfig, ModelSpec,
  EngineConfig,
}
use cognitora_inference.Agent.EngineSpawn.{is_sglang_mp}
use cognitora_inference.Agent.EngineSpawn.Workers.{is_cgn_infer}

-- The stores of each engine that the error message lists.
abbrev pub offered : EngineKind → List KvOffload
offered vllm = no_offload ∷ nixl ∷ lmcache ∷ kvbm ∷ cgn ∷ []
offered sglang = no_offload ∷ nixl ∷ hicache ∷ lmcache ∷ []
offered _ = no_offload ∷ []

abbrev index : KvOffload → ℕ
index no_offload = 0
index nixl = 1
index lmcache = 2
index hicache = 3
index kvbm = 4
index cgn = 5

abbrev pub offers : EngineKind → KvOffload → Bool
offers kind offload = any (λ o. index o == index offload) (offered kind)

-- What the coordinator and the workers of a pipeline need.
abbrev pub is_line : Option PipelineTopologyConfig → Bool
is_line none = true
is_line (some pipe) = is_nonempty pipe.coordinator_layers && is_nonempty pipe.workers

abbrev pub are_launchable : List PipelineWorkerConfig → Bool
are_launchable [] = true
are_launchable (w ∷ ws) =
    (not w.spawn || (is_nonempty w.listen && is_nonempty w.layers)) && are_launchable ws

abbrev pub has_workers : EngineKind → ModelSpec → Bool
has_workers kind spec = elim spec.pipeline [
  | none ↦ true
  | some pipe ↦ is_cgn_infer kind && (is_some spec.path && are_launchable pipe.workers)
]

-- What an engine needs to be started, where the store is one that is offered.
module _ (std : Std) where
  open std use {trim, read_to_string}

  -- The store's file, where it has one, is there and says something.
  abbrev pub is_readable : KvOffload → Text → Bool
  is_readable lmcache file =
      not (is_nonempty file)
      || (elim (read_to_string file) [ none ↦ false | some json ↦ is_nonempty (trim json) ])
  is_readable _ file = true

  abbrev pub has_needs : EngineKind → EngineConfig std → ModelSpec → Bool
  has_needs vllm cfg spec = is_readable cfg.kv_offload cfg.lmcache.config_file
  has_needs llama_cpp cfg spec = is_some spec.path
  has_needs cgn_infer cfg spec = is_some spec.path && is_line spec.pipeline
  has_needs openai_compat cfg spec = false
  has_needs _ cfg spec = true

  abbrev pub startable : EngineConfig std → ModelSpec → List Text → Bool
  startable cfg spec legacy =
      offers cfg.kind cfg.kv_offload
      && (not (is_sglang_mp cfg.kind cfg.kv_offload cfg.lmcache.mode)
          && (is_nonempty legacy || has_needs cfg.kind cfg spec))
