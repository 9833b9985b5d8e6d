-- ===== src/Agent/EngineSpawn/Lmcache.antt =====
-- The LMCache server and the environment of an engine, rust/services/cgn-agent/src/engine/spawn.rs.
use cognitora_inference.Prelude.{
  Bool, true, false, ◌&&◌, not, List, [], ◌∷◌, ◌++◌, drop, if◌then◌else◌, is_nonempty,
}
use cognitora_inference.Agent.EngineStream.{starts_with}
use cognitora_inference.Agent.EngineConfig.{
  Text, bytes, Std, EngineKind, vllm, sglang, KvOffload, lmcache, LmcacheMode, mp,
  LmcacheEngineConfig, EngineConfig,
}
use cognitora_inference.Agent.EngineSpawn.Flags.{is_lmcache}

-- The text before a separator.
unfoldable pub until : Text → Text → Text
until sep [] = []
until sep (c ∷ s) = let rest = until sep s in if starts_with sep (c ∷ s) then [] else c ∷ rest

-- The tests of `should_spawn_lmcache_server` and `engine_child_env` on the kinds.
unfoldable pub is_vllm_mp : EngineKind → KvOffload → LmcacheMode → Bool
is_vllm_mp vllm lmcache mp = true
is_vllm_mp _ _ _ = false

unfoldable pub is_sglang : EngineKind → Bool
is_sglang sglang = true
is_sglang _ = false

unfoldable pub lmcache_host : Text → Text
unfolding until
lmcache_host host =
    if starts_with (bytes "tcp://") host
    then until (bytes "://") (drop 6 host)
    else if starts_with (bytes "grpc://") host
    then until (bytes "://") (drop 7 host)
    else host

module _ (std : Std) where
  open std use {to_string}

  unfoldable pub lmcache_server_argv : LmcacheEngineConfig → List Text
  unfolding lmcache_host
  lmcache_server_argv cfg =
      cfg.server_binary
      ∷ bytes "server"
      ∷ bytes "--host"
      ∷ lmcache_host cfg.host
      ∷ bytes "--port"
      ∷ to_string cfg.port
      ∷ bytes "--http-port"
      ∷ to_string cfg.http_port
      ∷ bytes "--l1-size-gb"
      ∷ to_string cfg.l1_size_gb
      ∷ bytes "--eviction-policy"
      ∷ cfg.eviction_policy
      ∷ bytes "--chunk-size"
      ∷ to_string cfg.chunk_size
      ∷ ((if cfg.isolated_ipc then bytes "--isolated-ipc" ∷ [] else []) ++ cfg.server_extra_args)

  unfoldable pub should_spawn_lmcache_server : EngineConfig std → Bool
  unfolding is_vllm_mp
  should_spawn_lmcache_server cfg =
      is_vllm_mp cfg.kind cfg.kv_offload cfg.lmcache.mode && cfg.lmcache.spawn_server

  unfoldable pub engine_child_env : EngineConfig std → List (Text × Text)
  unfolding is_lmcache is_sglang
  engine_child_env cfg =
      if not (is_lmcache cfg.kv_offload)
      then []
      else (bytes "PYTHONHASHSEED", bytes "0")
        ∷ (if is_sglang cfg.kind && is_nonempty cfg.lmcache.config_file
            then (bytes "LMCACHE_CONFIG_FILE", cfg.lmcache.config_file) ∷ []
            else [])
