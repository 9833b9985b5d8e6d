-- ===== src/Agent/EngineSpawn/Connector.antt =====
-- The value of vLLM's `--kv-transfer-config`, rust/services/cgn-agent/src/engine/spawn.rs.
use cognitora_inference.Prelude.{
  Bool, true, false, Option, none, some, [], ◌∷◌, ◌++◌, if◌then◌else◌, is_nonempty,
}
use cognitora_inference.Agent.EngineConfig.{
  Text, bytes, Std, KvOffload, no_offload, nixl, lmcache, hicache, kvbm, cgn, LmcacheMode, v1, mp,
  NodeRoleCfg, decode, prefill, both, LmcacheEngineConfig, EngineConfig,
}

abbrev nixl_both : Text
nixl_both = bytes "{\"kv_connector\":\"NixlConnector\",\"kv_role\":\"kv_both\"}"

abbrev lmcache_v1 : Text
lmcache_v1 = bytes "{\"kv_connector\":\"LMCacheConnectorV1\",\"kv_role\":\"kv_both\"}"

abbrev kvbm_json : Text → Text
kvbm_json role =
    bytes "{\"kv_connector\":\"DynamoConnector\",\"kv_role\":\""
    ++ role
    ++ bytes "\",\"kv_connector_module_path\":\"kvbm.vllm_integration.connector\"}"

abbrev cgn_both : Text
cgn_both =
    bytes
      "{\"kv_connector\":\"CognitoraConnector\",\"kv_role\":\"kv_both\",\"kv_connector_module_path\":\"cgn_kv_connector.connector\"}"

abbrev cgn_prefill : Text
cgn_prefill =
    bytes
      "{\"kv_connector\":\"PdConnector\",\"kv_role\":\"kv_both\",\"kv_connector_extra_config\":{\"connectors\":["
    ++ cgn_both
    ++ (b',' ∷ (nixl_both ++ bytes "]}}"))

module _ (std : Std) where
  open std use {Value, string, number, boolean, array, object, render, trim, read_to_string}

  abbrev connector : Text → Value
  connector name =
      object
        ((bytes "kv_connector", string name) ∷ (bytes "kv_role", string (bytes "kv_both")) ∷ [])

  unfoldable pub mp_connector_value : LmcacheEngineConfig → Value
  mp_connector_value cfg =
      let servers =
        if is_nonempty cfg.server_urls
        then (bytes "lmcache.mp.server_urls", string cfg.server_urls) ∷ []
        else (bytes "lmcache.mp.host", string cfg.host)
          ∷ (bytes "lmcache.mp.port", number cfg.port)
          ∷ [] in
      let ipc =
        if cfg.isolated_ipc then (bytes "lmcache.mp.isolated_ipc", boolean true) ∷ [] else [] in
      let path =
        if is_nonempty cfg.connector_module_path
        then (bytes "kv_connector_module_path", string cfg.connector_module_path) ∷ []
        else [] in
      object (
        (bytes "kv_connector", string (bytes "LMCacheMPConnector"))
        ∷ (bytes "kv_role", string (bytes "kv_both"))
        ∷ (path ++ ((bytes "kv_connector_extra_config", object (servers ++ ipc)) ∷ [])))

  unfoldable pub lmcache_value : LmcacheEngineConfig → LmcacheMode → Value
  unfolding mp_connector_value
  lmcache_value cfg v1 = connector (bytes "LMCacheConnectorV1")
  lmcache_value cfg mp = mp_connector_value cfg

  -- `mp_transfer_config` on the second clause.
  unfoldable pub lmcache_both : LmcacheEngineConfig → LmcacheMode → Text
  unfolding mp_connector_value
  lmcache_both cfg v1 = lmcache_v1
  lmcache_both cfg mp = render (mp_connector_value cfg)

  unfoldable pub lmcache_prefill : LmcacheEngineConfig → Text
  unfolding lmcache_value
  lmcache_prefill cfg = render (
      object (
        (bytes "kv_connector", string (bytes "PdConnector"))
        ∷ (bytes "kv_role", string (bytes "kv_both"))
        ∷ (
          bytes "kv_connector_extra_config",
          object (
              (
                bytes "connectors",
                array (lmcache_value cfg cfg.mode ∷ connector (bytes "NixlConnector") ∷ []),
              )
              ∷ []),
        )
        ∷ []))

  -- The `match` over the role and the offload.
  unfoldable pub connector_json : NodeRoleCfg → KvOffload → LmcacheEngineConfig → Option Text
  unfolding lmcache_both lmcache_prefill
  connector_json role no_offload cfg = none
  connector_json role hicache cfg = none
  connector_json both nixl cfg = some nixl_both
  connector_json prefill nixl cfg =
      some (bytes "{\"kv_connector\":\"NixlConnector\",\"kv_role\":\"kv_producer\"}")
  connector_json decode nixl cfg =
      some (bytes "{\"kv_connector\":\"NixlConnector\",\"kv_role\":\"kv_consumer\"}")
  connector_json both lmcache cfg = some (lmcache_both cfg cfg.mode)
  connector_json prefill lmcache cfg = some (lmcache_prefill cfg)
  connector_json decode lmcache cfg = some nixl_both
  connector_json both kvbm cfg = some (kvbm_json (bytes "kv_both"))
  connector_json prefill kvbm cfg = some (kvbm_json (bytes "kv_producer"))
  connector_json decode kvbm cfg = some (kvbm_json (bytes "kv_consumer"))
  connector_json both cgn cfg = some cgn_both
  connector_json prefill cgn cfg = some cgn_prefill
  connector_json decode cgn cfg = some nixl_both

  unfoldable pub reads_file : KvOffload → Text → Bool
  reads_file lmcache file = is_nonempty file
  reads_file _ file = false

  -- The JSON of a file, which must be there and not be blank.
  unfoldable pub from_file : Text → Option (Option Text)
  from_file path = elim (read_to_string path) [
    | none ↦ none
    | some json ↦ if is_nonempty (trim json) then some (some (trim json)) else none
  ]

  unfoldable pub vllm_kv_transfer_config : NodeRoleCfg → EngineConfig std → Option (Option Text)
  unfolding connector_json reads_file from_file
  vllm_kv_transfer_config role cfg =
      if reads_file cfg.kv_offload cfg.lmcache.config_file
      then from_file cfg.lmcache.config_file
      else some (connector_json role cfg.kv_offload cfg.lmcache)
