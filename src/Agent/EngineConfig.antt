-- ===== src/Agent/EngineConfig.antt =====
-- The configuration of an engine, rust/libraries/cgn-core/src/config.rs, and the model that it serves,
-- `ModelSpec` of rust/services/cgn-agent/src/engine/mod.rs. A text is its bytes.
--
-- `Std` stands for the standard library's text of numbers and trimming, for files, and for the values and
-- the text of serde_json.
use Prim.Native.Char.{code}
use Prim.Native.String.{String}
use cognitora_inference.Prelude.{ℕ, Bool, Option, List, [], ◌∷◌}

abbrev pub Text : Type 0
Text = List ℕ

-- The bytes of an ASCII literal.
abbrev pub bytes : String → Text
bytes String.[] = []
bytes (String.◌∷◌ c s) = code c ∷ bytes s

pub record Std : Type 1 where
  pub F32 : Type 0
  pub I32 : Type 0
  pub Value : Type 0
  pub to_string : ℕ → Text
  pub i32_to_string : I32 → Text
  -- `{:.3}`.
  pub three_digits : F32 → Text
  pub trim : Text → Text
  pub read_to_string : Text → Option Text
  pub string : Text → Value
  pub number : ℕ → Value
  pub boolean : Bool → Value
  pub array : List Value → Value
  pub object : List (Text × Value) → Value
  pub render : Value → Text

pub data EngineKind : Type 0 where
  vllm sglang llama_cpp mlx tensorrt_llm cgn_infer openai_compat : EngineKind

pub data KvOffload : Type 0 where
  no_offload nixl lmcache hicache kvbm cgn : KvOffload

pub data LmcacheMode : Type 0 where
  v1 mp : LmcacheMode

pub data LlamaCppMode : Type 0 where
  python_server binary : LlamaCppMode

pub data NodeRoleCfg : Type 0 where
  decode prefill both : NodeRoleCfg

pub record LmcacheEngineConfig : Type 0 where
  pub mode : LmcacheMode
  pub host : Text
  pub port : ℕ
  pub http_port : ℕ
  pub l1_size_gb : ℕ
  pub eviction_policy : Text
  pub chunk_size : ℕ
  pub spawn_server : Bool
  pub server_binary : Text
  pub server_extra_args : List Text
  pub config_file : Text
  pub connector_module_path : Text
  pub isolated_ipc : Bool
  pub server_urls : Text
  pub disable_prefix_caching : Bool
  pub disable_hybrid_kv_cache_manager : Bool

-- `VllmEngineConfig`. The field `program`, here and below, is the source's `binary`.
pub record VllmEngineConfig : Type 0 where
  pub program : Text
  pub extra_args : List Text

-- `MlxLmEngineConfig` and `TensorrtLlmEngineConfig`, which have the same fields.
pub record HostEngineConfig : Type 0 where
  pub program : Text
  pub host : Text
  pub port : ℕ
  pub extra_args : List Text

pub record CgnInferEngineConfig : Type 0 where
  pub binary_path : Text
  pub host : Text
  pub port : ℕ
  pub ctx : Option ℕ
  pub threads : Option ℕ
  pub extra_args : List Text

pub record PipelineWorkerConfig : Type 0 where
  pub listen : Text
  pub layers : Text
  pub endpoint : Option Text
  pub spawn : Bool

pub record PipelineTopologyConfig : Type 0 where
  pub coordinator_layers : Text
  pub workers : List PipelineWorkerConfig
  pub activation_encoding : Text

-- `path` is its displayed text.
pub record ModelSpec : Type 0 where
  pub name : Text
  pub tp : ℕ
  pub max_model_len : Option ℕ
  pub extra_args : List Text
  pub path : Option Text
  pub lora : List (Text × Text)
  pub pipeline : Option PipelineTopologyConfig

module _ (std : Std) where
  open std use {F32, I32}

  pub record SglangEngineConfig : Type 0 where
    pub program : Text
    pub host : Text
    pub port : ℕ
    pub context_length : ℕ
    pub mem_fraction_static : F32
    pub extra_args : List Text

  pub record LlamaCppEngineConfig : Type 0 where
    pub program : Text
    pub mode : LlamaCppMode
    pub host : Text
    pub port : ℕ
    pub n_ctx : ℕ
    pub n_threads : ℕ
    pub n_gpu_layers : I32
    pub extra_args : List Text

  pub record EngineConfig : Type 0 where
    pub kind : EngineKind
    pub kv_offload : KvOffload
    pub vllm : VllmEngineConfig
    pub sglang : SglangEngineConfig
    pub llama_cpp : LlamaCppEngineConfig
    pub mlx_lm : HostEngineConfig
    pub tensorrt_llm : HostEngineConfig
    pub cgn_infer : CgnInferEngineConfig
    pub lmcache : LmcacheEngineConfig
