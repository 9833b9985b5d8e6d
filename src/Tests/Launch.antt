-- ===== src/Tests/Launch.antt =====
-- The processes of engines at concrete inputs.
use cognitora_inference.Prelude.{
  ℕ, ◌+◌, ◌-◌, ◌≡◌, ◌&&◌, refl, ap, true, false, Option, none, some, List, [], ◌∷◌, ◌++◌, map,
  arith, if◌then◌else◌, is_some, is_nonempty,
}
use cognitora_inference.Agent.EngineStream.{equals, starts_with}
use cognitora_inference.Agent.EngineConfig.{
  Text, bytes, Std, cgn_infer, no_offload, python_server, v1, both, PipelineWorkerConfig,
  PipelineTopologyConfig, ModelSpec, EngineConfig, HostEngineConfig,
}
use cognitora_inference.Agent.EngineSpawn.Workers.{join, endpoint_of}
use cognitora_inference.Agent.EngineSpawn.Flags.{or_name}
use cognitora_inference.Agent.EngineSpawn.{render_group}
use cognitora_inference.Agent.EngineSpawn.Topology.{Options, flat, option_of, Clap, IsClap}
use cognitora_inference.Agent.EngineSpawn.Commas.{pieces}
use cognitora_inference.Agent.EngineSpawn.Line.{connect-render_group}
use cognitora_inference.Agent.EngineSpawn.Serves.{info_of}
use cognitora_inference.Agent.EngineSpawn.Accepts.{render_group-is_some}
use cognitora_inference.Agent.EngineSpawn.Needs.{has_workers, startable}
use cognitora_inference.Infer.Llama.{ok, LayerRange, validate_coverage, coverage_loop}
use cognitora_inference.Infer.Pipeline.{Encoding}
use cognitora_inference.Infer.Coordinator.{connect}
use cognitora_inference.Infer.Cli.{Words, display, serve, encoding_of}
use cognitora_inference.Infer.Cli.Ranges.{IsDecimal}

-- A number is one character, far from the colon and the dash.
abbrev letter : ℕ → Text
letter n = (n + 100) ∷ []

abbrev of_letter : Text → Option ℕ
of_letter [] = none
of_letter (c ∷ s) = some (c - 100)

abbrev words : Words
words = record {
  trim = λ s. s;
  parse_usize = of_letter;
  to_string = letter;
  is_socket_addr = λ s. is_nonempty s;
}

words-IsDecimal : IsDecimal words
words-IsDecimal = record {
  read_plain = λ n small. ground arith;
  read_back = λ n small. ground arith;
  no_colon = λ n. ground arith;
}

abbrev std : Std
std = record {
  F32 = Unit {0};
  I32 = ℕ;
  Value = Unit {0};
  to_string = letter;
  i32_to_string = letter;
  three_digits = λ x. [];
  trim = λ s. s;
  read_to_string = λ path. none;
  string = λ s. tt;
  number = λ n. tt;
  boolean = λ b. tt;
  array = λ vs. tt;
  object = λ vs. tt;
  render = λ v. [];
}

-- Options with values, after the program and the command.
abbrev scan : Text → List Text → Option Text
scan flag [] = none
scan flag (name ∷ []) = none
scan flag (name ∷ value ∷ argv) = if equals name flag then some value else scan flag argv

abbrev value_of : Text → List Text → Option Text
value_of flag [] = none
value_of flag (program ∷ []) = none
value_of flag (program ∷ command ∷ argv) = scan flag argv

abbrev pieces_of : Option Text → List Text
pieces_of none = []
pieces_of (some s) = pieces s

abbrev clap : Clap
clap = record { value_of = value_of; values_of = λ flag argv. pieces_of (value_of flag argv) }

scan-flat : (flag : Text) (options : Options) → scan flag (flat options) ≡ option_of flag options
scan-flat flag [] = refl
scan-flat flag ((name, value) ∷ options) =
    ap (λ o. if equals name flag then some value else o) (scan-flat flag options)

clap-IsClap : IsClap clap
clap-IsClap = record {
  reads = λ program command flag options known once plain. scan-flat flag options;
  splits = λ flag value argv e. ap pieces_of e;
}

abbrev range : ℕ → ℕ → LayerRange
range a b = record { start = a; end = b }

abbrev host : HostEngineConfig
host = record { program = []; host = []; port = 0; extra_args = [] }

abbrev config : EngineConfig std
config = record {
  kind = cgn_infer;
  kv_offload = no_offload;
  vllm = record { program = []; extra_args = [] };
  sglang = record {
    program = [];
    host = [];
    port = 0;
    context_length = 0;
    mem_fraction_static = tt;
    extra_args = [];
  };
  llama_cpp = record {
    program = [];
    mode = python_server;
    host = [];
    port = 0;
    n_ctx = 0;
    n_threads = 0;
    n_gpu_layers = 0;
    extra_args = [];
  };
  mlx_lm = host;
  tensorrt_llm = host;
  cgn_infer = record {
    binary_path = bytes "cgn-infer";
    host = bytes "0.0.0.0";
    port = 8;
    ctx = none;
    threads = some 3;
    extra_args = [];
  };
  lmcache = record {
    mode = v1;
    host = [];
    port = 0;
    http_port = 0;
    l1_size_gb = 0;
    eviction_policy = [];
    chunk_size = 0;
    spawn_server = false;
    server_binary = [];
    server_extra_args = [];
    config_file = [];
    connector_module_path = [];
    isolated_ipc = false;
    server_urls = [];
    disable_prefix_caching = false;
    disable_hybrid_kv_cache_manager = false;
  };
}

-- Two workers, one of which is reached at another name.
abbrev worker : LayerRange → Option Text → PipelineWorkerConfig
worker r endpoint = record {
  listen = bytes "127.0.0.1:9";
  layers = display words r;
  endpoint = endpoint;
  spawn = true;
}

abbrev line : PipelineTopologyConfig
line = record {
  coordinator_layers = display words (range 0 2);
  workers = worker (range 2 4) none ∷ worker (range 4 5) (some (bytes "https://b:9")) ∷ [];
  activation_encoding = bytes "f16";
}

abbrev model : ModelSpec
model = record {
  name = bytes "m";
  tp = 1;
  max_model_len = none;
  extra_args = [];
  path = some (bytes "m.gguf");
  lora = [];
  pipeline = some line;
}

connect-render_group_example :
    (workers : List (List Text)) × (argv : List Text) × (render_group std config model both []
      ≡ some (workers ++ (argv ∷ [])))
    × (serve words (λ flag. value_of flag argv) (pieces_of (value_of (bytes "--workers") argv))
        ≡ ok (
            some (record {
              layers = range 0 2;
              workers = bytes "http://127.0.0.1:9" ∷ bytes "https://b:9" ∷ [];
              encoding = Encoding.f16;
              tls = none;
            })))
    × (connect 5 (range 0 2) (map (info_of std words clap) workers)
        ≡ ok (range 2 4 ∷ range 4 5 ∷ []))
unfolding join endpoint_of display starts_with or_name validate_coverage coverage_loop encoding_of
    equals
connect-render_group_example =
    connect-render_group std words clap config model both (bytes "m.gguf") line Encoding.f16 5
      (range 0 2) (range 2 4 ∷ range 4 5 ∷ []) refl refl refl refl refl refl refl (omega arith)
      (omega arith) (omega arith) tt (omega arith) refl refl refl
      (
        refl,
        refl,
        refl,
        refl,
        omega arith,
        omega arith,
        refl,
        (refl, refl, refl, refl, omega arith, omega arith, refl, tt),
      )
      (refl, (refl, tt)) refl refl clap-IsClap words-IsDecimal (λ n. refl)

render_group-is_some_example :
    is_some (render_group std config model both [])
    ≡ (has_workers cgn_infer model && startable std config model [])
render_group-is_some_example = render_group-is_some std config model both []
