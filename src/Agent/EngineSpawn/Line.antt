-- ===== src/Agent/EngineSpawn/Line.antt =====
-- A pipeline of the configuration comes up: rust/services/cgn-agent/src/engine/spawn.rs with
-- rust/services/cgn-infer/src/main.rs and rust/services/cgn-infer/src/pipeline/mod.rs.
use cognitora_inference.Prelude.{
  ℕ, ◌≡◌, ◌<◌, ◌^◌, refl, ap, ◌∙◌, true, false, Option, none, some, List, [], ◌∷◌, ◌++◌, map, any,
  All, arith, is_nonempty, ◌==◌,
}
use cognitora_inference.Agent.EngineConfig.{
  Text, bytes, Std, cgn_infer, no_offload, NodeRoleCfg, PipelineWorkerConfig,
  PipelineTopologyConfig, ModelSpec, EngineConfig,
}
use cognitora_inference.Agent.EngineSpawn.Commas.{pieces-join}
use cognitora_inference.Agent.EngineSpawn.Workers.{join, endpoint_of, is_complete}
use cognitora_inference.Agent.EngineSpawn.Flags.{or_ctx}
use cognitora_inference.Agent.EngineSpawn.{render_group}
use cognitora_inference.Agent.EngineSpawn.Topology.{
  flat, option_of, dashless, Clap, IsClap, maybe, serve_options, option_of-serve_options,
}
use cognitora_inference.Agent.EngineSpawn.Coordinate.{
  render_argv-cgn_infer, render_pipeline_workers-cgn_infer, render_group_lem,
}
use cognitora_inference.Infer.Llama.{Result, ok, LayerRange, validate_coverage, coverage_loop}
use cognitora_inference.Infer.Pipeline.{Encoding}
use cognitora_inference.Infer.Coordinator.{connect, worker_ranges}
use cognitora_inference.Infer.Cli.{
  serve, encoding_of, numbers_read, Words, display, pipeline_of, coordinator, TlsArgs, resolve,
  tls_args, paths_of,
}
use cognitora_inference.Infer.Cli.Ranges.{IsDecimal, parse-display, is_nonempty-display}
use cognitora_inference.Agent.EngineSpawn.Startup.{
  SameNumbers, IsSmall, port_of-to_string, numbers_read-options, serve-coordinator,
}
use cognitora_inference.Agent.EngineSpawn.Serves.{info_of, Serves, worker_loop-Serves}

abbrev pub HasNoComma : Text → Type 0
HasNoComma v = any (λ c. c == b',') v ≡ false

is_nonempty-map :
    (ws : List PipelineWorkerConfig) → is_nonempty (map endpoint_of ws) ≡ is_nonempty ws
is_nonempty-map [] = refl
is_nonempty-map (w ∷ ws) = refl

module _ (std : Std) (words : Words) (clap : Clap) where
  open clap use {value_of, values_of}

  values_of-join :
      (flag : Text) (values argv : List Text)
      → IsClap clap
      → is_nonempty values ≡ true
      → value_of flag argv ≡ some (join values)
      → All HasNoComma values
      → values_of flag argv ≡ values
  values_of-join flag [] argv isclap h e a = cc h
  values_of-join flag (v ∷ values) argv isclap h e a =
      isclap.splits flag (join (v ∷ values)) argv e ∙ pieces-join v values a

  validate_coverage-start :
      (n : ℕ) (head : LayerRange) (ranges : List LayerRange)
      → validate_coverage n (head ∷ ranges) ≡ ok tt
      → (head.start == 0) ≡ true
  unfolding validate_coverage coverage_loop
  validate_coverage-start n head ranges covers = ground (arith, covers)

  connect-worker_ranges :
      (n : ℕ) (head : LayerRange) (ranges : List LayerRange) (infos : List (Result (ℕ × ℕ)))
      → validate_coverage n (head ∷ ranges) ≡ ok tt
      → worker_ranges infos ≡ ok ranges
      → connect n head infos ≡ ok ranges
  unfolding connect
  connect-worker_ranges n head ranges infos covers found =
      rw (validate_coverage-start n head ranges covers, found, covers) refl

  resolve-tls_args :
      (read : Text → Option Text)
      → read (bytes "--tls-ca") ≡ none
      → read (bytes "--tls-cert") ≡ none
      → read (bytes "--tls-key") ≡ none
      → resolve (tls_args read) ≡ ok none
  unfolding resolve tls_args paths_of
  resolve-tls_args read ca cert key = rw (ca, cert, key) refl

  pipeline_of-coordinator :
      (head : LayerRange) (workers read : List Text) (layers : Option Text) (encoding : Encoding)
      (tls : TlsArgs)
      → IsDecimal words
      → head.start < head.end
      → head.end < 2 ^ 64
      → is_nonempty workers ≡ true
      → layers ≡ some (display words head)
      → read ≡ workers
      → resolve tls ≡ ok none
      → pipeline_of words coordinator layers read encoding tls
        ≡ ok (some (record { layers = head; workers = workers; encoding = encoding; tls = none }))
  unfolding pipeline_of
  pipeline_of-coordinator head workers read layers encoding tls decimal lt end some_worker at same
        plain =
      rw (at, same, some_worker, parse-display words head decimal lt end, plain) refl

  -- A model has a pipeline for cgn-infer, without offload and without further arguments. The layers
  -- of the coordinator and of the workers, all spawned here, are displays of ranges with a layer
  -- that cover the model in order, no endpoint has a comma, no value looks like a flag, the encoding
  -- is one that cgn-infer knows, and its own address and those of the workers are socket addresses.
  -- Then the group is the workers followed by a process that reads its arguments as those of the
  -- coordinator of the first range, with the endpoints in their order, the encoding and no TLS; and
  -- when it asks the workers for the ranges that they read, it accepts them. Both programs write
  -- numbers alike, numbers of 64 bits are read as they are written, and clap reads the options of a
  -- command as they stand.
  pub connect-render_group :
      (cfg : EngineConfig std) (spec : ModelSpec) (role : NodeRoleCfg) (path : Text)
      (pipe : PipelineTopologyConfig) (encoding : Encoding) (n : ℕ) (head : LayerRange)
      (ranges : List LayerRange)
      → cfg.kind ≡ cgn_infer
      → cfg.kv_offload ≡ no_offload
      → cfg.cgn_infer.extra_args ≡ []
      → spec.extra_args ≡ []
      → spec.path ≡ some path
      → spec.pipeline ≡ some pipe
      → pipe.coordinator_layers ≡ display words head
      → head.start < head.end
      → head.end < 2 ^ 64
      → cfg.cgn_infer.port < 65536
      → IsSmall (or_ctx spec.max_model_len cfg.cgn_infer.ctx)
      → IsSmall cfg.cgn_infer.threads
      → encoding_of words (some pipe.activation_encoding) ≡ some encoding
      → words.is_socket_addr (cfg.cgn_infer.host ++ (b':' ∷ words.to_string cfg.cgn_infer.port))
        ≡ true
      → is_nonempty pipe.workers ≡ true
      → Serves std words clap
          (maybe std (bytes "--threads") cfg.cgn_infer.threads)
          path
          pipe.activation_encoding
          pipe.workers
          ranges
      → All HasNoComma (map endpoint_of pipe.workers)
      → dashless (serve_options std cfg (or_ctx spec.max_model_len cfg.cgn_infer.ctx) path pipe)
        ≡ true
      → validate_coverage n (head ∷ ranges) ≡ ok tt
      → IsClap clap
      → IsDecimal words
      → SameNumbers std words
      → (workers : List (List Text)) × (argv : List Text) × (render_group std cfg spec role []
          ≡ some (workers ++ (argv ∷ [])))
        × (serve words (λ flag. value_of flag argv) (values_of (bytes "--workers") argv)
            ≡ ok (
                some (record {
                  layers = head;
                  workers = map endpoint_of pipe.workers;
                  encoding = encoding;
                  tls = none;
                })))
        × (connect n head (map (info_of std words clap) workers) ≡ ok ranges)
  unfolding is_complete
  connect-render_group cfg spec role path pipe encoding n head ranges kind offload no_args no_extra
        at line layers lt end port ctx threads encodes addr some_worker serves commas plain covers
        isclap decimal same =
      let options = serve_options std cfg (or_ctx spec.max_model_len cfg.cgn_infer.ctx) path pipe in
      let argv = cfg.cgn_infer.binary_path ∷ bytes "serve" ∷ flat options in
      let port_text = std.to_string cfg.cgn_infer.port in
      let (workers, loop, infos) =
        worker_loop-Serves std words clap cfg path pipe.activation_encoding encoding encodes isclap
          decimal same threads pipe.workers ranges serves in
      let complete : is_complete pipe ≡ true =
        rw (layers, is_nonempty-display words head, some_worker) refl in
      let (
        known, once, its_role, its_layers, its_workers, its_encoding, its_port, its_host, ca, cert,
        key,
      ) =
        option_of-serve_options std (or_ctx spec.max_model_len cfg.cgn_infer.ctx)
          cfg.cgn_infer.threads path cfg.cgn_infer.host port_text pipe in
      let reads : (flag : Text) → value_of flag argv ≡ option_of flag options = λ flag.
        isclap.reads cfg.cgn_infer.binary_path (bytes "serve") flag options known once plain in
      let several = is_nonempty-map pipe.workers ∙ some_worker in
      let numbers : numbers_read words (λ flag. value_of flag argv) ≡ true =
        ap (numbers_read words) (λ i flag. reads flag i)
        ∙ numbers_read-options std words (or_ctx spec.max_model_len cfg.cgn_infer.ctx)
            cfg.cgn_infer.threads path cfg.cgn_infer.host port_text pipe same decimal ctx threads in
      let coordinates =
        pipeline_of-coordinator head (map endpoint_of pipe.workers)
          (values_of (bytes "--workers") argv) (value_of (bytes "--layers") argv) encoding
          (tls_args (λ flag. value_of flag argv)) decimal lt end several
          (reads (bytes "--layers") ∙ its_layers ∙ ap some layers)
          (values_of-join (bytes "--workers") (map endpoint_of pipe.workers) argv isclap several
            (reads (bytes "--workers") ∙ its_workers) commas)
          (resolve-tls_args (λ flag. value_of flag argv) (reads (bytes "--tls-ca") ∙ ca)
            (reads (bytes "--tls-cert") ∙ cert) (reads (bytes "--tls-key") ∙ key)) in
      (
        workers,
        argv,
        render_group_lem std cfg spec role workers argv
            (render_pipeline_workers-cgn_infer std cfg spec path pipe kind at line ∙ loop)
            (render_argv-cgn_infer std cfg spec role path pipe kind offload at line complete no_args
              no_extra),
        serve-coordinator std words (λ flag. value_of flag argv)
            (values_of (bytes "--workers") argv) cfg.cgn_infer.host pipe.activation_encoding
            port_text cfg.cgn_infer.port encoding _ (reads (bytes "--role") ∙ its_role)
            (reads (bytes "--activation-encoding") ∙ its_encoding) encodes
            (reads (bytes "--port") ∙ its_port)
            (port_of-to_string std words cfg.cgn_infer.port same decimal port)
            (reads (bytes "--host") ∙ its_host) numbers addr coordinates,
        connect-worker_ranges n head ranges (map (info_of std words clap) workers) covers infos,
      )
