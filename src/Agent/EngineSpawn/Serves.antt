-- ===== src/Agent/EngineSpawn/Serves.antt =====
-- The workers of a pipeline say the ranges that the configuration gives them:
-- rust/services/cgn-agent/src/engine/spawn.rs with rust/services/cgn-infer/src/pipeline/mod.rs.
use cognitora_inference.Prelude.{
  ℕ, ◌≡◌, ◌<◌, ◌^◌, refl, ap, ◌∙◌, true, some, List, [], ◌∷◌, map, is_nonempty,
}
use cognitora_inference.Agent.EngineConfig.{Text, bytes, Std, PipelineWorkerConfig, EngineConfig}
use cognitora_inference.Agent.EngineSpawn.Workers.{worker_argv, worker_loop}
use cognitora_inference.Agent.EngineSpawn.Topology.{
  Options, dashless, Clap, IsClap, worker_options, option_of, maybe, worker_argv-flat,
  distinct-worker_options,
}
use cognitora_inference.Agent.EngineSpawn.Startup.{
  SameNumbers, IsSmall, worker-range, option_of-worker_options,
}
use cognitora_inference.Infer.Pipeline.{Encoding}
use cognitora_inference.Infer.Llama.{Result, ok, ◌>>=◌, LayerRange}
use cognitora_inference.Infer.Coordinator.{worker_ranges}
use cognitora_inference.Infer.Cli.{Words, display, worker, encoding_of}
use cognitora_inference.Infer.Cli.Ranges.{IsDecimal, parse-display, is_nonempty-display, new_lt}

module _ (std : Std) (words : Words) (clap : Clap) where
  open clap use {value_of, values_of}

  -- The range that a worker binds, as it reports it.
  abbrev pub info_of : List Text → Result (ℕ × ℕ)
  info_of argv = worker words (λ flag. value_of flag argv) >>= λ r. ok (r.start, r.end)

  -- The workers are spawned here, in the order of their ranges, which their texts display.
  abbrev pub Serves : Options → Text → Text → List PipelineWorkerConfig → List LayerRange → Type 0
  Serves threads path encoding [] [] = Unit {0}
  Serves threads path encoding [] (r ∷ rs) = ⊥
  Serves threads path encoding (w ∷ ws) [] = ⊥
  Serves threads path encoding (w ∷ ws) (r ∷ rs) =
      (w.spawn ≡ true)
      × (is_nonempty w.listen ≡ true)
      × (words.is_socket_addr w.listen ≡ true)
      × (w.layers ≡ display words r)
      × (r.start < r.end)
      × (r.end < 2 ^ 64)
      × (dashless (worker_options threads path encoding w) ≡ true)
      × Serves threads path encoding ws rs

  module _ (cfg : EngineConfig std) (path encoding_text : Text) (encoding : Encoding)
      (known_encoding : encoding_of words (some encoding_text) ≡ some encoding)
      (isclap : IsClap clap) (decimal : IsDecimal words) (same : SameNumbers std words)
      (small : IsSmall cfg.cgn_infer.threads) where
    info_of-worker_argv :
        (w : PipelineWorkerConfig) (r : LayerRange)
        → words.is_socket_addr w.listen ≡ true
        → w.layers ≡ display words r
        → r.start < r.end
        → r.end < 2 ^ 64
        → dashless (
            worker_options
              (maybe std (bytes "--threads") cfg.cgn_infer.threads)
              path
              encoding_text
              w)
          ≡ true
        → info_of (worker_argv std cfg path encoding_text w) ≡ ok (r.start, r.end)
    info_of-worker_argv w r addr layers lt end plain =
        let threads = cfg.cgn_infer.threads in
        let options = worker_options (maybe std (bytes "--threads") threads) path encoding_text w in
        let (known, once) = distinct-worker_options std threads path encoding_text w in
        let (l, e, t, at, tls) =
          option_of-worker_options std words threads path encoding_text w same decimal small in
        let binds : worker words (λ flag. option_of flag options) ≡ ok r =
          worker-range std words (λ flag. option_of flag options) r w.listen encoding_text encoding
            (l ∙ ap some layers) e known_encoding t at addr (parse-display words r decimal lt end)
            tls in
        let reads : (flag : Text)
            → value_of flag (worker_argv std cfg path encoding_text w) ≡ option_of flag options =
          λ flag.
            ap (value_of flag) (worker_argv-flat std cfg path encoding_text w)
            ∙ isclap.reads cfg.cgn_infer.binary_path (bytes "worker") flag options known once
                plain in
        ap (λ (o : Result LayerRange). o >>= λ r. ok (r.start, r.end))
          (ap (worker words) (λ i flag. reads flag i) ∙ binds)

    pub worker_loop-Serves :
        (ws : List PipelineWorkerConfig) (rs : List LayerRange)
        → Serves (maybe std (bytes "--threads") cfg.cgn_infer.threads) path encoding_text ws rs
        → (argvs : List (List Text)) × (worker_loop std cfg path encoding_text ws ≡ some argvs)
          × (worker_ranges (map info_of argvs) ≡ ok rs)
    unfolding worker_loop worker_ranges
    worker_loop-Serves [] [] s = ([], refl, refl)
    worker_loop-Serves [] (r ∷ rs) s = elim s [ ]
    worker_loop-Serves (w ∷ ws) [] s = elim s [ ]
    worker_loop-Serves (w ∷ ws) (r ∷ rs) (here, listen, addr, layers, lt, end, plain, s) =
        let (argvs, p, q) = worker_loop-Serves ws rs s in
        let named : is_nonempty w.layers ≡ true =
          ap is_nonempty layers ∙ is_nonempty-display words r in
        let info = info_of-worker_argv w r addr layers lt end plain in
        (
          worker_argv std cfg path encoding_text w ∷ argvs,
          rw here (rw listen (rw named (rw p refl))),
          rw info (rw (new_lt r.start r.end lt) (rw q refl)),
        )
