-- ===== src/Agent/EngineSpawn/Startup.antt =====
-- How cgn-infer starts with the options of a pipeline: rust/services/cgn-infer/src/main.rs on those of
-- rust/services/cgn-agent/src/engine/spawn.rs.
use cognitora_inference.Prelude.{
  ℕ, ◌≡◌, ◌<◌, ◌^◌, refl, ap, ◌∙◌, true, Option, none, some, List, ◌∷◌, ◌++◌, arith,
}
use cognitora_inference.Agent.EngineStream.{equals}
use cognitora_inference.Agent.EngineConfig.{
  Text, bytes, Std, PipelineWorkerConfig, PipelineTopologyConfig,
}
use cognitora_inference.Agent.EngineSpawn.Topology.{option_of, worker_options, line_options, maybe}
use cognitora_inference.Infer.Llama.{Result, ok, LayerRange}
use cognitora_inference.Infer.Pipeline.{Encoding}
use cognitora_inference.Infer.Cli.{
  Words, parse, display, pipeline_of, coordinator, CoordinatorConfig, tls_args, resolve, paths_of,
  role_of, encoding_of, is_usize, port_of, numbers_read, serve, worker,
}
use cognitora_inference.Infer.Cli.Ranges.{IsDecimal}

-- A number that is there has 64 bits.
abbrev pub IsSmall : Option ℕ → Type 0
IsSmall none = Unit {0}
IsSmall (some n) = n < 2 ^ 64

module _ (std : Std) (words : Words) where
  -- Both programs write numbers alike.
  abbrev pub SameNumbers : Type 0
  SameNumbers = (n : ℕ) → std.to_string n ≡ words.to_string n

  is_usize-some : (s : Text) (n : ℕ) → words.parse_usize s ≡ some n → is_usize words (some s) ≡ true
  unfolding is_usize
  is_usize-some s n e = rw e refl

  is_usize-to_string :
      (n : ℕ)
      → SameNumbers
      → IsDecimal words
      → n < 2 ^ 64
      → is_usize words (some (std.to_string n)) ≡ true
  is_usize-to_string n same decimal small =
      is_usize-some (std.to_string n) n (ap words.parse_usize (same n) ∙ decimal.read_plain n small)

  pub port_of-to_string :
      (n : ℕ)
      → SameNumbers
      → IsDecimal words
      → n < 65536
      → port_of words (some (std.to_string n)) ≡ some n
  unfolding port_of
  port_of-to_string n same decimal small =
      ap (port_of words) (ap some (same n))
      ∙ ground (arith, small, decimal.read_plain n (omega (arith, small)))

  pub numbers_read-options :
      (ctx threads : Option ℕ) (path host port : Text) (pipe : PipelineTopologyConfig)
      → SameNumbers
      → IsDecimal words
      → IsSmall ctx
      → IsSmall threads
      → let options =
          (bytes "--model", path)
          ∷ (bytes "--host", host)
          ∷ (bytes "--port", port)
          ∷ (maybe std (bytes "--ctx") ctx
              ++ (maybe std (bytes "--threads") threads ++ line_options pipe)) in
        numbers_read words (λ flag. option_of flag options) ≡ true
  unfolding numbers_read equals is_usize
  numbers_read-options none none path host port pipe same decimal c t = refl
  numbers_read-options none (some n) path host port pipe same decimal c t =
      rw (is_usize-to_string n same decimal t) refl
  numbers_read-options (some m) none path host port pipe same decimal c t =
      rw (is_usize-to_string m same decimal c) refl
  numbers_read-options (some m) (some n) path host port pipe same decimal c t =
      rw (is_usize-to_string m same decimal c, is_usize-to_string n same decimal t) refl

  role_of-coordinator : role_of words (some (bytes "coordinator")) ≡ some coordinator
  unfolding role_of equals
  role_of-coordinator = refl

  -- A `serve` whose values are read comes to the choice of the role.
  pub serve-coordinator :
      (read : Text → Option Text) (workers : List Text) (host encoding_text port_text : Text)
      (port : ℕ) (encoding : Encoding) (out : Result (Option CoordinatorConfig))
      → read (bytes "--role") ≡ some (bytes "coordinator")
      → read (bytes "--activation-encoding") ≡ some encoding_text
      → encoding_of words (some encoding_text) ≡ some encoding
      → read (bytes "--port") ≡ some port_text
      → port_of words (some port_text) ≡ some port
      → read (bytes "--host") ≡ some host
      → numbers_read words read ≡ true
      → words.is_socket_addr (host ++ (b':' ∷ words.to_string port)) ≡ true
      → pipeline_of words coordinator (read (bytes "--layers")) workers encoding (tls_args read)
        ≡ out
      → serve words read workers ≡ out
  unfolding serve
  serve-coordinator read workers host encoding_text port_text port encoding out role enc enc' p p' h
        numbers addr e =
      simp (serve, role, role_of-coordinator, enc, enc', p, p', h, numbers, addr, e)

  -- A `worker` whose values are read binds its range.
  pub worker-range :
      (read : Text → Option Text) (r : LayerRange) (listen encoding_text : Text)
      (encoding : Encoding)
      → read (bytes "--layers") ≡ some (display words r)
      → read (bytes "--activation-encoding") ≡ some encoding_text
      → encoding_of words (some encoding_text) ≡ some encoding
      → is_usize words (read (bytes "--threads")) ≡ true
      → read (bytes "--listen") ≡ some listen
      → words.is_socket_addr listen ≡ true
      → parse words (display words r) ≡ ok r
      → resolve (tls_args read) ≡ ok none
      → worker words read ≡ ok r
  unfolding worker
  worker-range read r listen encoding_text encoding l enc enc' t at addr p tls =
      simp (worker, l, enc, enc', t, at, addr, p, tls)

  -- The values of a worker's options.
  pub option_of-worker_options :
      (threads : Option ℕ) (path encoding : Text) (w : PipelineWorkerConfig)
      → SameNumbers
      → IsDecimal words
      → IsSmall threads
      → let read = λ (flag : Text).
        option_of flag (worker_options (maybe std (bytes "--threads") threads) path encoding w) in
        (read (bytes "--layers") ≡ some w.layers)
        × (read (bytes "--activation-encoding") ≡ some encoding)
        × (is_usize words (read (bytes "--threads")) ≡ true)
        × (read (bytes "--listen") ≡ some w.listen)
        × (resolve (tls_args read) ≡ ok none)
  unfolding equals is_usize resolve tls_args paths_of
  option_of-worker_options none path encoding w same decimal small = (refl, refl, refl, refl, refl)
  option_of-worker_options (some n) path encoding w same decimal small =
      (refl, refl, is_usize-to_string n same decimal small, refl, refl)
