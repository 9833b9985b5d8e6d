-- ===== src/Agent/EngineSpawn/Topology.antt =====
-- From a pipeline in the configuration to a coordinator that is connected:
-- rust/services/cgn-agent/src/engine/spawn.rs renders the arguments, cgn-infer reads them.
--
-- `Clap` stands for the clap crate, which reads options with values.
use cognitora_inference.Prelude.{
  ℕ, ◌≡◌, refl, ap, Bool, true, ◌&&◌, not, Option, none, some, List, [], ◌∷◌, ◌++◌, map, any,
  if◌then◌else◌,
}
use cognitora_inference.Agent.EngineStream.{equals, starts_with}
use cognitora_inference.Agent.EngineConfig.{
  Text, bytes, Std, PipelineWorkerConfig, PipelineTopologyConfig, EngineConfig,
}
use cognitora_inference.Agent.EngineSpawn.Commas.{pieces}
use cognitora_inference.Agent.EngineSpawn.Workers.{join, endpoint_of, worker_argv}
use cognitora_inference.Agent.EngineSpawn.Flags.{numbered}
use cognitora_inference.Infer.Cli.{serve_flags, worker_flags}

abbrev pub Options : Type 0
Options = List (Text × Text)

abbrev pub flat : Options → List Text
flat [] = []
flat ((flag, value) ∷ options) = flag ∷ value ∷ flat options

abbrev pub option_of : Text → Options → Option Text
option_of flag [] = none
option_of flag ((name, value) ∷ options) =
    if equals name flag then some value else option_of flag options

-- Each flag stands once, and no value is taken for a flag.
abbrev pub distinct : Options → Bool
distinct [] = true
distinct ((name, value) ∷ options) =
    not (any (λ (o : Text × Text). equals o.0 name) options) && distinct options

abbrev pub dashless : Options → Bool
dashless [] = true
dashless ((name, value) ∷ options) = not (starts_with (bytes "-") value) && dashless options

-- The options are those of a command of cgn-infer.
abbrev pub flags_of : Text → List Text
flags_of command =
    if equals command (bytes "serve")
    then serve_flags
    else if equals command (bytes "worker")
    then worker_flags
    else []

abbrev pub declared : List Text → Options → Bool
declared flags [] = true
declared flags ((name, value) ∷ options) = any (equals name) flags && declared flags options

pub record Clap : Type 0 where
  -- The text of an option's value, before its type reads it, and its pieces between commas.
  pub value_of : Text → List Text → Option Text
  pub values_of : Text → List Text → List Text

pub record IsClap (clap : Clap) : Type 0 where
  pub reads :
      (program command flag : Text) (options : Options)
      → declared (flags_of command) options ≡ true
      → distinct options ≡ true
      → dashless options ≡ true
      → clap.value_of flag (program ∷ command ∷ flat options) ≡ option_of flag options
  pub splits :
      (flag value : Text) (argv : List Text)
      → clap.value_of flag argv ≡ some value
      → clap.values_of flag argv ≡ pieces value

-- The options of a worker.
abbrev pub worker_options : Options → Text → Text → PipelineWorkerConfig → Options
worker_options threads path encoding w =
    (bytes "--model", path)
    ∷ (bytes "--layers", w.layers)
    ∷ (bytes "--listen", w.listen)
    ∷ (bytes "--activation-encoding", encoding)
    ∷ threads

-- The options of the coordinator, the last ones and all of them.
abbrev pub line_options : PipelineTopologyConfig → Options
line_options pipe =
    (bytes "--role", bytes "coordinator")
    ∷ (bytes "--layers", pipe.coordinator_layers)
    ∷ (bytes "--workers", join (map endpoint_of pipe.workers))
    ∷ (bytes "--activation-encoding", pipe.activation_encoding)
    ∷ []

module _ (std : Std) where
  open std use {to_string}

  abbrev pub maybe : Text → Option ℕ → Options
  maybe flag none = []
  maybe flag (some n) = (flag, to_string n) ∷ []

  abbrev pub serve_options : EngineConfig std → Option ℕ → Text → PipelineTopologyConfig → Options
  serve_options cfg ctx path pipe =
      (bytes "--model", path)
      ∷ (bytes "--host", cfg.cgn_infer.host)
      ∷ (bytes "--port", to_string cfg.cgn_infer.port)
      ∷ (maybe (bytes "--ctx") ctx
          ++ (maybe (bytes "--threads") cfg.cgn_infer.threads ++ line_options pipe))

  numbered-flat : (flag : Text) (n : Option ℕ) → numbered std flag n ≡ flat (maybe flag n)
  numbered-flat flag none = refl
  numbered-flat flag (some n) = refl

  pub worker_argv-flat :
      (cfg : EngineConfig std) (path encoding : Text) (w : PipelineWorkerConfig)
      → worker_argv std cfg path encoding w
        ≡ cfg.cgn_infer.binary_path
          ∷ bytes "worker"
          ∷ flat (worker_options (maybe (bytes "--threads") cfg.cgn_infer.threads) path encoding w)
  unfolding worker_argv
  worker_argv-flat cfg path encoding w =
      ap
        (λ (t : List Text).
          cfg.cgn_infer.binary_path
          ∷ bytes "worker"
          ∷ bytes "--model"
          ∷ path
          ∷ bytes "--layers"
          ∷ w.layers
          ∷ bytes "--listen"
          ∷ w.listen
          ∷ bytes "--activation-encoding"
          ∷ encoding
          ∷ t)
        (numbered-flat (bytes "--threads") cfg.cgn_infer.threads)

  pub distinct-worker_options :
      (threads : Option ℕ) (path encoding : Text) (w : PipelineWorkerConfig)
      → let options = worker_options (maybe (bytes "--threads") threads) path encoding w in
        (declared (flags_of (bytes "worker")) options ≡ true) × (distinct options ≡ true)
  unfolding equals
  distinct-worker_options none path encoding w = (refl, refl)
  distinct-worker_options (some n) path encoding w = (refl, refl)

  pub flat-line_options :
      (ctx threads : Option ℕ) (pipe : PipelineTopologyConfig)
      → numbered std (bytes "--ctx") ctx
          ++ (numbered std (bytes "--threads") threads ++ (flat (line_options pipe) ++ ([] ++ [])))
        ≡ flat
            (maybe (bytes "--ctx") ctx ++ (maybe (bytes "--threads") threads ++ line_options pipe))
  flat-line_options none none pipe = refl
  flat-line_options none (some n) pipe = refl
  flat-line_options (some m) none pipe = refl
  flat-line_options (some m) (some n) pipe = refl

  -- The options before those of the line say nothing of what the line says, and none is of TLS.
  pub option_of-serve_options :
      (ctx threads : Option ℕ) (path host port : Text) (pipe : PipelineTopologyConfig)
      → let options =
          (bytes "--model", path)
          ∷ (bytes "--host", host)
          ∷ (bytes "--port", port)
          ∷ (maybe (bytes "--ctx") ctx
              ++ (maybe (bytes "--threads") threads ++ line_options pipe)) in
        (declared (flags_of (bytes "serve")) options ≡ true)
        × (distinct options ≡ true)
        × (option_of (bytes "--role") options ≡ some (bytes "coordinator"))
        × (option_of (bytes "--layers") options ≡ some pipe.coordinator_layers)
        × (option_of (bytes "--workers") options ≡ some (join (map endpoint_of pipe.workers)))
        × (option_of (bytes "--activation-encoding") options ≡ some pipe.activation_encoding)
        × (option_of (bytes "--port") options ≡ some port)
        × (option_of (bytes "--host") options ≡ some host)
        × (option_of (bytes "--tls-ca") options ≡ none)
        × (option_of (bytes "--tls-cert") options ≡ none)
        × (option_of (bytes "--tls-key") options ≡ none)
  unfolding equals
  option_of-serve_options none none path host port pipe =
      (refl, refl, refl, refl, refl, refl, refl, refl, refl, refl, refl)
  option_of-serve_options none (some n) path host port pipe =
      (refl, refl, refl, refl, refl, refl, refl, refl, refl, refl, refl)
  option_of-serve_options (some m) none path host port pipe =
      (refl, refl, refl, refl, refl, refl, refl, refl, refl, refl, refl)
  option_of-serve_options (some m) (some n) path host port pipe =
      (refl, refl, refl, refl, refl, refl, refl, refl, refl, refl, refl)
