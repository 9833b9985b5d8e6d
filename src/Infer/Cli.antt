-- ===== src/Infer/Cli.antt =====
-- How cgn-infer reads its arguments: `LayerRange::parse` and its display in
-- rust/services/cgn-infer/src/model/llama.rs, and the role in rust/services/cgn-infer/src/main.rs.
--
-- `Words` stands for the standard library's numbers in text and for white space. A text is its bytes.
pub mod Ranges
use cognitora_inference.Prelude.{
  ℕ, Bool, true, false, ◌||◌, not, Option, none, some, List, [], ◌∷◌, ◌++◌, ◌==◌, if◌then◌else◌,
  is_nonempty, is_some, map, ltb, ◌&&◌,
}
use cognitora_inference.Agent.EngineConfig.{bytes}
use cognitora_inference.Infer.Llama.{
  Result, ok, err, ◌>>=◌, Error, invalid_argument, config, LayerRange, new,
}
use cognitora_inference.Agent.EngineStream.{equals}
use cognitora_inference.Infer.Pipeline.{Encoding, f16, int8}

abbrev pub Text : Type 0
Text = List ℕ

pub record Words : Type 0 where
  pub trim : Text → Text
  pub parse_usize : Text → Option ℕ
  pub to_string : ℕ → Text
  -- Whether a text is read as a `SocketAddr`.
  pub is_socket_addr : Text → Bool

-- `str::split_once`.
unfoldable pub split_once : ℕ → Text → Option (Text × Text)
split_once mark [] = none
split_once mark (c ∷ s) =
    let rest = split_once mark s in
    if c == mark then some ([], s) else (elim rest [ none ↦ none | some (a, b) ↦ some (c ∷ a, b) ])

pub data Role : Type 0 where
  standalone coordinator : Role

-- The options of the two commands, `Command::Serve` and `Command::Worker`.
abbrev tls_flags : List Text
tls_flags = map bytes ("--tls-ca" ∷ "--tls-cert" ∷ "--tls-key" ∷ "--tls-domain" ∷ [])

abbrev pub serve_flags : List Text
serve_flags =
    map bytes (
      "--model" ∷ "--host" ∷ "--port" ∷ "--ctx" ∷ "--threads" ∷ "--backend" ∷ "--model-id"
      ∷ "--max-batch" ∷ "--prefill-chunk" ∷ "--kv-pool-tokens" ∷ "--role" ∷ "--layers" ∷ "--workers"
      ∷ "--activation-encoding" ∷ [])
    ++ tls_flags

abbrev pub worker_flags : List Text
worker_flags =
    map bytes (
      "--model" ∷ "--layers" ∷ "--listen" ∷ "--threads" ∷ "--backend" ∷ "--activation-encoding"
      ∷ [])
    ++ tls_flags

pub record TlsArgs : Type 0 where
  pub tls_ca : Option Text
  pub tls_cert : Option Text
  pub tls_key : Option Text
  pub tls_domain : Text

pub record TlsPaths : Type 0 where
  pub ca : Text
  pub cert : Text
  pub key : Text
  pub domain : Text

-- The paths are given all three or not at all.
unfoldable pub paths_of : Option Text → Option Text → Option Text → Text → Result (Option TlsPaths)
paths_of none none none domain = ok none
paths_of (some ca) (some cert) (some key) domain =
    ok (some (record { ca = ca; cert = cert; key = key; domain = domain }))
paths_of _ _ _ domain = err config

unfoldable pub resolve : TlsArgs → Result (Option TlsPaths)
unfolding paths_of
resolve args = paths_of args.tls_ca args.tls_cert args.tls_key args.tls_domain

-- From the value of each option.
unfoldable pub tls_args : (Text → Option Text) → TlsArgs
tls_args value_of = record {
  tls_ca = value_of (bytes "--tls-ca");
  tls_cert = value_of (bytes "--tls-cert");
  tls_key = value_of (bytes "--tls-key");
  tls_domain = elim (value_of (bytes "--tls-domain")) [
    | none ↦ bytes "cognitora"
    | some domain ↦ domain
  ];
}

-- `CoordinatorConfig` of pipeline/mod.rs.
pub record CoordinatorConfig : Type 0 where
  pub layers : LayerRange
  pub workers : List Text
  pub encoding : Encoding
  pub tls : Option TlsPaths

module _ (words : Words) where
  open words use {trim, parse_usize, to_string, is_socket_addr}

  unfoldable pub number : Text → Result ℕ
  number s = elim (parse_usize (trim s)) [ none ↦ err invalid_argument | some n ↦ ok n ]

  unfoldable pub range_of : Option (Text × Text) → Result LayerRange
  unfolding number
  range_of none = err invalid_argument
  range_of (some (a, b)) = do start ← number a; end ← number b; new start end

  unfoldable pub parse : Text → Result LayerRange
  unfolding split_once range_of
  parse s = range_of (split_once b':' s)

  unfoldable pub display : LayerRange → Text
  display r = to_string r.start ++ (b':' ∷ to_string r.end)

  -- The `match` over the role in `main`.
  unfoldable pub pipeline_of :
      Role → Option Text → List Text → Encoding → TlsArgs → Result (Option CoordinatorConfig)
  unfolding parse resolve
  pipeline_of standalone layers workers encoding tls =
      if is_nonempty workers || is_some layers then err config else ok none
  pipeline_of coordinator none workers encoding tls = err config
  pipeline_of coordinator (some layers) workers encoding tls =
      if not (is_nonempty workers) then err config else (do
        range ← parse layers
        paths ← resolve tls
        ok (some (record { layers = range; workers = workers; encoding = encoding; tls = paths })))

  -- What clap reads, with the defaults; `none` is a value that it refuses.
  unfoldable pub role_of : Option Text → Option Role
  role_of none = some standalone
  role_of (some s) =
      if equals s (bytes "standalone")
      then some standalone
      else if equals s (bytes "coordinator")
      then some coordinator
      else none

  unfoldable pub encoding_of : Option Text → Option Encoding
  encoding_of none = some f16
  encoding_of (some s) =
      if equals s (bytes "f16")
      then some f16
      else if equals s (bytes "int8")
      then some int8
      else none

  unfoldable pub is_usize : Option Text → Bool
  is_usize none = true
  is_usize (some s) = is_some (parse_usize s)

  unfoldable pub port_of : Option Text → Option ℕ
  port_of none = some 8001
  port_of (some s) = elim (parse_usize s) [
    | none ↦ none
    | some n ↦ if ltb n 65536 then some n else none
  ]

  abbrev pub value_or : Option Text → Text → Text
  value_or none d = d
  value_or (some s) d = s

  unfoldable pub numbers_read : (Text → Option Text) → Bool
  unfolding is_usize
  numbers_read value_of =
      is_usize (value_of (bytes "--ctx"))
      && (is_usize (value_of (bytes "--threads"))
          && (is_usize (value_of (bytes "--max-batch"))
              && (is_usize (value_of (bytes "--prefill-chunk"))
                  && is_usize (value_of (bytes "--kv-pool-tokens")))))

  -- `main` up to the loading of the model, for `serve`: the address of the server, then the role.
  unfoldable pub serve : (Text → Option Text) → List Text → Result (Option CoordinatorConfig)
  unfolding pipeline_of tls_args role_of encoding_of port_of numbers_read
  serve value_of workers = elim (role_of (value_of (bytes "--role"))) [
    | none ↦ err config
    | some role ↦ elim (encoding_of (value_of (bytes "--activation-encoding"))) [
      | none ↦ err config
      | some encoding ↦ elim (port_of (value_of (bytes "--port"))) [
        | none ↦ err config
        | some port ↦
            let host = value_or (value_of (bytes "--host")) (bytes "127.0.0.1") in
            if not (numbers_read value_of)
            then err config
            else if not (is_socket_addr (host ++ (b':' ∷ to_string port)))
            then err config
            else pipeline_of role (value_of (bytes "--layers")) workers encoding (tls_args value_of)
      ]
    ]
  ]

  -- The same for `worker`: the range that it binds, after the address that it listens on.
  unfoldable pub worker : (Text → Option Text) → Result LayerRange
  unfolding encoding_of is_usize parse resolve tls_args
  worker value_of = elim (value_of (bytes "--layers")) [
    | none ↦ err config
    | some layers ↦ elim (encoding_of (value_of (bytes "--activation-encoding"))) [
      | none ↦ err config
      | some encoding ↦
          if not (is_usize (value_of (bytes "--threads")))
          then err config
          else if not
              (is_socket_addr (value_or (value_of (bytes "--listen")) (bytes "127.0.0.1:9101")))
          then err config
          else (do range ← parse layers; paths ← resolve (tls_args value_of); ok range)
    ]
  ]
