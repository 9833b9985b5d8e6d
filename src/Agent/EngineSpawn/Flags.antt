-- ===== src/Agent/EngineSpawn/Flags.antt =====
-- Flags that several engines share, rust/services/cgn-agent/src/engine/spawn.rs.
use cognitora_inference.Prelude.{ℕ, Bool, true, false, Option, none, some, List, [], ◌∷◌, ◌++◌}
use cognitora_inference.Agent.EngineConfig.{Text, Std, KvOffload, lmcache}

unfoldable pub or_name : Option Text → Text → Text
or_name none name = name
or_name (some path) name = path

-- `name=path`.
unfoldable pub lora_pairs : List (Text × Text) → List Text
lora_pairs [] = []
lora_pairs ((name, path) ∷ lora) = (name ++ (b'=' ∷ path)) ∷ lora_pairs lora

unfoldable pub is_lmcache : KvOffload → Bool
is_lmcache lmcache = true
is_lmcache _ = false

unfoldable pub lora_flags : List Text → List (Text × Text) → List Text
unfolding lora_pairs
lora_flags flags [] = []
lora_flags flags (l ∷ lora) = flags ++ lora_pairs (l ∷ lora)

abbrev pub or_ctx : Option ℕ → Option ℕ → Option ℕ
or_ctx none ctx = ctx
or_ctx (some n) ctx = some n

module _ (std : Std) where
  open std use {to_string}

  -- A flag with a number, where there is one.
  abbrev pub numbered : Text → Option ℕ → List Text
  numbered flag none = []
  numbered flag (some n) = flag ∷ to_string n ∷ []

  abbrev pub number_or : Option ℕ → ℕ → Text
  number_or none n = to_string n
  number_or (some m) n = to_string m
