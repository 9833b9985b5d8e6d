-- ===== src/Tests/Engines.antt =====
-- The supervisor of engine processes at concrete inputs.
use cognitora_inference.Prelude.{ℕ, ◌≡◌, refl, Bool, true, none, some, List, [], ◌∷◌, ◌==◌}
use cognitora_inference.Agent.Supervisor.{
  spawned, killed, slept, Launch, Supervisor, new, supervise,
}
use cognitora_inference.Agent.Supervisor.Groups.{Balanced, new-supervise-Balanced}
use cognitora_inference.Agent.Supervisor.Respawn.{broken, supervise-respawn}

-- A server and two engine processes; in the second launch the last one cannot be spawned.
abbrev launch : Launch ℕ
launch = record {
  should_spawn = true;
  has_model = true;
  server = some (some 1, true);
  engines = some (some 2 ∷ some 3 ∷ []);
}

abbrev failing : Launch ℕ
failing = record {
  should_spawn = true;
  has_model = true;
  server = some (some 4, true);
  engines = some (some 5 ∷ none ∷ []);
}

-- Process 3 exits.
abbrev exits : ℕ → Bool
exits c = c == 3

abbrev turns : List ((ℕ → Bool) × Launch ℕ)
turns = (exits, failing) ∷ (exits, launch) ∷ []

new-supervise-Balanced_example :
    Balanced
      (λ c. c == 5)
      (supervise ℕ (new ℕ launch).1 turns).children
      (supervise ℕ (new ℕ launch).1 turns).log
new-supervise-Balanced_example = new-supervise-Balanced (λ c. c == 5) launch turns

abbrev group : Supervisor ℕ
group = record { children = 1 ∷ 2 ∷ 3 ∷ []; backoff = 1; log = [] }

-- Process 3 has exited; the server and one process start, the last does not.
supervise-respawn_example : supervise ℕ group turns ≡ record {
  children = [];
  backoff = 2;
  log = killed 5 ∷ killed 4 ∷ spawned 5 ∷ spawned 4 ∷ slept 1 ∷ killed 3 ∷ killed 2 ∷ killed 1 ∷ [];
}
supervise-respawn_example =
    supervise-respawn group exits failing (some 4) (5 ∷ []) (broken []) ((exits, launch) ∷ []) refl
      refl refl refl refl
