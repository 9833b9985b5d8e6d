-- ===== src/Agent/Supervisor.antt =====
-- The supervisor of the engine processes, rust/services/cgn-agent/src/supervisor.rs: the start of the group
-- and the turns of `supervise`.
--
-- What the system did is the list `log`, newest first. A process that is dropped is killed, since all are
-- spawned with `kill_on_drop`. Seconds are numbers.
pub mod Groups
pub mod Respawn
use cognitora_inference.Prelude.{
  ℕ, ◌*◌, min, Bool, true, false, not, ◌||◌, Option, none, some, List, [], ◌∷◌, ◌++◌, any,
  is_nonempty, if◌then◌else◌,
}

module _ (Child : Type 0) where
  pub data Event : Type 0 where
    spawned killed : Child → Event
    slept : ℕ → Event

  -- `children`, and the local `backoff` of `supervise`.
  pub record Supervisor : Type 0 where
    pub children : List Child
    pub backoff : ℕ
    pub log : List Event

  -- What a start of the group meets: whether the engine is the agent's to spawn and a model is declared,
  -- the LMCache server with whether it came up, and the processes in order. `none` is a failed spawn, or
  -- arguments that cannot be rendered.
  pub record Launch : Type 0 where
    pub should_spawn : Bool
    pub has_model : Bool
    pub server : Option (Option Child × Bool)
    pub engines : Option (List (Option Child))

  unfoldable pub kill_all : List Child → List Event → List Event
  kill_all [] log = log
  kill_all (c ∷ cs) log = kill_all cs (killed c ∷ log)

  -- The loop over the argument lists; the result says whether every spawn went well.
  unfoldable pub spawn_all :
      List (Option Child) → List Child → List Event → Bool × List Child × List Event
  spawn_all [] children log = (true, children, log)
  spawn_all (none ∷ engines) children log = (false, children, log)
  spawn_all (some c ∷ engines) children log =
      spawn_all engines (children ++ (c ∷ [])) (spawned c ∷ log)

  -- The server first: no group without it.
  unfoldable pub spawn_server :
      Option (Option Child × Bool) → List Event → Bool × List Child × List Event
  spawn_server none log = (true, [], log)
  spawn_server (some (none, up)) log = (false, [], log)
  spawn_server (some (some c, true)) log = (true, c ∷ [], spawned c ∷ log)
  spawn_server (some (some c, false)) log = (false, [], killed c ∷ spawned c ∷ log)

  unfoldable pub spawn_engines :
      Option (List (Option Child)) → List Child → List Event → Bool × List Child × List Event
  unfolding spawn_all
  spawn_engines none children log = (false, children, log)
  spawn_engines (some engines) children log = spawn_all engines children log

  unfoldable pub spawn_group : Launch → List Event → Bool × List Child × List Event
  unfolding spawn_server spawn_engines
  spawn_group launch log =
      let (up, server, log') = spawn_server launch.server log in
      if up then spawn_engines launch.engines server log' else (false, server, log')

  -- An error drops what was spawned, and leaves the children as they are.
  unfoldable pub spawn_engine_for_default_model : Launch → Supervisor → Bool × Supervisor
  unfolding spawn_group kill_all
  spawn_engine_for_default_model launch s =
      let (went_well, group, log) = spawn_group launch s.log in
      if not launch.should_spawn || not launch.has_model
      then (true, s)
      else if went_well
      then (true, record s { children = group; log = kill_all s.children log })
      else (false, record s { log = kill_all group log })

  unfoldable pub kill_children : Supervisor → Supervisor
  unfolding kill_all
  kill_children s = record s { children = []; log = kill_all s.children s.log }

  -- The wait before a respawn, doubled for the next one.
  unfoldable pub back_off : Supervisor → Supervisor
  back_off s = record s { log = slept s.backoff ∷ s.log; backoff = min (s.backoff * 2) 30 }

  -- One turn of the loop of `supervise`; `exits` is what `try_wait` says of each process.
  unfoldable pub turn : Supervisor → (Child → Bool) → Launch → Supervisor
  unfolding spawn_engine_for_default_model kill_children back_off
  turn s exits launch =
      if not (is_nonempty s.children)
      then s
      else if not (any exits s.children)
      then record s { backoff = 1 }
      else (spawn_engine_for_default_model launch (back_off (kill_children s))).1

  unfoldable pub supervise : Supervisor → List ((Child → Bool) × Launch) → Supervisor
  unfolding turn
  supervise s [] = s
  supervise s ((exits, launch) ∷ turns) = supervise (turn s exits launch) turns

  -- `Supervisor::new`, whose error is the agent's.
  unfoldable pub new : Launch → Bool × Supervisor
  unfolding spawn_engine_for_default_model
  new launch =
      spawn_engine_for_default_model launch (record { children = []; backoff = 1; log = [] })
