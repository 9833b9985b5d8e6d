-- ===== src/Agent/Supervisor/Respawn.antt =====
-- What follows the death of an engine process, rust/services/cgn-agent/src/supervisor.rs.
use cognitora_inference.Prelude.{
  ◌*◌, ◌≡◌, min, refl, ap, ◌∙◌, Bool, true, false, Option, none, some, List, [], ◌∷◌, ◌++◌, any,
  is_nonempty, map, if◌then◌else◌,
}
use mathlib.Core.List.{append-nil, append_assoc}
use cognitora_inference.Agent.Supervisor.{
  Event, spawned, killed, slept, Supervisor, Launch, kill_all, spawn_all, spawn_server,
  spawn_engines, spawn_group, spawn_engine_for_default_model, kill_children, back_off, turn,
  supervise,
}

-- How the spawns of the engine end: with the last one, or at one that fails before some others.
pub data Start (Child : Type 0) : Type 0 where
  complete : Start Child
  broken : List (Option Child) → Start Child

module _ {Child : Type 0} where
  -- The log after something has happened to each process, in order; the newest event stands first.
  abbrev pub noted : (Child → Event Child) → List Child → List (Event Child) → List (Event Child)
  noted e [] log = log
  noted e (c ∷ cs) log = noted e cs (e c ∷ log)

  abbrev pub server_of : Option Child → Option (Option Child × Bool)
  server_of none = none
  server_of (some c) = some (some c, true)

  abbrev pub engines_of : List Child → Start Child → List (Option Child)
  engines_of cs complete = map some cs
  engines_of cs (broken more) = map some cs ++ (none ∷ more)

  abbrev pub succeeds : Start Child → Bool
  succeeds complete = true
  succeeds (broken more) = false

  abbrev pub group_of : Option Child → List Child → List Child
  group_of none cs = cs
  group_of (some c) cs = c ∷ cs

  kill_all-noted :
      (cs : List Child) (log : List (Event Child)) → kill_all Child cs log ≡ noted killed cs log
  unfolding kill_all
  kill_all-noted [] log = refl
  kill_all-noted (c ∷ cs) log = kill_all-noted cs (killed c ∷ log)

  spawn_all-noted :
      (cs held : List Child) (start : Start Child) (log : List (Event Child))
      → spawn_all Child (engines_of cs start) held log
        ≡ (succeeds start, held ++ cs, noted spawned cs log)
  unfolding spawn_all
  spawn_all-noted [] held complete log = rw (append-nil held) refl
  spawn_all-noted [] held (broken more) log = rw (append-nil held) refl
  spawn_all-noted (c ∷ cs) held complete log =
      spawn_all-noted cs (held ++ (c ∷ [])) complete (spawned c ∷ log)
      ∙ rw (append_assoc held (c ∷ []) cs) refl
  spawn_all-noted (c ∷ cs) held (broken more) log =
      spawn_all-noted cs (held ++ (c ∷ [])) (broken more) (spawned c ∷ log)
      ∙ rw (append_assoc held (c ∷ []) cs) refl

  spawn_group-noted :
      (launch : Launch Child) (server : Option Child) (cs : List Child) (start : Start Child)
      (log : List (Event Child))
      → launch.server ≡ server_of server
      → launch.engines ≡ some (engines_of cs start)
      → spawn_group Child launch log
        ≡ (succeeds start, group_of server cs, noted spawned (group_of server cs) log)
  unfolding spawn_group spawn_server spawn_engines
  spawn_group-noted launch none cs start log s e = rw (s, e) (spawn_all-noted cs [] start log)
  spawn_group-noted launch (some c) cs start log s e =
      rw (s, e) (spawn_all-noted cs (c ∷ []) start (spawned c ∷ log))

  any-is_nonempty :
      (test : Child → Bool) (cs : List Child) → any test cs ≡ true → is_nonempty cs ≡ true
  any-is_nonempty test [] h = h
  any-is_nonempty test (c ∷ cs) h = refl

  -- A supervisor without processes does nothing, ever.
  supervise-idle :
      (s : Supervisor Child) (turns : List ((Child → Bool) × Launch Child))
      → is_nonempty s.children ≡ false
      → supervise Child s turns ≡ s
  unfolding supervise turn
  supervise-idle s [] e = refl
  supervise-idle s ((exits, launch) ∷ turns) e =
      ap (λ t. supervise Child t turns) (rw e refl) ∙ supervise-idle s turns e

  -- The group is killed and the wait is over.
  abbrev pub waited : Supervisor Child → List (Event Child)
  waited s = slept s.backoff ∷ noted killed s.children s.log

  -- What a turn leaves that finds an exit.
  abbrev pub respawned : Supervisor Child → List Child → Start Child → Supervisor Child
  respawned s group complete = record {
    children = group;
    backoff = min (s.backoff * 2) 30;
    log = noted spawned group (waited s);
  }
  respawned s group (broken more) = record {
    children = [];
    backoff = min (s.backoff * 2) 30;
    log = noted killed group (noted spawned group (waited s));
  }

  turn-respawned :
      (s : Supervisor Child) (exits : Child → Bool) (launch : Launch Child) (server : Option Child)
      (cs : List Child) (start : Start Child)
      → any exits s.children ≡ true
      → launch.should_spawn ≡ true
      → launch.has_model ≡ true
      → launch.server ≡ server_of server
      → launch.engines ≡ some (engines_of cs start)
      → turn Child s exits launch ≡ respawned s (group_of server cs) start
  unfolding turn spawn_engine_for_default_model kill_children back_off kill_all
  turn-respawned s exits launch server cs complete f ours model sv e =
      let began = spawn_group-noted launch server cs complete (waited s) sv e in
      rw
        (any-is_nonempty exits s.children f, f, ours, model, kill_all-noted s.children s.log, began)
        refl
  turn-respawned s exits launch server cs (broken more) f ours model sv e =
      let group = group_of server cs in
      let began = spawn_group-noted launch server cs (broken more) (waited s) sv e in
      rw
        (
          any-is_nonempty exits s.children f,
          f,
          ours,
          model,
          kill_all-noted s.children s.log,
          began,
          kill_all-noted group (noted spawned group (waited s)),
        )
        refl

  -- When a process of the group has exited, the whole group is killed, the supervisor waits, and the
  -- wait is doubled up to thirty seconds. The server, where there is one that comes up, and then the
  -- engine's processes are spawned in their order. If all are spawned, the supervisor goes on with
  -- them; if a spawn fails, those before it are killed, there is no group, and no later turn does anything.
  pub supervise-respawn :
      (s : Supervisor Child) (exits : Child → Bool) (launch : Launch Child) (server : Option Child)
      (cs : List Child) (start : Start Child) (turns : List ((Child → Bool) × Launch Child))
      → any exits s.children ≡ true
      → launch.should_spawn ≡ true
      → launch.has_model ≡ true
      → launch.server ≡ server_of server
      → launch.engines ≡ some (engines_of cs start)
      → supervise Child s ((exits, launch) ∷ turns) ≡ (
          if succeeds start
          then supervise Child (respawned s (group_of server cs) start) turns
          else respawned s (group_of server cs) start)
  unfolding supervise
  supervise-respawn s exits launch server cs complete turns f ours model sv e =
      ap (λ t. supervise Child t turns)
        (turn-respawned s exits launch server cs complete f ours model sv e)
  supervise-respawn s exits launch server cs (broken more) turns f ours model sv e =
      ap (λ t. supervise Child t turns)
        (turn-respawned s exits launch server cs (broken more) f ours model sv e)
      ∙ supervise-idle (respawned s (group_of server cs) (broken more)) turns refl
