-- ===== src/Agent/Supervisor/Groups.antt =====
-- The processes that the supervisor answers for, rust/services/cgn-agent/src/supervisor.rs.
use cognitora_inference.Prelude.{
  ℕ, ◌+◌, ◌≡◌, refl, Bool, true, false, not, ◌||◌, Option, none, some, List, [], ◌∷◌, ◌++◌, any,
  is_nonempty, if◌then◌else◌, arith, Bool-cases, inl, inr,
}
use cognitora_inference.Agent.Supervisor.{
  Event, spawned, killed, slept, Supervisor, Launch, kill_all, spawn_all, spawn_server,
  spawn_engines, spawn_group, spawn_engine_for_default_model, kill_children, back_off, turn,
  supervise, new,
}

module _ {Child : Type 0} (test : Child → Bool) where
  abbrev one : Bool → ℕ
  one b = if b then 1 else 0

  -- How many of the processes that pass the test were spawned, were killed, and are in a list.
  abbrev pub spawns : List (Event Child) → ℕ
  spawns [] = 0
  spawns (spawned c ∷ log) = one (test c) + spawns log
  spawns (killed c ∷ log) = spawns log
  spawns (slept n ∷ log) = spawns log

  abbrev pub kills : List (Event Child) → ℕ
  kills [] = 0
  kills (spawned c ∷ log) = kills log
  kills (killed c ∷ log) = one (test c) + kills log
  kills (slept n ∷ log) = kills log

  abbrev pub members : List Child → ℕ
  members [] = 0
  members (c ∷ cs) = one (test c) + members cs

  members-append : (cs ds : List Child) → members (cs ++ ds) ≡ members cs + members ds
  members-append [] ds = omega arith
  members-append (c ∷ cs) ds = omega (arith, members-append cs ds)

  -- Every process that was spawned and not killed is in a list.
  abbrev pub Balanced : List Child → List (Event Child) → Type 0
  Balanced cs log = spawns log ≡ kills log + members cs

  kill_all-counts :
      (cs : List Child) (log : List (Event Child))
      → (spawns (kill_all Child cs log) ≡ spawns log)
        × (kills (kill_all Child cs log) ≡ kills log + members cs)
  unfolding kill_all
  kill_all-counts [] log = (refl, omega arith)
  kill_all-counts (c ∷ cs) log =
      let (a, b) = kill_all-counts cs (killed c ∷ log) in (a, omega (arith, b))

  spawn_all-Balanced :
      (engines : List (Option Child)) (cs held : List Child) (log : List (Event Child))
      → spawns log ≡ kills log + members cs + members held
      → spawns (spawn_all Child engines cs log).2
        ≡ kills (spawn_all Child engines cs log).2
          + members (spawn_all Child engines cs log).1
          + members held
  unfolding spawn_all
  spawn_all-Balanced [] cs held log h = h
  spawn_all-Balanced (none ∷ engines) cs held log h = h
  spawn_all-Balanced (some c ∷ engines) cs held log h =
      spawn_all-Balanced engines (cs ++ (c ∷ [])) held (spawned c ∷ log)
        (omega (arith, members-append cs (c ∷ []), h))

  spawn_server-Balanced :
      (server : Option (Option Child × Bool)) (held : List Child) (log : List (Event Child))
      → Balanced held log
      → spawns (spawn_server Child server log).2
        ≡ kills (spawn_server Child server log).2
          + members (spawn_server Child server log).1
          + members held
  unfolding spawn_server
  spawn_server-Balanced none held log h = omega (arith, h)
  spawn_server-Balanced (some (none, up)) held log h = omega (arith, h)
  spawn_server-Balanced (some (some c, true)) held log h = omega (arith, h)
  spawn_server-Balanced (some (some c, false)) held log h = omega (arith, h)

  spawn_engines-Balanced :
      (engines : Option (List (Option Child))) (cs held : List Child) (log : List (Event Child))
      → spawns log ≡ kills log + members cs + members held
      → spawns (spawn_engines Child engines cs log).2
        ≡ kills (spawn_engines Child engines cs log).2
          + members (spawn_engines Child engines cs log).1
          + members held
  unfolding spawn_engines
  spawn_engines-Balanced none cs held log h = h
  spawn_engines-Balanced (some engines) cs held log h = spawn_all-Balanced engines cs held log h

  spawn_group-Balanced :
      (launch : Launch Child) (held : List Child) (log : List (Event Child))
      → Balanced held log
      → spawns (spawn_group Child launch log).2
        ≡ kills (spawn_group Child launch log).2
          + members (spawn_group Child launch log).1
          + members held
  unfolding spawn_group
  spawn_group-Balanced launch held log h =
      let first = spawn_server Child launch.server log in
      let h' = spawn_server-Balanced launch.server held log h in
      elim (Bool-cases first.0) [
        | inl e ↦ rw e (spawn_engines-Balanced launch.engines first.1 held first.2 h')
        | inr e ↦ rw e h'
      ]

  spawn_engine-Balanced :
      (launch : Launch Child) (s : Supervisor Child)
      → Balanced s.children s.log
      → Balanced
          (spawn_engine_for_default_model Child launch s).1.children
          (spawn_engine_for_default_model Child launch s).1.log
  unfolding spawn_engine_for_default_model
  spawn_engine-Balanced launch s h =
      let group = spawn_group Child launch s.log in
      let h' = spawn_group-Balanced launch s.children s.log h in
      elim (Bool-cases (not launch.should_spawn || not launch.has_model)) [
        | inl e ↦ rw e h
        | inr e ↦ elim (Bool-cases group.0) [
          | inl f ↦ rw e (rw f (omega (arith, kill_all-counts s.children group.2, h')))
          | inr f ↦ rw e (rw f (omega (arith, kill_all-counts group.1 group.2, h')))
        ]
      ]

  turn-Balanced :
      (s : Supervisor Child) (exits : Child → Bool) (launch : Launch Child)
      → Balanced s.children s.log
      → Balanced (turn Child s exits launch).children (turn Child s exits launch).log
  unfolding turn kill_children back_off
  turn-Balanced s exits launch h = elim (Bool-cases (is_nonempty s.children)) [
    | inr e ↦ rw e h
    | inl e ↦ elim (Bool-cases (any exits s.children)) [
      | inr f ↦ rw e (rw f h)
      | inl f ↦ rw e (
          rw f (
            spawn_engine-Balanced launch (back_off Child (kill_children Child s))
              (omega (arith, kill_all-counts s.children s.log, h))))
    ]
  ]

  supervise-Balanced :
      (s : Supervisor Child) (turns : List ((Child → Bool) × Launch Child))
      → Balanced s.children s.log
      → Balanced (supervise Child s turns).children (supervise Child s turns).log
  unfolding supervise
  supervise-Balanced s [] h = h
  supervise-Balanced s ((exits, launch) ∷ turns) h =
      supervise-Balanced (turn Child s exits launch) turns (turn-Balanced s exits launch h)

  -- After any turns of the supervisor, of the processes that pass a test, exactly the ones in its group
  -- were spawned and not killed: none runs on unattended, whichever spawn failed.
  pub new-supervise-Balanced :
      (launch : Launch Child) (turns : List ((Child → Bool) × Launch Child))
      → Balanced
          (supervise Child (new Child launch).1 turns).children
          (supervise Child (new Child launch).1 turns).log
  unfolding new
  new-supervise-Balanced launch turns =
      supervise-Balanced _ turns (
        spawn_engine-Balanced launch (record { children = []; backoff = 1; log = [] })
          (omega arith))
