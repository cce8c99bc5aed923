-- ===== src/Daemon/Supervision/Restarts.antt =====
-- src/daemon.rs: how often an agent is started again by the poll, counted by the processes that are
-- started.
use zeptopm.Base.{
  ℕ, ◌+◌, ◌-◌, ◌≤◌, String, ◌≡◌, refl, ap, ◌∙◌, arith, Bool, true, false, ltb, if◌then◌else◌, none,
  some, List, [], ◌∷◌, ◌++◌, get, get-insert, get-remove, remove, str_eq, str_eq→eq, Bool-cases,
  Option-cases, ◌⊎◌, inl, inr,
}
use zeptopm.Types.{Time}
use zeptopm.Config.{AgentConfig}
use zeptopm.Agent.{AgentStateUpdate, stop}
use zeptopm.Daemon.World.{
  World, Host, Effect, spawn, send, persist_run_state, persist_artifact, delete_run, remove_file,
  find_agent,
}
use zeptopm.Daemon.Supervision.{
  update_state, schedule_restart, on_state_update, start_agent, restart_agent, restarts_of,
  restart_due, restart_all, due_names, poll_restarts, restarted, launch_by_command, has_ended,
  forget,
}
use zeptopm.Daemon.Supervision.Entries.{IsSupervised}
use zeptopm.Daemon.Supervision.Limits.{
  Event, updated, start_command, restart_command, polled, supervise, supervise_all, AreReports,
  supervise_all-IsSupervised,
}

abbrev pub is_spawn : String → Effect → Bool
is_spawn name (spawn k) = str_eq k name
is_spawn name (send _ _) = false
is_spawn name (persist_run_state _ _) = false
is_spawn name (persist_artifact _) = false
is_spawn name (delete_run _) = false
is_spawn name (remove_file _) = false

-- How many processes of an agent have been started so far.
abbrev pub count_spawns : String → List Effect → ℕ
count_spawns name [] = 0
count_spawns name (x ∷ xs) =
    if is_spawn name x then count_spawns name xs + 1 else count_spawns name xs

abbrev pub is_command : Event → Bool
is_command (updated _ _) = false
is_command (start_command _ _ _) = true
is_command (restart_command _ _ _) = true
is_command (polled _ _) = false

-- The count starts afresh when a command has started the agent; what else has started it is added.
abbrev pub count_on : String → Event → ℕ → World → ℕ
count_on name ev n w =
    let made = count_spawns name (supervise ev w).effects - count_spawns name w.effects in
    if is_command ev then (if ltb 0 made then 0 else n) else n + made

-- How many processes of the agent were started without a command, since a command last started it,
-- or since the beginning, where the count is `n`.
unfoldable pub own_restarts : String → ℕ → List Event → World → ℕ
own_restarts name n [] w = n
own_restarts name n (ev ∷ evs) w = own_restarts name (count_on name ev n w) evs (supervise ev w)

count_spawns-snoc :
    (name : String) (xs : List Effect) (x : Effect)
    → count_spawns name (xs ++ x ∷ [])
      ≡ (if is_spawn name x then count_spawns name xs + 1 else count_spawns name xs)
count_spawns-snoc name [] x = ground arith
count_spawns-snoc name (y ∷ xs) x = ground (arith, count_spawns-snoc name xs x)

-- Between two states an agent was started as often as its count of restarts has grown.
abbrev Grows : String → World → World → Type 0
Grows name w w' =
    (count_spawns name w.effects ≤ count_spawns name w'.effects)
    × (count_spawns name w'.effects + restarts_of (get name w.managed)
        ≡ count_spawns name w.effects + restarts_of (get name w'.managed))
    × (w'.config ≡ w.config)

module _ (host : Host) (now : Time) (name : String) where
  restart_due-Grows : (k : String) (w : World) → Grows name w (restart_due host now k w)
  unfolding restart_due
  restart_due-Grows k w = elim (Option-cases (find_agent k w.config.agents)) [
    | inl gone ↦ rw (gone, restart_due) (omega arith, refl, refl)
    | inr (a, found) ↦
        let count = restarts_of (get k w.managed) + 1 in
        rw (found, restart_due)
          (
            ground (arith, count_spawns-snoc name w.effects (spawn k)),
            ground (
              arith,
              count_spawns-snoc name w.effects (spawn k),
              get-insert name k (restarted host now count a) (remove k w.managed),
              get-remove name k w.managed,
              str_eq→eq k name,
            ),
            refl,
          )
  ]

  restart_all-Grows : (ks : List String) (w : World) → Grows name w (restart_all host now ks w)
  unfolding restart_all
  restart_all-Grows [] w = (omega arith, refl, refl)
  restart_all-Grows (k ∷ ks) w =
      let (more, same, config) = restart_due-Grows k w in
      let (more', same', config') = restart_all-Grows ks (restart_due host now k w) in
      (omega (arith, more, more'), omega (arith, same, same'), config' ∙ config)

update-Grows :
    (name : String) (now : Time) (u : AgentStateUpdate) (w : World)
    → Grows name w (on_state_update now u w)
unfolding on_state_update update_state schedule_restart
update-Grows name now u w = elim (Option-cases (get u.name w.managed)) [
  | inl gone ↦ rw (gone, on_state_update) (omega arith, refl, refl)
  | inr (m, found) ↦
      let m' = schedule_restart now u.status (record m { state = update_state u m.state }) in
      rw (found, on_state_update)
        (
          omega arith,
          ground (arith, found, get-insert name u.name m' w.managed, str_eq→eq u.name name),
          refl,
        )
]

-- A command leaves an agent and its count alone, or starts it.
abbrev Commanded : String → World → World → Type 0
Commanded name w w' =
    (((count_spawns name w'.effects ≡ count_spawns name w.effects)
        × (get name w'.managed ≡ get name w.managed))
      ⊎ (count_spawns name w'.effects ≡ count_spawns name w.effects + 1))
    × (w'.config ≡ w.config)

module _ (host : Host) (now : Time) (name : String) (a : AgentConfig) where
  launch-Commanded :
      (word k : String) (w : World)
      → find_agent name w.config.agents ≡ some a
      → Commanded name w (launch_by_command host now word k w).0
  launch-Commanded word k w listed = elim (Option-cases (find_agent k w.config.agents)) [
    | inl gone ↦ rw (gone, launch_by_command) (inl (refl, refl), refl)
    | inr (b, found) ↦
        rw (found, launch_by_command)
          (
            elim (Bool-cases (str_eq k name)) [
              | inl same ↦ inr (ground (arith, same, count_spawns-snoc name w.effects (spawn k)))
              | inr apart ↦ inl (
                ground (arith, apart, count_spawns-snoc name w.effects (spawn k)),
                ground (arith, apart, get-insert name k (restarted host now 0 b) w.managed),
              )
            ],
            refl,
          )
  ]

  -- An agent is forgotten and started again, after other effects that start nothing.
  relaunch-Commanded :
      (word k : String) (w w' : World)
      → find_agent name w.config.agents ≡ some a
      → count_spawns name w'.effects ≡ count_spawns name w.effects
      → w'.managed ≡ remove k w.managed
      → w'.config ≡ w.config
      → Commanded name w (launch_by_command host now word k w').0
  relaunch-Commanded word k w w' listed quiet removed same =
      elim (Option-cases (find_agent k w'.config.agents)) [
        | inl gone ↦
            rw (gone, launch_by_command)
              (inl (quiet, ap (get name) removed ∙ get-remove name k w.managed ∙ kept gone), same)
        | inr (b, found) ↦
            rw (found, launch_by_command)
              (
                elim (Bool-cases (str_eq k name)) [
                  | inl t ↦
                      inr (ground (arith, t, quiet, count_spawns-snoc name w'.effects (spawn k)))
                  | inr apart ↦ inl (
                    ground (arith, apart, quiet, count_spawns-snoc name w'.effects (spawn k)),
                    ground (
                      arith,
                      apart,
                      get-insert name k (restarted host now 0 b) w'.managed,
                      ap (get name) removed,
                      get-remove name k w.managed,
                    ),
                  )
                ],
                same,
              )
      ]
    where
      kept :
          find_agent k w'.config.agents ≡ none
          → (if str_eq k name then none else get name w.managed) ≡ get name w.managed
      kept gone = elim (Bool-cases (str_eq k name)) [
        | inl t ↦ absurd (
            ground (
              arith,
              ap (λ z. find_agent z w'.config.agents) (str_eq→eq k name t),
              ap (λ c. find_agent name c.agents) same,
              gone,
              listed,
            ))
        | inr apart ↦ rw apart refl
      ]

  start-Commanded :
      (k : String) (w : World)
      → find_agent name w.config.agents ≡ some a
      → Commanded name w (start_agent host now k w).0
  unfolding start_agent
  start-Commanded k w listed = elim (Option-cases (get k w.managed)) [
    | inl gone ↦ rw (gone, start_agent) (launch-Commanded "started" k w listed)
    | inr (m, found) ↦ elim (Bool-cases (has_ended m.state.status)) [
      | inl over ↦
          rw (found, start_agent, over)
            (relaunch-Commanded "started" k w (forget k w) listed refl refl refl)
      | inr runs ↦ rw (found, start_agent, runs) (inl (refl, refl), refl)
    ]
  ]

  restart-Commanded :
      (k : String) (w : World)
      → find_agent name w.config.agents ≡ some a
      → Commanded name w (restart_agent host now k w).0
  unfolding restart_agent
  restart-Commanded k w listed = elim (Option-cases (get k w.managed)) [
    | inl gone ↦ rw (gone, restart_agent) (launch-Commanded "restarted" k w listed)
    | inr (m, found) ↦
        rw (found, restart_agent)
          (relaunch-Commanded "restarted" k w _ listed
            (count_spawns-snoc name w.effects (send k stop)) refl refl)
  ]

module _ (name : String) (a : AgentConfig) where
  -- The count of an agent never exceeds the number that the daemon keeps.
  count_on-le :
      (ev : Event) (n : ℕ) (w : World)
      → find_agent name w.config.agents ≡ some a
      → n ≤ restarts_of (get name w.managed)
      → (count_on name ev n w ≤ restarts_of (get name (supervise ev w).managed))
        × ((supervise ev w).config ≡ w.config)
  unfolding supervise poll_restarts
  count_on-le (updated now u) n w listed le =
      let (more, same, config) = update-Grows name now u w in
      (omega (arith, more, same, le), config)
  count_on-le (start_command host now k) n w listed le =
      let (kept, config) = start-Commanded host now name a k w listed in
      (ground (arith, kept, le), config)
  count_on-le (restart_command host now k) n w listed le =
      let (kept, config) = restart-Commanded host now name a k w listed in
      (ground (arith, kept, le), config)
  count_on-le (polled host now) n w listed le =
      let (more, same, config) = restart_all-Grows host now name (due_names now w.managed) w in
      (omega (arith, more, same, le), config)

  own_restarts-le :
      (evs : List Event) (n : ℕ) (w : World)
      → find_agent name w.config.agents ≡ some a
      → n ≤ restarts_of (get name w.managed)
      → (own_restarts name n evs w ≤ restarts_of (get name (supervise_all evs w).managed))
        × ((supervise_all evs w).config ≡ w.config)
  unfolding own_restarts supervise_all
  own_restarts-le [] n w listed le = (le, refl)
  own_restarts-le (ev ∷ evs) n w listed le =
      let (here, config) = count_on-le ev n w listed le in
      let (there, config') =
        own_restarts-le evs (count_on name ev n w) (supervise ev w)
          (ap (λ c. find_agent name c.agents) config ∙ listed) here in
      (there, config' ∙ config)

  -- From a supervised state, one without agents for instance, through any updates of agents,
  -- commands to start and restart them and polls, in any order, as long as the configuration is the
  -- same and no update reports the status of an agent that waits for its restart: the processes
  -- that the polls start for an agent of the configuration, since a command last started it, are at
  -- most its `max_restarts`.
  pub own_restarts-bounded :
      (evs : List Event) (w : World)
      → AreReports evs
      → IsSupervised w
      → find_agent name w.config.agents ≡ some a
      → own_restarts name 0 evs w ≤ a.max_restarts
  own_restarts-bounded evs w r h listed =
      let (few, config) = own_restarts-le evs 0 w listed (omega arith) in
      let v = supervise_all-IsSupervised evs w r h in
      elim (Option-cases (get name (supervise_all evs w).managed)) [
        | inl gone ↦ ground (arith, gone, few)
        | inr (m, found) ↦ ground (
          arith,
          found,
          few,
          (v.limits name m found).0,
          v.configured name m a found (ap (λ c. find_agent name c.agents) config ∙ listed),
        )
      ]
