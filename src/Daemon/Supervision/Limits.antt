-- ===== src/Daemon/Supervision/Limits.antt =====
-- src/daemon.rs: the number of restarts that the daemon keeps for an agent, under updates, commands
-- and polls.
use zeptopm.Base.{
  ◌+◌, String, ◌≡◌, refl, ◌∙◌, arith, true, false, some, List, [], ◌∷◌, Map, get, remove, contains,
  is_some_and, get-remove, get-insert, str_eq, str_eq→eq, str_eq_refl, Distinct, IsNodup,
  Bool-cases, Option-cases, inl, inr,
}
use zeptopm.Types.{Time}
use zeptopm.Agent.{AgentStatus, AgentStateUpdate, agent_status_eq}
use zeptopm.Daemon.World.{InternalAgent, World, Host, find_agent}
use zeptopm.Daemon.Supervision.{
  on_state_update, start_agent, restart_agent, is_due, restarts_of, restart_due, restart_all,
  due_names, poll_restarts, restarted, has_ended,
}
use zeptopm.Daemon.Supervision.Entries.{
  IsSupervised, remove-IsSupervised, update-IsSupervised, launch-IsSupervised, start-IsSupervised,
  forget-IsSupervised,
}

-- What supervises the agents: an update of one, a command, or the poll.
pub data Event : Type 0 where
  updated : Time → AgentStateUpdate → Event
  start_command : Host → Time → String → Event
  restart_command : Host → Time → String → Event
  polled : Host → Time → Event

unfoldable pub supervise : Event → World → World
supervise (updated now u) w = on_state_update now u w
supervise (start_command host now name) w = (start_agent host now name w).0
supervise (restart_command host now name) w = (restart_agent host now name w).0
supervise (polled host now) w = poll_restarts host now w

unfoldable pub supervise_all : List Event → World → World
supervise_all [] w = w
supervise_all (ev ∷ evs) w = supervise_all evs (supervise ev w)

-- A bridge does not report the status that the daemon gives to an agent that waits for its restart.
abbrev pub IsReport : Event → Type 0
IsReport (updated now u) = agent_status_eq u.status AgentStatus.restart_pending ≡ false
IsReport _ = Unit {0}

abbrev pub AreReports : List Event → Type 0
AreReports [] = Unit {0}
AreReports (ev ∷ evs) = IsReport ev × AreReports evs

-- The agents that a poll is about to restart wait for it.
abbrev Due : List String → World → Type 0
Due names w =
    (k : String)
    → contains k names ≡ true
    → (m : InternalAgent) × (get k w.managed ≡ some m)
      × (agent_status_eq m.state.status AgentStatus.restart_pending ≡ true)

restart_due-IsSupervised :
    (host : Host) (now : Time) (name : String) (m : InternalAgent) (w : World)
    → get name w.managed ≡ some m
    → agent_status_eq m.state.status AgentStatus.restart_pending ≡ true
    → IsSupervised w
    → IsSupervised (restart_due host now name w)
unfolding restart_due
restart_due-IsSupervised host now name m w there due h =
    elim (Option-cases (find_agent name w.config.agents)) [
      | inl gone ↦ rw (gone, restart_due) h
      | inr (a, found) ↦
          let few = (h.limits name m there).1 due in
          let same = h.configured name m a there found in
          rw (found, restart_due, there)
            (launch-IsSupervised host now (m.state.restart_count + 1) name a _ found
              (omega (arith, few, same)) (remove-IsSupervised w _ name h refl refl))
    ]

restart_due-others :
    (host : Host) (now : Time) (name k : String) (w : World)
    → str_eq name k ≡ false
    → get k (restart_due host now name w).managed ≡ get k w.managed
unfolding restart_due
restart_due-others host now name k w e = elim (Option-cases (find_agent name w.config.agents)) [
  | inl gone ↦ ground (arith, gone)
  | inr (a, found) ↦
      let count = restarts_of (get name w.managed) + 1 in
      ground (
        arith,
        found,
        get-insert k name (restarted host now count a) (remove name w.managed),
        get-remove k name w.managed,
      )
]

restart_all-IsSupervised :
    (host : Host) (now : Time) (names : List String) (w : World)
    → IsNodup names
    → Due names w
    → IsSupervised w
    → IsSupervised (restart_all host now names w)
unfolding restart_all contains
restart_all-IsSupervised host now [] w d due h = h
restart_all-IsSupervised host now (n ∷ names) w d due h =
    let (m, there, waits) = due n (ground (arith, str_eq_refl n)) in
    restart_all-IsSupervised host now names (restart_due host now n w) d.1
      (λ k c.
        let apart : str_eq n k ≡ false = ground (arith, str_eq→eq n k, c, d.0) in
        let (m', there', waits') = due k (ground (arith, c)) in
        (m', restart_due-others host now n k w apart ∙ there', waits'))
      (restart_due-IsSupervised host now n m w there waits h)

contains-due_names :
    (now : Time) (k : String) (m : Map InternalAgent)
    → Distinct m
    → contains k (due_names now m) ≡ is_some_and (is_due now) (get k m)
unfolding contains get
contains-due_names now k [] d = refl
contains-due_names now k ((j, a) ∷ m) d =
    ground (arith, contains-due_names now k m d.1, d.0, str_eq→eq j k)

due_names-IsNodup : (now : Time) (m : Map InternalAgent) → Distinct m → IsNodup (due_names now m)
due_names-IsNodup now [] d = tt
due_names-IsNodup now ((j, a) ∷ m) d =
    ground (arith, due_names-IsNodup now m d.1, d.0, contains-due_names now j m d.1)

poll-IsSupervised :
    (host : Host) (now : Time) (w : World)
    → IsSupervised w
    → IsSupervised (poll_restarts host now w)
unfolding poll_restarts
poll-IsSupervised host now w h =
    restart_all-IsSupervised host now (due_names now w.managed) w
      (due_names-IsNodup now w.managed h.distinct)
      (λ k c. elim (Option-cases (get k w.managed)) [
        | inl gone ↦ absurd (ground (arith, gone, c, contains-due_names now k w.managed h.distinct))
        | inr (m, found) ↦
            (m, found, ground (arith, found, c, contains-due_names now k w.managed h.distinct))
      ])
      h

start_agent-IsSupervised :
    (host : Host) (now : Time) (name : String) (w : World)
    → IsSupervised w
    → IsSupervised (start_agent host now name w).0
unfolding start_agent
start_agent-IsSupervised host now name w h = elim (Option-cases (get name w.managed)) [
  | inl gone ↦ rw (gone, start_agent) (start-IsSupervised host now "started" name w h)
  | inr (m, found) ↦ elim (Bool-cases (has_ended m.state.status)) [
    | inl over ↦
        rw (found, start_agent, over)
          (start-IsSupervised host now "started" name _ (forget-IsSupervised name w h))
    | inr runs ↦ rw (found, start_agent, runs) h
  ]
]

restart_agent-IsSupervised :
    (host : Host) (now : Time) (name : String) (w : World)
    → IsSupervised w
    → IsSupervised (restart_agent host now name w).0
unfolding restart_agent
restart_agent-IsSupervised host now name w h = elim (Option-cases (get name w.managed)) [
  | inl gone ↦ rw (gone, restart_agent) (start-IsSupervised host now "restarted" name w h)
  | inr (m, found) ↦
      rw (found, restart_agent)
        (start-IsSupervised host now "restarted" name _ (remove-IsSupervised w _ name h refl refl))
]

supervise-IsSupervised :
    (ev : Event) (w : World) → IsReport ev → IsSupervised w → IsSupervised (supervise ev w)
unfolding supervise
supervise-IsSupervised (updated now u) w r h = update-IsSupervised now u w r h
supervise-IsSupervised (start_command host now name) w r h =
    start_agent-IsSupervised host now name w h
supervise-IsSupervised (restart_command host now name) w r h =
    restart_agent-IsSupervised host now name w h
supervise-IsSupervised (polled host now) w r h = poll-IsSupervised host now w h

-- From a supervised state, one without agents for instance, through any updates of agents, commands
-- to start and restart them and polls, in any order, as long as the configuration is the same: the
-- number of restarts that is kept for an agent is at most what its configuration allows, and less
-- for one that waits for a restart. No update reports the status of an agent that waits for its
-- restart.
pub supervise_all-IsSupervised :
    (evs : List Event) (w : World)
    → AreReports evs
    → IsSupervised w
    → IsSupervised (supervise_all evs w)
unfolding supervise_all
supervise_all-IsSupervised [] w r h = h
supervise_all-IsSupervised (ev ∷ evs) w r h =
    supervise_all-IsSupervised evs (supervise ev w) r.1 (supervise-IsSupervised ev w r.0 h)
