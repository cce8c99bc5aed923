-- ===== src/Daemon/Supervision/Tests.antt =====
-- src/daemon.rs: the theorems about the supervision of agents at concrete inputs.
use zeptopm.Base.{
  String, ◌≡◌, ◌≤◌, refl, true, false, none, some, List, [], ◌∷◌, get, str_eq, contains,
  contains_key,
}
use zeptopm.Engine.{new}
use zeptopm.Agent.{AgentStatus, AgentStateUpdate}
use zeptopm.Config.{Config}
use zeptopm.Daemon.World.{World, InternalAgent, find_agent}
use zeptopm.Daemon.Supervision.{apply_config_changes, auto_names}
use zeptopm.Daemon.Supervision.Entries.{IsSupervised}
use zeptopm.Daemon.Supervision.Limits.{Event, updated, start_command, restart_command, polled}
use zeptopm.Daemon.Supervision.Restarts.{own_restarts, own_restarts-bounded}
use zeptopm.Daemon.Supervision.Reload.{reload_exact}
use zeptopm.Daemon.Samples.{a_host, a_world, a_config, an_agent_config}

-- `writer` is no longer started on its own, `editor` is new.
abbrev new_config : Config
new_config = record a_config {
  agents = an_agent_config "writer" false ∷ an_agent_config "editor" true ∷ [];
}

reload_exact_example :
    let w = a_world (new 2) in
    let w' = apply_config_changes a_host 9 new_config w in
    let names = auto_names new_config.agents in
    ((k : String) → contains_key k w'.managed ≡ contains k names)
    × ((k : String) (a : InternalAgent)
        → contains k names ≡ true
        → get k w.managed ≡ some a
        → get k w'.managed ≡ some a)
    × (w'.engine ≡ w.engine)
reload_exact_example = reload_exact a_host 9 new_config (a_world (new 2))

-- A daemon that has started no agent yet.
abbrev idle : World
idle = record (a_world (new 2)) { managed = [] }

idle-IsSupervised : IsSupervised idle
unfolding get
idle-IsSupervised = record {
  distinct = tt;
  limits = λ name m e. cc;
  configured = λ name m a e f. cc;
}

abbrev failure : AgentStateUpdate
failure = record {
  name = "writer";
  status = AgentStatus.error;
  error = some "crashed";
  tokens_delta = 0;
  log = none;
  pid = none;
}

abbrev events : List Event
events =
    start_command a_host 1 "writer"
    ∷ updated 2 failure
    ∷ polled a_host 5000
    ∷ restart_command a_host 4 "writer"
    ∷ updated 5 failure
    ∷ polled a_host 9000
    ∷ []

-- The first poll restarts `writer`, and the command starts the count afresh.
own_restarts-bounded_example :
    own_restarts "writer" 0 events idle ≤ (an_agent_config "writer" true).max_restarts
own_restarts-bounded_example =
    own_restarts-bounded "writer" (an_agent_config "writer" true) events idle
      (tt, (refl, (tt, (tt, (refl, (tt, tt)))))) idle-IsSupervised
      (unfold find_agent str_eq in refl)
