-- ===== src/Daemon/Supervision.antt =====
-- src/daemon.rs: the supervision of agents, by their updates, the commands to start and restart
-- them, the poll that restarts them, and the change of the configuration.
pub mod Entries
pub mod Limits
pub mod Restarts
mod Tests
pub mod Reload
use zeptopm.Base.{
  ℕ, ◌+◌, ◌*◌, ◌%◌, ◌^◌, String, Bool, true, false, not, ◌&&◌, ◌||◌, if◌then◌else◌, ltb, leb,
  Option, none, some, List, [], ◌∷◌, ◌++◌, map, filter, Map, get, insert, modify, remove,
  contains_key, keys, contains, is_some, is_some_and, format, u64_mod, ◌⊎◌, inl, inr,
}
use zeptopm.Types.{Time}
use zeptopm.Config.{AgentConfig, Config}
use zeptopm.Agent.{
  AgentStatus, AgentState, AgentStateUpdate, LogEntry, agent_status_eq, show_status, stop,
}
use zeptopm.Worker.{push_log}
use zeptopm.Daemon.World.{
  InternalAgent, ManagedAgentRef, World, Host, emit, spawn, send, sync_agent_to_shared,
  spawn_managed_agent, find_agent,
}

abbrev or_before : {A : Type 0} → Option A → Option A → Option A
or_before (some a) before = some a
or_before none before = before

abbrev add_log : Option LogEntry → List LogEntry → List LogEntry
add_log none logs = logs
add_log (some entry) logs = push_log logs entry

-- The state with the update written in.
unfoldable pub update_state : AgentStateUpdate → AgentState → AgentState
update_state u s = record s {
  tokens_used = s.tokens_used + u.tokens_delta;
  status = u.status;
  last_error = or_before u.error s.last_error;
  pid = or_before u.pid s.pid;
  logs = add_log u.log s.logs;
}

-- The wait before a restart, as a release build computes it.
abbrev pub backoff_ms : InternalAgent → ℕ
backoff_ms m = (m.restart_backoff_ms * (2 ^ m.state.restart_count % u64_mod)) % u64_mod

abbrev pub has_ended : AgentStatus → Bool
has_ended status =
    agent_status_eq status AgentStatus.stopped || agent_status_eq status AgentStatus.error

-- A restart is scheduled for an agent that has ended, while restarts remain.
unfoldable pub schedule_restart : Time → AgentStatus → InternalAgent → InternalAgent
schedule_restart now status m =
    if has_ended status && ltb m.state.restart_count m.max_restarts
    then record m {
      state = record m.state { status = AgentStatus.restart_pending };
      restart_at = some (now + backoff_ms m);
    }
    else m

-- An update of an agent that is not managed is dropped.
unfoldable pub on_state_update : Time → AgentStateUpdate → World → World
unfolding update_state schedule_restart
on_state_update now u w = elim (get u.name w.managed) [
  | none ↦ w
  | some m ↦
      let m' = record m { state = update_state u m.state } in
      record w {
        managed = insert u.name (schedule_restart now u.status m') w.managed;
        shared = modify u.name (λ (r : ManagedAgentRef). record r { state = m'.state }) w.shared;
      }
]

abbrev pub forget : String → World → World
forget name w = record w { managed = remove name w.managed; shared = remove name w.shared }

-- A fresh agent with a number of restarts behind it.
abbrev pub restarted : Host → Time → ℕ → AgentConfig → InternalAgent
restarted host now restarts agent_config =
    let fresh = spawn_managed_agent host now agent_config in
    record fresh { state = record fresh.state { restart_count = restarts } }

-- The agent is started from its configuration, if it is there, with a number of restarts.
abbrev pub launch : Host → Time → ℕ → String → AgentConfig → World → World
launch host now restarts name agent_config w =
    let internal = restarted host now restarts agent_config in
    let w' = sync_agent_to_shared name internal (emit (spawn name) w) in
    record w' { managed = insert name internal w'.managed }

abbrev pub launch_by_command : Host → Time → String → String → World → World × (String ⊎ String)
launch_by_command host now done name w = elim (find_agent name w.config.agents) [
  | some agent_config ↦
      (launch host now 0 name agent_config w, inr (format ("agent '" ∷ name ∷ "' " ∷ done ∷ [])))
  | none ↦ (w, inl (format ("agent '" ∷ name ∷ "' not found in config" ∷ [])))
]

-- `DaemonCommand::Start`: the new state, and the reply.
unfoldable pub start_agent : Host → Time → String → World → World × (String ⊎ String)
start_agent host now name w = elim (get name w.managed) [
  | none ↦ launch_by_command host now "started" name w
  | some m ↦
      if has_ended m.state.status
      then launch_by_command host now "started" name (forget name w)
      else (w, inl (format ("agent '" ∷ name ∷ "' is already " ∷ show_status m.state.status ∷ [])))
]

-- `DaemonCommand::Restart`
unfoldable pub restart_agent : Host → Time → String → World → World × (String ⊎ String)
restart_agent host now name w = elim (get name w.managed) [
  | none ↦ launch_by_command host now "restarted" name w
  | some m ↦ launch_by_command host now "restarted" name (forget name (emit (send name stop) w))
]

abbrev pub is_due : Time → InternalAgent → Bool
is_due now m =
    agent_status_eq m.state.status AgentStatus.restart_pending
    && is_some_and (λ t. leb t now) m.restart_at

abbrev restarts_of : Option InternalAgent → ℕ
restarts_of none = 0
restarts_of (some m) = m.state.restart_count

-- One name of the poll's list of agents that need restarting.
unfoldable pub restart_due : Host → Time → String → World → World
restart_due host now name w = elim (find_agent name w.config.agents) [
  | none ↦ w
  | some agent_config ↦
      let restart_count = restarts_of (get name w.managed) in
      launch host now (restart_count + 1) name agent_config
        (record w { managed = remove name w.managed })
]

unfoldable pub restart_all : Host → Time → List String → World → World
restart_all host now [] w = w
restart_all host now (name ∷ names) w = restart_all host now names (restart_due host now name w)

abbrev pub due_names : Time → Map InternalAgent → List String
due_names now managed =
    map (λ (e : String × InternalAgent). e.0)
      (filter (λ (e : String × InternalAgent). is_due now e.1) managed)

unfoldable pub poll_restarts : Host → Time → World → World
unfolding restart_all
poll_restarts host now w = restart_all host now (due_names now w.managed) w

abbrev pub auto_names : List AgentConfig → List String
auto_names agents =
    map (λ (a : AgentConfig). a.name) (filter (λ (a : AgentConfig). a.auto_start) agents)

-- An agent that is not to run any more is stopped.
unfoldable pub stop_agent : String → World → World
stop_agent name w = if contains_key name w.managed then forget name (emit (send name stop) w) else w

unfoldable pub stop_agents : List String → World → World
stop_agents [] w = w
stop_agents (name ∷ names) w = stop_agents names (stop_agent name w)

unfoldable pub add_agent : Host → Time → AgentConfig → World → World
add_agent host now a w =
    if not a.auto_start
    then w
    else if contains_key a.name w.managed
    then w
    else launch host now 0 a.name a w

unfoldable pub add_agents : Host → Time → List AgentConfig → World → World
add_agents host now [] w = w
add_agents host now (a ∷ agents) w = add_agents host now agents (add_agent host now a w)

-- `running_names.difference(&new_names)`
abbrev pub names_to_remove : List AgentConfig → Map InternalAgent → List String
names_to_remove agents managed =
    filter (λ name. not (contains name (auto_names agents))) (keys managed)

unfoldable pub apply_config_changes : Host → Time → Config → World → World
unfolding stop_agents stop_agent add_agents add_agent
apply_config_changes host now new_config w =
    add_agents host now new_config.agents
      (stop_agents (names_to_remove new_config.agents w.managed) w)
