-- ===== src/Server/Handlers.antt =====
-- src/server.rs: the handlers that look at the shared state, and those that ask the daemon. What
-- becomes of a command in the daemon's channel is a `Reply`; an error is a status code and a text.
pub mod Results
mod Tests
use zeptopm.Base.{
  ℕ, ◌-◌, ◌/◌, String, Bool, not, ◌&&◌, ◌||◌, if◌then◌else◌, Option, none, some, List, [], ◌∷◌, map,
  filter, Map, get, modify, values, length, map_option, format, ◌⊎◌, inl, inr,
}
use zeptopm.Types.{Time}
use zeptopm.Agent.{
  AgentState, AgentStatus, LogEntry, AgentCommand, stop, show_status, agent_status_eq,
}
use zeptopm.Daemon.World.{ManagedAgentRef}
use zeptopm.Daemon.Queries.{RunStatusData, RunResultData, RunInfo, Metrics}
use zeptopm.Server.Gateway.{DaemonState}

pub data DaemonCommand : Type 0 where
  start : String → DaemonCommand
  restart : String → DaemonCommand
  submit_run : String → DaemonCommand
  get_run_status : String → DaemonCommand
  list_runs : DaemonCommand
  get_run_result : String → DaemonCommand
  cancel_run : String → DaemonCommand
  get_metrics : DaemonCommand

pub record AgentInfo : Type 0 where
  pub name : String
  pub status : String
  pub restart_count : ℕ
  pub tokens_used : ℕ
  pub messages_handled : ℕ
  pub uptime_secs : Option ℕ
  pub last_error : Option String
  pub pid : Option ℕ

unfoldable pub agent_to_info : Time → String → AgentState → AgentInfo
agent_to_info now name state = record {
  name = name;
  status = show_status state.status;
  restart_count = state.restart_count;
  tokens_used = state.tokens_used;
  messages_handled = state.messages_handled;
  uptime_secs = map_option (λ t. (now - t) / 1000) state.started_at;
  last_error = state.last_error;
  pid = state.pid;
}

abbrev pub Response : Type 0 → Type 0
Response A = (ℕ × String) ⊎ A

-- The code of an answer that is no error is 200.
abbrev pub code_of : {A : Type 0} → Response A → ℕ
code_of (inl (code, error)) = code
code_of (inr body) = 200

abbrev pub no_agent : String → ℕ × String
no_agent name = (404, format ("agent '" ∷ name ∷ "' not found" ∷ []))

abbrev pub get_status : Time → DaemonState → List AgentInfo
get_status now s = map (λ (e : String × ManagedAgentRef). agent_to_info now e.0 e.1.state) s.agents

unfoldable pub get_agent_status : Time → DaemonState → String → Response AgentInfo
get_agent_status now s name = elim (get name s.agents) [
  | some m ↦ inr (agent_to_info now name m.state)
  | none ↦ inl (no_agent name)
]

unfoldable pub get_agent_logs : DaemonState → String → Response (String × List LogEntry)
get_agent_logs s name = elim (get name s.agents) [
  | some m ↦ inr (name, m.state.logs)
  | none ↦ inl (no_agent name)
]

-- `chat` is the agent's answer to the message.
unfoldable pub post_chat :
    (String → String ⊎ String) → DaemonState → String → String → Response (String × String)
post_chat chat s name message = elim (get name s.agents) [
  | none ↦ inl (no_agent name)
  | some m ↦ elim (chat message) [ inr content ↦ inr (name, content) | inl e ↦ inl (500, e) ]
]

abbrev set_stopped : ManagedAgentRef → ManagedAgentRef
set_stopped m = record m { state = record m.state { status = AgentStatus.stopped } }

-- What a handler leaves: the answer, the commands sent to agents, and the shared state.
pub record Handled (A : Type 0) : Type 0 where
  pub answer : Response A
  pub sent : List (String × AgentCommand)
  pub state : DaemonState

-- The lock is given back while the signal is sent: `s'` is the state when it is taken again.
unfoldable pub post_stop : DaemonState → DaemonState → String → Handled String
post_stop s s' name = elim (get name s.agents) [
  | none ↦ record { answer = inl (no_agent name); sent = []; state = s }
  | some m ↦ record {
    answer = inr (format ("agent '" ∷ name ∷ "' stop signal sent" ∷ []));
    sent = (m.handle.name, stop) ∷ [];
    state = record s' { agents = modify name set_stopped s'.agents };
  }
]

-- The daemon's channel is closed, the sender of the reply is dropped, or the daemon replies.
pub data Reply (A : Type 0) : Type 0 where
  closed : Reply A
  dropped : Reply A
  replied : A → Reply A

-- How the handlers hand a reply on: the code for an error of the daemon's, and the text for a
-- channel that is closed.
abbrev pub relay : {A : Type 0} → ℕ → String → Reply (String ⊎ A) → Response A
relay code gone closed = inl (500, gone)
relay code gone dropped = inl (500, "daemon did not reply")
relay code gone (replied (inl e)) = inl (code, e)
relay code gone (replied (inr body)) = inr body

-- A daemon is asked by a command.
abbrev pub Asked : Type 0 → Type 0
Asked A = DaemonCommand → Reply (String ⊎ A)

abbrev is_over : AgentStatus → Bool
is_over status =
    agent_status_eq status AgentStatus.stopped || agent_status_eq status AgentStatus.error

unfoldable pub post_start : Asked String → DaemonState → String → Response String
post_start ask s name =
    let asked = relay 400 "daemon command channel closed" (ask (start name)) in
    elim (get name s.agents) [
      | none ↦ asked
      | some m ↦
          if not (is_over m.state.status)
          then inl
              (409, format ("agent '" ∷ name ∷ "' is already " ∷ show_status m.state.status ∷ []))
          else asked
    ]

abbrev pub post_restart : Asked String → String → Response String
post_restart ask name = relay 400 "daemon command channel closed" (ask (restart name))

abbrev pub post_run_submit : Asked String → String → Response String
post_run_submit ask task = relay 400 "daemon channel closed" (ask (submit_run task))

abbrev pub get_run_status_handler : Asked RunStatusData → String → Response RunStatusData
get_run_status_handler ask id = relay 404 "daemon channel closed" (ask (get_run_status id))

abbrev pub get_runs_list : Asked (List RunInfo) → Response (List RunInfo)
get_runs_list ask = relay 500 "daemon channel closed" (ask list_runs)

abbrev pub get_run_result_handler : Asked RunResultData → String → Response RunResultData
get_run_result_handler ask id = relay 404 "daemon channel closed" (ask (get_run_result id))

abbrev pub post_run_cancel : Asked String → String → Response String
post_run_cancel ask id = relay 404 "daemon channel closed" (ask (cancel_run id))

-- The error is an answer like any other here; that the channel is closed drops the sender.
abbrev pub get_metrics_handler : (DaemonCommand → Reply Metrics) → String ⊎ Metrics
get_metrics_handler ask = elim (ask get_metrics) [
  | closed ↦ inl "daemon did not reply"
  | dropped ↦ inl "daemon did not reply"
  | replied metrics ↦ inr metrics
]

-- The number of agents in the answer of `/health`.
abbrev pub get_health : DaemonState → ℕ
get_health s = length (
    filter
      (λ (m : ManagedAgentRef).
        agent_status_eq m.state.status AgentStatus.running
        || agent_status_eq m.state.status AgentStatus.idle)
      (values s.agents))
