-- ===== src/Agent.antt =====
-- src/agent.rs: an agent's state, the commands that its handle sends, and the updates that its bridge
-- reports. A `u64` total and a process id are natural numbers; a handle is its name.
pub mod Bridge
mod Tests
use zeptopm.Base.{ℕ, String, Bool, true, false, Option, none, some, List}
use zeptopm.Types.{JobId, ChannelId, Time}

pub data AgentStatus : Type 0 where
  starting running idle error stopped restart_pending : AgentStatus

pub record LogEntry : Type 0 where
  pub timestamp : String
  pub level : String
  pub message : String

pub record AgentState : Type 0 where
  pub name : String
  pub status : AgentStatus
  pub restart_count : ℕ
  pub started_at : Option Time
  pub last_error : Option String
  pub messages_handled : ℕ
  pub tokens_used : ℕ
  pub logs : List LogEntry
  pub pid : Option ℕ

-- The `Display` of a status.
abbrev pub show_status : AgentStatus → String
show_status AgentStatus.starting = "starting"
show_status AgentStatus.running = "running"
show_status AgentStatus.idle = "idle"
show_status AgentStatus.error = "error"
show_status AgentStatus.stopped = "stopped"
show_status AgentStatus.restart_pending = "restart-pending"

abbrev pub agent_status_eq : AgentStatus → AgentStatus → Bool
agent_status_eq AgentStatus.starting AgentStatus.starting = true
agent_status_eq AgentStatus.running AgentStatus.running = true
agent_status_eq AgentStatus.idle AgentStatus.idle = true
agent_status_eq AgentStatus.error AgentStatus.error = true
agent_status_eq AgentStatus.stopped AgentStatus.stopped = true
agent_status_eq AgentStatus.restart_pending AgentStatus.restart_pending = true
agent_status_eq _ _ = false

-- A message may carry the sender of a one-shot channel, which is named by a number.
pub data AgentCommand : Type 0 where
  user_message : String → Option ℕ → AgentCommand
  channel_message : ChannelId → String → AgentCommand
  job_execute : JobId → String → String → List String → AgentCommand
  stop : AgentCommand

pub record AgentHandle : Type 0 where
  pub name : String

pub record AgentStateUpdate : Type 0 where
  pub name : String
  pub status : AgentStatus
  pub error : Option String
  pub tokens_delta : ℕ
  pub log : Option LogEntry
  pub pid : Option ℕ

unfoldable pub make_log : String → String → String → LogEntry
make_log now level message = record { timestamp = now; level = level; message = message }
