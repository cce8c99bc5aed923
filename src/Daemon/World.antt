-- ===== src/Daemon/World.antt =====
-- src/daemon.rs: what the loop of `run` owns, and what it does to the world outside. Time is an
-- `Instant`; the handle of an agent is its name, and what is sent to it is an effect.
use zeptopm.Base.{
  ℕ, String, Bool, true, if◌then◌else◌, Option, none, some, List, [], ◌∷◌, ◌++◌, Map, insert,
  str_eq, ◌⊎◌,
}
use zeptopm.Types.{RunId, Time, Artifact, ExecutionPlan}
use zeptopm.Store.{RunStore}
use zeptopm.Engine.{Engine}
use zeptopm.Json.{Json}
use zeptopm.Config.{AgentConfig, Config, GatewayConfig, resolve_api_key}
use zeptopm.Review.{Texts}
use zeptopm.Server.{ResolvedGatewayConfig}
use zeptopm.Agent.{AgentHandle, AgentState, AgentStatus, AgentCommand}

pub record InternalAgent : Type 0 where
  pub handle : AgentHandle
  pub state : AgentState
  pub max_restarts : ℕ
  pub restart_backoff_ms : ℕ
  pub restart_at : Option Time
  pub gateway : Option ResolvedGatewayConfig
  pub supports_direct_chat : Bool

-- src/server.rs: what the HTTP handlers see of an agent.
pub record ManagedAgentRef : Type 0 where
  pub handle : AgentHandle
  pub state : AgentState
  pub gateway : Option ResolvedGatewayConfig

-- What the loop does outside, with a worker named by its key in `managed`.
pub data Effect : Type 0 where
  spawn : String → Effect
  send : String → AgentCommand → Effect
  persist_run_state : RunId → RunStore → Effect
  persist_artifact : Artifact → Effect
  delete_run : RunId → Effect
  remove_file : String → Effect

pub record World : Type 0 where
  pub engine : Engine
  -- The counter of `gen_id`.
  pub counter : ℕ
  pub managed : Map InternalAgent
  pub shared : Map ManagedAgentRef
  pub config : Config
  -- The events that wait in the orchestrator's channel.
  pub events : List Json
  pub effects : List Effect

-- What the loop asks of the system: how it was built and called, the environment, files, whether a
-- file can be written, an answer of a worker in time, and the crate `serde_json` on a plan.
pub record Host : Type 0 where
  pub has_capsule : Bool
  pub sandbox_override : Option Bool
  pub env_var : String → Option String
  pub read_to_string : String → Option String
  pub can_write : String → Bool
  pub chat : String → String → Option String
  pub parse_plan : String → String ⊎ ExecutionPlan
  pub texts : Texts

abbrev pub emit : Effect → World → World
emit effect w = record w { effects = w.effects ++ effect ∷ [] }

abbrev pub sync_agent_to_shared : String → InternalAgent → World → World
sync_agent_to_shared name internal w = record w {
  shared =
      insert name
        (record { handle = internal.handle; state = internal.state; gateway = internal.gateway })
        w.shared;
}

abbrev resolve_gateway : Host → Option GatewayConfig → Option ResolvedGatewayConfig
resolve_gateway host none = none
resolve_gateway host (some gw) = some (record {
  enabled = gw.enabled;
  api_key = resolve_api_key host.env_var gw.api_key;
  rate_limit = gw.rate_limit;
})

abbrev pub new_state : String → AgentStatus → Time → AgentState
new_state name status now = record {
  name = name;
  status = status;
  restart_count = 0;
  started_at = some now;
  last_error = none;
  messages_handled = 0;
  tokens_used = 0;
  logs = [];
  pid = none;
}

-- The agent as it is started; the process is started by an effect.
unfoldable pub spawn_managed_agent : Host → Time → AgentConfig → InternalAgent
spawn_managed_agent host now agent_config = record {
  handle = record { name = agent_config.name };
  state = new_state agent_config.name AgentStatus.starting now;
  max_restarts = agent_config.max_restarts;
  restart_backoff_ms = agent_config.restart_backoff_ms;
  restart_at = none;
  gateway = resolve_gateway host agent_config.gateway;
  supports_direct_chat = true;
}

-- `agents.iter().find(|a| a.name == name)`
unfoldable pub find_agent : String → List AgentConfig → Option AgentConfig
find_agent name [] = none
find_agent name (a ∷ agents) = if str_eq a.name name then some a else find_agent name agents
