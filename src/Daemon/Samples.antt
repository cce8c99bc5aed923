-- ===== src/Daemon/Samples.antt =====
-- Small concrete values of the daemon.
use zeptopm.Base.{String, Bool, true, false, none, some, [], ◌∷◌, inl}
use zeptopm.Engine.{Engine}
use zeptopm.Config.{AgentConfig, Config, default_daemon}
use zeptopm.Agent.{AgentStatus}
use zeptopm.Daemon.World.{InternalAgent, World, Host, new_state}

abbrev pub an_agent_config : String → Bool → AgentConfig
an_agent_config name auto = record {
  name = name;
  provider = "p";
  model = none;
  system_prompt = none;
  tools = [];
  auto_start = auto;
  max_restarts = 3;
  restart_backoff_ms = 100;
  max_iterations = none;
  timeout_ms = none;
  budget = none;
  gateway = none;
  session_persist = false;
  max_history = none;
  memory_mib = none;
  max_pids = none;
  timeout_sec = none;
}

abbrev pub a_config : Config
a_config = record {
  daemon = record default_daemon { run_ttl_days = 1 };
  agents = an_agent_config "writer" true ∷ an_agent_config "reader" false ∷ [];
  providers = [];
}

-- Every file holds the same text, which is no plan.
abbrev pub a_host : Host
a_host = record {
  has_capsule = false;
  sandbox_override = none;
  env_var = λ v. none;
  read_to_string = λ path. some "the answer";
  can_write = λ path. true;
  chat = λ name message. some "done";
  parse_plan = λ json_str. inl "not a plan";
  texts = record {
    to_lowercase = λ s. s;
    to_uppercase = λ s. s;
    from_str = λ s. none;
    is_json = λ s. false;
  };
}

abbrev pub a_worker : String → AgentStatus → InternalAgent
a_worker name status = record {
  handle = record { name = name };
  state = new_state name status 1;
  max_restarts = 3;
  restart_backoff_ms = 100;
  restart_at = none;
  gateway = none;
  supports_direct_chat = true;
}

-- The agent `writer` and the worker of the job `b`.
abbrev pub a_world : Engine → World
a_world e = record {
  engine = e;
  counter = 0;
  managed =
      ("writer", a_worker "writer" AgentStatus.running)
      ∷ ("__job_b", a_worker "writer" AgentStatus.running)
      ∷ [];
  shared = [];
  config = a_config;
  events = [];
  effects = [];
}
