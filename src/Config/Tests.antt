-- ===== src/Config/Tests.antt =====
-- src/config.rs: the theorems at concrete inputs.
use zeptopm.Base.{◌≡◌, refl, [], ◌∷◌, none, some, true, is_blank, contains, get, str_eq}
use zeptopm.Planner.{duplicate_errors}
use zeptopm.Config.{AgentConfig, Config, default_daemon, validate_config, agent_errors}

abbrev an_agent : AgentConfig
an_agent = record {
  name = "writer";
  provider = "openrouter";
  model = none;
  system_prompt = none;
  tools = [];
  auto_start = true;
  max_restarts = 5;
  restart_backoff_ms = 10000;
  max_iterations = some 3;
  timeout_ms = none;
  budget = none;
  gateway = none;
  session_persist = true;
  max_history = none;
  memory_mib = none;
  max_pids = none;
  timeout_sec = none;
}

abbrev a_config : Config
a_config = record { daemon = default_daemon; agents = an_agent ∷ []; providers = [] }

a_config_passes : validate_config a_config ≡ []
unfolding validate_config is_blank contains str_eq agent_errors get duplicate_errors
a_config_passes = refl
