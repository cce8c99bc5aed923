-- ===== src/Config.antt =====
-- src/config.rs: the configuration and its validation. The file is parsed by the crate `toml`; the
-- environment and the home directory are arguments. An `f64` is the text of its literal: no code
-- computes with it.
pub mod Validation
pub mod Files
mod Tests
use zeptopm.Base.{
  ℕ, suc, ◌==◌, String, Bool, true, false, not, ◌&&◌, ◌||◌, if◌then◌else◌, Option, none, some, List,
  [], ◌∷◌, ◌++◌, map, Map, contains_key, is_empty, is_some_and, str_eq, is_blank, format, show_nat,
}
use Prim.Native.Char.{code}
use zeptopm.Planner.{push_if, duplicate_errors}

pub record DaemonConfig : Type 0 where
  pub poll_interval_ms : ℕ
  pub log_level : String
  pub log_format : String
  pub bind : Option String
  pub sessions_dir : Option String
  pub max_revisions : ℕ
  pub isolation : String
  pub worker_binary : Option String
  pub zeptoclaw_binary : Option String
  pub run_ttl_days : ℕ
  pub security : Option String
  pub cgroup_required : Option Bool

pub record BudgetConfig : Type 0 where
  pub token_limit : Option ℕ
  pub cost_limit_usd : Option String

pub record GatewayConfig : Type 0 where
  pub enabled : Bool
  pub api_key : Option String
  pub rate_limit : Option ℕ

pub record ProviderConfig : Type 0 where
  pub api_key : Option String
  pub base_url : Option String

pub record AgentConfig : Type 0 where
  pub name : String
  pub provider : String
  pub model : Option String
  pub system_prompt : Option String
  pub tools : List String
  pub auto_start : Bool
  pub max_restarts : ℕ
  pub restart_backoff_ms : ℕ
  pub max_iterations : Option ℕ
  pub timeout_ms : Option ℕ
  pub budget : Option BudgetConfig
  pub gateway : Option GatewayConfig
  pub session_persist : Bool
  pub max_history : Option ℕ
  pub memory_mib : Option ℕ
  pub max_pids : Option ℕ
  pub timeout_sec : Option ℕ

pub record Config : Type 0 where
  pub daemon : DaemonConfig
  pub agents : List AgentConfig
  pub providers : Map ProviderConfig

-- `impl Default for DaemonConfig`
abbrev pub default_daemon : DaemonConfig
default_daemon = record {
  poll_interval_ms = 5000;
  log_level = "info";
  log_format = "pretty";
  bind = none;
  sessions_dir = none;
  max_revisions = 3;
  isolation = "none";
  worker_binary = none;
  zeptoclaw_binary = none;
  run_ttl_days = 0;
  security = none;
  cgroup_required = none;
}

-- `agents[i] 'name': message`
abbrev agent_error : ℕ → AgentConfig → List String → String
agent_error i agent message = format ("agents[" ∷ show_nat i ∷ "] '" ∷ agent.name ∷ "': " ∷ message)

unfoldable pub agent_errors : Map ProviderConfig → ℕ → AgentConfig → List String
agent_errors providers i agent =
    push_if (is_blank agent.name)
      (format ("agents[" ∷ show_nat i ∷ "]: name must not be empty" ∷ []))
    ++ (push_if (is_blank agent.provider) (agent_error i agent ("provider must not be empty" ∷ []))
        ++ (push_if (is_some_and (λ max. max == 0) agent.max_iterations)
              (agent_error i agent ("max_iterations must be > 0" ∷ []))
            ++ push_if (not (contains_key agent.provider providers) && not (is_empty providers)) (
                agent_error i agent
                  ("provider '" ∷ agent.provider ∷ "' not defined in [providers.*]" ∷ []))))

unfoldable pub agents_errors : Map ProviderConfig → ℕ → List AgentConfig → List String
agents_errors providers i [] = []
agents_errors providers i (agent ∷ agents) =
    agent_errors providers i agent ++ agents_errors providers (suc i) agents

abbrev pub is_known_isolation : String → Bool
is_known_isolation s =
    str_eq s "none" || (str_eq s "capsule" || (str_eq s "process" || str_eq s "namespace"))

isolation_errors : String → List String
isolation_errors s = push_if (not (is_known_isolation s)) (
    format (
      "daemon.isolation: unknown value '" ∷ s
      ∷ "' (expected \"none\", \"process\", \"namespace\", or \"capsule\")" ∷ []))

-- The errors of a configuration, in the order of the source.
unfoldable pub validate_config : Config → List String
unfolding agents_errors isolation_errors
validate_config config =
    agents_errors config.providers 0 config.agents
    ++ (duplicate_errors "duplicate agent name: '" []
          (map (λ (a : AgentConfig). a.name) config.agents)
        ++ isolation_errors config.daemon.isolation)

-- `key.strip_prefix('$')`
abbrev pub strip_dollar : String → Option String
strip_dollar String.[] = none
strip_dollar (String.◌∷◌ c s) = if code c == b'$' then some s else none

abbrev non_empty : Option String → Option String
non_empty none = none
non_empty (some v) = if str_eq v "" then none else some v

-- The key as it is, or the value of the environment variable that it names behind `$`; `env_var` is
-- `std::env::var`.
unfoldable pub resolve_key : (String → Option String) → String → Option String
resolve_key env_var key = elim (strip_dollar key) [
  | some env_name ↦ non_empty (env_var env_name)
  | none ↦ some key
]

-- `resolve_api_key` of `GatewayConfig` and of `ProviderConfig`.
abbrev pub resolve_api_key : (String → Option String) → Option String → Option String
resolve_api_key env_var none = none
resolve_api_key env_var (some key) = resolve_key env_var key
