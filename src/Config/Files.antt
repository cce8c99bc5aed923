-- ===== src/Config/Files.antt =====
-- src/config.rs: what is read from the configuration's file and from the paths in it, and how a change
-- is noticed; src/provider.rs, `create_provider`, and src/llm.rs, `resolve_base_url`. Files, the home
-- directory, the parser of the crate `toml`, the hasher of the standard library and the providers of
-- the crate `zeptoclaw` are not of this repository.
use zeptopm.Base.{
  ℕ, ◌==◌, String, Bool, ◌&&◌, ◌||◌, true, false, if◌then◌else◌, Option, none, some, List, [], ◌∷◌,
  ◌++◌, get, flat_map, unwrap_or, map_option, str_eq, format, path_join, ◌⊎◌, inl, inr,
}
use Prim.Native.Char.{code}
use zeptopm.Config.{AgentConfig, Config, ProviderConfig, resolve_api_key}

abbrev default_provider : String
default_provider = "openrouter"

abbrev default_max_restarts : ℕ
default_max_restarts = 5

abbrev default_restart_backoff : ℕ
default_restart_backoff = 10000

-- An agent of which the file says only the name: what `serde` fills in.
abbrev pub default_agent : String → AgentConfig
default_agent name = record {
  name = name;
  provider = default_provider;
  model = none;
  system_prompt = none;
  tools = [];
  auto_start = true;
  max_restarts = default_max_restarts;
  restart_backoff_ms = default_restart_backoff;
  max_iterations = none;
  timeout_ms = none;
  budget = none;
  gateway = none;
  session_persist = true;
  max_history = none;
  memory_mib = none;
  max_pids = none;
  timeout_sec = none;
}

pub data ConfigError : Type 0 where
  file_not_found : String → String → ConfigError
  parse_error : String → ConfigError

abbrev pub show_config_error : ConfigError → String
show_config_error (file_not_found path err) =
    format ("config file '" ∷ path ∷ "' not found: " ∷ err ∷ [])
show_config_error (parse_error err) = format ("config parse error: " ∷ err ∷ [])

-- `read` is `std::fs::read_to_string` and `from_str` the function of `toml`, errors as texts.
unfoldable pub load_config :
    (String → String ⊎ String) → (String → String ⊎ Config) → String → ConfigError ⊎ Config
load_config read from_str path = elim (read path) [
  | inl e ↦ inl (file_not_found path e)
  | inr content ↦ elim (from_str content) [ inl e ↦ inl (parse_error e) | inr config ↦ inr config ]
]

-- `dir.trim_start_matches("~/")`
unfoldable pub trim_home : String → String
trim_home String.[] = String.[]
trim_home (String.◌∷◌ c String.[]) = String.◌∷◌ c String.[]
trim_home (String.◌∷◌ c (String.◌∷◌ d s)) =
    let rest = trim_home s in
    if code c == b'~' && code d == b'/' then rest else String.◌∷◌ c (String.◌∷◌ d s)

abbrev starts_with_tilde : String → Bool
starts_with_tilde String.[] = false
starts_with_tilde (String.◌∷◌ c s) = code c == b'~'

unfoldable pub resolve_sessions_dir : Option String → Config → String
resolve_sessions_dir home config = elim config.daemon.sessions_dir [
  | some dir ↦
      if starts_with_tilde dir
      then unwrap_or (map_option (λ h. path_join h (trim_home dir)) home) dir
      else dir
  | none ↦ path_join (path_join (unwrap_or home ".") ".zeptopm") "sessions"
]

unfoldable pub session_file : Option String → Config → String → String
session_file home config agent_name =
    path_join (resolve_sessions_dir home config) (format (agent_name ∷ ".json" ∷ []))

-- What is handed to the hasher, in the order of the source.
pub data Hashed : Type 0 where
  a_text : String → Hashed
  a_text_option : Option String → Hashed
  texts : List String → Hashed
  a_number : ℕ → Hashed
  a_number_option : Option ℕ → Hashed
  a_flag : Bool → Hashed
  a_flag_option : Option Bool → Hashed

abbrev agent_items : AgentConfig → List Hashed
agent_items a =
    a_text a.name
    ∷ a_text a.provider
    ∷ a_text_option a.model
    ∷ a_text_option a.system_prompt
    ∷ texts a.tools
    ∷ a_flag a.auto_start
    ∷ a_number a.max_restarts
    ∷ a_number_option a.max_iterations
    ∷ a_number_option a.timeout_ms
    ∷ []

abbrev hashed_items : Config → List Hashed
hashed_items config =
    let d = config.daemon in
    (a_text d.isolation
      ∷ a_text_option d.worker_binary
      ∷ a_text_option d.zeptoclaw_binary
      ∷ a_number d.run_ttl_days
      ∷ a_text_option d.security
      ∷ a_flag_option d.cgroup_required
      ∷ a_number d.max_revisions
      ∷ [])
    ++ flat_map agent_items config.agents

-- `finish` is the standard library's hasher on what it has been handed.
unfoldable pub config_hash : (List Hashed → ℕ) → Config → ℕ
config_hash finish config = finish (hashed_items config)

pub data Provider : Type 0 where
  claude_provider : String → Provider
  open_ai_provider : String → Option String → Provider

abbrev default_url : String → String
default_url name =
    if str_eq name "openrouter"
    then "https://openrouter.ai/api/v1"
    else if str_eq name "groq"
    then "https://api.groq.com/openai/v1"
    else if str_eq name "together"
    then "https://api.together.xyz/v1"
    else format ("https://" ∷ name ∷ ".api.example.com/v1" ∷ [])

abbrev provider_key : (String → Option String) → Option ProviderConfig → Option String
provider_key env_var none = none
provider_key env_var (some p) = resolve_api_key env_var p.api_key

abbrev base_url_of : Option ProviderConfig → Option String
base_url_of none = none
base_url_of (some p) = p.base_url

abbrev provider_of : String → String → Option String → Provider
provider_of name api_key base_url =
    if str_eq name "anthropic" || str_eq name "claude"
    then claude_provider api_key
    else if str_eq name "openai"
    then open_ai_provider api_key base_url
    else open_ai_provider api_key (some (unwrap_or base_url (default_url name)))

unfoldable pub create_provider : (String → Option String) → AgentConfig → Config → String ⊎ Provider
create_provider env_var agent_config config =
    let provider_config = get agent_config.provider config.providers in
    elim (provider_key env_var provider_config) [
      | none ↦ inl (format ("no API key for provider '" ∷ agent_config.provider ∷ "'" ∷ []))
      | some api_key ↦ inr (provider_of agent_config.provider api_key (base_url_of provider_config))
    ]

unfoldable pub resolve_base_url : Option ProviderConfig → String → String
resolve_base_url provider_config name = unwrap_or (base_url_of provider_config) (
    if str_eq name "openrouter"
    then "https://openrouter.ai/api/v1"
    else if str_eq name "openai"
    then "https://api.openai.com/v1"
    else if str_eq name "anthropic"
    then "https://api.anthropic.com/v1"
    else format ("https://" ∷ name ∷ ".api.example.com/v1" ∷ []))
