-- ===== src/Worker/Startup.antt =====
-- src/worker.rs, `run`: how the process starts, or fails to, and then serves its lines.
pub mod Answers
mod Tests
use zeptopm.Base.{
  ℕ, zero, suc, String, Bool, true, false, not, if◌then◌else◌, Option, none, some, List, [], ◌∷◌,
  ◌++◌, filter_map, flat_map, get, length, str_eq, unwrap_or, map_option, format, show_nat,
  take_chars, is_empty, ◌⊎◌, inl, inr,
}
use zeptopm.Types.{JobId}
use zeptopm.Json.{Json, Field, text, array, flag, number, get_str, str_or_empty, get_texts}
use zeptopm.Config.{AgentConfig, Config}
use zeptopm.Config.Files
use zeptopm.Config.Files.{ConfigError, show_config_error, Provider, create_provider, session_file}
use zeptopm.Daemon.World.{find_agent}
use zeptopm.Worker.Process.{
  Output, message, Line, Session, send_error, send_log, send_status, serve,
}

-- What the builder of the agent is given.
pub record Built (M : Type 0) : Type 0 where
  pub provider : Provider
  pub system_prompt : Option String
  pub model : Option String
  pub max_iterations : Option ℕ
  pub history : List M

-- What the process finds when it starts: the configuration, the environment, its id, the file of the
-- history, if it is there, as text and as what `serde_json` makes of it, and the builder's error.
pub record Start (M : Type 0) : Type 0 where
  pub config : ConfigError ⊎ Config
  pub env_var : String → Option String
  pub home : Option String
  pub pid : ℕ
  pub exists : String → Bool
  pub read_to_string : String → Option String
  pub parse_history : String → Option (List M)
  pub build_error : Built M → Option String

abbrev pub session_of : Option String → Config → AgentConfig → Session
session_of home config a = record {
  session_file = if a.session_persist then some (Files.session_file home config a.name) else none;
  max_history = a.max_history;
}

abbrev restored : ℕ → List String
restored zero = ")" ∷ []
restored (suc n) = ", restored " ∷ show_nat (suc n) ∷ " messages)" ∷ []

module _ {M : Type 0} where
  unfoldable pub load_history : Start M → String → Option (List M)
  load_history st path =
      if not (st.exists path)
      then none
      else elim (st.read_to_string path) [ none ↦ none | some content ↦ st.parse_history content ]

  abbrev pub saved_history : Start M → Option String → List M
  saved_history st none = []
  saved_history st (some path) = unwrap_or (load_history st path) []

  abbrev pub started : Start M → AgentConfig → ℕ → List (Output M)
  started st a history_len =
      message (("type", text "ready") ∷ [])
      ∷ send_log "info" (
          format (
            "worker started (model="
            ∷ unwrap_or a.model "default"
            ∷ ", pid="
            ∷ show_nat st.pid
            ∷ restored history_len))
      ∷ send_status "idle"
      ∷ []

  unfoldable pub launch :
      Start M → Config → AgentConfig → Provider → List (Line M) → List (Output M)
  unfolding serve
  launch st config a provider lines' =
      let session = session_of st.home config a in
      let history = saved_history st session.session_file in
      elim (st.build_error (record {
        provider = provider;
        system_prompt = a.system_prompt;
        model = a.model;
        max_iterations = a.max_iterations;
        history = history;
      })) [
        | some e ↦ send_error (format ("build failed: " ∷ e ∷ [])) ∷ []
        | none ↦ started st a (length history) ++ serve session lines'
      ]

  -- The process. After an error it exits, and reads no line.
  unfoldable pub run : Start M → String → List (Line M) → List (Output M)
  unfolding launch
  run st agent_name lines' = elim st.config [
    | inl e ↦ send_error (format ("config error: " ∷ show_config_error e ∷ [])) ∷ []
    | inr config ↦ elim (find_agent agent_name config.agents) [
      | none ↦ send_error (format ("agent '" ∷ agent_name ∷ "' not found in config" ∷ [])) ∷ []
      | some a ↦ elim (create_provider st.env_var a config) [
        | inl e ↦ send_error e ∷ []
        | inr provider ↦ launch st config a provider lines'
      ]
    ]
  ]
