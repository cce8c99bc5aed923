-- ===== src/Config/Validation.antt =====
-- src/config.rs, `validate_config`: a configuration passes exactly when it is valid, stated with no
-- reference to the messages.
use zeptopm.Base.{◌≡◌, ◌≢◌, true, false, some, [], map, All, Map, contains_key, is_blank, IsNodup}
use zeptopm.Config.{AgentConfig, ProviderConfig, Config, is_known_isolation}

-- An agent has a name and a provider, which is configured if any provider is, and may not be
-- limited to no iterations.
abbrev pub IsValidAgent : Map ProviderConfig → AgentConfig → Type 0
IsValidAgent providers a =
    (is_blank a.name ≡ false)
    × (is_blank a.provider ≡ false)
    × (a.max_iterations ≢ some 0)
    × (providers ≢ [] → contains_key a.provider providers ≡ true)

pub record IsValidConfig (config : Config) : Type 0 where
  pub agents : All (IsValidAgent config.providers) config.agents
  pub names_nodup : IsNodup (map (λ (a : AgentConfig). a.name) config.agents)
  pub isolation : is_known_isolation config.daemon.isolation ≡ true
