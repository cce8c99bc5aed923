-- ===== src/Capsule.antt =====
-- src/capsule.rs: the specification of a capsule, and what is told of its end. The crate
-- `zeptocapsule` is foreign: its specification and its report are the records that the code builds
-- and reads. A path is its text.
pub mod Paths
pub mod Drive
mod Tests
use zeptopm.Base.{
  ℕ, String, Bool, true, false, not, ◌&&◌, ◌||◌, if◌then◌else◌, Option, none, some, List, [], ◌∷◌,
  filter, Map, insert, str_eq, unwrap_or, map_option, format, show_nat, strip_prefix, is_some,
}
use zeptopm.Types.{JobId, Job}
use zeptopm.Config.{AgentConfig, Config}
use zeptopm.Json.{Json, text, flag}
use zeptopm.Daemon.World.{find_agent}

pub data Isolation : Type 0 where
  namespace process : Isolation

pub data SecurityProfile : Type 0 where
  dev standard hardened : SecurityProfile

pub record WorkspaceConfig : Type 0 where
  pub host_path : Option String
  pub guest_path : String
  pub size_mib : Option ℕ

pub record ResourceLimits : Type 0 where
  pub timeout_sec : ℕ
  pub memory_mib : Option ℕ
  pub cpu_quota : Option ℕ
  pub max_pids : Option ℕ

-- The fields `firecracker` and `fallback`, which the code leaves empty, are left out.
pub record CapsuleSpec : Type 0 where
  pub isolation : Isolation
  pub workspace : WorkspaceConfig
  pub limits : ResourceLimits
  pub init_binary : Option String
  pub security : SecurityProfile
  pub cgroup_required : Option Bool

abbrev pub isolation_of : String → Isolation
isolation_of name = if str_eq name "namespace" then Isolation.namespace else Isolation.process

abbrev pub security_of : Option String → SecurityProfile
security_of none = SecurityProfile.standard
security_of (some name) =
    if str_eq name "dev"
    then SecurityProfile.dev
    else if str_eq name "hardened"
    then SecurityProfile.hardened
    else SecurityProfile.standard

unfoldable pub namespace_init_binary : Config → Option String
namespace_init_binary config =
    if str_eq config.daemon.isolation "namespace" then config.daemon.worker_binary else none

unfoldable pub guest_workspace_path : Config → Job → String
guest_workspace_path config job =
    if str_eq config.daemon.isolation "namespace" then "/workspace" else job.workspace_dir

-- `DEFAULT_CAPSULE_TIMEOUT_SEC`
abbrev pub default_capsule_timeout_sec : ℕ
default_capsule_timeout_sec = 300

abbrev limits_of : Option AgentConfig → ResourceLimits
limits_of none = record {
  timeout_sec = default_capsule_timeout_sec;
  memory_mib = none;
  cpu_quota = none;
  max_pids = none;
}
limits_of (some a) = record {
  timeout_sec = unwrap_or a.timeout_sec default_capsule_timeout_sec;
  memory_mib = a.memory_mib;
  cpu_quota = none;
  max_pids = a.max_pids;
}

unfoldable pub capsule_spec_from_config : Config → Job → CapsuleSpec
unfolding namespace_init_binary guest_workspace_path
capsule_spec_from_config config job = record {
  isolation = isolation_of config.daemon.isolation;
  workspace = record {
    host_path = some job.workspace_dir;
    guest_path = guest_workspace_path config job;
    size_mib = none;
  };
  limits = limits_of (find_agent job.profile_id config.agents);
  init_binary = namespace_init_binary config;
  security = security_of config.daemon.security;
  cgroup_required = config.daemon.cgroup_required;
}

-- `k.starts_with(p)`
abbrev starts : String → String → Bool
starts p k = is_some (strip_prefix p k)

abbrev pub is_passed_on : String → Bool
is_passed_on k =
    starts "OPENROUTER_" k
    || (starts "OPENAI_" k || (starts "ANTHROPIC_" k || (str_eq k "HOME" || str_eq k "PATH")))

-- `vars` is the environment.
unfoldable pub build_worker_env : Map String → Config → Map String
build_worker_env vars config =
    let env = filter (λ (e : String × String). is_passed_on e.0) vars in
    elim config.daemon.zeptoclaw_binary [
      | none ↦ env
      | some zeptoclaw ↦ insert "ZEPTOCLAW_BINARY" zeptoclaw env
    ]

pub data ResourceViolation : Type 0 where
  wall_clock memory max_pids : ResourceViolation

-- Of a capsule's report, what is read.
pub record CapsuleReport : Type 0 where
  pub init_error : Option String
  pub killed_by : Option ResourceViolation
  pub exit_signal : Option ℕ
  pub exit_code : Option ℕ

abbrev violation_message : ResourceViolation → String
violation_message ResourceViolation.wall_clock = "capsule killed by wall clock timeout"
violation_message ResourceViolation.memory = "capsule killed by memory limit"
violation_message ResourceViolation.max_pids = "capsule killed by process limit"

abbrev exit_message : Option ℕ → String
exit_message (some code) = format ("worker exited with code " ∷ show_nat code ∷ [])
exit_message none = "worker exited unexpectedly"

abbrev signal_message : CapsuleReport → Option ℕ → String
signal_message report (some signal) = format ("worker exited by signal " ∷ show_nat signal ∷ [])
signal_message report none = exit_message report.exit_code

abbrev killed_message : CapsuleReport → Option ResourceViolation → String
killed_message report (some violation) = violation_message violation
killed_message report none = signal_message report report.exit_signal

-- Exit codes below zero do not occur on Unix.
unfoldable pub capsule_failure_message : CapsuleReport → String
capsule_failure_message report = elim report.init_error [
  | some init_err ↦ format ("capsule init failed: " ∷ init_err ∷ [])
  | none ↦ killed_message report report.killed_by
]

abbrev pub job_failed : JobId → String → Bool → Json
job_failed job_id error retryable =
    ("type", text "job_failed")
    ∷ ("job_id", text job_id)
    ∷ ("error", text error)
    ∷ ("retryable", flag retryable)
    ∷ []

unfoldable pub capsule_failure_event : JobId → Option CapsuleReport → String → Json
capsule_failure_event job_id report fallback =
    job_failed job_id (unwrap_or (map_option capsule_failure_message report) fallback) true
