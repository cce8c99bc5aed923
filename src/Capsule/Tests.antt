-- ===== src/Capsule/Tests.antt =====
-- The theorems on capsules at concrete values.
use zeptopm.Base.{refl, get, str_eq, none, [], ◌∷◌}
use zeptopm.Types.{JobStatus}
use zeptopm.Json.{text, str_or_empty}
use zeptopm.Agent.{stop}
use zeptopm.Samples.{a_job, a_store, a_channel}
use zeptopm.Daemon.Samples.{a_config}
use zeptopm.Capsule.Drive.{Outcomes, line, command, pipe_closed, spawn_capsule_job}
use zeptopm.Capsule.Drive.Ends.{EndsOnce, capsule_job-EndsOnce}

abbrev all_well : Outcomes
all_well = record {
  create_error = none;
  create_dir_error = none;
  write_error = none;
  spawn_error = none;
  report = none;
}

-- A progress message, an end of the pipe without a result, and a stop that nobody reads.
capsule_job-EndsOnce_example : EndsOnce "b" (
    spawn_capsule_job []
      (a_job "b" JobStatus.running [])
      a_config
      (a_store JobStatus.running JobStatus.pending a_channel)
      all_well
      (line (("type", text "progress") ∷ []) ∷ pipe_closed ∷ command stop ∷ []))
unfolding get str_eq str_or_empty
capsule_job-EndsOnce_example =
    capsule_job-EndsOnce [] (a_job "b" JobStatus.running []) a_config
      (a_store JobStatus.running JobStatus.pending a_channel) all_well
      (line (("type", text "progress") ∷ []) ∷ pipe_closed ∷ command stop ∷ []) refl
