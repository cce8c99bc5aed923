-- ===== src/Daemon/Handlers/Tests.antt =====
-- src/daemon.rs: the theorems about the loop at concrete inputs.
use zeptopm.Base.{◌+◌, ◌≡◌, refl, arith, List, [], ◌∷◌, get, str_eq}
use zeptopm.Types.{JobStatus}
use zeptopm.Engine.{Env, Engine, new}
use zeptopm.Engine.Bounds.{IsBounded, new-IsBounded}
use zeptopm.Json.{Json, text, str_or_empty}
use zeptopm.Samples.{an_env, an_engine, a_store, a_channel}
use zeptopm.Daemon.World.{World, Host}
use zeptopm.Daemon.Samples.{a_host, a_world}
use zeptopm.Daemon.Workers.{spawn_ready}
use zeptopm.Daemon.Workers.Spawning.{spawn_ready_ends}
use zeptopm.Daemon.Handlers.{on_submit, on_event, on_heartbeat, on_job_failed, on_cancel}
use zeptopm.Daemon.Handlers.Poll.{poll_jobs, cleanup}
use zeptopm.Daemon.Handlers.Turns.{
  Turn, worker_event, submit, cancel, poll_tick, cleanup_tick, turn, turns, turns-IsBounded,
}

abbrev waiting : Engine
waiting = an_engine (a_store JobStatus.ready JobStatus.running a_channel) ("a" ∷ [])

spawn_ready_ends_example :
    spawn_ready (2 + 5) an_env a_host (a_world waiting)
    ≡ spawn_ready 2 an_env a_host (a_world waiting)
spawn_ready_ends_example = spawn_ready_ends 2 5 an_env a_host (a_world waiting) (omega arith)

abbrev at_once : Turn → Env × (Host × Turn)
at_once t = (an_env, (a_host, t))

abbrev a_heartbeat : Json
a_heartbeat = ("type", text "heartbeat") ∷ ("job_id", text "a") ∷ []

abbrev a_failure : Json
a_failure = ("type", text "job_failed") ∷ ("job_id", text "a") ∷ []

abbrev a_day : List (Env × (Host × Turn))
a_day =
    at_once (submit "a task")
    ∷ at_once (worker_event a_heartbeat)
    ∷ at_once (worker_event a_failure)
    ∷ at_once poll_tick
    ∷ at_once (cancel "r")
    ∷ at_once cleanup_tick
    ∷ []

-- The worlds after the turns of the day.
abbrev submitted : World
submitted = (on_submit an_env a_host "a task" (a_world (new 2))).0

abbrev failed : World
failed = on_job_failed an_env a_host a_failure (on_heartbeat an_env a_heartbeat submitted)

abbrev cancelled : World
cancelled = (on_cancel an_env "r" (poll_jobs an_env a_host failed)).0

turns-IsBounded_example : IsBounded 2 (cleanup an_env cancelled).engine
unfolding turns turn on_event str_eq get str_or_empty
turns-IsBounded_example =
    turns-IsBounded 2 a_day (a_world (new 2)) (cleanup an_env cancelled) (new-IsBounded 2) refl
