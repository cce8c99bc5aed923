-- ===== src/Server/Handlers/Tests.antt =====
-- The result of a run at concrete values.
use zeptopm.Base.{◌≡◌, refl, ◌&&◌, if◌then◌else◌, some, any, values, contains, contains_key, []}
use zeptopm.Types.{ArtifactId, JobStatus}
use zeptopm.Samples.{a_store, a_store-IsWellFormed, a_channel, an_engine}
use zeptopm.Engine.{Engine}
use zeptopm.Daemon.Queries.{RunResultData, get_run_result_data}
use zeptopm.Daemon.Queries.Results.{produced}
use zeptopm.Server.Handlers.{Asked, replied, code_of, get_run_result_handler}
use zeptopm.Server.Handlers.Results.{artifacts_in, get_run_result_exact}

abbrev working : Engine
working = an_engine (a_store JobStatus.completed JobStatus.running a_channel) []

abbrev ask : Asked RunResultData
ask c = replied (get_run_result_data (λ path. some "text") working "r")

get_run_result_exact_example :
    let answer = get_run_result_handler ask "r" in
    (code_of answer ≡ (if contains_key "r" working.store.runs then 200 else 404))
    × ((a : ArtifactId)
        → contains a (artifacts_in answer) ≡ (
            contains_key "r" working.store.runs
            && (any (produced "r" a) (values working.store.jobs)
                && contains_key a working.store.artifacts)))
get_run_result_exact_example =
    get_run_result_exact (λ path. some "text") working ask "r"
      (a_store-IsWellFormed JobStatus.completed JobStatus.running a_channel refl) refl
