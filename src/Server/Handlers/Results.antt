-- ===== src/Server/Handlers/Results.antt =====
-- src/server.rs, `get_run_result`, over src/daemon.rs, `get_run_result_data`: the result of a run as
-- the HTTP client sees it.
use zeptopm.Base.{
  String, ◌≡◌, refl, ◌&&◌, if◌then◌else◌, Option, any, values, contains, contains_key, List, [],
  inl, inr, Option-cases,
}
use zeptopm.Types.{RunId, ArtifactId}
use zeptopm.Store.{get_run}
use zeptopm.Store.Laws.{IsWellFormed}
use zeptopm.Engine.{Engine}
use zeptopm.Daemon.Queries.{RunResultData, get_run_result_data}
use zeptopm.Daemon.Queries.Results.{ids_of, produced, contains-artifacts}
use zeptopm.Server.Handlers.{
  get_run_result, replied, Asked, Response, code_of, get_run_result_handler,
}

abbrev pub artifacts_in : Response RunResultData → List ArtifactId
artifacts_in (inl e) = []
artifacts_in (inr body) = ids_of body.artifacts

-- A client that asks for the result of a run, where the daemon, whose store is well formed, replies
-- with what it finds there. The code is 404
-- exactly when there is no such run, and 200 otherwise. The artifacts in the answer are exactly the
-- stored ones that a completed job of the run names as its output.
pub get_run_result_exact :
    (read : String → Option String) (e : Engine) (ask : Asked RunResultData) (run_id : RunId)
    → IsWellFormed e.store
    → ask (get_run_result run_id) ≡ replied (get_run_result_data read e run_id)
    → let answer = get_run_result_handler ask run_id in
      (code_of answer ≡ (if contains_key run_id e.store.runs then 200 else 404))
      × ((a : ArtifactId)
          → contains a (artifacts_in answer) ≡ (
              contains_key run_id e.store.runs
              && (any (produced run_id a) (values e.store.jobs)
                  && contains_key a e.store.artifacts)))
unfolding get_run_result_data contains
get_run_result_exact read e ask run_id w served = elim (Option-cases (get_run run_id e.store)) [
  | inl gone ↦ (
    rw (served, gone, get_run_result_data) refl,
    λ a. rw (served, gone, get_run_result_data) refl,
  )
  | inr (run, found) ↦ (
    rw (served, found, get_run_result_data) refl,
    λ a.
        rw (served, found, get_run_result_data)
          (contains-artifacts read e.store w run_id a (values e.store.jobs)),
  )
]
