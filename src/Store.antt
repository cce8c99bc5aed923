-- ===== src/Store.antt =====
-- src/orchestrator/store.rs: `RunStore`, four hash maps from ids to records. A method that mutates
-- returns the new store; `get_job_mut` followed by assignments is `modify_job` with the new record
-- as a function of the old one.
pub mod Laws
pub mod Removal
mod Tests
use zeptopm.Base.{
  String, Bool, ◌&&◌, Option, none, some, List, [], ◌∷◌, map, filter, values, str_eq, contains, Map,
  get, insert, modify, remove, remove_all,
}
use zeptopm.Types.{RunId, JobId, ArtifactId, ChannelId, Run, Job, Artifact, Channel}

pub record RunStore : Type 0 where
  pub runs : Map Run
  pub jobs : Map Job
  pub artifacts : Map Artifact
  pub channels : Map Channel

unfoldable pub new : RunStore
new = record { runs = []; jobs = []; artifacts = []; channels = [] }

unfoldable pub create_run : Run → RunStore → RunStore
create_run run s = record s { runs = insert run.run_id run s.runs }

unfoldable pub update_run : Run → RunStore → RunStore
update_run run s = record s { runs = insert run.run_id run s.runs }

abbrev pub get_run : RunId → RunStore → Option Run
get_run run_id s = get run_id s.runs

unfoldable pub modify_run : RunId → (Run → Run) → RunStore → RunStore
modify_run run_id f s = record s { runs = modify run_id f s.runs }

unfoldable pub list_runs : RunStore → List Run
list_runs s = values s.runs

unfoldable pub create_job : Job → RunStore → RunStore
create_job job s = record s { jobs = insert job.job_id job s.jobs }

unfoldable pub update_job : Job → RunStore → RunStore
update_job job s = record s { jobs = insert job.job_id job s.jobs }

abbrev pub get_job : JobId → RunStore → Option Job
get_job job_id s = get job_id s.jobs

unfoldable pub modify_job : JobId → (Job → Job) → RunStore → RunStore
modify_job job_id f s = record s { jobs = modify job_id f s.jobs }

abbrev pub list_run_jobs : RunId → RunStore → List Job
list_run_jobs run_id s = filter (λ j. str_eq j.run_id run_id) (values s.jobs)

unfoldable pub create_artifact : Artifact → RunStore → RunStore
create_artifact artifact s = record s {
  artifacts = insert artifact.artifact_id artifact s.artifacts;
}

abbrev pub get_artifact : ArtifactId → RunStore → Option Artifact
get_artifact artifact_id s = get artifact_id s.artifacts

unfoldable pub create_channel : Channel → RunStore → RunStore
create_channel channel s = record s { channels = insert channel.channel_id channel s.channels }

abbrev pub get_channel : ChannelId → RunStore → Option Channel
get_channel channel_id s = get channel_id s.channels

unfoldable pub modify_channel : ChannelId → (Channel → Channel) → RunStore → RunStore
modify_channel channel_id f s = record s { channels = modify channel_id f s.channels }

abbrev pub list_run_channels : RunId → RunStore → List Channel
list_run_channels run_id s = filter (λ c. str_eq c.run_id run_id) (values s.channels)

unfoldable pub channels_for_job : JobId → RunStore → List Channel
channels_for_job job_id s =
    filter (λ c. c.active && contains job_id c.participants) (values s.channels)

unfoldable pub all_channels_for_job : JobId → RunStore → List Channel
all_channels_for_job job_id s = filter (λ c. contains job_id c.participants) (values s.channels)

-- The loop of `remove_run` over the artifacts, with the paths that it collects.
remove_artifacts : List ArtifactId → Map Artifact → Map Artifact × List String
remove_artifacts [] m = (m, [])
remove_artifacts (aid ∷ aids) m =
    let (m', paths) = remove_artifacts aids (remove aid m) in
    elim (get aid m) [ none ↦ (m', paths) | some artifact ↦ (m', artifact.path ∷ paths) ]

-- Remove a run with its jobs, artifacts and channels; the result lists the artifacts' paths.
unfoldable pub remove_run : RunId → RunStore → RunStore × List String
unfolding remove_artifacts
remove_run run_id s =
    let job_ids = map (λ (j : Job). j.job_id) (list_run_jobs run_id s) in
    let artifact_ids =
      map (λ (a : Artifact). a.artifact_id)
        (filter (λ (a : Artifact). str_eq a.run_id run_id) (values s.artifacts)) in
    let channel_ids = map (λ (c : Channel). c.channel_id) (list_run_channels run_id s) in
    let (artifacts', paths) = remove_artifacts artifact_ids s.artifacts in
    (
      record {
        runs = remove run_id s.runs;
        jobs = remove_all job_ids s.jobs;
        artifacts = artifacts';
        channels = remove_all channel_ids s.channels;
      },
      paths,
    )
