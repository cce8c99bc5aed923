-- ===== src/Store/Laws.antt =====
-- src/orchestrator/store.rs: a store is well formed when its four maps have distinct keys and each
-- record stands under its own id. Every operation of the store keeps that.
use zeptopm.Base.{
  String, ◌≡◌, if◌then◌else◌, some, map_option, get-modify, get-insert, str_eq, IsIndexed,
  IsIndexed-insert, IsIndexed-modify,
}
use zeptopm.Types.{RunId, JobId, ChannelId, Run, Job, Artifact, Channel}
use zeptopm.Store.{
  RunStore, new, create_run, update_run, modify_run, create_job, update_job, modify_job,
  create_artifact, create_channel, modify_channel, get_job, get_channel,
}

abbrev pub run_key : Run → String
run_key r = r.run_id

abbrev pub job_key : Job → String
job_key j = j.job_id

abbrev pub artifact_key : Artifact → String
artifact_key a = a.artifact_id

abbrev pub channel_key : Channel → String
channel_key c = c.channel_id

pub record IsWellFormed (s : RunStore) : Type 0 where
  pub runs : IsIndexed run_key s.runs
  pub jobs : IsIndexed job_key s.jobs
  pub artifacts : IsIndexed artifact_key s.artifacts
  pub channels : IsIndexed channel_key s.channels

pub new-IsWellFormed : IsWellFormed new
unfolding new
new-IsWellFormed = record {
  runs = (tt, tt);
  jobs = (tt, tt);
  artifacts = (tt, tt);
  channels = (tt, tt);
}

module _ {s : RunStore} (h : IsWellFormed s) where
  pub create_run-IsWellFormed : (run : Run) → IsWellFormed (create_run run s)
  unfolding create_run
  create_run-IsWellFormed run = record {
    runs = IsIndexed-insert run_key run s.runs h.runs;
    jobs = h.jobs;
    artifacts = h.artifacts;
    channels = h.channels;
  }

  pub update_run-IsWellFormed : (run : Run) → IsWellFormed (update_run run s)
  unfolding update_run
  update_run-IsWellFormed run = record {
    runs = IsIndexed-insert run_key run s.runs h.runs;
    jobs = h.jobs;
    artifacts = h.artifacts;
    channels = h.channels;
  }

  pub modify_run-IsWellFormed :
      (run_id : RunId) (f : Run → Run)
      → ((r : Run) → (f r).run_id ≡ r.run_id)
      → IsWellFormed (modify_run run_id f s)
  unfolding modify_run
  modify_run-IsWellFormed run_id f e = record {
    runs = IsIndexed-modify run_key run_id f s.runs e h.runs;
    jobs = h.jobs;
    artifacts = h.artifacts;
    channels = h.channels;
  }

  pub create_job-IsWellFormed : (job : Job) → IsWellFormed (create_job job s)
  unfolding create_job
  create_job-IsWellFormed job = record {
    runs = h.runs;
    jobs = IsIndexed-insert job_key job s.jobs h.jobs;
    artifacts = h.artifacts;
    channels = h.channels;
  }

  pub update_job-IsWellFormed : (job : Job) → IsWellFormed (update_job job s)
  unfolding update_job
  update_job-IsWellFormed job = record {
    runs = h.runs;
    jobs = IsIndexed-insert job_key job s.jobs h.jobs;
    artifacts = h.artifacts;
    channels = h.channels;
  }

  pub modify_job-IsWellFormed :
      (job_id : JobId) (f : Job → Job)
      → ((j : Job) → (f j).job_id ≡ j.job_id)
      → IsWellFormed (modify_job job_id f s)
  unfolding modify_job
  modify_job-IsWellFormed job_id f e = record {
    runs = h.runs;
    jobs = IsIndexed-modify job_key job_id f s.jobs e h.jobs;
    artifacts = h.artifacts;
    channels = h.channels;
  }

  pub create_artifact-IsWellFormed : (a : Artifact) → IsWellFormed (create_artifact a s)
  unfolding create_artifact
  create_artifact-IsWellFormed a = record {
    runs = h.runs;
    jobs = h.jobs;
    artifacts = IsIndexed-insert artifact_key a s.artifacts h.artifacts;
    channels = h.channels;
  }

  pub create_channel-IsWellFormed : (c : Channel) → IsWellFormed (create_channel c s)
  unfolding create_channel
  create_channel-IsWellFormed c = record {
    runs = h.runs;
    jobs = h.jobs;
    artifacts = h.artifacts;
    channels = IsIndexed-insert channel_key c s.channels h.channels;
  }

  pub modify_channel-IsWellFormed :
      (channel_id : ChannelId) (f : Channel → Channel)
      → ((c : Channel) → (f c).channel_id ≡ c.channel_id)
      → IsWellFormed (modify_channel channel_id f s)
  unfolding modify_channel
  modify_channel-IsWellFormed channel_id f e = record {
    runs = h.runs;
    jobs = h.jobs;
    artifacts = h.artifacts;
    channels = IsIndexed-modify channel_key channel_id f s.channels e h.channels;
  }

-- What each lookup finds after an update.
pub get_job-modify_job :
    (j k : JobId) (f : Job → Job) (s : RunStore)
    → get_job j (modify_job k f s)
      ≡ (if str_eq k j then map_option f (get_job j s) else get_job j s)
unfolding modify_job
get_job-modify_job j k f s = get-modify j k f s.jobs

pub get_job-create_job :
    (k : JobId) (job : Job) (s : RunStore)
    → get_job k (create_job job s) ≡ (if str_eq job.job_id k then some job else get_job k s)
unfolding create_job
get_job-create_job k job s = get-insert k job.job_id job s.jobs

pub get_channel-modify_channel :
    (j k : ChannelId) (f : Channel → Channel) (s : RunStore)
    → get_channel j (modify_channel k f s)
      ≡ (if str_eq k j then map_option f (get_channel j s) else get_channel j s)
unfolding modify_channel
get_channel-modify_channel j k f s = get-modify j k f s.channels
