-- ===== src/Persistence/Tables.antt =====
-- src/orchestrator/sqlite_store.rs: the operations on the tables. A method that fails stops there;
-- what it has written before stays, for there is no transaction.
use zeptopm.Base.{
  Bool, true, false, if◌then◌else◌, Option, none, some, List, [], ◌∷◌, map, map_option,
}
use zeptopm.Types.{RunId, Run, Job, Artifact, Channel}
use zeptopm.Store.{RunStore, get_run, list_run_jobs, list_run_channels}
use zeptopm.Database.{TableOps, Codec}
use zeptopm.Persistence.{
  Sql, Db, run_row, row_run, job_row, row_job, artifact_row, row_artifact, channel_row, row_channel,
}

-- A statement's outcome: the table and whether it was `Ok`.
abbrev pub outcome : {T : Type 0} → T → Option T → T × Bool
outcome t none = (t, false)
outcome t (some t') = (t', true)

module _ {A R : Type 0} (ops : TableOps R) (encode : A → R) where
  -- `for x in xs { self.persist(x)?; }`
  unfoldable pub persist_all : List A → ops.Table → ops.Table × Bool
  persist_all [] t = (t, true)
  persist_all (x ∷ xs) t = elim (ops.insert_or_replace (encode x) t) [
    | none ↦ (t, false)
    | some t' ↦ persist_all xs t'
  ]

module _ {c : Codec} (sql : Sql c) where
  unfoldable pub persist_run : Run → Db sql → Db sql × Bool
  persist_run run db =
      let (t, ok) = outcome db.runs (sql.runs.insert_or_replace (run_row c run) db.runs) in
      (record db { runs = t }, ok)

  unfoldable pub persist_job : Job → Db sql → Db sql × Bool
  persist_job job db =
      let (t, ok) = outcome db.jobs (sql.jobs.insert_or_replace (job_row c job) db.jobs) in
      (record db { jobs = t }, ok)

  unfoldable pub persist_artifact : Artifact → Db sql → Db sql × Bool
  persist_artifact artifact db =
      let (t, ok) =
        outcome db.artifacts
          (sql.artifacts.insert_or_replace (artifact_row c artifact) db.artifacts) in
      (record db { artifacts = t }, ok)

  unfoldable pub persist_channel : Channel → Db sql → Db sql × Bool
  persist_channel channel db =
      let (t, ok) =
        outcome db.channels (sql.channels.insert_or_replace (channel_row c channel) db.channels) in
      (record db { channels = t }, ok)

  unfoldable pub load_runs : Db sql → Option (List Run)
  load_runs db = map_option (map (row_run c)) (sql.runs.select db.runs)

  unfoldable pub load_jobs : Db sql → Option (List Job)
  load_jobs db = map_option (map (row_job c)) (sql.jobs.select db.jobs)

  unfoldable pub load_artifacts : Db sql → Option (List Artifact)
  load_artifacts db = map_option (map (row_artifact c)) (sql.artifacts.select db.artifacts)

  unfoldable pub load_channels : Db sql → Option (List Channel)
  load_channels db = map_option (map (row_channel c)) (sql.channels.select db.channels)

  -- The two loops of `persist_run_state`.
  abbrev pub persist_jobs : List Job → Db sql → Db sql × Bool
  persist_jobs jobs db =
      let (t, ok) = persist_all sql.jobs (job_row c) jobs db.jobs in (record db { jobs = t }, ok)

  abbrev pub persist_channels : List Channel → Db sql → Db sql × Bool
  persist_channels channels db =
      let (t, ok) = persist_all sql.channels (channel_row c) channels db.channels in
      (record db { channels = t }, ok)

  -- `first?; second`
  abbrev pub and_then : Db sql × Bool → (Db sql → Db sql × Bool) → Db sql × Bool
  and_then (db, ok) next = if ok then next db else (db, false)

  -- `if let Some(run) = run { self.persist_run(run)?; }`
  abbrev pub persist_found : Option Run → Db sql → Db sql × Bool
  persist_found none db = (db, true)
  persist_found (some run) db = persist_run run db

  unfoldable pub persist_run_state : RunStore → RunId → Db sql → Db sql × Bool
  persist_run_state store run_id db =
      and_then
        (and_then (persist_found (get_run run_id store) db)
          (persist_jobs (list_run_jobs run_id store)))
        (persist_channels (list_run_channels run_id store))

  -- The four `DELETE` statements.
  unfoldable pub delete_artifacts : RunId → Db sql → Db sql × Bool
  delete_artifacts run_id db =
      let (t, ok) = outcome db.artifacts (sql.artifacts.delete_where_run run_id db.artifacts) in
      (record db { artifacts = t }, ok)

  unfoldable pub delete_jobs : RunId → Db sql → Db sql × Bool
  delete_jobs run_id db =
      let (t, ok) = outcome db.jobs (sql.jobs.delete_where_run run_id db.jobs) in
      (record db { jobs = t }, ok)

  unfoldable pub delete_channels : RunId → Db sql → Db sql × Bool
  delete_channels run_id db =
      let (t, ok) = outcome db.channels (sql.channels.delete_where_run run_id db.channels) in
      (record db { channels = t }, ok)

  unfoldable pub delete_run_row : RunId → Db sql → Db sql × Bool
  delete_run_row run_id db =
      let (t, ok) = outcome db.runs (sql.runs.delete_where_run run_id db.runs) in
      (record db { runs = t }, ok)

  unfoldable pub delete_run : RunId → Db sql → Db sql × Bool
  delete_run run_id db =
      and_then
        (and_then (and_then (delete_artifacts run_id db) (delete_jobs run_id))
          (delete_channels run_id))
        (delete_run_row run_id)
