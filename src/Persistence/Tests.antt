-- ===== src/Persistence/Tests.antt =====
-- src/orchestrator/sqlite_store.rs: the theorems at concrete inputs, over tables that are lists.
use zeptopm.Base.{
  String, ◌≡◌, refl, sym, ap, ◌∙◌, false, str_eq→eq, unwrap_or, not, arith, get, map, Option, none,
  some, List, [], ◌∷◌, filter, Map, str_eq,
}
use zeptopm.Types.{Time, JobStatus, Job, ChannelMessage}
use zeptopm.Store.{get_job, RunStore}
use zeptopm.Store.Laws.{job_key}
use zeptopm.Database.{TableOps, Codec, find, IsTable, IsCodec}
use zeptopm.Persistence.{
  channel_row, row_channel, job_row, row_job, debug_job_status, parse_job_status, Sql, Db, JobRow,
  RunRow, ArtifactRow, ChannelRow,
}
use zeptopm.Persistence.Tables.{persist_run, persist_all, persist_run_state, load_jobs}
use zeptopm.Persistence.Recovery.{recovered, load_jobs-persist_run_state, row_channel-channel_row}
use zeptopm.Samples.{open_channel, a_job, a_store, a_store-IsWellFormed, a_channel}

abbrev list_table : {R : Type 0} → (R → String) → (R → String) → TableOps R
list_table {R} key run_of = record {
  Table = List R;
  row = find key;
  insert_or_replace = λ r t. some (r ∷ filter (λ x. not (str_eq (key x) (key r))) t);
  delete_where_run = λ run_id t. some (filter (λ r. not (str_eq (run_of r) run_id)) t);
  select = λ t. some t;
}

data JsonText : Type 0 where
  blank : JsonText
  strings : List String → JsonText
  messages : List ChannelMessage → JsonText
  entries : Map String → JsonText

abbrev strings_of : JsonText → Option (List String)
strings_of (strings xs) = some xs
strings_of _ = none

abbrev messages_of : JsonText → Option (List ChannelMessage)
messages_of (messages xs) = some xs
messages_of _ = none

abbrev entries_of : JsonText → Option (Map String)
entries_of (entries m) = some m
entries_of _ = none

abbrev exact : Codec
exact = record {
  F64 = Time;
  Json = JsonText;
  as_secs_f64 = λ t. t;
  from_secs_f64 = λ t. t;
  empty = blank;
  strings_to_json = λ xs. some (strings xs);
  strings_from_json = strings_of;
  messages_to_json = λ xs. some (messages xs);
  messages_from_json = messages_of;
  map_to_json = λ m. some (entries m);
  map_from_json = entries_of;
}

exact-IsCodec : IsCodec exact
exact-IsCodec = record {
  strings = λ xs. (strings xs, refl, refl);
  messages = λ xs. (messages xs, refl, refl);
  maps = λ m. (entries m, m, refl, refl, λ k. refl);
}

abbrev lists : Sql exact
lists = record {
  runs = list_table (λ (r : RunRow exact). r.run_id) (λ (r : RunRow exact). r.run_id);
  jobs = list_table (λ (r : JobRow exact). r.job_id) (λ (r : JobRow exact). r.run_id);
  artifacts =
      list_table (λ (r : ArtifactRow exact). r.artifact_id) (λ (r : ArtifactRow exact). r.run_id);
  channels =
      list_table (λ (r : ChannelRow exact). r.channel_id) (λ (r : ChannelRow exact). r.run_id);
}

find-filter_other :
    {R : Type 0} (key : R → String) (i k : String)
    → str_eq i k ≡ false
    → (t : List R) → find key k (filter (λ x. not (str_eq (key x) i)) t) ≡ find key k t
find-filter_other key i k f [] = refl
find-filter_other key i k f (x ∷ t) =
    ground (arith, f, str_eq→eq (key x) i, find-filter_other key i k f t)

list_table-IsTable : {R : Type 0} (key run_of : R → String) → IsTable key (list_table key run_of)
list_table-IsTable key run_of = record {
  inserted = λ r t t' q k.
      ap (λ o. find key k (unwrap_or o t)) (sym q)
      ∙ ground (arith, find-filter_other key (key r) k _ t);
  selected = λ t rs q k. ap (λ o. find key k (unwrap_or o t)) (sym q);
}

abbrev no_rows : Db lists
no_rows = record { runs = []; jobs = []; artifacts = []; channels = [] }

abbrev before_crash : RunStore
before_crash = a_store JobStatus.completed JobStatus.running a_channel

-- An older state of the job `a` and a job of another run are on disk.
abbrev old_rows : Db lists
old_rows = record no_rows {
  jobs =
      job_row exact (a_job "a" JobStatus.ready [])
      ∷ job_row exact (record (a_job "z" JobStatus.ready []) { run_id = "q" })
      ∷ [];
}

abbrev new_rows : Db lists
new_rows = (persist_run_state lists before_crash "r" old_rows).0

abbrev loaded : Db lists → List Job
loaded db = unwrap_or (load_jobs lists db) []

load_jobs-persist_run_state_example :
    find job_key "a" (loaded new_rows)
    ≡ recovered exact "r" (get_job "a" before_crash) (find job_key "a" (loaded old_rows))
unfolding load_jobs persist_run_state persist_run persist_all get str_eq
load_jobs-persist_run_state_example =
    load_jobs-persist_run_state exact-IsCodec (list_table-IsTable _ _) before_crash "r" old_rows
      new_rows (loaded old_rows) (loaded new_rows)
      (a_store-IsWellFormed JobStatus.completed JobStatus.running a_channel refl) refl refl refl "a"

-- The job is loaded as completed, and the job of the other run is still there.
loaded_statuses :
    (map {B = String × String}
      (λ (j : Job). (j.job_id, debug_job_status j.status))
      (loaded new_rows))
    ≡ ("b", "Running") ∷ ("a", "Completed") ∷ ("z", "Ready") ∷ []
unfolding load_jobs persist_run_state persist_run persist_all job_row row_job parse_job_status get
    str_eq
loaded_statuses = refl

row_channel-channel_row_example : row_channel exact (channel_row exact open_channel) ≡ open_channel
row_channel-channel_row_example = row_channel-channel_row exact-IsCodec open_channel (omega arith)
