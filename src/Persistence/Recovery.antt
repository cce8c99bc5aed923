-- ===== src/Persistence/Recovery.antt =====
-- src/orchestrator/sqlite_store.rs, with the start of src/daemon.rs: what is read back after a
-- restart is what was persisted.
use zeptopm.Base.{
  ℕ, ◌%◌, String, ◌≡◌, refl, sym, ap, subst, Bool, true, false, not, ◌==◌, ◌<◌, if◌then◌else◌,
  Option, none, some, List, [], ◌∷◌, map, filter, Map, get, map_option, values, str_eq, str_eq→eq,
  IsIndexed, arith, Bool-cases, inl, inr, u64_mod, Option-cases,
}
use zeptopm.Types.{RunId, JobId, Run, Job, Channel}
use zeptopm.Store.{RunStore, get_job, get_run, list_run_jobs, list_run_channels}
use zeptopm.Store.Laws.{IsWellFormed, job_key}
use zeptopm.Database.{TableOps, Codec, find, IsTable, IsCodec}
use zeptopm.Persistence.{
  JobRow, Sql, Db, job_row, row_job, as_i64, json_vec, parse_json_vec, from_epoch, to_epoch,
  parse_job_status-debug, channel_row, row_channel, parse_channel_mode-debug,
  parse_peer_failure-debug,
}
use zeptopm.Persistence.Tables.{
  persist_all, persist_run_state, load_jobs, and_then, persist_found, persist_run, persist_jobs,
  persist_channels,
}

-- A job as it is read back: its times have passed through an `f64`.
unfoldable pub stored_job : Codec → Job → Job
stored_job c j = record j {
  created_at = from_epoch c (to_epoch c j.created_at);
  started_at = map_option (from_epoch c) (map_option (to_epoch c) j.started_at);
  finished_at = map_option (from_epoch c) (map_option (to_epoch c) j.finished_at);
}

module _ {c : Codec} (h : IsCodec c) where
  parse_json_vec-json : (xs : List String) → parse_json_vec c (json_vec c xs) ≡ xs
  parse_json_vec-json xs = let (s, e, e') = h.strings xs in rw (e, e') refl

  row_job-job_row : (j : Job) → row_job c (job_row c j) ≡ stored_job c j
  unfolding row_job job_row stored_job
  row_job-job_row j =
      rw
        (
          parse_job_status-debug j.status,
          parse_json_vec-json j.input_artifact_ids,
          parse_json_vec-json j.depends_on,
          parse_json_vec-json j.children,
          parse_json_vec-json j.output_artifact_ids,
        )
        refl

small-word : (n : ℕ) → n < u64_mod → n % u64_mod ≡ n
small-word n bound = omega (arith, bound)

flag-as_i64 : (b : Bool) → not (as_i64 b == 0) ≡ b
flag-as_i64 true = refl
flag-as_i64 false = refl

-- A channel whose speaker index is below 2 ^ 64 is read back as it was persisted, its history
-- included, if JSON texts are read back.
pub row_channel-channel_row :
    {c : Codec}
    → IsCodec c
    → (ch : Channel) → ch.current_speaker_idx < u64_mod
    → row_channel c (channel_row c ch) ≡ ch
unfolding row_channel channel_row
row_channel-channel_row h ch bound =
    let (s, e, e') = h.messages ch.history in
    rw
      (
        small-word ch.current_speaker_idx bound,
        small-word ch.current_speaker_idx bound,
        parse_channel_mode-debug ch.mode,
        parse_peer_failure-debug ch.on_peer_failure,
        parse_json_vec-json h ch.participants,
        e,
        e',
        flag-as_i64 ch.active,
        flag-as_i64 ch.closed,
      )
      refl

-- What stands under a key after the records of a map that satisfy a test are written over it.
abbrev overlay : {A R : Type 0} → (A → Bool) → (A → R) → Option A → Option R → Option R
overlay p encode none old = old
overlay p encode (some a) old = if p a then some (encode a) else old

module _ {A R : Type 0} {ops : TableOps R} {key : R → String} (h : IsTable key ops)
    (id : A → String) (encode : A → R) (e : (a : A) → key (encode a) ≡ id a) where
  row-persist_all :
      (p : A → Bool) (m : Map A) (t t' : ops.Table)
      → IsIndexed id m
      → persist_all ops encode (filter p (values m)) t ≡ (t', true)
      → (k : String) → ops.row k t' ≡ overlay p encode (get k m) (ops.row k t)
  unfolding persist_all get
  row-persist_all p [] t t' d q k = ap (λ x. ops.row k x.0) (sym q)
  row-persist_all p ((i, w) ∷ m) t t' d q k =
      let rest = row-persist_all p m in
      elim (Bool-cases (p w)) [
        | inr f ↦ ground (arith, f, d.0.0, str_eq→eq i k, rest t t' (d.0.1, d.1.1) (ground arith) k)
        | inl f ↦ elim (Option-cases (ops.insert_or_replace (encode w) t)) [
          | inl n ↦ ground (arith, f, n)
          | inr (t1, n) ↦
              let later = rest t1 t' (d.0.1, d.1.1) (ground (arith, f, n)) k in
              let here = h.inserted (encode w) t t1 n k in
              ground (arith, f, d.0.0, d.1.0, e w, str_eq→eq i k, later, here)
        ]
      ]

find-map :
    {A R : Type 0} (id : A → String) (key : R → String) (decode : R → A)
    → ((r : R) → id (decode r) ≡ key r)
    → (k : String) (rs : List R) → find id k (map decode rs) ≡ map_option decode (find key k rs)
find-map id key decode e k [] = refl
find-map id key decode e k (r ∷ rs) = ground (arith, e r, find-map id key decode e k rs)

module _ {c : Codec} (sql : Sql c) where
  last_step :
      (db db' : Db sql) (channels : List Channel) (jobs : sql.jobs.Table × Bool)
      → and_then sql (record db { jobs = jobs.0 }, jobs.1) (persist_channels sql channels)
        ≡ (db', true)
      → jobs ≡ (db'.jobs, true)
  last_step db db' channels (t, true) q = ap (λ (x : Db sql × Bool). (x.0.jobs, true)) q
  last_step db db' channels (t, false) q = cc

  later_steps :
      (start : Db sql × Bool) (db' : Db sql) (jobs : List Job) (channels : List Channel)
      → and_then sql (and_then sql start (persist_jobs sql jobs)) (persist_channels sql channels)
        ≡ (db', true)
      → persist_all sql.jobs (job_row c) jobs start.0.jobs ≡ (db'.jobs, true)
  later_steps (db, true) db' jobs channels q =
      last_step db db' channels (persist_all sql.jobs (job_row c) jobs db.jobs) q
  later_steps (db, false) db' jobs channels q = cc

  persist_found-jobs :
      (found : Option Run) (db : Db sql) → (persist_found sql found db).0.jobs ≡ db.jobs
  unfolding persist_run
  persist_found-jobs none db = refl
  persist_found-jobs (some run) db = refl

  -- The jobs table after a successful `persist_run_state`.
  persist_run_state_jobs :
      (store : RunStore) (run_id : RunId) (db db' : Db sql)
      → persist_run_state sql store run_id db ≡ (db', true)
      → persist_all sql.jobs (job_row c) (list_run_jobs run_id store) db.jobs ≡ (db'.jobs, true)
  unfolding persist_run_state
  persist_run_state_jobs store run_id db db' q =
      let start = persist_found sql (get_run run_id store) db in
      subst
        (λ t. persist_all sql.jobs (job_row c) (list_run_jobs run_id store) t ≡ (db'.jobs, true))
        (persist_found-jobs (get_run run_id store) db)
        (later_steps start db' (list_run_jobs run_id store) (list_run_channels run_id store) q)

-- What `load_jobs` finds under an id after `persist_run_state`: the job of the store, if it is of
-- the run, and else what it found before.
abbrev pub recovered : Codec → RunId → Option Job → Option Job → Option Job
recovered c run_id none old = old
recovered c run_id (some j) old = if str_eq j.run_id run_id then some (stored_job c j) else old

module _ {c : Codec} {sql : Sql c} (h : IsCodec c)
    (t : IsTable (λ (r : JobRow c). r.job_id) sql.jobs) where
  loaded_job :
      (db : Db sql) (js : List Job)
      → load_jobs sql db ≡ some js
      → (k : String) → find job_key k js ≡ map_option (row_job c) (sql.jobs.row k db.jobs)
  unfolding load_jobs row_job
  loaded_job db js q k = elim (Option-cases (sql.jobs.select db.jobs)) [
    | inl n ↦ ground (arith, n)
    | inr (rs, n) ↦
        let parts = find-map job_key (λ r. r.job_id) (row_job c) (λ r. refl) k rs in
        ground (arith, n, parts, t.selected db.jobs rs n k)
  ]

  -- When `persist_run_state` returns `Ok` on a well-formed store, `load_jobs` finds under each id
  -- the job of the store if it belongs to the run, field by field with its times at the precision
  -- of an `f64`, and under each other id what it would have found before. What is assumed of the
  -- crates is that the jobs table keeps rows by primary key and that JSON texts are read back.
  pub load_jobs-persist_run_state :
      (store : RunStore) (run_id : RunId) (db db' : Db sql) (old new : List Job)
      → IsWellFormed store
      → persist_run_state sql store run_id db ≡ (db', true)
      → load_jobs sql db ≡ some old
      → load_jobs sql db' ≡ some new
      → (k : JobId) → find job_key k new ≡ recovered c run_id (get_job k store) (find job_key k old)
  load_jobs-persist_run_state store run_id db db' old new w q lo ln k =
      let written = persist_run_state_jobs sql store run_id db db' q in
      let row =
        row-persist_all t job_key (job_row c) (λ j. unfold job_row in refl)
          (λ j. str_eq j.run_id run_id) store.jobs db.jobs db'.jobs w.jobs written k in
      let before = loaded_job db old lo k in
      let after = loaded_job db' new ln k in
      elim (Option-cases (get k store.jobs)) [
        | inl n ↦ ground (arith, n, row, before, after)
        | inr (j, n) ↦ ground (arith, n, row, before, after, row_job-job_row h j)
      ]
