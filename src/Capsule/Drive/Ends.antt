-- ===== src/Capsule/Drive/Ends.antt =====
-- src/capsule.rs, `spawn_capsule_job`: however a job in a capsule ends, the orchestrator hears of it
-- once, and a capsule that was created is destroyed.
use zeptopm.Base.{
  ℕ, String, ◌≡◌, refl, sym, str_eq, str_eq_refl, get, ◌∙◌, arith, Bool, true, if◌then◌else◌,
  Option, List, Map, any, Option-cases, inl, inr,
}
use zeptopm.Types.{JobId, Job}
use zeptopm.Store.{RunStore}
use zeptopm.Config.{Config}
use zeptopm.Json.{Json, get_str, str_or_empty}
use zeptopm.Capsule.{CapsuleReport, job_failed}
use zeptopm.Capsule.Drive.{
  create, create_dir_all, write, spawn, Outcomes, Input, Drive, Task, start, act, serve, finish,
  drive, run_task, spawn_capsule_job, task_of, arguments, job_spec,
}
use zeptopm.Capsule.Drive.Events.{
  CountsEnds, count, is_terminal, ends_job, is_create, is_destroy, is_kill, leaves, if-elim,
}
use zeptopm.Capsule.Drive.Leaving.{finish-suppress, serve-leaves}
use zeptopm.Capsule.Drive.Loop.{InLoop, finish-told, finish-acts, serve-InLoop}

-- The state in which the loop starts: the capsule is there, and nothing has been told.
abbrev spawned : Task → Drive
spawned t = act (spawn t.worker_binary (arguments t) t.env) (
    act (write t.host_spec_path (job_spec t))
      (act (create_dir_all t.job.workspace_dir) (act (create t.spec) start)))

module _ (t : Task) (p : Json → Bool) (laws : CountsEnds t p) where
  -- How often the job's end has been told, and what has been done with the capsule.
  record Ends (d : Drive) : Type 0 where
    pub told : count p d.events ≡ (if d.suppress_terminal_event then 0 else 1)
    pub destroyed : count is_destroy d.effects ≡ count is_create d.effects
    pub stopped : count is_kill d.effects ≡ (if d.suppress_terminal_event then 1 else 0)

  spawned-InLoop : InLoop t p laws (spawned t)
  spawned-InLoop = record {
    told = refl;
    once = λ e. cc;
    going = λ e. (refl, refl);
    waiting = λ e q. cc;
    kept = refl;
    made = refl;
    killed = refl;
  }

  finish-Ends :
      (report : Option CapsuleReport) (d : Drive) → InLoop t p laws d → Ends (finish t report d)
  finish-Ends report d h = record {
    told = finish-told t p laws report d h ∙ sym (rw (finish-suppress t report d) refl);
    destroyed = ground (arith, finish-acts t p laws report d h);
    stopped = ground (arith, finish-acts t p laws report d h, finish-suppress t report d);
  }

  -- A failure before the loop is told once.
  failed-once : (e : String) → ◌≡◌ {A = ℕ} (if p (job_failed t.job.job_id e true) then 1 else 0) 1
  failed-once e = rw (laws.of_failed e true) refl

  drive-Ends :
      (o : Outcomes) (inputs : List Input)
      → any leaves inputs ≡ true
      → Ends (drive t o inputs (spawned t))
  unfolding drive
  drive-Ends o inputs h =
      let d = serve t inputs (spawned t) in
      let kept = serve-InLoop t p laws inputs (spawned t) spawned-InLoop in
      if-elim Ends d.is_open (λ o'. cc (serve-leaves t inputs (spawned t) h))
        (λ _. finish-Ends o.report d kept)

  run_task-Ends :
      (o : Outcomes) (inputs : List Input) → any leaves inputs ≡ true → Ends (run_task t o inputs)
  unfolding run_task
  run_task-Ends o inputs h = elim (Option-cases o.create_error) [
    | inr (e, q) ↦ rw q (record { told = failed-once _; destroyed = refl; stopped = refl })
    | inl made ↦ elim (Option-cases o.create_dir_error) [
      | inr (e, q) ↦
          rw (made, q) (record { told = failed-once _; destroyed = refl; stopped = refl })
      | inl dir ↦ elim (Option-cases o.write_error) [
        | inr (e, q) ↦
            rw (made, dir, q) (record { told = failed-once _; destroyed = refl; stopped = refl })
        | inl wrote ↦ elim (Option-cases o.spawn_error) [
          | inr (e, q) ↦
              rw (made, dir, wrote, q)
                (record { told = failed-once _; destroyed = refl; stopped = refl })
          | inl ran ↦ rw (made, dir, wrote, ran) (drive-Ends o inputs h)
        ]
      ]
    ]
  ]

terminal-CountsEnds : (t : Task) → CountsEnds t is_terminal
unfolding str_or_empty get_str str_eq get
terminal-CountsEnds t = record {
  of_failed = λ e r. refl;
  of_completed = λ event. refl;
  of_others = λ event h. h;
}

ends_job-CountsEnds : (t : Task) → CountsEnds t (ends_job t.job.job_id)
unfolding str_or_empty get_str str_eq get
ends_job-CountsEnds t = record {
  of_failed = λ e r. rw (str_eq_refl t.job.job_id) refl;
  of_completed = λ event. rw (str_eq_refl t.job.job_id) refl;
  of_others = λ event h. ground (arith, h);
}

-- The end of the job `job_id` has been told once, and no other; or never, since the capsule was
-- killed. What was created has been destroyed.
abbrev pub EndsOnce : JobId → Drive → Type 0
EndsOnce job_id d =
    (count is_terminal d.events ≡ (if d.suppress_terminal_event then 0 else 1))
    × (count (ends_job job_id) d.events ≡ (if d.suppress_terminal_event then 0 else 1))
    × (count is_kill d.effects ≡ (if d.suppress_terminal_event then 1 else 0))
    × (count is_destroy d.effects ≡ count is_create d.effects)

-- A job in a capsule, whatever fails before, in or after its loop, provided that some input leaves
-- the loop: a stop or the end of the commands, the end of the pipe or an error of it, or a terminal
-- event. Exactly one terminal event is sent, and it names the job; only where the capsule has been
-- killed on a stop is there none. A capsule that has been created is destroyed once.
pub capsule_job-EndsOnce :
    (vars : Map String) (job : Job) (config : Config) (store : RunStore) (o : Outcomes)
    (inputs : List Input)
    → any leaves inputs ≡ true
    → EndsOnce job.job_id (spawn_capsule_job vars job config store o inputs)
unfolding spawn_capsule_job
capsule_job-EndsOnce vars job config store o inputs h =
    let t = task_of vars job config store in
    let any_end = run_task-Ends t is_terminal (terminal-CountsEnds t) o inputs h in
    let own_end = run_task-Ends t (ends_job job.job_id) (ends_job-CountsEnds t) o inputs h in
    (any_end.told, own_end.told, any_end.stopped, any_end.destroyed)
