-- ===== src/Capsule/Drive/Loop.antt =====
-- src/capsule.rs: what the loop of a job in a capsule keeps, and what follows it.
use zeptopm.Base.{
  String, ◌≡◌, arith, Bool, true, false, ◌||◌, if◌then◌else◌, Option, some, List, [], ◌∷◌, ◌++◌,
  str_eq, Option-cases, inl, inr, subst, format,
}
use zeptopm.Json.{Json, str_or_empty}
use zeptopm.Agent.{user_message, channel_message, job_execute, stop}
use zeptopm.Capsule.{CapsuleReport, capsule_failure_event}
use zeptopm.Capsule.Drive.{
  kill, Input, command, commands_closed, line, invalid_line, pipe_closed, pipe_error, Drive, Task,
  send, stopped, terminal, on_line, on_input, serve, finish, translated, completed, failed,
  read_failed, last_failure,
}
use zeptopm.Capsule.Drive.Events.{
  count, count-snoc, is_create, is_destroy, is_kill, if-elim, some-injective, own-quiet,
  translated-quiet, CountsEnds,
}
use zeptopm.Capsule.Drive.Leaving.{count-acts}

module _ (t : Task) (p : Json → Bool) (laws : CountsEnds t p) where
  open laws use {of_failed, of_completed, of_others}

  -- A job that has not ended, or has by an event, by a stop, or by a failure that is still to be told.
  pub record InLoop (d : Drive) : Type 0 where
    pub told : count p d.events ≡ (if d.saw_terminal_event then 1 else 0)
    pub once : d.saw_terminal_event ≡ true → d.suppress_terminal_event ≡ false
    pub going :
        d.is_open ≡ true → (d.saw_terminal_event ≡ false) × (d.suppress_terminal_event ≡ false)
    pub waiting : (e : Json) → d.deferred_failure ≡ some e → p e ≡ true
    pub kept : count is_destroy d.effects ≡ 0
    pub made : count is_create d.effects ≡ 1
    pub killed : count is_kill d.effects ≡ (if d.suppress_terminal_event then 1 else 0)

  told-quiet :
      (event : Json) (d : Drive)
      → p event ≡ false
      → InLoop d
      → count p (d.events ++ event ∷ []) ≡ (if d.saw_terminal_event then 1 else 0)
  told-quiet event d q h = ground (arith, h.told, count-snoc p d.events event)

  send-InLoop : (event : Json) (d : Drive) → p event ≡ false → InLoop d → InLoop (send event d)
  send-InLoop event d q h = record {
    told = told-quiet event d q h;
    once = h.once;
    going = h.going;
    waiting = h.waiting;
    kept = h.kept;
    made = h.made;
    killed = h.killed;
  }

  told-terminal :
      (event : Json) (d : Drive)
      → p event ≡ true
      → d.is_open ≡ true
      → InLoop d
      → count p (d.events ++ event ∷ []) ≡ 1
  told-terminal event d q o h = ground (arith, h.told, h.going o, count-snoc p d.events event)

  terminal-InLoop :
      (event : Json) (d : Drive)
      → p event ≡ true
      → d.is_open ≡ true
      → InLoop d
      → InLoop (terminal event d)
  terminal-InLoop event d q o h = record {
    told = told-terminal event d q o h;
    once = λ e. (h.going o).1;
    going = λ e. cc;
    waiting = h.waiting;
    kept = h.kept;
    made = h.made;
    killed = h.killed;
  }

  stopped-InLoop : (d : Drive) → d.is_open ≡ true → InLoop d → InLoop (stopped d)
  stopped-InLoop d o h = record {
    told = h.told;
    once = λ e. cc (h.going o).0;
    going = λ e. cc;
    waiting = h.waiting;
    kept = ground (arith, h.kept, count-snoc is_destroy d.effects kill);
    made = ground (arith, h.made, count-snoc is_create d.effects kill);
    killed = ground (arith, h.killed, h.going o, count-snoc is_kill d.effects kill);
  }

  on_line-InLoop :
      (event : Json) (d : Drive) → d.is_open ≡ true → InLoop d → InLoop (on_line t event d)
  unfolding on_line
  on_line-InLoop event d o h =
      let k = str_or_empty "type" event in
      if-elim InLoop (str_eq k "heartbeat" || str_eq k "progress")
        (λ e. send-InLoop event d (of_others event (own-quiet event e)) h)
        λ _.
          if-elim InLoop (str_eq k "artifact_produced")
            (λ e. send-InLoop (translated t event) d (of_others _ (translated-quiet t event e)) h)
            λ _.
              if-elim InLoop (str_eq k "job_completed")
                (λ _. terminal-InLoop (completed t.job.job_id event) d (of_completed event) o h)
                λ _.
                  if-elim InLoop (str_eq k "job_failed")
                    (λ _. terminal-InLoop (failed t.job.job_id event) d (of_failed _ _) o h)
                    (λ _. h)

  read_failed-waiting :
      (e : String) (d : Drive) (f : Json)
      → (read_failed t e d).deferred_failure ≡ some f
      → p f ≡ true
  read_failed-waiting e d f q =
      subst (λ x. p x ≡ true) (some-injective q)
        (of_failed (format ("pipe read error: " ∷ e ∷ [])) true)

  on_input-InLoop :
      (input : Input) (d : Drive) → d.is_open ≡ true → InLoop d → InLoop (on_input t input d)
  unfolding on_input
  on_input-InLoop (command stop) d o h = stopped-InLoop d o h
  on_input-InLoop (command (user_message m k)) d o h = h
  on_input-InLoop (command (channel_message c m)) d o h = h
  on_input-InLoop (command (job_execute i j k l)) d o h = h
  on_input-InLoop commands_closed d o h = stopped-InLoop d o h
  on_input-InLoop (line event) d o h = on_line-InLoop event d o h
  on_input-InLoop invalid_line d o h = h
  on_input-InLoop pipe_closed d o h = record {
    told = h.told;
    once = h.once;
    going = λ e. cc;
    waiting = h.waiting;
    kept = h.kept;
    made = h.made;
    killed = h.killed;
  }
  on_input-InLoop (pipe_error e) d o h = record {
    told = h.told;
    once = h.once;
    going = λ e. cc;
    waiting = read_failed-waiting e d;
    kept = h.kept;
    made = h.made;
    killed = h.killed;
  }

  pub serve-InLoop : (inputs : List Input) (d : Drive) → InLoop d → InLoop (serve t inputs d)
  unfolding serve
  serve-InLoop [] d h = h
  serve-InLoop (input ∷ inputs) d h =
      if-elim InLoop d.is_open
        (λ o. serve-InLoop inputs (on_input t input d) (on_input-InLoop input d o h)) (λ _. h)

  last-ends :
      (report : Option CapsuleReport) (d : Drive) → InLoop d → p (last_failure t report d) ≡ true
  unfolding capsule_failure_event
  last-ends report d h = elim (Option-cases d.deferred_failure) [
    | inl gone ↦ rw gone (of_failed _ _)
    | inr (e, q) ↦ rw q (h.waiting e q)
  ]

  -- After the loop there is one end for the orchestrator, unless the job has been stopped.
  pub finish-told :
      (report : Option CapsuleReport) (d : Drive)
      → InLoop d
      → count p (finish t report d).events ≡ (if d.suppress_terminal_event then 0 else 1)
  unfolding finish
  finish-told report d h =
      ground (
        arith,
        h.told,
        h.once,
        count-snoc p d.events (last_failure t report d),
        last-ends report d h,
      )

  pub finish-acts :
      (report : Option CapsuleReport) (d : Drive)
      → InLoop d
      → (count is_destroy (finish t report d).effects ≡ 1)
        × (count is_create (finish t report d).effects ≡ 1)
        × (count is_kill (finish t report d).effects ≡ (if d.suppress_terminal_event then 1 else 0))
  finish-acts report d h = ground (
    arith,
    h.kept,
    h.made,
    h.killed,
    count-acts t is_destroy report d,
    count-acts t is_create report d,
    count-acts t is_kill report d,
  )
