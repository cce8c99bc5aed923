-- ===== src/Cli/Tests.antt =====
-- src/main.rs and src/status.rs at concrete inputs.
use zeptopm.Base.{◌≡◌, refl, true, none, some, [], ◌∷◌, get, insert, str_eq, show_nat}
use zeptopm.Cli.{
  RunView, JobView, answer, poll_error, format_uptime, format_status_table, on_poll, tail_run,
  tail_from,
}

abbrev a_job : JobView
a_job = record {
  job_id = some "b";
  role = some "coder";
  status = some "Running";
  instruction = some "work";
  error = none;
}

abbrev a_view : RunView
a_view = record {
  error = none;
  status = some "Completed";
  task = some "task";
  run_id = some "r";
  jobs = a_job ∷ [];
}

-- A status is told once, and nothing is read after the end of the run.
told_once :
    (tail_run "r" (
      answer "1" (record a_view { status = some "Running" })
      ∷ answer "2" a_view
      ∷ poll_error "closed"
      ∷ [])).lines
    ≡ "  1 [coder] b starting..." ∷ "\n  2 Run r -> Completed" ∷ []
unfolding tail_run tail_from on_poll get insert str_eq
told_once = refl

-- The answer for a run that the daemon does not know has no status, and the polls go on.
unknown_run :
    (tail_run "r" (
      answer "1" (record {
        error = some "run 'r' not found";
        status = none;
        task = none;
        run_id = none;
        jobs = [];
      })
      ∷ [])).is_open
    ≡ true
unfolding tail_run tail_from on_poll str_eq
unknown_run = refl

an_hour : format_uptime 3725 ≡ "1h 2m"
unfolding format_uptime show_nat
an_hour = refl

no_agents : format_status_table [] ≡ "No agents configured."
unfolding format_status_table
no_agents = refl
