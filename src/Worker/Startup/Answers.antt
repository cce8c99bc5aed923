-- ===== src/Worker/Startup/Answers.antt =====
-- src/worker.rs: what the process answers, or that it does not start.
use zeptopm.Base.{
  ℕ, String, ◌≡◌, refl, ◌∙◌, List, [], ◌∷◌, filter_map, get, str_eq, length, ◌⊎◌, inl, inr,
  Option-cases,
}
use zeptopm.Json.{get_str, str_or_empty}
use zeptopm.Config.{AgentConfig, Config}
use zeptopm.Config.Files.{Provider, create_provider}
use zeptopm.Daemon.World.{find_agent}
use zeptopm.Worker.Process.{Output, Line, send_error, serve}
use zeptopm.Worker.Startup.{Start, Built, started, saved_history, session_of, launch, run}
use zeptopm.Worker.Process.Requests.{request_of, until_stop, answers, quiet-append, answers-serve}

sum-cases : {A B : Type 0} (x : A ⊎ B) → ((a : A) × (x ≡ inl a)) ⊎ ((b : B) × (x ≡ inr b))
sum-cases (inl a) = inl (a, refl)
sum-cases (inr b) = inr (b, refl)

module _ (M : Type 0) where
  answers-started : (st : Start M) (a : AgentConfig) (n : ℕ) → answers (started st a n) ≡ []
  unfolding str_or_empty get_str get str_eq
  answers-started st a n = refl

  -- It fails before it has read a line, and says so in one message; or it answers.
  abbrev pub IsAnswered : List (Output M) → List (Line M) → Type 0
  IsAnswered out ls =
      ((e : String) × (out ≡ send_error e ∷ []))
      ⊎ (answers out ≡ filter_map request_of (until_stop ls))

  launch-IsAnswered :
      (st : Start M) (config : Config) (a : AgentConfig) (provider : Provider) (ls : List (Line M))
      → IsAnswered (launch st config a provider ls) ls
  unfolding launch
  launch-IsAnswered st config a provider ls =
      let session = session_of st.home config a in
      let history = saved_history st session.session_file in
      let built : Built M = record {
        provider = provider;
        system_prompt = a.system_prompt;
        model = a.model;
        max_iterations = a.max_iterations;
        history = history;
      } in
      elim (Option-cases (st.build_error built)) [
        | inl well ↦
            rw (well, launch)
              (inr (
                quiet-append M (started st a (length history)) (serve session ls)
                  (answers-started st a (length history))
                ∙ answers-serve M session ls))
        | inr (e, bad) ↦ rw (bad, launch) (inl (_, refl))
      ]

  -- A process of a worker, whatever it finds and reads. Either it fails to start, and its only message
  -- is an error; or its answers are, one for one and in the same order, to the commands it reads up to
  -- the first stop: a `chat_response` with the id of each `chat`, and one `job_completed` or
  -- `job_failed` with the job of each `job_execute`.
  pub run-IsAnswered :
      (st : Start M) (agent_name : String) (ls : List (Line M))
      → IsAnswered (run st agent_name ls) ls
  unfolding run
  run-IsAnswered st agent_name ls = elim (sum-cases st.config) [
    | inl (e, bad) ↦ rw (bad, run) (inl (_, refl))
    | inr (config, good) ↦ elim (Option-cases (find_agent agent_name config.agents)) [
      | inl gone ↦ rw (good, run, gone) (inl (_, refl))
      | inr (a, found) ↦ elim (sum-cases (create_provider st.env_var a config)) [
        | inl (e, bad) ↦ rw (good, run, found, bad) (inl (e, refl))
        | inr (provider, made) ↦
            rw (good, run, found, made) (launch-IsAnswered st config a provider ls)
      ]
    ]
  ]
