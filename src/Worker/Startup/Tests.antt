-- ===== src/Worker/Startup/Tests.antt =====
-- The theorem on the worker's process at concrete values.
use zeptopm.Base.{ℕ, false, none, some, List, ◌≡◌, refl, [], ◌∷◌, inr, str_eq, get}
use zeptopm.Json.{Json, text, str_or_empty}
use zeptopm.Config.{resolve_key}
use zeptopm.Config.Files.{create_provider}
use zeptopm.Daemon.World.{find_agent}
use zeptopm.Daemon.Samples.{a_config}
use zeptopm.Worker.Process.{Line, on_line}
use zeptopm.Worker.Process.Requests.{answers, chat, job}
use zeptopm.Worker.Startup.{Start, run}
use zeptopm.Worker.Startup.Answers.{IsAnswered, run-IsAnswered}

abbrev a_start : Start ℕ
a_start = record {
  config =
      inr (record a_config {
        providers = ("p", record { api_key = some "k"; base_url = none }) ∷ [];
      });
  env_var = λ v. none;
  home = some "/root";
  pid = 4;
  exists = λ path. false;
  read_to_string = λ path. none;
  parse_history = λ content. none;
  build_error = λ built. none;
}

abbrev a_line : Json → Line ℕ
a_line cmd = record {
  cmd = some cmd;
  ticks = 1;
  chat = λ prompt. inr "done";
  history = 1 ∷ [];
  read_to_string = λ path. none;
}

abbrev lines' : List (Line ℕ)
lines' =
    a_line (("cmd", text "chat") ∷ ("id", text "req-0") ∷ [])
    ∷ a_line (("cmd", text "job_execute") ∷ ("job_id", text "b") ∷ [])
    ∷ a_line (("cmd", text "stop") ∷ [])
    ∷ a_line (("cmd", text "chat") ∷ ("id", text "req-1") ∷ [])
    ∷ []

run-IsAnswered_example : IsAnswered ℕ (run a_start "writer" lines') lines'
run-IsAnswered_example = run-IsAnswered ℕ a_start "writer" lines'

-- The process starts, and answers the two commands before the stop.
answered : answers (run a_start "writer" lines') ≡ chat "req-0" ∷ job "b" ∷ []
unfolding run find_agent str_eq create_provider get resolve_key str_or_empty on_line
answered = refl
