-- ===== src/Agent/Tests.antt =====
-- src/agent.rs: the theorem about `worker_bridge` at concrete inputs.
use zeptopm.Base.{◌≡◌, arith, some, true, false, List, [], ◌∷◌}
use zeptopm.Json.{text}
use zeptopm.Agent.{user_message}
use zeptopm.Agent.Bridge.{
  Worker, Input, command, message, stdout_closed, start, serve, finish, exited,
}
use zeptopm.Agent.Bridge.Counts.{occurrences}
use zeptopm.Agent.Bridge.Replies.{answered, asked, each_answered_once}

abbrev a_worker : Worker
a_worker = record {
  agent_name = "writer";
  has_orch = true;
  orch_job_id = some "j";
  child_pid = some 42;
}

-- Two questions of which one is answered, twice, before the process ends.
abbrev inputs : List Input
inputs =
    command (user_message "one" (some 5)) true
    ∷ command (user_message "two" (some 6)) true
    ∷ message "t"
        (("type", text "chat_response") ∷ ("id", text "req-1") ∷ ("response", text "yes") ∷ [])
    ∷ message "t"
        (("type", text "chat_response") ∷ ("id", text "req-1") ∷ ("response", text "no") ∷ [])
    ∷ stdout_closed
    ∷ []

each_answered_once_example :
    occurrences 5
      (answered (finish a_worker "t" (exited false "signal 9") (serve a_worker inputs start)))
    ≡ occurrences 5 (asked a_worker inputs start)
each_answered_once_example =
    each_answered_once a_worker inputs "t" (exited false "signal 9") (omega arith) 5
