-- ===== src/Worker/Process/Requests.antt =====
-- src/worker.rs: what the loop of the process answers, and to which commands.
use mathlib.Core.List.{append-nil}
use zeptopm.Base.{
  ℕ, zero, suc, String, ◌≡◌, refl, ap, ◌∙◌, arith, ◌||◌, if◌then◌else◌, Option, none, some, List,
  [], ◌∷◌, ◌++◌, filter_map, get, str_eq, unwrap_or, format, ◌⊎◌, inl, inr, Bool-cases,
  Option-cases,
}
use zeptopm.Types.{JobId}
use zeptopm.Json.{Json, get_str, str_or_empty, get_texts}
use zeptopm.Worker.Process.{
  Output, message, save_history, create_dir_all, write, Line, Session, heartbeats, saved,
  chat_response, job_ended, send_status, send_log, context, send_progress, on_chat, on_job_execute,
  on_stop, on_line, is_stop, serve,
}

pub data Request : Type 0 where
  chat : String → Request
  job : JobId → Request

abbrev of_type : String → Json → Option Request
of_type t j =
    if str_eq t "chat_response"
    then some (chat (str_or_empty "id" j))
    else if str_eq t "job_completed" || str_eq t "job_failed"
    then some (job (str_or_empty "job_id" j))
    else none

-- The request to which an output is the answer: a response to a chat, or the end of a job.
abbrev pub answer_of : {M : Type 0} → Output M → Option Request
answer_of (message j) = of_type (str_or_empty "type" j) j
answer_of (save_history path history) = none
answer_of (create_dir_all path) = none
answer_of (write path content) = none

abbrev of_cmd : String → Json → Option Request
of_cmd name cmd =
    if str_eq name "chat"
    then some (chat (unwrap_or (get_str "id" cmd) "0"))
    else if str_eq name "job_execute"
    then some (job (str_or_empty "job_id" cmd))
    else none

abbrev pub request_of : {M : Type 0} → Line M → Option Request
request_of l = elim l.cmd [ none ↦ none | some cmd ↦ of_cmd (str_or_empty "cmd" cmd) cmd ]

-- The lines that are read: those up to the first stop.
abbrev pub until_stop : {M : Type 0} → List (Line M) → List (Line M)
until_stop [] = []
until_stop (l ∷ ls) = let rest = until_stop ls in if is_stop l then l ∷ [] else l ∷ rest

abbrev pub answers : {M : Type 0} → List (Output M) → List Request
answers = filter_map answer_of

module _ (M : Type 0) where
  pub answers-append : (xs ys : List (Output M)) → answers (xs ++ ys) ≡ answers xs ++ answers ys
  answers-append [] ys = refl
  answers-append (x ∷ xs) ys = ground (arith, answers-append xs ys)

  answers-status : (status : String) → answers (send_status {M = M} status ∷ []) ≡ []
  unfolding str_or_empty get_str get str_eq
  answers-status status = refl

  answers-status_log :
      (status log : String) (xs : List (Output M))
      → answers (send_status status ∷ send_log "info" log ∷ xs) ≡ answers xs
  unfolding str_or_empty get_str get str_eq
  answers-status_log status log xs = refl

  answers-prelude :
      (job_id : JobId) (log workspace : String) (xs : List (Output M))
      → answers (
          send_status "running"
          ∷ send_log "info" log
          ∷ send_progress job_id "preparing" "Building context from input artifacts" none
          ∷ create_dir_all workspace
          ∷ send_progress job_id "llm_call" "Sending request to LLM" none
          ∷ xs)
        ≡ answers xs
  unfolding str_or_empty get_str get str_eq
  answers-prelude job_id log workspace xs = refl

  answers-heartbeats : (job_id : Option JobId) (n : ℕ) → answers (heartbeats {M = M} job_id n) ≡ []
  unfolding str_or_empty get_str get str_eq
  answers-heartbeats none n = refl
  answers-heartbeats (some job_id) zero = refl
  answers-heartbeats (some job_id) (suc n) = answers-heartbeats (some job_id) n

  answers-saved : (s : Session) (history : List M) → answers (saved s history) ≡ []
  answers-saved s history = elim (Option-cases s.session_file) [
    | inl off ↦ rw off refl
    | inr (path, at) ↦ rw at refl
  ]

  answers-chat_response :
      (id : String) (r : String ⊎ String) → answers (chat_response {M = M} id r) ≡ chat id ∷ []
  unfolding str_or_empty get_str get str_eq
  answers-chat_response id (inl e) = refl
  answers-chat_response id (inr response) = refl

  answers-job_ended :
      (job_id : JobId) (workspace : String) (r : String ⊎ String)
      → answers (job_ended {M = M} job_id workspace r) ≡ job job_id ∷ []
  unfolding str_or_empty get_str get str_eq
  answers-job_ended job_id workspace (inl e) = refl
  answers-job_ended job_id workspace (inr response) = refl

  pub quiet-append : (xs ys : List (Output M)) → answers xs ≡ [] → answers (xs ++ ys) ≡ answers ys
  quiet-append xs ys h = answers-append xs ys ∙ ap (λ as'. as' ++ answers ys) h

  one-append :
      (r : Request) (xs ys : List (Output M))
      → answers xs ≡ r ∷ []
      → answers ys ≡ []
      → answers (xs ++ ys) ≡ r ∷ []
  one-append r xs ys h k =
      answers-append xs ys ∙ ap (λ as'. as' ++ answers ys) h ∙ ap (λ as'. r ∷ as') k

  answers-on_chat :
      (s : Session) (l : Line M) (cmd : Json)
      → answers (on_chat s l cmd) ≡ chat (unwrap_or (get_str "id" cmd) "0") ∷ []
  unfolding on_chat
  answers-on_chat s l cmd =
      let id = unwrap_or (get_str "id" cmd) "0" in
      let r = l.chat (str_or_empty "message" cmd) in
      let reply : List (Output M) = chat_response id r in
      let beats : List (Output M) = heartbeats (get_str "job_id" cmd) l.ticks in
      let end : List (Output M) = saved s l.history ++ send_status "idle" ∷ [] in
      let idle =
        quiet-append (saved s l.history) (send_status "idle" ∷ []) (answers-saved s l.history)
        ∙ answers-status "idle" in
      answers-status_log "running" "processing message" (beats ++ (reply ++ end))
      ∙ quiet-append beats (reply ++ end) (answers-heartbeats (get_str "job_id" cmd) l.ticks)
      ∙ one-append (chat id) reply end (answers-chat_response id r) idle

  answers-on_job_execute :
      (l : Line M) (cmd : Json)
      → answers (on_job_execute l cmd) ≡ job (str_or_empty "job_id" cmd) ∷ []
  unfolding on_job_execute
  answers-on_job_execute l cmd =
      let job_id = str_or_empty "job_id" cmd in
      let workspace = unwrap_or (get_str "workspace" cmd) "/tmp" in
      let prompt =
        context l.read_to_string (str_or_empty "instruction" cmd)
          (get_texts "input_artifacts" cmd) in
      let ended : List (Output M) = job_ended job_id workspace (l.chat prompt) in
      let beats : List (Output M) = heartbeats (some job_id) l.ticks in
      let idle : List (Output M) = send_status "idle" ∷ [] in
      answers-prelude job_id (format ("executing job " ∷ job_id ∷ [])) workspace
        (beats ++ (ended ++ idle))
      ∙ quiet-append beats (ended ++ idle) (answers-heartbeats (some job_id) l.ticks)
      ∙ one-append (job job_id) ended idle (answers-job_ended job_id workspace (l.chat prompt))
          (answers-status "idle")

  answers-on_stop : (s : Session) (l : Line M) → answers (on_stop s l) ≡ []
  unfolding on_stop str_or_empty get_str get str_eq
  answers-on_stop s l = elim (Option-cases s.session_file) [
    | inl off ↦ rw off refl
    | inr (path, at) ↦ rw at refl
  ]

  answers-on_line :
      (s : Session) (l : Line M) → answers (on_line s l) ≡ filter_map request_of (l ∷ [])
  unfolding on_line
  answers-on_line s l = elim (Option-cases l.cmd) [
    | inl bad ↦ rw (bad, on_line) refl
    | inr (cmd, good) ↦
        ground
          (arith, good, answers-on_chat s l cmd, answers-on_job_execute l cmd, answers-on_stop s l)
  ]

  requests-cons :
      (l : Line M) (ls : List (Line M))
      → filter_map request_of (l ∷ []) ++ filter_map request_of ls ≡ filter_map request_of (l ∷ ls)
  requests-cons l ls = ground arith

  pub answers-serve :
      (s : Session) (ls : List (Line M))
      → answers (serve s ls) ≡ filter_map request_of (until_stop ls)
  unfolding serve
  answers-serve s [] = refl
  answers-serve s (l ∷ ls) = elim (Bool-cases (is_stop l)) [
    | inl last ↦ rw last (answers-append (on_line s l) [] ∙ append-nil _ ∙ answers-on_line s l)
    | inr more ↦ rw more (
        answers-append (on_line s l) (serve s ls)
        ∙ ap (λ as'. as' ++ answers (serve s ls)) (answers-on_line s l)
        ∙ ap (λ as'. filter_map request_of (l ∷ []) ++ as') (answers-serve s ls)
        ∙ requests-cons l (until_stop ls))
  ]
