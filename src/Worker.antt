-- ===== src/Worker.antt =====
-- src/worker.rs, `truncate_history`, and src/agent.rs, `push_log`: the two lists that a long-lived
-- agent keeps within bounds.
pub mod Bounds
pub mod Process
pub mod Startup
mod Tests
use zeptopm.Base.{
  ℕ, ◌-◌, ◌%◌, ◌==◌, if◌then◌else◌, leb, Option, none, some, List, [], ◌∷◌, ◌++◌, drop, length,
}

-- `max & !1` is `max` without its last bit.
abbrev pub round_down : ℕ → ℕ
round_down max = max - max % 2

unfoldable pub truncate_history {ℓ} : {A : Type ℓ} → List A → Option ℕ → List A
truncate_history history none = history
truncate_history history (some max) =
    if leb (length history) max
    then history
    else if round_down max == 0
    then []
    else drop (length history - round_down max) history

-- `MAX_LOG_ENTRIES`
abbrev pub max_log_entries : ℕ
max_log_entries = 100

unfoldable pub push_log {ℓ} : {A : Type ℓ} → List A → A → List A
push_log logs entry =
    (if leb max_log_entries (length logs) then drop 1 logs else logs) ++ entry ∷ []

-- The log after several entries.
unfoldable pub push_logs {ℓ} : {A : Type ℓ} → List A → List A → List A
push_logs logs [] = logs
push_logs logs (entry ∷ entries) = push_logs (push_log logs entry) entries
