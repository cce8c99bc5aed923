-- ===== src/Worker/Bounds.antt =====
-- src/worker.rs and src/agent.rs: what remains of a history or a log, and how long it is.
use zeptopm.Base.{
  ℕ, ◌+◌, ◌-◌, ◌%◌, ◌==◌, ◌≤◌, ◌<◌, ◌≡◌, refl, arith, leb, some, List, [], ◌∷◌, ◌++◌, drop, length,
  length-append, Bool-cases, inl, inr, suc, zero,
}
use mathlib.Core.List.{append-nil, append_assoc}
use zeptopm.Worker.{round_down, truncate_history, max_log_entries, push_log, push_logs}

module _ {ℓ} {A : Type ℓ} where
  length-drop : (n : ℕ) (xs : List A) → length (drop n xs) ≡ length xs - n
  length-drop zero xs = omega arith
  length-drop (suc n) [] = omega arith
  length-drop (suc n) (x ∷ xs) = omega (arith, length-drop n xs)

  drop-length : (xs : List A) → drop (length xs) xs ≡ []
  drop-length [] = refl
  drop-length (x ∷ xs) = drop-length xs

  truncate_history-cut :
      (history : List A) (max : ℕ)
      → max < length history
      → truncate_history history (some max) ≡ drop (length history - round_down max) history
  unfolding truncate_history
  truncate_history-cut history max h = elim (Bool-cases (round_down max == 0)) [
    | inl e ↦
        let whole : length history - round_down max ≡ length history = ground (arith, e) in
        rw whole (ground (arith, h, e, drop-length history))
    | inr e ↦ ground (arith, h, e)
  ]

  -- A history that is longer than its limit is cut to its latest messages, as many as the largest
  -- even number within the limit says.
  pub truncate_history_exact :
      (history : List A) (max : ℕ)
      → max < length history
      → (truncate_history history (some max) ≡ drop (length history - round_down max) history)
        × (length (truncate_history history (some max)) ≡ round_down max)
        × (round_down max ≤ max)
        × (max ≤ round_down max + 1)
        × (length (truncate_history history (some max)) % 2 ≡ 0)
  truncate_history_exact history max h =
      let cut = truncate_history-cut history max h in
      let size : length (truncate_history history (some max)) ≡ round_down max =
        rw cut (omega (arith, length-drop (length history - round_down max) history, h)) in
      (cut, size, omega arith, omega arith, rw size (omega arith))

  push_logs_from :
      (logs entries : List A)
      → length logs ≤ max_log_entries
      → push_logs logs entries ≡ drop (length (logs ++ entries) - max_log_entries) (logs ++ entries)
  unfolding push_logs push_log
  push_logs_from logs [] h =
      let fits : length logs - max_log_entries ≡ 0 = omega (arith, h) in
      rw (append-nil logs, fits) refl
  push_logs_from [] (entry ∷ entries) h = push_logs_from (entry ∷ []) entries (omega arith)
  push_logs_from (x ∷ logs) (entry ∷ entries) h =
      elim (Bool-cases (leb max_log_entries (suc (length logs)))) [
        | inl e ↦
            let size = length-append logs (entry ∷ entries) in
            let longer : suc (length (logs ++ entry ∷ entries)) - max_log_entries
                ≡ suc (length (logs ++ entry ∷ entries) - max_log_entries) =
              ground (arith, e, size) in
            let rest =
              push_logs_from (logs ++ entry ∷ []) entries
                (omega (arith, length-append logs (entry ∷ []), h)) in
            rw (e, longer) (rw (append_assoc logs (entry ∷ []) entries) at rest)
        | inr e ↦
            let rest =
              push_logs_from (x ∷ (logs ++ entry ∷ [])) entries
                (ground (arith, length-append logs (entry ∷ []), e)) in
            rw e (rw (append_assoc logs (entry ∷ []) entries) at rest)
      ]

  -- A log that starts empty holds the last hundred entries that were pushed, in their order.
  pub push_logs_latest :
      (entries : List A) → push_logs [] entries ≡ drop (length entries - max_log_entries) entries
  push_logs_latest entries = push_logs_from [] entries (omega arith)
