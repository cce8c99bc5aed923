-- ===== src/Worker/Tests.antt =====
-- src/worker.rs and src/agent.rs: the theorems at concrete inputs.
use zeptopm.Base.{ℕ, ◌≡◌, ◌≤◌, ◌+◌, ◌-◌, ◌%◌, refl, some, List, [], ◌∷◌, drop, length, arith}
use zeptopm.Worker.{round_down, truncate_history}
use zeptopm.Worker.Bounds.{truncate_history_exact}

abbrev five : List ℕ
five = 1 ∷ 2 ∷ 3 ∷ 4 ∷ 5 ∷ []

truncate_history_exact_example :
    (truncate_history five (some 3) ≡ drop (length five - round_down 3) five)
    × (length (truncate_history five (some 3)) ≡ round_down 3)
    × (round_down 3 ≤ 3)
    × (3 ≤ round_down 3 + 1)
    × (length (truncate_history five (some 3)) % 2 ≡ 0)
truncate_history_exact_example = truncate_history_exact five 3 (omega arith)

latest_two : truncate_history five (some 3) ≡ 4 ∷ 5 ∷ []
unfolding truncate_history
latest_two = refl
