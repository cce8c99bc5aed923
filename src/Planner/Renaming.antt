-- ===== src/Planner/Renaming.antt =====
-- src/orchestrator/planner.rs, `materialize_plan`: the real ids of the planned jobs.
use text.Mathlib.TextLemmas.{append_cancel_left, append_cancel_right}
use zeptopm.Base.{
  ℕ, ◌+◌, ◌%◌, ◌≤◌, ◌<◌, String, ◌≡◌, ◌≢◌, refl, ap, ◌∙◌, arith, false, if◌then◌else◌, List, [],
  ◌∷◌, map, length, Map, get, insert, values, contains, contains_key, get-insert, str_eq→eq,
  str_eq_comm, str_eq_refl, ne→str_eq, IsNodup, u64_mod, show_nat, show_nat-inj,
}
use zeptopm.Types.{JobId, Time, PlannedJob}
use zeptopm.Scheduler.{gen_id}
use zeptopm.Planner.{assign_ids, translate, real_id_of}

abbrev pub job_id_at : Time → ℕ → JobId
job_id_at now n = (gen_id "job" now n).0

abbrev pub local_ids : List PlannedJob → List String
local_ids = map (λ (j : PlannedJob). j.local_id)

-- The planned jobs are numbered in their order, from `n` on.
abbrev pub renaming : Time → ℕ → List PlannedJob → Map JobId
renaming now n [] = []
renaming now n (spec ∷ specs) = (spec.local_id, job_id_at now n) ∷ renaming now (n + 1) specs

job_id_at-inj :
    (now : Time) (m n : ℕ) → m < u64_mod → n < u64_mod → job_id_at now m ≡ job_id_at now n → m ≡ n
unfolding gen_id
job_id_at-inj now m n hm hn e =
    let digits = append_cancel_left "_" _ _ (
      append_cancel_left (show_nat now) _ _
        (append_cancel_left "_" _ _ (append_cancel_left "job" _ _ e))) in
    show_nat-inj m n (omega (arith, hm)) (omega (arith, hn))
      (append_cancel_right (show_nat m) (show_nat n) "" digits)

new_id :
    (now : Time) (m n : ℕ) (specs : List PlannedJob)
    → m < n
    → n + length specs ≤ u64_mod
    → contains (job_id_at now m) (values (renaming now n specs)) ≡ false
unfolding contains
new_id now m n [] h k = refl
new_id now m n (spec ∷ specs) h k =
    let apart : job_id_at now n ≢ job_id_at now m = λ e.
      absurd (omega (arith, job_id_at-inj now n m (omega (arith, h, k)) (omega (arith, h, k)) e)) in
    ground (
      arith,
      ne→str_eq (job_id_at now n) (job_id_at now m) apart,
      new_id now m (n + 1) specs (omega (arith, h)) (omega (arith, k)),
    )

pub renaming-IsNodup :
    (now : Time) (n : ℕ) (specs : List PlannedJob)
    → n + length specs ≤ u64_mod
    → IsNodup (values (renaming now n specs))
renaming-IsNodup now n [] h = tt
renaming-IsNodup now n (spec ∷ specs) h = (
  new_id now n (n + 1) specs (omega arith) (omega (arith, h)),
  renaming-IsNodup now (n + 1) specs (omega (arith, h)),
)

pub contains_key-renaming :
    (now : Time) (n : ℕ) (k : String) (specs : List PlannedJob)
    → contains_key k (renaming now n specs) ≡ contains k (local_ids specs)
unfolding get contains
contains_key-renaming now n k [] = refl
contains_key-renaming now n k (spec ∷ specs) =
    ground (arith, contains_key-renaming now (n + 1) k specs)

get-assign_ids :
    (now : Time) (n : ℕ) (k : String) (specs : List PlannedJob) (m : Map JobId)
    → n + length specs < u64_mod
    → IsNodup (local_ids specs)
    → get k (assign_ids now n specs m).0
      ≡ (if contains k (local_ids specs) then get k (renaming now n specs) else get k m)
unfolding assign_ids gen_id get contains
get-assign_ids now n k [] m h d = refl
get-assign_ids now n k (spec ∷ specs) m h d =
    let step : (n + 1) % u64_mod ≡ n + 1 = omega (arith, h) in
    let rest =
      get-assign_ids now (n + 1) k specs (insert spec.local_id (job_id_at now n) m)
        (omega (arith, h)) d.1 in
    ap (λ c. get k (assign_ids now c specs (insert spec.local_id (job_id_at now n) m)).0) step
    ∙ rest
    ∙ ground (arith, d.0, get-insert k spec.local_id (job_id_at now n) m, str_eq→eq spec.local_id k)

pub counter-assign_ids :
    (now : Time) (n : ℕ) (specs : List PlannedJob) (m : Map JobId)
    → n + length specs < u64_mod
    → (assign_ids now n specs m).1 ≡ n + length specs
unfolding assign_ids gen_id
counter-assign_ids now n [] m h = omega arith
counter-assign_ids now n (spec ∷ specs) m h =
    let step : (n + 1) % u64_mod ≡ n + 1 = omega (arith, h) in
    let m' = insert spec.local_id (job_id_at now n) m in
    ap (λ c. (assign_ids now c specs m').1) step
    ∙ counter-assign_ids now (n + 1) specs m' (omega (arith, h))
    ∙ omega arith

-- The map of the code names each local id as the renaming does.
pub assign_ids-renaming :
    (now : Time) (n : ℕ) (k : String) (specs : List PlannedJob)
    → n + length specs < u64_mod
    → IsNodup (local_ids specs)
    → get k (assign_ids now n specs []).0 ≡ get k (renaming now n specs)
unfolding get
assign_ids-renaming now n k specs h d =
    ground (arith, get-assign_ids now n k specs [] h d, contains_key-renaming now n k specs)

skip_first :
    (l id : String) (r : Map JobId) (specs : List PlannedJob)
    → contains l (local_ids specs) ≡ false
    → map (real_id_of ((l, id) ∷ r)) specs ≡ map (real_id_of r) specs
unfolding get contains
skip_first l id r [] h = refl
skip_first l id r (spec ∷ specs) h =
    ground (arith, h, skip_first l id r specs, str_eq_comm l spec.local_id)

-- In the order of the plan the jobs have the new ids in their order.
pub real_ids :
    (now : Time) (n : ℕ) (specs : List PlannedJob)
    → IsNodup (local_ids specs)
    → map (real_id_of (renaming now n specs)) specs ≡ values (renaming now n specs)
unfolding get
real_ids now n [] d = refl
real_ids now n (spec ∷ specs) d =
    let tail =
      skip_first spec.local_id (job_id_at now n) (renaming now (n + 1) specs) specs d.0
      ∙ real_ids now (n + 1) specs d.1 in
    rw (str_eq_refl spec.local_id) (ap (λ ids. job_id_at now n ∷ ids) tail)

module _ (m r : Map JobId) (same : (k : String) → get k m ≡ get k r) where
  pub translate_cong : (locals : List String) → translate m locals ≡ translate r locals
  translate_cong [] = refl
  translate_cong (l ∷ locals) = ground (arith, same l, translate_cong locals)

  pub real_ids_cong :
      (specs : List PlannedJob) → map (real_id_of m) specs ≡ map (real_id_of r) specs
  real_ids_cong [] = refl
  real_ids_cong (spec ∷ specs) = ground (arith, same spec.local_id, real_ids_cong specs)
