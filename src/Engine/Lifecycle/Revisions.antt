-- ===== src/Engine/Lifecycle/Revisions.antt =====
-- src/orchestrator/engine.rs, `handle_review_completion`: a revision enters a state in order.
use zeptopm.Base.{
  ℕ, String, ◌≡◌, refl, ap, sym, arith, true, false, ltb, if◌then◌else◌, some, [], ◌∷◌, ◌++◌,
  contains, contains-snoc, contains_key, is_some_and, IsNodup, IsNodup-snoc, insert, get-insert,
  str_eq, str_eq→eq, Bool-cases, Option-cases, inl, inr, ◌∙◌, subst,
}
use zeptopm.Types.{JobId, Job}
use zeptopm.Store.{get_job, create_job}
use zeptopm.Store.Laws.{create_job-IsWellFormed}
use zeptopm.Scheduler.{gen_id}
use zeptopm.Engine.{Engine, Env}
use zeptopm.Engine.Bounds.{IsBounded, own, keeps}
use zeptopm.Engine.Review.{
  ReviewDecision, approved, revise, rejected, handle_review_completion, next_round, revised_coder,
  next_reviewer, create_revision, reviewed_pair,
}
use zeptopm.Engine.Lifecycle.{is_ready_job, is_running_job, HasBudget, IsLive, HasNewPair}

module _ (env : Env) (e : Engine) (n : ℕ) (h : IsLive e) (new : HasNewPair env n e) where
  abbrev coder_id : JobId
  coder_id = (gen_id "job" env.system n).0

  abbrev reviewer_id : JobId
  reviewer_id = (gen_id "job" env.system (gen_id "job" env.system n).1).0

  module _ (e' : Engine) (coder reviewer : Job) (bounded : IsBounded e'.max_concurrency e')
      (fresh_coder : (is_ready_job coder ≡ true) × (is_running_job coder ≡ false) × HasBudget coder)
      (fresh_reviewer : (is_ready_job reviewer ≡ false)
        × (is_running_job reviewer ≡ false)
        × HasBudget reviewer)
      (stored : (k : JobId)
        → get_job k e'.store ≡ (
            if str_eq reviewer_id k
            then some reviewer
            else if str_eq coder_id k
            then some coder
            else get_job k e.store))
      (queue : e'.ready_queue ≡ e.ready_queue ++ coder_id ∷ [])
      (active : e'.active_jobs ≡ e.active_jobs) where
    revised-queued :
        (k : JobId) → contains k e'.ready_queue ≡ is_some_and is_ready_job (get_job k e'.store)
    revised-queued k =
        let at_end = ap (contains k) queue ∙ contains-snoc k e.ready_queue coder_id in
        elim (Bool-cases (str_eq reviewer_id k)) [
          | inl r ↦ ground (
            arith,
            r,
            at_end,
            stored k,
            h.queued k,
            new,
            fresh_reviewer,
            ap (λ (i : JobId). get_job i e.store) (str_eq→eq reviewer_id k r),
            ap (str_eq coder_id) (str_eq→eq reviewer_id k r),
            ap (λ (i : JobId). str_eq i coder_id) (str_eq→eq reviewer_id k r),
            str_eq→eq coder_id k,
            str_eq→eq reviewer_id k r,
          )
          | inr r ↦ ground (arith, r, at_end, stored k, h.queued k, fresh_coder)
        ]

    revised-active :
        (k : JobId)
        → contains_key k e'.active_jobs ≡ is_some_and is_running_job (get_job k e'.store)
    revised-active k = ground (
      arith,
      stored k,
      ap (contains_key k) active,
      h.active k,
      new,
      fresh_coder,
      fresh_reviewer,
      λ (r : str_eq reviewer_id k ≡ true).
          ap (λ (i : JobId). get_job i e.store) (str_eq→eq reviewer_id k r),
      λ (r : str_eq coder_id k ≡ true).
          ap (λ (i : JobId). get_job i e.store) (str_eq→eq coder_id k r),
    )

    revised-budget : (k : JobId) (j : Job) → get_job k e'.store ≡ some j → HasBudget j
    revised-budget k j g = elim (Bool-cases (str_eq reviewer_id k)) [
      | inl r ↦
          let same : reviewer ≡ j = ground (arith, stored k, g, r) in
          subst HasBudget same (fresh_reviewer.2)
      | inr r ↦ elim (Bool-cases (str_eq coder_id k)) [
        | inl c ↦
            let same : coder ≡ j = ground (arith, stored k, g, r, c) in
            subst HasBudget same (fresh_coder.2)
        | inr c ↦ h.budget k j (ground (arith, stored k, g, r, c))
      ]
    ]

    revised-IsLive : IsLive e'
    revised-IsLive = record {
      bounded = bounded;
      queued = revised-queued;
      active = revised-active;
      once =
          subst IsNodup (sym queue)
            (IsNodup-snoc e.ready_queue coder_id (ground (arith, h.queued coder_id, new)) h.once);
      budget = revised-budget;
    }

  create_revision-IsLive :
      (reviewer coder : Job) (round rounds : ℕ) (feedback : String)
      → IsLive (create_revision env reviewer coder round rounds feedback n e).0
  unfolding create_revision create_job revised_coder next_reviewer
  create_revision-IsLive reviewer coder round rounds feedback =
      let c = revised_coder env reviewer coder round rounds feedback coder_id in
      let r = next_reviewer env reviewer round coder_id reviewer_id in
      revised-IsLive (create_revision env reviewer coder round rounds feedback n e).0 c r
        (own (
          keeps h.bounded _ (create_job-IsWellFormed (create_job-IsWellFormed h.bounded.store _) _)
            refl refl refl))
        (refl, refl, (omega arith, omega arith, λ s. omega arith))
        (refl, refl, (omega arith, omega arith, λ s. omega arith))
        (λ k. ground (
          arith,
          get-insert k reviewer_id r (insert coder_id c e.store.jobs),
          get-insert k coder_id c e.store.jobs,
        ))
        refl refl

  pub review-IsLive :
      (k : JobId) (decision : ReviewDecision) (max_revisions : ℕ)
      → IsLive (handle_review_completion env k decision max_revisions n e).0
  unfolding handle_review_completion
  review-IsLive k approved rounds = h
  review-IsLive k (rejected reason) rounds = h
  review-IsLive k (revise feedback) rounds = elim (Option-cases (reviewed_pair k e)) [
    | inl gone ↦ rw (gone, handle_review_completion) h
    | inr ((reviewer, coder), found) ↦ elim (Bool-cases (ltb rounds (next_round reviewer))) [
      | inl many ↦ rw (found, handle_review_completion, many) h
      | inr few ↦
          rw (found, handle_review_completion, few)
            (create_revision-IsLive reviewer coder (next_round reviewer) rounds feedback)
    ]
  ]
