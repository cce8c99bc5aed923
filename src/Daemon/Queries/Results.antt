-- ===== src/Daemon/Queries/Results.antt =====
-- src/daemon.rs, `get_run_result_data`: which artifacts an answer holds.
use zeptopm.Base.{
  String, ◌≡◌, refl, ap, ◌∙◌, arith, Bool, ◌&&◌, Option, List, [], ◌∷◌, ◌++◌, map, filter, flat_map,
  filter_map, any, str_eq, contains, contains-append, contains_key, map_option, Bool-cases,
  Option-cases, inl, inr, str_eq→eq, Keyed-get,
}
use zeptopm.Types.{RunId, ArtifactId, JobStatus, Job, job_status_eq}
use zeptopm.Store.{RunStore, get_artifact}
use zeptopm.Store.Laws.{IsWellFormed, artifact_key}
use zeptopm.Daemon.Queries.{ArtifactInfo, artifact_info, job_artifacts}

abbrev pub ids_of : List ArtifactInfo → List ArtifactId
ids_of = map (λ (a : ArtifactInfo). a.artifact_id)

-- A completed job of the run that names the artifact among its outputs.
abbrev pub produced : RunId → ArtifactId → Job → Bool
produced run_id a j =
    str_eq j.run_id run_id
    && (job_status_eq j.status JobStatus.completed && contains a j.output_artifact_ids)

module _ (read : String → Option String) (s : RunStore) (w : IsWellFormed s) where
  contains-stored :
      (a : ArtifactId) (aids : List ArtifactId)
      → contains a
          (ids_of (filter_map (λ aid. map_option (artifact_info read) (get_artifact aid s)) aids))
        ≡ (contains a aids && contains_key a s.artifacts)
  unfolding contains
  contains-stored a [] = refl
  contains-stored a (aid ∷ aids) = elim (Option-cases (get_artifact aid s)) [
    | inl gone ↦ ground (arith, gone, contains-stored a aids, str_eq→eq aid a)
    | inr (x, found) ↦
        let named = Keyed-get artifact_key aid x s.artifacts w.artifacts.1 found in
        ground
          (arith, found, named, ap (λ t. str_eq t a) named, contains-stored a aids, str_eq→eq aid a)
  ]

  contains-job_artifacts :
      (a : ArtifactId) (j : Job)
      → contains a (ids_of (job_artifacts read s j)) ≡ (
          job_status_eq j.status JobStatus.completed
          && (contains a j.output_artifact_ids && contains_key a s.artifacts))
  unfolding job_artifacts contains
  contains-job_artifacts a j = ground (arith, contains-stored a j.output_artifact_ids)

  ids_of-append : (xs ys : List ArtifactInfo) → ids_of (xs ++ ys) ≡ ids_of xs ++ ids_of ys
  ids_of-append [] ys = refl
  ids_of-append (x ∷ xs) ys = ground (arith, ids_of-append xs ys)

  pub contains-artifacts :
      (run_id : RunId) (a : ArtifactId) (jobs : List Job)
      → contains a (
          ids_of
            (flat_map (job_artifacts read s) (filter (λ (j : Job). str_eq j.run_id run_id) jobs)))
        ≡ (any (produced run_id a) jobs && contains_key a s.artifacts)
  unfolding contains
  contains-artifacts run_id a [] = refl
  contains-artifacts run_id a (j ∷ jobs) =
      let rest =
        flat_map (job_artifacts read s) (filter (λ (i : Job). str_eq i.run_id run_id) jobs) in
      elim (Bool-cases (str_eq j.run_id run_id)) [
        | inl own ↦ rw own (
            ap (contains a) (ids_of-append (job_artifacts read s j) rest)
            ∙ contains-append a (ids_of (job_artifacts read s j)) (ids_of rest)
            ∙ ground (arith, contains-job_artifacts a j, contains-artifacts run_id a jobs))
        | inr other ↦ ground (arith, other, contains-artifacts run_id a jobs)
      ]
