-- ===== src/Store/Removal.antt =====
-- src/orchestrator/store.rs, `remove_run`: what it takes out of the store and what it leaves.
use zeptopm.Base.{
  String, ◌≡◌, refl, arith, Bool, if◌then◌else◌, Option, none, some, List, [], ◌∷◌, map, filter,
  values, Map, str_eq, is_some_and, get, remove, remove_all, get-remove, get-remove_where,
  IsIndexed, IsIndexed-remove, IsIndexed-remove_all, Bool-cases, inl, inr, str_eq_refl, str_eq→eq,
}
use zeptopm.Types.{RunId, JobId, ArtifactId, ChannelId, Job, Artifact, Channel}
use zeptopm.Store.{
  RunStore, get_run, get_job, get_artifact, get_channel, remove_artifacts, remove_run,
}
use zeptopm.Store.Laws.{IsWellFormed, run_key, job_key, artifact_key, channel_key}

remove_artifacts-eq-remove_all :
    (aids : List ArtifactId) (m : Map Artifact) → (remove_artifacts aids m).0 ≡ remove_all aids m
unfolding remove_artifacts remove_all
remove_artifacts-eq-remove_all [] m = refl
remove_artifacts-eq-remove_all (aid ∷ aids) m =
    ground (arith, remove_artifacts-eq-remove_all aids (remove aid m))

module _ (p : Artifact → Bool) where
  -- The loop finds each artifact that it is sent for, so long as the map still holds the rest.
  remove_artifacts-paths :
      (m cur : Map Artifact)
      → IsIndexed artifact_key m
      → ((k : ArtifactId) (a : Artifact) → get k m ≡ some a → get k cur ≡ some a)
      → (remove_artifacts (map artifact_key (filter p (values m))) cur).1
        ≡ map (λ (a : Artifact). a.path) (filter p (values m))
  unfolding remove_artifacts
  remove_artifacts-paths [] cur h found = refl
  remove_artifacts-paths ((i, w) ∷ m) cur h found = elim (Bool-cases (p w)) [
    | inl e ↦ ground (
      arith,
      e,
      h.1.0,
      found i w (unfold get in rw (str_eq_refl i) refl),
      remove_artifacts-paths m (remove (artifact_key w) cur) (h.0.1, h.1.1) later,
    )
    | inr e ↦ rw e (remove_artifacts-paths m cur (h.0.1, h.1.1) kept)
  ]
    where
      kept : (k : ArtifactId) (a : Artifact) → get k m ≡ some a → get k cur ≡ some a
      kept k a e = found k a (unfold get in ground (arith, h.0.0, e, str_eq→eq i k))

      later :
          (k : ArtifactId) (a : Artifact)
          → get k m ≡ some a
          → get k (remove (artifact_key w) cur) ≡ some a
      later k a e = ground (
        arith,
        kept k a e,
        h.0.0,
        h.1.0,
        e,
        get-remove k (artifact_key w) cur,
        str_eq→eq (artifact_key w) k,
      )

-- Of a map, the entries whose value belongs to another run.
abbrev pub unless_of : {V : Type 0} → (V → String) → RunId → Option V → Option V
unless_of run r o = if is_some_and (λ v. str_eq (run v) r) o then none else o

module _ (r : RunId) (s : RunStore) (h : IsWellFormed s) where
  pub remove_run-IsWellFormed : IsWellFormed (remove_run r s).0
  unfolding remove_run
  remove_run-IsWellFormed = record {
    runs = IsIndexed-remove run_key r s.runs h.runs;
    jobs = IsIndexed-remove_all job_key _ s.jobs h.jobs;
    artifacts =
        rw (remove_artifacts-eq-remove_all _ s.artifacts)
          (IsIndexed-remove_all artifact_key _ s.artifacts h.artifacts);
    channels = IsIndexed-remove_all channel_key _ s.channels h.channels;
  }

  -- In a well-formed store `remove_run` takes out the run, and exactly the jobs, artifacts and
  -- channels that carry its id: each lookup afterwards finds what it found before unless that
  -- belongs to the run. It returns the paths of the run's artifacts, in the order of the map.
  pub remove_run_exact :
      ((k : RunId) → get_run k (remove_run r s).0 ≡ (if str_eq r k then none else get_run k s))
      × ((k : JobId)
          → get_job k (remove_run r s).0 ≡ unless_of (λ (j : Job). j.run_id) r (get_job k s))
      × ((k : ArtifactId)
          → get_artifact k (remove_run r s).0
            ≡ unless_of (λ (a : Artifact). a.run_id) r (get_artifact k s))
      × ((k : ChannelId)
          → get_channel k (remove_run r s).0
            ≡ unless_of (λ (c : Channel). c.run_id) r (get_channel k s))
      × ((remove_run r s).1
          ≡ map
              (λ (a : Artifact). a.path)
              (filter (λ (a : Artifact). str_eq a.run_id r) (values s.artifacts)))
  unfolding remove_run
  remove_run_exact = (
    λ k. get-remove k r s.runs,
    λ k. get-remove_where job_key (λ j. str_eq j.run_id r) k s.jobs h.jobs.0 h.jobs.1,
    λ k. rw (remove_artifacts-eq-remove_all _ s.artifacts) (
        get-remove_where artifact_key (λ a. str_eq a.run_id r) k s.artifacts h.artifacts.0
          h.artifacts.1),
    λ k.
        get-remove_where channel_key (λ c. str_eq c.run_id r) k s.channels h.channels.0
          h.channels.1,
    remove_artifacts-paths (λ a. str_eq a.run_id r) s.artifacts s.artifacts h.artifacts
        (λ k a e. e),
  )
