-- ===== src/File/JobQueue/Figures.antt =====
-- The statistics of the job queue (agent/plugin/file/job_queue.c).
use yella.Prelude.{
  ℕ, ◌+◌, ◌^◌, ◌<◌, ◌≤◌, ◌≡◌, ◌≢◌, refl, sym, ap, subst, ◌∙◌, arith, false, List, [], ◌∷◌, ◌++◌,
  none, ◌==◌, length, length-append, append_assoc, append-nil, All, All-mono, All-append,
}
use yella.Sglib.Queue.{QueueOps}
use yella.File.JobQueue.{
  JobQueue, Stats, Event, push, set_callback, take, measure, done, stop, Phase, waiting, running,
  measured, step, run, take_job, dequeue, push_job_queue, measure_job, done_job, stop_job_queue,
  set_job_queue_empty_callback, create_job_queue, add64, count_job, get_job_queue_stats,
}

-- The time of the job that a step counts.
abbrev pub counted_between : {J : Type 0} → Phase J → Phase J → List ℕ
counted_between (measured m) waiting = m ∷ []
counted_between _ _ = []

abbrev pub Unmeasured : {J : Type 0} → Phase J → Type 0
Unmeasured (measured m) = ⊥
Unmeasured _ = Unit

abbrev pub Within : Stats → ℕ → Type 0
Within st d = (st.fastest_job_microseconds ≤ d) × (d ≤ st.slowest_job_microseconds)

-- The statistics are those of jobs that took the times `ds`.
pub record IsFigured {J : Type 0} (st : Stats) (accumulated : ℕ) (phase : Phase J) (ds : List ℕ)
    : Type 0 where
  pub jobs_run : st.jobs_run ≡ length ds
  pub within : All (Within st) ds
  pub clean : length ds ≡ 0 → Unmeasured phase → accumulated ≡ 0

count_job-Within :
    (st : Stats) (m : ℕ) (ds : List ℕ)
    → st.jobs_run ≡ length ds
    → All (Within st) ds
    → length ds + 1 < 2 ^ 64
    → ((count_job st m).jobs_run ≡ length ds + 1) × All (Within (count_job st m)) (ds ++ m ∷ [])
unfolding count_job
count_job-Within st m [] e h small = ground arith
count_job-Within st m (d ∷ ds) e h small =
    let more : (add64 st.jobs_run 1 == 1) ≡ false = ground arith in
    let kept = All-mono (Within st) (Within (count_job st m)) (d ∷ ds) (λ a w. ground arith) h in
    (ground arith, All-append _ (d ∷ ds) (m ∷ []) kept (ground arith, tt))

no_count : {J : Type 0} (p : Phase J) (ds : List ℕ) → ds ++ counted_between p p ≡ ds
no_count waiting ds = append-nil ds
no_count (running j) ds = append-nil ds
no_count (measured m) ds = append-nil ds

module _ {Q J : Type 0} (ops : QueueOps Q J) where
  abbrev pub HasFigures : JobQueue Q J → List ℕ → Type 0
  HasFigures jq ds = IsFigured jq.stats jq.accumulated_microseconds jq.phase ds

  -- The times of the jobs that the thread comes to count.
  unfoldable pub times : JobQueue Q J → List (Event J) → List ℕ
  times jq [] = []
  times jq (e ∷ es) = counted_between jq.phase (step ops jq e).phase ++ times (step ops jq e) es

  abbrev KeepsFigures : JobQueue Q J → Event J → List ℕ → Type 0
  KeepsFigures jq e ds =
      HasFigures (step ops jq e) (ds ++ counted_between jq.phase (step ops jq e).phase)

  -- A step that touches neither the phase nor the figures.
  same-HasFigures :
      (jq : JobQueue Q J) (t : JobQueue Q J) (ds : List ℕ)
      → HasFigures jq ds
      → t.stats.jobs_run ≡ jq.stats.jobs_run
      → t.stats.fastest_job_microseconds ≡ jq.stats.fastest_job_microseconds
      → t.stats.slowest_job_microseconds ≡ jq.stats.slowest_job_microseconds
      → t.accumulated_microseconds ≡ jq.accumulated_microseconds
      → (Unmeasured t.phase → Unmeasured jq.phase)
      → HasFigures t ds
  same-HasFigures jq t ds h run fast slow total phase = record {
    jobs_run = run ∙ h.jobs_run;
    within =
        All-mono (Within jq.stats) (Within t.stats) ds (λ d w. omega (arith, fast, slow)) h.within;
    clean = λ none_yet unmeasured. total ∙ h.clean none_yet (phase unmeasured);
  }

  take_same :
      (jq : JobQueue Q J)
      → ((take_job ops jq).stats ≡ jq.stats)
        × ((take_job ops jq).accumulated_microseconds ≡ jq.accumulated_microseconds)
  unfolding take_job dequeue
  take_same jq = ground arith

  take_phase :
      (jq : JobQueue Q J)
      → (counted_between jq.phase (take_job ops jq).phase ≡ [])
        × (Unmeasured (take_job ops jq).phase → Unmeasured jq.phase)
  unfolding take_job
  take_phase jq = go jq.phase refl
    where
      go :
          (p : Phase J)
          → jq.phase ≡ p
          → (counted_between jq.phase (take_job ops jq).phase ≡ [])
            × (Unmeasured (take_job ops jq).phase → Unmeasured jq.phase)
      go waiting e = rw e (refl, λ u. tt)
      go (running j) e = rw e (refl, λ u. tt)
      go (measured m) e = rw (e, take_job) (rw e (refl, λ u. u))

  measure_idle :
      (jq : JobQueue Q J) (m : ℕ)
      → (jq.phase ≡ waiting → measure_job ops jq m ≡ jq)
        × ((n : ℕ) → jq.phase ≡ measured n → measure_job ops jq m ≡ jq)
  unfolding measure_job
  measure_idle jq m = (λ e. ground (arith, e), λ n e. ground (arith, e))

  done_idle :
      (jq : JobQueue Q J)
      → (jq.phase ≡ waiting → done_job ops jq ≡ jq)
        × ((j : J) → jq.phase ≡ running j → done_job ops jq ≡ jq)
  unfolding done_job
  done_idle jq = (λ e. ground (arith, e), λ j e. ground (arith, e))

  measure-KeepsFigures :
      (jq : JobQueue Q J) (m : ℕ) (ds : List ℕ) → HasFigures jq ds → KeepsFigures jq (measure m) ds
  unfolding step measure_job
  measure-KeepsFigures jq m ds h = go jq.phase refl
    where
      go : (p : Phase J) → jq.phase ≡ p → KeepsFigures jq (measure m) ds
      go waiting e = let same = (measure_idle jq m).0 e in rw (same, no_count jq.phase ds) h
      go (measured m') e =
          let same = (measure_idle jq m).1 m' e in rw (same, no_count jq.phase ds) h
      go (running j) e =
          rw (e, measure_job, append-nil ds)
            (record { jobs_run = h.jobs_run; within = h.within; clean = λ z u. absurd u })

  done-KeepsFigures :
      (jq : JobQueue Q J) (ds : List ℕ)
      → HasFigures jq ds
      → length (ds ++ counted_between jq.phase (done_job ops jq).phase) < 2 ^ 64
      → KeepsFigures jq done ds
  unfolding step done_job
  done-KeepsFigures jq ds h small = go jq.phase refl
    where
      go : (p : Phase J) → jq.phase ≡ p → KeepsFigures jq done ds
      go waiting e = let same = (done_idle jq).0 e in rw (same, no_count jq.phase ds) h
      go (running j) e = let same = (done_idle jq).1 j e in rw (same, no_count jq.phase ds) h
      go (measured m) e =
          let one_more : counted_between jq.phase (done_job ops jq).phase ≡ m ∷ [] =
            rw (e, done_job) refl in
          let total : length (ds ++ m ∷ []) ≡ length ds + 1 = length-append ds (m ∷ []) in
          let small' : length (ds ++ m ∷ []) < 2 ^ 64 =
            subst (λ t. length (ds ++ t) < 2 ^ 64) one_more small in
          let (run, within) = count_job-Within jq.stats m ds h.jobs_run h.within (omega arith) in
          rw one_more (
            rw (e, done_job)
              (record {
                jobs_run = run ∙ sym total;
                within = within;
                clean = λ z u. absurd (omega (arith, total, z));
              }))

  step-KeepsFigures :
      (jq : JobQueue Q J) (e : Event J) (ds : List ℕ)
      → HasFigures jq ds
      → length (ds ++ counted_between jq.phase (step ops jq e).phase) < 2 ^ 64
      → KeepsFigures jq e ds
  unfolding step push_job_queue set_job_queue_empty_callback stop_job_queue
  step-KeepsFigures jq (push jb) ds h small =
      rw (no_count jq.phase ds)
        (same-HasFigures jq (push_job_queue ops jq jb).1 ds h refl refl refl refl (λ u. u))
  step-KeepsFigures jq set_callback ds h small =
      rw (no_count jq.phase ds)
        (same-HasFigures jq (set_job_queue_empty_callback ops jq) ds h refl refl refl refl (λ u. u))
  step-KeepsFigures jq take ds h small =
      let (stats, total) = take_same jq in
      let (none_counted, phase) = take_phase jq in
      rw (none_counted, append-nil ds)
        (same-HasFigures jq (take_job ops jq) ds h (ap (λ st. st.jobs_run) stats)
          (ap (λ st. st.fastest_job_microseconds) stats)
          (ap (λ st. st.slowest_job_microseconds) stats) total phase)
  step-KeepsFigures jq (measure m) ds h small = measure-KeepsFigures jq m ds h
  step-KeepsFigures jq done ds h small = done-KeepsFigures jq ds h small
  step-KeepsFigures jq stop ds h small =
      rw (no_count jq.phase ds)
        (same-HasFigures jq (stop_job_queue ops jq) ds h refl refl refl refl (λ u. u))

  run-HasFigures :
      (es : List (Event J)) (jq : JobQueue Q J) (ds : List ℕ)
      → HasFigures jq ds
      → length ds + length (times jq es) < 2 ^ 64
      → HasFigures (run ops jq es) (ds ++ times jq es)
  unfolding run times
  run-HasFigures [] jq ds h small = rw (append-nil ds) h
  run-HasFigures (e ∷ es) jq ds h small =
      let next = step ops jq e in
      let c = counted_between jq.phase next.phase in
      let a1 = length-append (counted_between jq.phase next.phase) (times next es) in
      let a2 = length-append ds (counted_between jq.phase next.phase) in
      let h' = step-KeepsFigures jq e ds h (omega (arith, a1, a2)) in
      rw (← append_assoc ds c (times next es))
        (run-HasFigures es next (ds ++ c) h' (omega (arith, a1, a2)))

  read_lem :
      (jq : JobQueue Q J) (ds : List ℕ)
      → HasFigures jq ds
      → Unmeasured jq.phase
      → get_job_queue_stats ops jq ≢ none
  unfolding get_job_queue_stats
  read_lem jq ds h u = ground (arith, h.jobs_run, h.clean, u)

  -- However the threads' steps follow one another from a new queue on, if fewer than 2^64 jobs are
  -- counted: `jobs_run` is their number, each took at least `fastest_job_microseconds` and at most
  -- `slowest_job_microseconds`, and a read of the statistics, at any time but between the end of a
  -- job and its being counted, does not divide by zero.
  pub run-figures :
      (es : List (Event J))
      → length (times (create_job_queue ops) es) < 2 ^ 64
      → let jq = run ops (create_job_queue ops) es in
        let ds = times (create_job_queue ops) es in
        (jq.stats.jobs_run ≡ length ds)
        × All (Within jq.stats) ds
        × (Unmeasured jq.phase → get_job_queue_stats ops jq ≢ none)
  unfolding create_job_queue
  run-figures es small =
      let start : HasFigures (create_job_queue ops) [] = record {
        jobs_run = refl;
        within = tt;
        clean = λ z u. refl;
      } in
      let h = run-HasFigures es (create_job_queue ops) [] start (omega arith) in
      (h.jobs_run, h.within, λ u. read_lem (run ops (create_job_queue ops) es) _ h u)
