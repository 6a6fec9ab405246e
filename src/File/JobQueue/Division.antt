-- ===== src/File/JobQueue/Division.antt =====
-- The statistics between the end of the first job and its count (agent/plugin/file/job_queue.c).
use yella.Prelude.{ℕ, ◌^◌, ◌<◌, ◌≡◌, refl, ap, ◌∙◌, arith, [], ◌∷◌, ◌++◌, none, some}
use yella.Sglib.Queue.{QueueOps, QueueLaws, head_of}
use yella.File.JobQueue.{
  JobQueue, push, take, measure, running, step, run, take_job, dequeue, push_job_queue, measure_job,
  create_job_queue, get_job_queue_stats,
}

module _ {Q J : Type 0} (ops : QueueOps Q J) where
  abbrev with_one : J → JobQueue Q J
  with_one jb = record (push_job_queue ops (create_job_queue ops) jb).1 {
    q = ops.delete_first (ops.concat ops.empty jb);
    sz = 0;
    phase = running jb;
  }

  taken_one :
      (laws : QueueLaws ops) (jb : J)
      → take_job ops (push_job_queue ops (create_job_queue ops) jb).1 ≡ with_one jb
  unfolding take_job push_job_queue create_job_queue dequeue
  taken_one laws jb =
      let items = laws.items-concat ops.empty jb ∙ ap (λ t. t ++ jb ∷ []) laws.items-empty in
      let first : ops.get_first (ops.concat ops.empty jb) ≡ some jb =
        laws.get_first_lem (ops.concat ops.empty jb) ∙ ap head_of items in
      rw (first, dequeue) refl

  measured_one :
      (jb : J) (m : ℕ)
      → 0 < m
      → m < 2 ^ 64
      → get_job_queue_stats ops (measure_job ops (with_one jb) m) ≡ none
  unfolding get_job_queue_stats measure_job push_job_queue create_job_queue
  measured_one jb m some_time small = ground arith

  -- A read of the statistics after the first job has ended and before it is counted divides by zero,
  -- if the job took any time at all.
  pub stats_divide_by_zero :
      (laws : QueueLaws ops) (jb : J) (m : ℕ)
      → 0 < m
      → m < 2 ^ 64
      → get_job_queue_stats ops (run ops (create_job_queue ops) (push jb ∷ take ∷ measure m ∷ []))
        ≡ none
  unfolding run step
  stats_divide_by_zero laws jb m some_time small =
      let s1 = taken_one laws jb in
      ap (λ s. get_job_queue_stats ops (measure_job ops s m)) s1 ∙ measured_one jb m some_time small
