-- ===== src/File/JobQueue/Tests.antt =====
-- The job queue's theorems at concrete inputs, with a list for the queue and numbers for the jobs.
use yella.Prelude.{ℕ, arith, ◌≡◌, ◌≢◌, refl, List, [], ◌∷◌, ◌++◌, none, All}
use yella.Sglib.Queue.{QueueOps}
use yella.Sglib.Samples.{list_ops, list_laws}
use yella.File.JobQueue.{
  Event, push, set_callback, take, measure, done, run, create_job_queue, push_job_queue,
  get_job_queue_stats, step, take_job, dequeue, measure_job, done_job, set_job_queue_empty_callback,
}
use yella.File.JobQueue.Order.{started, pushed, IsCounted, run-fifo}
use yella.File.JobQueue.Figures.{times, Within, Unmeasured, run-figures}

abbrev jobs : List (Event ℕ)
jobs =
    push 7 ∷ push 8 ∷ take ∷ push 9 ∷ measure 5 ∷ done ∷ take ∷ set_callback ∷ measure 3 ∷ done ∷ []

abbrev ops : QueueOps (List ℕ) ℕ
ops = list_ops

run-fifo_example :
    (started ops (create_job_queue ops) jobs ++ ops.items (run ops (create_job_queue ops) jobs).q
      ≡ 7 ∷ 8 ∷ 9 ∷ [])
    × IsCounted ops (run ops (create_job_queue ops) jobs)
unfolding list_ops create_job_queue pushed
run-fifo_example = run-fifo ops list_laws jobs (create_job_queue ops) refl (omega arith)

run-figures_example :
    let jq = run ops (create_job_queue ops) jobs in
    let ds = times ops (create_job_queue ops) jobs in
    (jq.stats.jobs_run ≡ 2)
    × All (Within jq.stats) ds
    × (Unmeasured jq.phase → get_job_queue_stats ops jq ≢ none)
unfolding list_ops create_job_queue times step run push_job_queue take_job dequeue measure_job
    done_job set_job_queue_empty_callback
run-figures_example = run-figures ops jobs (omega arith)
