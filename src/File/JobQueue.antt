-- ===== src/File/JobQueue.antt =====
-- The queue of jobs and the thread that runs them (agent/plugin/file/job_queue.c).
use yella.Prelude.{
  ℕ, ◌+◌, ◌-◌, ◌/◌, ◌^◌, ◌%◌, Bool, true, false, List, [], ◌∷◌, Option, none, some, ◌==◌, ltb,
  if◌then◌else◌, max, min,
}
use yella.Sglib.Queue.{QueueOps}
pub mod Order
pub mod Figures
pub mod Division
mod Tests

-- `job_queue_stats`
pub record Stats : Type 0 where
  pub max_size : ℕ
  pub jobs_pushed : ℕ
  pub jobs_run : ℕ
  pub average_job_microseconds : ℕ
  pub slowest_job_microseconds : ℕ
  pub fastest_job_microseconds : ℕ

-- Where `job_queue_main` is: waiting, at a job that it took off the queue, or past the job, whose
-- time is in `accumulated_microseconds` but not yet in the statistics.
pub data Phase (J : Type 0) : Type 0 where
  waiting : Phase J
  running : J → Phase J
  measured : ℕ → Phase J

-- `struct job_queue`. `cb` says whether a callback is set, and `calls` counts its calls.
pub record JobQueue (Q J : Type 0) : Type 0 where
  pub q : Q
  pub sz : ℕ
  pub should_stop : Bool
  pub cb : Bool
  pub stats : Stats
  pub accumulated_microseconds : ℕ
  pub phase : Phase J
  pub calls : ℕ

-- 64-bit sums
abbrev pub add64 : ℕ → ℕ → ℕ
add64 a b = (a + b) % 2 ^ 64

-- What the threads do to the queue, in any order. `take` is a round of `job_queue_main` from the end
-- of its wait to the unlock; `measure` is the end of the job, after so many microseconds, and `done`
-- is what follows under the guard.
pub data Event (J : Type 0) : Type 0 where
  push : J → Event J
  set_callback : Event J
  take : Event J
  measure : ℕ → Event J
  done : Event J
  stop : Event J

-- The statistics of a job that is done.
unfoldable pub count_job : Stats → ℕ → Stats
count_job st micros =
    let run = add64 st.jobs_run 1 in
    if run == 1
    then record st {
      jobs_run = run;
      fastest_job_microseconds = micros;
      slowest_job_microseconds = micros;
    }
    else record st {
      jobs_run = run;
      fastest_job_microseconds =
          (if ltb micros st.fastest_job_microseconds then micros else st.fastest_job_microseconds);
      slowest_job_microseconds =
          (if ltb st.slowest_job_microseconds micros then micros else st.slowest_job_microseconds);
    }

module _ {Q J : Type 0} (ops : QueueOps Q J) where
  -- `create_job_queue`
  unfoldable pub create_job_queue : JobQueue Q J
  create_job_queue = record {
    q = ops.empty;
    sz = 0;
    should_stop = false;
    cb = false;
    stats = record {
      max_size = 0;
      jobs_pushed = 0;
      jobs_run = 0;
      average_job_microseconds = 0;
      slowest_job_microseconds = 0;
      fastest_job_microseconds = 0;
    };
    accumulated_microseconds = 0;
    phase = waiting;
    calls = 0;
  }

  -- `push_job_queue`, with the size that it returns
  unfoldable pub push_job_queue : JobQueue Q J → J → ℕ × JobQueue Q J
  push_job_queue jq jb =
      let cur_sz = add64 jq.sz 1 in
      (
        cur_sz,
        record jq {
          q = ops.concat jq.q jb;
          sz = cur_sz;
          stats = record jq.stats {
            jobs_pushed = add64 jq.stats.jobs_pushed 1;
            max_size = max jq.stats.max_size cur_sz;
          };
        },
      )

  unfoldable pub set_job_queue_empty_callback : JobQueue Q J → JobQueue Q J
  set_job_queue_empty_callback jq = record jq { cb = true }

  -- The first job is taken off the queue.
  unfoldable pub dequeue : JobQueue Q J → JobQueue Q J
  dequeue jq = elim (ops.get_first jq.q) [
    | none ↦ jq
    | some front ↦ record jq {
      q = ops.delete_first jq.q;
      sz = (jq.sz + 2 ^ 64 - 1) % 2 ^ 64;
      phase = running front;
    }
  ]

  -- A waiting thread takes a job off the queue, if one is there, and else calls the callback and
  -- removes it. A stopped thread ends.
  unfoldable pub take_job : JobQueue Q J → JobQueue Q J
  take_job jq = elim jq.phase [
    | waiting ↦
        if jq.should_stop
        then jq
        else if jq.sz == 0
        then (if jq.cb then record jq { cb = false; calls = jq.calls + 1 } else jq)
        else dequeue jq
    | _ ↦ jq
  ]

  unfoldable pub measure_job : JobQueue Q J → ℕ → JobQueue Q J
  measure_job jq micros = elim jq.phase [
    | running j ↦ record jq {
      accumulated_microseconds = add64 jq.accumulated_microseconds micros;
      phase = measured micros;
    }
    | _ ↦ jq
  ]

  unfoldable pub done_job : JobQueue Q J → JobQueue Q J
  done_job jq = elim jq.phase [
    | measured micros ↦ record jq { stats = count_job jq.stats micros; phase = waiting }
    | _ ↦ jq
  ]

  -- `destroy_job_queue` up to the join of the thread
  unfoldable pub stop_job_queue : JobQueue Q J → JobQueue Q J
  stop_job_queue jq = record jq { should_stop = true }

  -- `get_job_queue_stats`; `none` is a division by zero.
  unfoldable pub get_job_queue_stats : JobQueue Q J → Option Stats
  get_job_queue_stats jq =
      if jq.accumulated_microseconds == 0
      then some (record jq.stats { average_job_microseconds = 0 })
      else if jq.stats.jobs_run == 0
      then none
      else some (record jq.stats {
        average_job_microseconds = jq.accumulated_microseconds / jq.stats.jobs_run;
      })

  unfoldable pub step : JobQueue Q J → Event J → JobQueue Q J
  step jq (push jb) = (push_job_queue jq jb).1
  step jq set_callback = set_job_queue_empty_callback jq
  step jq take = take_job jq
  step jq (measure micros) = measure_job jq micros
  step jq done = done_job jq
  step jq stop = stop_job_queue jq

  unfoldable pub run : JobQueue Q J → List (Event J) → JobQueue Q J
  run jq [] = jq
  run jq (e ∷ es) = run (step jq e) es
