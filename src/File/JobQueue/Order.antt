-- ===== src/File/JobQueue/Order.antt =====
-- Which jobs are run, and in what order (agent/plugin/file/job_queue.c).
use yella.Prelude.{
  ℕ, suc, ◌+◌, ◌^◌, ◌<◌, ◌≡◌, refl, sym, ap, ◌∙◌, arith, false, List, [], ◌∷◌, ◌++◌, some, ◌==◌,
  length, length-append, append_assoc, append-nil, Bool-cases, inl, inr,
}
use yella.Sglib.Queue.{QueueOps, QueueLaws, head_of, rest_of}
use yella.File.JobQueue.{
  JobQueue, Event, push, set_callback, take, measure, done, stop, Phase, waiting, running, measured,
  step, run, take_job, dequeue, push_job_queue, measure_job, done_job, stop_job_queue,
  set_job_queue_empty_callback,
}

-- The jobs that are pushed.
unfoldable pub pushed : {J : Type 0} → List (Event J) → List J
pushed [] = []
pushed (push jb ∷ es) = jb ∷ pushed es
pushed (set_callback ∷ es) = pushed es
pushed (take ∷ es) = pushed es
pushed (measure m ∷ es) = pushed es
pushed (done ∷ es) = pushed es
pushed (stop ∷ es) = pushed es

-- The job that a thread which was waiting has come to run.
abbrev pub started_between : {J : Type 0} → Phase J → Phase J → List J
started_between waiting (running j) = j ∷ []
started_between _ _ = []

no_start : {J : Type 0} (p : Phase J) (xs : List J) → started_between p p ++ xs ≡ xs ++ []
no_start waiting xs = sym (append-nil xs)
no_start (running j) xs = sym (append-nil xs)
no_start (measured m) xs = sym (append-nil xs)

module _ {Q J : Type 0} (ops : QueueOps Q J) where
  -- The jobs that the thread comes to run.
  unfoldable pub started : JobQueue Q J → List (Event J) → List J
  started jq [] = []
  started jq (e ∷ es) = started_between jq.phase (step ops jq e).phase ++ started (step ops jq e) es

  abbrev pub IsCounted : JobQueue Q J → Type 0
  IsCounted jq = jq.sz ≡ length (ops.items jq.q)

  -- What a step keeps: a job that it starts was the first, and those behind it stay in order.
  abbrev StepsTo : JobQueue Q J → Event J → Type 0
  StepsTo jq e =
      IsCounted (step ops jq e)
      × (started_between jq.phase (step ops jq e).phase ++ ops.items (step ops jq e).q
          ≡ ops.items jq.q ++ pushed (e ∷ []))

  measure-StepsTo : (jq : JobQueue Q J) (m : ℕ) → IsCounted jq → StepsTo jq (measure m)
  unfolding step pushed measure_job
  measure-StepsTo jq m counted = go jq.phase refl
    where
      go : (p : Phase J) → jq.phase ≡ p → StepsTo jq (measure m)
      go waiting e = rw (e, measure_job) (counted, rw e (sym (append-nil _)))
      go (running j) e = rw (e, measure_job) (counted, sym (append-nil _))
      go (measured m') e = rw (e, measure_job) (counted, sym (append-nil _))

  done-StepsTo : (jq : JobQueue Q J) → IsCounted jq → StepsTo jq done
  unfolding step pushed done_job
  done-StepsTo jq counted = go jq.phase refl
    where
      go : (p : Phase J) → jq.phase ≡ p → StepsTo jq done
      go waiting e = rw (e, done_job) (counted, rw e (sym (append-nil _)))
      go (running j) e = rw (e, done_job) (counted, sym (append-nil _))
      go (measured m') e = rw (e, done_job) (counted, sym (append-nil _))

  module _ (laws : QueueLaws ops) where
    push-StepsTo :
        (jq : JobQueue Q J) (jb : J) → IsCounted jq → jq.sz + 1 < 2 ^ 64 → StepsTo jq (push jb)
    unfolding step pushed push_job_queue
    push-StepsTo jq jb counted small =
        let items = laws.items-concat jq.q jb in
        (
          rw items (omega (arith, counted, length-append (ops.items jq.q) (jb ∷ []))),
          no_start jq.phase _ ∙ append-nil _ ∙ items,
        )

    dequeue_lem :
        (jq : JobQueue Q J)
        → IsCounted jq
        → jq.phase ≡ waiting
        → jq.sz < 2 ^ 64
        → (jq.sz == 0) ≡ false
        → IsCounted (dequeue ops jq)
          × (started_between jq.phase (dequeue ops jq).phase ++ ops.items (dequeue ops jq).q
              ≡ ops.items jq.q)
    unfolding dequeue
    dequeue_lem jq counted waits small some_there = go (ops.items jq.q) refl
      where
        go :
            (xs : List J)
            → ops.items jq.q ≡ xs
            → IsCounted (dequeue ops jq)
              × (started_between jq.phase (dequeue ops jq).phase ++ ops.items (dequeue ops jq).q
                  ≡ ops.items jq.q)
        go [] e = let none_there : jq.sz ≡ 0 = counted ∙ ap length e in absurd (ground arith)
        go (x ∷ xs) e =
            let first : ops.get_first jq.q ≡ some x = laws.get_first_lem jq.q ∙ ap head_of e in
            let rest : ops.items (ops.delete_first jq.q) ≡ xs =
              laws.items-delete_first jq.q ∙ ap rest_of e in
            let size : jq.sz ≡ suc (length xs) = counted ∙ ap length e in
            rw (first, dequeue) (rw (rest, e, waits) (omega arith, refl))

    take-dequeues :
        (jq : JobQueue Q J)
        → jq.phase ≡ waiting
        → jq.should_stop ≡ false
        → (jq.sz == 0) ≡ false
        → take_job ops jq ≡ dequeue ops jq
    unfolding take_job
    take-dequeues jq e on some_there = rw e (ground arith)

    take-StepsTo : (jq : JobQueue Q J) → IsCounted jq → jq.sz < 2 ^ 64 → StepsTo jq take
    unfolding step pushed take_job
    take-StepsTo jq counted small = go jq.phase refl
      where
        go : (p : Phase J) → jq.phase ≡ p → StepsTo jq take
        go waiting e = elim (Bool-cases jq.should_stop) [
          | inl stopped ↦ rw (e, stopped, take_job) (counted, rw e (sym (append-nil _)))
          | inr on ↦ elim (Bool-cases (jq.sz == 0)) [
            | inl none_there ↦ elim (Bool-cases jq.cb) [
              | inl there ↦
                  rw (e, on, none_there, there, take_job) (counted, rw e (sym (append-nil _)))
              | inr gone ↦
                  rw (e, on, none_there, gone, take_job) (counted, rw e (sym (append-nil _)))
            ]
            | inr some_there ↦
                (let (counted', order) = dequeue_lem jq counted e small some_there in
                  rw (take-dequeues jq e on some_there) (counted', order ∙ sym (append-nil _)))
          ]
        ]
        go (running j) e = rw (e, take_job) (counted, sym (append-nil _))
        go (measured m') e = rw (e, take_job) (counted, sym (append-nil _))

    step-StepsTo :
        (jq : JobQueue Q J) (e : Event J)
        → IsCounted jq
        → jq.sz + length (pushed (e ∷ [])) < 2 ^ 64
        → StepsTo jq e
    unfolding step pushed stop_job_queue set_job_queue_empty_callback
    step-StepsTo jq (push jb) counted small = push-StepsTo jq jb counted small
    step-StepsTo jq set_callback counted small = (counted, no_start jq.phase (ops.items jq.q))
    step-StepsTo jq take counted small = take-StepsTo jq counted (omega arith)
    step-StepsTo jq (measure m) counted small = measure-StepsTo jq m counted
    step-StepsTo jq done counted small = done-StepsTo jq counted
    step-StepsTo jq stop counted small = (counted, no_start jq.phase (ops.items jq.q))

    pushed-cons :
        (e : Event J) (es : List (Event J)) → pushed (e ∷ es) ≡ pushed (e ∷ []) ++ pushed es
    unfolding pushed
    pushed-cons (push jb) es = refl
    pushed-cons set_callback es = refl
    pushed-cons take es = refl
    pushed-cons (measure m) es = refl
    pushed-cons done es = refl
    pushed-cons stop es = refl

    -- Jobs are run in the order in which they are pushed, each once and none that was not pushed.
    -- From any state in which the size counts the queued jobs, however the threads' steps follow
    -- one another, the jobs that were started and then those that are queued are the jobs that were
    -- queued and then those that were pushed, and the size goes on to count the queued jobs; there
    -- are fewer than 2^64 of them all.
    pub run-fifo :
        (es : List (Event J)) (jq : JobQueue Q J)
        → IsCounted jq
        → length (ops.items jq.q) + length (pushed es) < 2 ^ 64
        → (started jq es ++ ops.items (run ops jq es).q ≡ ops.items jq.q ++ pushed es)
          × IsCounted (run ops jq es)
    unfolding started run pushed
    run-fifo [] jq counted small = (sym (append-nil (ops.items jq.q)), counted)
    run-fifo (e ∷ es) jq counted small =
        let next = step ops jq e in
        let items = ops.items jq.q in
        let split = pushed-cons e es in
        let size : length (pushed (e ∷ es)) ≡ length (pushed (e ∷ [])) + length (pushed es) =
          ap length split ∙ length-append (pushed (e ∷ [])) (pushed es) in
        let (counted', order) = step-StepsTo jq e counted (omega arith) in
        let fits : length (ops.items next.q) + length (pushed es) < 2 ^ 64 = omega (
          arith,
          ap length order,
          length-append (started_between jq.phase next.phase) (ops.items next.q),
          length-append items (pushed (e ∷ [])),
        ) in
        let (later, counted'') = run-fifo es next counted' fits in
        let s = started_between jq.phase next.phase in
        (
          append_assoc s (started next es) (ops.items (run ops next es).q)
              ∙ ap (λ t. s ++ t) later
              ∙ sym (append_assoc s (ops.items next.q) (pushed es))
              ∙ ap (λ t. t ++ pushed es) order
              ∙ append_assoc items (pushed (e ∷ [])) (pushed es)
              ∙ ap (λ t. items ++ t) (sym split),
          counted'',
        )
