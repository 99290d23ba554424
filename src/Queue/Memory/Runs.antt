-- ===== src/Queue/Memory/Runs.antt =====
-- The runs of the in-memory queue, with the jobs that workers have taken and not yet ended.
use pipe_lens.Common.{
  ℕ, ◌+◌, ◌≡◌, refl, ◌≢◌, ap, ◌∙◌, Option, none, some, List, [], ◌∷◌, ◌++◌, arith, ◌==◌,
  if◌then◌else◌, length, length-append,
}
use pipe_lens.Common.Sets.{has, has-add, has-discard}
use pipe_lens.Models.{AnalysisRequest}
use pipe_lens.Queue.{QueueEnvelope, QueueJob, run_of, retried, fresh}
use pipe_lens.Queue.Memory.{
  MemoryQueue, empty_queue, enqueue, dequeue, dequeue_list, acknowledge, retry,
}

-- The queue, and the jobs at work.
pub record World : Type 0 where
  pub queue : MemoryQueue
  pub at_work : List QueueJob

abbrev joined : Option QueueJob → List QueueJob → List QueueJob
joined none js = js
joined (some j) js = j ∷ js

-- A dequeue, by its timeout or with a job.
abbrev pub taken : World → World
taken w = record { queue = (dequeue w.queue).1; at_work = joined (dequeue w.queue).0 w.at_work }

-- A job at work is ended by an `acknowledge` or a `retry` that does not raise.
pub data Step : World → World → Type 0 where
  enqueued :
      (request : AnalysisRequest) (w : World)
      → Step w (record w { queue = (enqueue request w.queue).1 })
  dequeued : (w : World) → Step w (taken w)
  acknowledged :
      (before after : List QueueJob) (job : QueueJob) (q q' : MemoryQueue)
      → acknowledge job q ≡ some q'
      → Step
          (record { queue = q; at_work = before ++ job ∷ after })
          (record { queue = q'; at_work = before ++ after })
  requeued :
      (before after : List QueueJob) (job : QueueJob) (q q' : MemoryQueue)
      → retry job q ≡ some q'
      → Step
          (record { queue = q; at_work = before ++ job ∷ after })
          (record { queue = q'; at_work = before ++ after })

pub data Reach (w : World) : World → Type 0 where
  here : Reach w w
  next : {v u : World} → Reach w v → Step v u → Reach w u

abbrev pub start : World
start = record { queue = empty_queue; at_work = [] }

module _ (run_id : ℕ) where
  abbrev is_of : QueueEnvelope → ℕ
  is_of e = if run_of e == run_id then 1 else 0

  abbrev pub waiting : List QueueEnvelope → ℕ
  waiting [] = 0
  waiting (e ∷ es) = is_of e + waiting es

  abbrev pub working : List QueueJob → ℕ
  working [] = 0
  working (j ∷ js) = is_of j.envelope + working js

  waiting-append : (xs ys : List QueueEnvelope) → waiting (xs ++ ys) ≡ waiting xs + waiting ys
  waiting-append [] ys = omega arith
  waiting-append (x ∷ xs) ys = omega (arith, waiting-append xs ys)

  working-append : (xs ys : List QueueJob) → working (xs ++ ys) ≡ working xs + working ys
  working-append [] ys = omega arith
  working-append (x ∷ xs) ys = omega (arith, working-append xs ys)

  -- One job for each run that the set knows, and one unfinished task for each job.
  pub record Balanced (w : World) : Type 0 where
    pub runs :
        waiting w.queue.queue + working w.at_work ≡ (if has run_id w.queue.run_ids then 1 else 0)
    pub tasks : w.queue.unfinished_tasks ≡ length w.queue.queue + length w.at_work

  enqueued-Balanced :
      (request : AnalysisRequest) (w : World)
      → Balanced w
      → Balanced (record w { queue = (enqueue request w.queue).1 })
  unfolding enqueue
  enqueued-Balanced request w h = ground (
    arith,
    waiting-append w.queue.queue (fresh request ∷ []),
    length-append w.queue.queue (fresh request ∷ []),
    has-add request.run_id run_id w.queue.run_ids,
  )

  dequeue_list-Balanced :
      (es : List QueueEnvelope) (q : MemoryQueue) (js : List QueueJob)
      → q.queue ≡ es
      → Balanced (record { queue = q; at_work = js })
      → Balanced
          (record { queue = (dequeue_list es q).1; at_work = joined (dequeue_list es q).0 js })
  unfolding dequeue_list
  dequeue_list-Balanced [] q js e h = h
  dequeue_list-Balanced (x ∷ es) q js e h =
      let size = ap length e in let runs = ap waiting e in ground (arith, h.runs, h.tasks)

  acknowledged-Balanced :
      (before after : List QueueJob) (job : QueueJob) (q q' : MemoryQueue)
      → acknowledge job q ≡ some q'
      → Balanced (record { queue = q; at_work = before ++ job ∷ after })
      → Balanced (record { queue = q'; at_work = before ++ after })
  unfolding acknowledge
  acknowledged-Balanced before after job q q' e h = ground (
    arith,
    working-append before (job ∷ after),
    working-append before after,
    length-append before (job ∷ after),
    length-append before after,
    has-discard (run_of job.envelope) run_id q.run_ids,
    h.runs,
    h.tasks,
  )

  requeued-Balanced :
      (before after : List QueueJob) (job : QueueJob) (q q' : MemoryQueue)
      → retry job q ≡ some q'
      → Balanced (record { queue = q; at_work = before ++ job ∷ after })
      → Balanced (record { queue = q'; at_work = before ++ after })
  unfolding retry
  requeued-Balanced before after job q q' e h = ground (
    arith,
    working-append before (job ∷ after),
    working-append before after,
    length-append before (job ∷ after),
    length-append before after,
    waiting-append q.queue (retried job.envelope ∷ []),
    length-append q.queue (retried job.envelope ∷ []),
    h.runs,
    h.tasks,
  )

  Step-Balanced : {w v : World} → Step w v → Balanced w → Balanced v
  unfolding dequeue
  Step-Balanced (enqueued request w) h = enqueued-Balanced request w h
  Step-Balanced (dequeued w) h = dequeue_list-Balanced w.queue.queue w.queue w.at_work refl h
  Step-Balanced (acknowledged before after job q q' e) h =
      acknowledged-Balanced before after job q q' e h
  Step-Balanced (requeued before after job q q' e) h = requeued-Balanced before after job q q' e h

  start-Balanced : Balanced start
  unfolding has
  start-Balanced = record { runs = refl; tasks = refl }

  Reach-Balanced : {w : World} → Reach start w → Balanced w
  Reach-Balanced here = start-Balanced
  Reach-Balanced (next steps st) = Step-Balanced st (Reach-Balanced steps)

-- From an empty queue, after any sequence of enqueues, dequeues, acknowledgements and retries, the
-- queue and the jobs at work together hold exactly one job of a run that the set of run ids holds,
-- and none of any other run.
pub one_job_per_run :
    (run_id : ℕ) (w : World)
    → Reach start w
    → waiting run_id w.queue.queue + working run_id w.at_work
      ≡ (if has run_id w.queue.run_ids then 1 else 0)
one_job_per_run run_id w steps = (Reach-Balanced run_id steps).runs

-- In a reachable state the `task_done` of an acknowledgement or a retry of a job at work does not
-- raise: the queue never counts fewer unfinished tasks than there are jobs at work.
pub task_done_total :
    (w : World) (before after : List QueueJob) (job : QueueJob)
    → Reach start w
    → w.at_work ≡ before ++ job ∷ after
    → (acknowledge job w.queue ≢ none) × (retry job w.queue ≢ none)
unfolding acknowledge retry
task_done_total w before after job steps e =
    let many : length w.at_work ≡ length before + length (job ∷ after) =
      ap length e ∙ length-append before (job ∷ after) in
    let tasks = (Reach-Balanced 0 steps).tasks in (ground arith, ground arith)
