-- ===== src/Queue/Memory.antt =====
-- `InMemoryAnalysisQueue`: an `asyncio.Queue` with its count of unfinished tasks, and the run ids
-- that are waiting or at work. A method that raises returns `none`.
pub mod Runs
use pipe_lens.Common.{
  ℕ, zero, suc, ◌+◌, ◌-◌, ◌≤◌, ◌<◌, ◌≡◌, refl, ◌≢◌, Bool, true, false, not, ◌&&◌, ◌||◌, Option,
  none, some, List, [], ◌∷◌, ◌++◌, arith, ◌==◌, if◌then◌else◌, length, length-append, Bool-cases,
  inl, inr,
}
use pipe_lens.Common.Sets.{has, add, discard, has-add, has-discard}
use pipe_lens.Models.{AnalysisRequest}
use pipe_lens.Queue.{QueueEnvelope, QueueJob, fresh, retried, run_of}

pub record MemoryQueue : Type 0 where
  pub queue : List QueueEnvelope
  pub unfinished_tasks : ℕ
  pub run_ids : List ℕ

abbrev pub empty_queue : MemoryQueue
empty_queue = record { queue = []; unfinished_tasks = 0; run_ids = [] }

-- `put_nowait` of an unbounded queue
abbrev put_nowait : QueueEnvelope → MemoryQueue → MemoryQueue
put_nowait e q = record q { queue = q.queue ++ e ∷ []; unfinished_tasks = q.unfinished_tasks + 1 }

-- `task_done`, which raises `ValueError` when it is called too often.
abbrev task_done : MemoryQueue → Option MemoryQueue
task_done q =
    if q.unfinished_tasks == 0
    then none
    else some (record q { unfinished_tasks = q.unfinished_tasks - 1 })

unfoldable pub enqueue : AnalysisRequest → MemoryQueue → Bool × MemoryQueue
enqueue request q =
    if has request.run_id q.run_ids
    then (false, q)
    else (true, put_nowait (fresh request) (record q { run_ids = add request.run_id q.run_ids }))

-- `none` stands for the timeout of an empty queue.
dequeue_list : List QueueEnvelope → MemoryQueue → Option QueueJob × MemoryQueue
dequeue_list [] q = (none, q)
dequeue_list (e ∷ es) q = (some (record { envelope = e; receipt = none }), record q { queue = es })

unfoldable pub dequeue : MemoryQueue → Option QueueJob × MemoryQueue
unfolding dequeue_list
dequeue q = dequeue_list q.queue q

discard_run : ℕ → Option MemoryQueue → Option MemoryQueue
discard_run n none = none
discard_run n (some q) = some (record q { run_ids = discard n q.run_ids })

unfoldable pub acknowledge : QueueJob → MemoryQueue → Option MemoryQueue
unfolding discard_run
acknowledge job q = discard_run (run_of job.envelope) (task_done q)

requeue : QueueEnvelope → Option MemoryQueue → Option MemoryQueue
requeue e none = none
requeue e (some q) = some (put_nowait e q)

unfoldable pub retry : QueueJob → MemoryQueue → Option MemoryQueue
unfolding requeue
retry job q = requeue (retried job.envelope) (task_done q)

unfoldable pub size : MemoryQueue → ℕ
size q = length q.queue
