-- ===== src/Worker.antt =====
-- src/pipelens/worker.py: `AnalysisWorker.process_next`, and the metrics that it writes. The
-- pipeline's `analyze` is an argument: it returns or raises, and changes the store; what other tasks do
-- to the queue while the worker waits for it is part of the argument too.
pub mod Attempts
pub mod Maintenance
pub mod Analysis
mod Tests
use pipe_lens.Common.{
  ℕ, ◌+◌, ◌≡◌, Text, Bool, true, false, Option, none, some, List, ◌==◌, ltb, if◌then◌else◌,
}
use pipe_lens.Models.{AnalysisStatus, queued, failed, AnalysisRequest}
use pipe_lens.Store.{Store, Changes, no_changes, update_analysis}
use pipe_lens.Queue.{QueueEnvelope, QueueJob, run_of}

-- What a worker calls of an `AnalysisQueue` with the state `Q`. `none` is an exception.
pub record QueueApi (Q : Type 0) : Type 0 where
  pub dequeue : Q → Option QueueJob × Q
  pub acknowledge : QueueJob → Q → Option Q
  pub retry : QueueJob → Q → Option Q
  pub size : Q → ℕ

-- How `pipeline.analyze` ends: `raised` carries `str(exc)`.
pub data Outcome : Type 0 where
  returned : Outcome
  raised : Text → Outcome

pub record WorkerMetrics : Type 0 where
  pub queue_depth : ℕ
  pub queue_retries : ℕ
  pub analyses_failed : ℕ

pub record WorkerState (Q : Type 0) : Type 0 where
  pub queue : Q
  pub store : Store
  pub metrics : WorkerMetrics

module _ {Q : Type 0} (api : QueueApi Q)
    (analyze : AnalysisRequest → Q → Store → Outcome × Q × Store) where
  open api use {dequeue, acknowledge, retry, size}

  -- `self.metrics.queue_depth.set(await self.queue.size())`
  abbrev with_depth : WorkerState Q → WorkerState Q
  with_depth s = record s { metrics = record s.metrics { queue_depth = size s.queue } }

  -- `self.store.update(run_id, status, error=str(exc))`, with no token, which never raises.
  abbrev mark : ℕ → AnalysisStatus → Text → WorkerState Q → ℕ → WorkerState Q
  mark now status message s run_id = record s {
    store =
        (update_analysis now run_id status (record no_changes { error = some message }) none
          s.store).1;
  }

  -- The state after a queue operation, unless it raised.
  abbrev after_queue : Option Q → (Q → WorkerState Q) → Option (WorkerState Q)
  after_queue none k = none
  after_queue (some q) k = some (with_depth (k q))

  abbrev count_retry : WorkerState Q → Q → WorkerState Q
  count_retry s q = record s {
    queue = q;
    metrics = record s.metrics { queue_retries = s.metrics.queue_retries + 1 };
  }

  abbrev count_failed : WorkerState Q → Q → WorkerState Q
  count_failed s q = record s {
    queue = q;
    metrics = record s.metrics { analyses_failed = s.metrics.analyses_failed + 1 };
  }

  -- `except Exception`, `else`, and the last line
  abbrev settle : ℕ → ℕ → QueueJob → Outcome → WorkerState Q → Option (WorkerState Q)
  settle max_attempts now job returned s =
      after_queue (acknowledge job s.queue) (λ q. record s { queue = q })
  settle max_attempts now job (raised message) s =
      if ltb (job.envelope.attempts + 1) max_attempts
      then (let s' = mark now queued message s (run_of job.envelope) in
          after_queue (retry job s'.queue) (count_retry s'))
      else (let s' = mark now failed message s (run_of job.envelope) in
          after_queue (acknowledge job s'.queue) (count_failed s'))

  process_job : ℕ → ℕ → Option QueueJob → WorkerState Q → Option (Bool × WorkerState Q)
  process_job max_attempts now none s = some (false, with_depth s)
  process_job max_attempts now (some job) s =
      let s' = with_depth s in
      let (outcome, q, store) = analyze job.envelope.request s'.queue s'.store in
      elim (settle max_attempts now job outcome (record s' { queue = q; store = store })) [
        | none ↦ none
        | some after ↦ some (true, after)
      ]

  -- The result tells whether there was a job; `none` is an exception of the queue.
  unfoldable pub process_next : ℕ → ℕ → WorkerState Q → Option (Bool × WorkerState Q)
  unfolding process_job
  process_next max_attempts now s =
      let (job, q) = dequeue s.queue in process_job max_attempts now job (record s { queue = q })
