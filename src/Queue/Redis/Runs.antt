-- ===== src/Queue/Redis/Runs.antt =====
-- The runs of the Redis queue: any interleaving of the workers' scripts, the webhooks' enqueues and
-- the expiry of leases.
use pipe_lens.Common.{ℕ, ◌≡◌, refl, Text, [], if◌then◌else◌}
use pipe_lens.Common.Sets.{has}
use pipe_lens.Models.{AnalysisRequest}
use pipe_lens.Queue.Redis.{
  Codec, RedisQueue, enqueue, acknowledge, retry, job_of, heartbeat, lease_expires, dequeue,
  recover_orphaned,
}
use pipe_lens.Queue.Redis.Conservation.{
  total, Balanced, enqueue-Balanced, acknowledge-Balanced, retry-Balanced, dequeue-Balanced,
  recover_orphaned-Balanced,
}

-- A worker acknowledges or retries a job that a dequeue gave it, at any later time: `raw` is the
-- receipt of that job, which may have been recovered since.
pub data Step (c : Codec) : RedisQueue → RedisQueue → Type 0 where
  enqueued : (request : AnalysisRequest) (q : RedisQueue) → Step c q (enqueue c request q).1
  dequeued : (worker : Text) (q : RedisQueue) → Step c q (dequeue c worker q).1
  acknowledged :
      (worker raw : Text) (q : RedisQueue) → Step c q (acknowledge c worker (job_of c raw) q)
  requeued : (worker raw : Text) (q : RedisQueue) → Step c q (retry c worker (job_of c raw) q)
  beat : (worker : Text) (q : RedisQueue) → Step c q (heartbeat worker q)
  expired : (worker : Text) (q : RedisQueue) → Step c q (lease_expires worker q)
  recovered : (self : Text) (q : RedisQueue) → Step c q (recover_orphaned self q).1

pub data Reach (c : Codec) (q : RedisQueue) : RedisQueue → Type 0 where
  here : Reach c q q
  next : {r s : RedisQueue} → Reach c q r → Step c r s → Reach c q s

abbrev pub empty_redis : RedisQueue
empty_redis = record { pending = []; run_ids = []; processing = []; workers = []; leases = [] }

Step-Balanced :
    {c : Codec} (run_id : ℕ) {q r : RedisQueue}
    → Step c q r
    → Balanced c run_id q
    → Balanced c run_id r
Step-Balanced {c} run_id (enqueued request q) h = enqueue-Balanced c run_id request q h
Step-Balanced {c} run_id (dequeued w q) h = dequeue-Balanced c run_id w q h
Step-Balanced {c} run_id (acknowledged w raw q) h = acknowledge-Balanced c run_id w raw q h
Step-Balanced {c} run_id (requeued w raw q) h = retry-Balanced c run_id w raw q h
Step-Balanced {c} run_id (beat w q) h = unfold heartbeat in h
Step-Balanced {c} run_id (expired w q) h = unfold lease_expires in h
Step-Balanced {c} run_id (recovered self q) h = recover_orphaned-Balanced c run_id self q h

Reach-Balanced :
    {c : Codec} (run_id : ℕ) {q r : RedisQueue}
    → Balanced c run_id q
    → Reach c q r
    → Balanced c run_id r
Reach-Balanced run_id h here = h
Reach-Balanced run_id h (next steps st) = Step-Balanced run_id st (Reach-Balanced run_id h steps)

empty-Balanced : (c : Codec) (run_id : ℕ) → Balanced c run_id empty_redis
unfolding has
empty-Balanced c run_id = refl

-- From an empty queue, after any interleaving of enqueues, dequeues, acknowledgements, retries,
-- heartbeats, lease expiries and recoveries, by any workers and with stale receipts too, the pending
-- list and the processing lists together hold exactly one item of a run that the set of run ids
-- holds, and none of any other run: no job is lost and none is doubled.
pub one_item_per_run :
    (c : Codec) (run_id : ℕ) (q : RedisQueue)
    → Reach c empty_redis q
    → total c run_id q ≡ (if has run_id q.run_ids then 1 else 0)
one_item_per_run c run_id q steps = Reach-Balanced run_id (empty-Balanced c run_id) steps
