-- ===== src/Queue/Tests.antt =====
-- The two queues at concrete jobs.
use pipe_lens.Common.{
  ℕ, ◌+◌, ◌≡◌, refl, Text, codes, false, none, some, [], ◌∷◌, ◌++◌, ◌≢◌, if◌then◌else◌, text_eq,
  member, length, take, drop, ap,
}
use pipe_lens.Common.Sets.{has}
use pipe_lens.Models.{AnalysisRequest}
use pipe_lens.Queue.{QueueEnvelope, QueueJob, fresh}
use pipe_lens.Queue.Memory
use pipe_lens.Queue.Memory.{MemoryQueue}
use pipe_lens.Queue.Memory.Runs.{World, taken, waiting, working, one_job_per_run, task_done_total}
use pipe_lens.Queue.Redis
use pipe_lens.Queue.Redis.{Codec, RedisQueue, list_of}
use pipe_lens.Queue.Redis.Conservation.{total}
use pipe_lens.Queue.Redis.Runs.{empty_redis, one_item_per_run}
use pipe_lens.Queue.Redis.Leases.{Without, recovery_fences}

abbrev request : AnalysisRequest
request = record { run_id = 7; repository = codes "o/r"; installation_id = 3; head_sha = codes "a" }

-- The world after one enqueue and one dequeue.
abbrev queued_world : World
queued_world = record Memory.Runs.start {
  queue = (Memory.enqueue request Memory.Runs.start.queue).1;
}

abbrev taken_world : World
taken_world = taken queued_world

taken-Reach : Memory.Runs.Reach Memory.Runs.start taken_world
taken-Reach =
    Memory.Runs.next
      (Memory.Runs.next Memory.Runs.here (Memory.Runs.enqueued request Memory.Runs.start))
      (Memory.Runs.dequeued queued_world)

abbrev job : QueueJob
job = record { envelope = fresh request; receipt = none }

taken_job : taken_world.at_work ≡ [] ++ job ∷ []
unfolding Memory.enqueue Memory.dequeue has
taken_job = refl

one_job_per_run_example :
    waiting 7 taken_world.queue.queue + working 7 taken_world.at_work
    ≡ (if has 7 taken_world.queue.run_ids then 1 else 0)
one_job_per_run_example = one_job_per_run 7 taken_world taken-Reach

task_done_total_example :
    (Memory.acknowledge job taken_world.queue ≢ none) × (Memory.retry job taken_world.queue ≢ none)
task_done_total_example = task_done_total taken_world [] [] job taken-Reach taken_job

take-append_length : (xs ys : Text) → take (length xs) (xs ++ ys) ≡ xs
take-append_length [] ys = refl
take-append_length (x ∷ xs) ys = ap (λ zs. x ∷ zs) (take-append_length xs ys)

drop-append_length : (xs ys : Text) → drop (length xs) (xs ++ ys) ≡ ys
drop-append_length [] ys = refl
drop-append_length (x ∷ xs) ys = drop-append_length xs ys

-- A codec that writes the numbers first, then the two texts.
abbrev dump : QueueEnvelope → Text
dump e =
    e.attempts
      ∷ e.request.run_id
      ∷ e.request.installation_id
      ∷ length e.request.repository
      ∷ e.request.repository
    ++ e.request.head_sha

load : Text → QueueEnvelope
load (a ∷ r ∷ i ∷ n ∷ t) = record {
  request = record { run_id = r; repository = take n t; installation_id = i; head_sha = drop n t };
  attempts = a;
}
load _ = fresh request

load-dump : (e : QueueEnvelope) → load (dump e) ≡ e
unfolding load
load-dump e =
    rw
      (
        take-append_length e.request.repository e.request.head_sha,
        drop-append_length e.request.repository e.request.head_sha,
      )
      refl

abbrev codec : Codec
codec = record { dump = dump; load = load; load-dump = load-dump }

-- One job is taken by the worker `w`, whose lease then expires; another worker recovers it.
abbrev redis_queued : RedisQueue
redis_queued = (Redis.enqueue codec request empty_redis).1

abbrev redis_taken : RedisQueue
redis_taken = (Redis.dequeue codec (codes "w") redis_queued).1

abbrev redis_silent : RedisQueue
redis_silent = Redis.lease_expires (codes "w") redis_taken

abbrev redis_recovered : RedisQueue
redis_recovered = (Redis.recover_orphaned (codes "v") redis_silent).1

redis-Reach : Redis.Runs.Reach codec empty_redis redis_recovered
redis-Reach =
    Redis.Runs.next
      (Redis.Runs.next
        (Redis.Runs.next (Redis.Runs.next Redis.Runs.here (Redis.Runs.enqueued request empty_redis))
          (Redis.Runs.dequeued (codes "w") redis_queued))
        (Redis.Runs.expired (codes "w") redis_taken))
      (Redis.Runs.recovered (codes "v") redis_silent)

one_item_per_run_example :
    total codec 7 redis_recovered ≡ (if has 7 redis_recovered.run_ids then 1 else 0)
one_item_per_run_example = one_item_per_run codec 7 redis_recovered redis-Reach

silent : member (codes "w") redis_silent.leases ≡ false
unfolding Redis.enqueue Redis.dequeue Redis.lease_expires Redis.heartbeat Redis.brpoplpush
    Redis.rpop Redis.sadd Redis.srem member text_eq has
silent = refl

abbrev receipt_job : QueueJob
receipt_job = record { envelope = fresh request; receipt = some (dump (fresh request)) }

abbrev recovered_once : ℕ × RedisQueue
recovered_once = Redis.recover_script (codes "w") redis_silent

-- The queue once another worker has taken the job that was recovered.
abbrev redis_retaken : RedisQueue
redis_retaken = (Redis.dequeue codec (codes "v") recovered_once.1).1

others : (codes "v") ≢ (codes "w")
unfolding text_eq
others e = cc (ap (λ t. text_eq t (codes "w")) e)

recovery_fences_example :
    (recovered_once.0 ≡ length (list_of (codes "w") redis_silent.processing))
    × (recovered_once.1.pending
        ≡ list_of (codes "w") redis_silent.processing ++ redis_silent.pending)
    × (Redis.acknowledge codec (codes "w") receipt_job redis_retaken ≡ redis_retaken)
    × (Redis.retry codec (codes "w") receipt_job redis_retaken ≡ redis_retaken)
recovery_fences_example =
    recovery_fences (codes "w") redis_silent codec receipt_job redis_retaken silent
      (Without.next Without.here (Redis.Runs.dequeued (codes "v") recovered_once.1) others)
