-- ===== src/Queue/Redis.antt =====
-- `RedisAnalysisQueue`: the lists and sets of one queue name in Redis, and the methods of a worker.
-- A Lua script runs as one step. The keys of a worker are named by its id.
pub mod Conservation
pub mod Runs
pub mod Leases
use pipe_lens.Common.{
  ℕ, zero, suc, ◌+◌, ◌≡◌, Text, text_eq, member, Bool, true, false, not, ◌&&◌, Option, none, some,
  List, [], ◌∷◌, ◌==◌, if◌then◌else◌, length,
}
use pipe_lens.Common.Sets.{has, discard}
use pipe_lens.Models.{AnalysisRequest}
use pipe_lens.Queue.{QueueEnvelope, QueueJob, fresh, retried, run_of}

-- `model_dump_json` and `model_validate_json` of pydantic.
pub record Codec : Type 0 where
  pub dump : QueueEnvelope → Text
  pub load : Text → QueueEnvelope
  pub load-dump : (e : QueueEnvelope) → load (dump e) ≡ e

-- The list `processing:<worker>`.
pub record Processing : Type 0 where
  pub worker : Text
  pub items : List Text

pub record RedisQueue : Type 0 where
  pub pending : List Text
  pub run_ids : List ℕ
  pub processing : List Processing
  pub workers : List Text
  pub leases : List Text

-- A list that no key holds is empty.
unfoldable pub list_of : Text → List Processing → List Text
list_of w [] = []
list_of w (p ∷ ps) = if text_eq p.worker w then p.items else list_of w ps

unfoldable pub set_list : Text → List Text → List Processing → List Processing
set_list w xs [] = record { worker = w; items = xs } ∷ []
set_list w xs (p ∷ ps) =
    if text_eq p.worker w then record p { items = xs } ∷ ps else p ∷ set_list w xs ps

-- `SADD` and `SREM` of one member
unfoldable pub sadd : Text → List Text → List Text
sadd x s = if member x s then s else x ∷ s

unfoldable pub srem : Text → List Text → List Text
srem x [] = []
srem x (y ∷ s) = let rest = srem x s in if text_eq y x then rest else y ∷ rest

-- `LREM key 1 value`: the list without its first such element, if there is one.
unfoldable pub lrem : Text → List Text → Option (List Text)
lrem x [] = none
lrem x (y ∷ ys) =
    if text_eq y x then some ys else elim (lrem x ys) [ none ↦ none | some zs ↦ some (y ∷ zs) ]

-- `RPOP`: the last element, and the others.
unfoldable pub rpop : List Text → Option (Text × List Text)
rpop [] = none
rpop (x ∷ xs) = elim (rpop xs) [ none ↦ some (x, []) | some (y, ys) ↦ some (y, x ∷ ys) ]

-- The loop of `_RECOVER_SCRIPT`, on fuel: from, to, and the number moved.
unfoldable pub recover_loop : ℕ → List Text → List Text → ℕ → List Text × ℕ
recover_loop zero from to n = (to, n)
recover_loop (suc fuel) from to n = elim (rpop from) [
  | none ↦ (to, n)
  | some (item, rest) ↦ recover_loop fuel rest (item ∷ to) (n + 1)
]

module _ (c : Codec) where
  open c use {dump, load}

  unfoldable pub enqueue : AnalysisRequest → RedisQueue → Bool × RedisQueue
  enqueue request q = if has request.run_id q.run_ids then (false, q) else (
    true,
    record q { run_ids = request.run_id ∷ q.run_ids; pending = dump (fresh request) ∷ q.pending },
  )

  -- `_ACKNOWLEDGE_SCRIPT`
  abbrev acknowledge_script : Text → Text → ℕ → RedisQueue → RedisQueue
  acknowledge_script worker receipt run_id q = elim (lrem receipt (list_of worker q.processing)) [
    | none ↦ q
    | some left ↦ record q {
      processing = set_list worker left q.processing;
      run_ids = discard run_id q.run_ids;
    }
  ]

  unfoldable pub acknowledge : Text → QueueJob → RedisQueue → RedisQueue
  acknowledge worker job q = elim job.receipt [
    | none ↦ q
    | some receipt ↦ acknowledge_script worker receipt (run_of job.envelope) q
  ]

  -- `_RETRY_SCRIPT`
  abbrev retry_script : Text → Text → Text → RedisQueue → RedisQueue
  retry_script worker receipt item q = elim (lrem receipt (list_of worker q.processing)) [
    | none ↦ q
    | some left ↦ record q {
      processing = set_list worker left q.processing;
      pending = item ∷ q.pending;
    }
  ]

  unfoldable pub retry : Text → QueueJob → RedisQueue → RedisQueue
  retry worker job q = elim job.receipt [
    | none ↦ q
    | some receipt ↦ retry_script worker receipt (dump (retried job.envelope)) q
  ]

  abbrev job_of : Text → QueueJob
  job_of raw = record { envelope = load raw; receipt = some raw }

-- One transaction: `SADD workers` and `SET lease`.
unfoldable pub heartbeat : Text → RedisQueue → RedisQueue
heartbeat worker q = record q { workers = sadd worker q.workers; leases = sadd worker q.leases }

-- The lease of a worker that has been silent for `lease_seconds` is gone.
unfoldable pub lease_expires : Text → RedisQueue → RedisQueue
lease_expires worker q = record q { leases = srem worker q.leases }

-- `BRPOPLPUSH pending processing`; `none` stands for its timeout.
unfoldable pub brpoplpush : Text → RedisQueue → Option Text × RedisQueue
brpoplpush worker q = elim (rpop q.pending) [
  | none ↦ (none, q)
  | some (raw, left) ↦ (
    some raw,
    record q {
      pending = left;
      processing = set_list worker (raw ∷ list_of worker q.processing) q.processing;
    },
  )
]

abbrev job_from : Codec → Option Text → Option QueueJob
job_from c none = none
job_from c (some raw) = some (job_of c raw)

unfoldable pub dequeue : Codec → Text → RedisQueue → Option QueueJob × RedisQueue
unfolding brpoplpush heartbeat
dequeue c worker q = let (raw, q') = brpoplpush worker (heartbeat worker q) in (job_from c raw, q')

-- `_RECOVER_SCRIPT` for one worker's list
unfoldable pub recover_script : Text → RedisQueue → ℕ × RedisQueue
unfolding recover_loop
recover_script other q =
    let items = list_of other q.processing in
    let moved = recover_loop (length items) items q.pending 0 in
    if member other q.leases then (0, q) else (
      moved.1,
      record q {
        pending = moved.0;
        processing = set_list other [] q.processing;
        workers = srem other q.workers;
      },
    )

-- The loop over `smembers(workers_key)`
recover_each : Text → List Text → ℕ → RedisQueue → ℕ × RedisQueue
recover_each self [] n q = (n, q)
recover_each self (w ∷ ws) n q =
    let (m, q') = recover_script w q in
    let kept = recover_each self ws n q in
    let taken = recover_each self ws (n + m) q' in if text_eq w self then kept else taken

unfoldable pub recover_orphaned : Text → RedisQueue → ℕ × RedisQueue
unfolding recover_each
recover_orphaned self q = recover_each self q.workers 0 q

unfoldable pub size : RedisQueue → ℕ
size q = length q.pending
