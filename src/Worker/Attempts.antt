-- ===== src/Worker/Attempts.antt =====
-- How often a worker tries a job whose analysis keeps raising, over the in-memory queue.
use pipe_lens.Common.{
  ℕ, zero, suc, ◌+◌, ◌<◌, ◌≤◌, ◌≡◌, refl, ◌∙◌, subst, Text, Bool, true, Option, none, some, [], ◌∷◌,
  arith,
}
use pipe_lens.Common.Sets.{discard}
use pipe_lens.Models.{AnalysisStatus, queued, failed, AnalysisRequest, Analysis}
use pipe_lens.Table.{first}
use pipe_lens.Table.Keyed.{first-update_self}
use pipe_lens.Store.{Store, run_key, token_current, no_changes, changed_row, update_analysis}
use pipe_lens.Store.Fencing.{run_id_of}
use pipe_lens.Queue.{QueueEnvelope, run_of, retried}
use pipe_lens.Queue.Memory.{MemoryQueue, empty_queue, dequeue, acknowledge, retry, size}
use pipe_lens.Worker.{QueueApi, Outcome, raised, WorkerMetrics, WorkerState, process_next}

abbrev pub memory_api : QueueApi MemoryQueue
memory_api = record { dequeue = dequeue; acknowledge = acknowledge; retry = retry; size = size }

-- A queue that holds one job.
abbrev pub only : QueueEnvelope → MemoryQueue
only e = record { queue = e ∷ []; unfinished_tasks = 1; run_ids = run_of e ∷ [] }

-- An analysis that raises, whatever it does to the store.
abbrev pub failing :
    Text → (Store → Store) → AnalysisRequest → MemoryQueue → Store → Outcome × MemoryQueue × Store
failing message f request q s = (raised message, q, f s)

abbrev next_round :
    (WorkerState MemoryQueue → Option (WorkerState MemoryQueue))
    → Option (Bool × WorkerState MemoryQueue)
    → Option (WorkerState MemoryQueue)
next_round k none = none
next_round k (some (done, s)) = k s

-- `process_next` as often as `n` says.
module _ (message : Text) (f : Store → Store) (max_attempts : ℕ) where
  pub rounds : ℕ → ℕ → WorkerState MemoryQueue → Option (WorkerState MemoryQueue)
  rounds zero now s = some s
  rounds (suc n) now s =
      next_round (rounds n (now + 1))
        (process_next memory_api (failing message f) max_attempts now s)

  -- A worker over a queue with one job.
  abbrev pub holding : QueueEnvelope → Store → WorkerMetrics → WorkerState MemoryQueue
  holding e st m = record { queue = only e; store = st; metrics = m }

  abbrev pub marked : ℕ → AnalysisStatus → QueueEnvelope → Store → Store
  marked now status e st =
      (update_analysis now (run_of e) status (record no_changes { error = some message }) none
        (f st)).1

  module _ (now : ℕ) (e : QueueEnvelope) (st : Store) (m : WorkerMetrics) where
    pub round_retry :
        e.attempts + 1 < max_attempts
        → process_next memory_api (failing message f) max_attempts now (holding e st m)
          ≡ some (
            true,
            holding
                (retried e)
                (marked now queued e st)
                (record m { queue_depth = 1; queue_retries = m.queue_retries + 1 }),
          )
    unfolding process_next dequeue retry size
    round_retry more = ground arith

    pub round_fail :
        max_attempts ≤ e.attempts + 1
        → process_next memory_api (failing message f) max_attempts now (holding e st m)
          ≡ some (
            true,
            record {
              queue = empty_queue;
              store = marked now failed e st;
              metrics = record m { queue_depth = 0; analyses_failed = m.analyses_failed + 1 };
            },
          )
    unfolding process_next dequeue acknowledge size discard
    round_fail last = ground arith

  -- The row of a run, which is stored, and the same marked failed with the message.
  abbrev pub IsStored : ℕ → Store → Type 0
  IsStored n s = (r : Analysis) × (first (run_key n) s.analyses ≡ some r)

  abbrev pub IsFailed : ℕ → Store → Type 0
  IsFailed n s =
      (r : Analysis) × (first (run_key n) s.analyses ≡ some r)
      × (r.status ≡ failed)
      × (r.error ≡ some message)

  -- `update` without a token writes the row of the run that is stored.
  marked_row :
      (now : ℕ) (status : AnalysisStatus) (e : QueueEnvelope) (st : Store) (r : Analysis)
      → first (run_key (run_of e)) (f st).analyses ≡ some r
      → first (run_key (run_of e)) (marked now status e st).analyses
        ≡ some (changed_row now status (record no_changes { error = some message }) r)
  unfolding update_analysis changed_row
  marked_row now status e st r found =
      first-update_self run_id_of
        (changed_row now status (record no_changes { error = some message })) (λ x. refl) (run_of e)
        (token_current none) (f st).analyses
      ∙ rw found refl

  module _ (run_id : ℕ) (keeps : (s : Store) → IsStored run_id s → IsStored run_id (f s)) where
    marked-IsFailed :
        (now : ℕ) (e : QueueEnvelope) (st : Store)
        → run_of e ≡ run_id
        → IsStored run_id st
        → IsFailed run_id (marked now failed e st)
    marked-IsFailed now e st same stored =
        let (r, found) = keeps st stored in
        let row : Analysis =
          changed_row now failed (record no_changes { error = some message }) r in
        (
          row,
          subst (λ n. first (run_key n) (marked now failed e st).analyses ≡ some row) same
              (marked_row now failed e st r (rw same found)),
          (unfold changed_row in refl),
          (unfold changed_row in refl),
        )

    marked-IsStored :
        (now : ℕ) (status : AnalysisStatus) (e : QueueEnvelope) (st : Store)
        → run_of e ≡ run_id
        → IsStored run_id st
        → IsStored run_id (marked now status e st)
    marked-IsStored now status e st same stored =
        let (r, found) = keeps st stored in
        let row : Analysis =
          changed_row now status (record no_changes { error = some message }) r in
        (
          row,
          subst (λ n. first (run_key n) (marked now status e st).analyses ≡ some row) same
              (marked_row now status e st r (rw same found)),
        )

    rounds_end :
        (k now : ℕ) (e : QueueEnvelope) (st : Store) (m : WorkerMetrics)
        → e.attempts + suc k ≡ max_attempts
        → run_of e ≡ run_id
        → IsStored run_id st
        → (st' : Store) × (rounds (suc k) now (holding e st m)
            ≡ some (record {
              queue = empty_queue;
              store = st';
              metrics = record {
                queue_depth = 0;
                queue_retries = m.queue_retries + k;
                analyses_failed = m.analyses_failed + 1;
              };
            }))
          × IsFailed run_id st'
    unfolding rounds
    rounds_end zero now e st m h same stored = (
      marked now failed e st,
      rw (round_fail now e st m (omega arith)) (ground arith),
      marked-IsFailed now e st same stored,
    )
    rounds_end (suc k) now e st m h same stored =
        let m' : WorkerMetrics = record m {
          queue_depth = 1;
          queue_retries = m.queue_retries + 1;
        } in
        let (st', ends, done) =
          rounds_end k (now + 1) (retried e) (marked now queued e st) m' (omega arith) same
            (marked-IsStored now queued e st same stored) in
        (st', rw (round_retry now e st m (omega arith)) (ends ∙ ground arith), done)

  -- A job whose analysis raises every time is tried until its attempts reach `max_attempts` and then
  -- no more: with `k` retries left, `k + 1` rounds empty the queue and its set of run ids and count
  -- `k` retries and one failure. When the run is stored, and the analysis does not delete it, whatever
  -- else it does to the store, the run is then still stored, and failed with the message.
  pub retries_end :
      (k now : ℕ) (e : QueueEnvelope) (st : Store) (m : WorkerMetrics)
      → e.attempts + suc k ≡ max_attempts
      → IsStored (run_of e) st
      → ((s : Store) → IsStored (run_of e) s → IsStored (run_of e) (f s))
      → (st' : Store) × (rounds (suc k) now (holding e st m)
          ≡ some (record {
            queue = empty_queue;
            store = st';
            metrics = record {
              queue_depth = 0;
              queue_retries = m.queue_retries + k;
              analyses_failed = m.analyses_failed + 1;
            };
          }))
        × IsFailed (run_of e) st'
  retries_end k now e st m h stored keeps = rounds_end (run_of e) keeps k now e st m h refl stored
