-- ===== src/Worker/Analysis.antt =====
-- The worker with the pipeline as its analysis, over the in-memory queue: what one round does to the
-- job and to the run.
use pipe_lens.Common.{
  ℕ, ◌+◌, ◌<◌, ◌≤◌, ◌≡◌, refl, ◌∙◌, Text, true, Option, none, some, [], ◌∷◌, arith, ltb, Bool-cases,
  Option-cases, inl, inr,
}
use pipe_lens.Common.Sets.{discard}
use pipe_lens.Models.{AnalysisStatus, queued, completed, failed, AnalysisRequest, Analysis}
use pipe_lens.Table.{first}
use pipe_lens.Table.Keyed.{first-update_self}
use pipe_lens.Store.{
  Store, run_key, is_startable, token_current, no_changes, changed_row, update_analysis,
}
use pipe_lens.Store.Fencing.{run_id_of, IsValid}
use pipe_lens.Queue.{QueueEnvelope, run_of, retried}
use pipe_lens.Queue.Memory.{MemoryQueue, empty_queue, dequeue, acknowledge, size}
use pipe_lens.Pipeline.{Settings, Services, State}
use pipe_lens.Pipeline.Analyze.{Ending, analyze}
use pipe_lens.Pipeline.Ends.{IsEnded, analyze-IsEnded}
use pipe_lens.Worker.{
  Outcome, returned, raised, WorkerMetrics, WorkerState, process_next, process_job,
}
use pipe_lens.Worker.Attempts.{memory_api, only, failing, round_retry, round_fail}

abbrev outcome_of : Ending → Outcome
outcome_of Ending.returned = returned
outcome_of (Ending.raised message) = raised message

abbrev start : Store → State
start st = record { store = st; accesses = 0; effects = [] }

abbrev ended : Ending × State → MemoryQueue → Outcome × MemoryQueue × Store
ended (ending, s) q = (outcome_of ending, q, s.store)

-- The pipeline as the argument of the worker; the token of an attempt is a fresh one.
abbrev pub run_pipeline :
    Services
    → Settings
    → Text
    → AnalysisRequest
    → MemoryQueue
    → Store
    → Outcome × MemoryQueue × Store
run_pipeline env settings token request q st =
    ended (analyze env settings request token (start st)) q

-- The stored row of the run has a status.
abbrev HasStatus : AnalysisStatus → Option Analysis → Type 0
HasStatus status none = ⊥
HasStatus status (some r) = r.status ≡ status

-- How a round settles a job: it is done and its run completed, or it is tried again and its run queued,
-- or its attempts are used up and its run failed.
pub data Settled (max_attempts : ℕ) (e : QueueEnvelope) (s : WorkerState MemoryQueue) : Type 0 where
  done :
      s.queue ≡ empty_queue
      → HasStatus completed (first (run_key (run_of e)) s.store.analyses)
      → Settled max_attempts e s
  again :
      e.attempts + 1 < max_attempts
      → s.queue ≡ only (retried e)
      → HasStatus queued (first (run_key (run_of e)) s.store.analyses)
      → Settled max_attempts e s
  given_up :
      max_attempts ≤ e.attempts + 1
      → s.queue ≡ empty_queue
      → HasStatus failed (first (run_key (run_of e)) s.store.analyses)
      → Settled max_attempts e s

module _ (max_attempts now : ℕ) (e : QueueEnvelope) (m : WorkerMetrics) where
  abbrev Round :
      (AnalysisRequest → MemoryQueue → Store → Outcome × MemoryQueue × Store) → Store → Type 0
  Round analysis st =
      (s' : WorkerState MemoryQueue) × (process_next memory_api analysis max_attempts now
          (record { queue = only e; store = st; metrics = m })
        ≡ some (true, s'))
      × Settled max_attempts e s'

  marked-HasStatus :
      (message : Text) (status : AnalysisStatus) (after : Store) (a : Analysis)
      → first (run_key (run_of e)) after.analyses ≡ some a
      → HasStatus status (
          first
            (run_key (run_of e))
            (update_analysis now
              (run_of e)
              status
              (record no_changes { error = some message })
              none
              after).1.analyses)
  unfolding update_analysis changed_row
  marked-HasStatus message status after a found =
      rw
        (
          first-update_self run_id_of
              (changed_row now status (record no_changes { error = some message })) (λ x. refl)
              (run_of e) (token_current none) after.analyses,
          found,
        )
        refl

  -- The queue while the job is at work.
  abbrev at_work : MemoryQueue
  at_work = record { queue = []; unfinished_tasks = 1; run_ids = run_of e ∷ [] }

  module _ (analysis : AnalysisRequest → MemoryQueue → Store → Outcome × MemoryQueue × Store)
      (st after : Store) (a : Analysis)
      (found : first (run_key (run_of e)) after.analyses ≡ some a) where
    settles_completed :
        analysis e.request at_work st ≡ (returned, at_work, after)
        → a.status ≡ completed
        → Round analysis st
    unfolding process_next dequeue acknowledge size discard
    settles_completed out status = (
      record { queue = empty_queue; store = after; metrics = record m { queue_depth = 0 } },
      rw (process_job, out) (ground arith),
      done refl (rw found status),
    )

    same_round :
        (message : Text)
        → analysis e.request at_work st ≡ (raised message, at_work, after)
        → process_next memory_api analysis max_attempts now
            (record { queue = only e; store = st; metrics = m })
          ≡ process_next memory_api
              (failing message (λ _. after))
              max_attempts
              now
              (record { queue = only e; store = st; metrics = m })
    unfolding process_next dequeue
    same_round message out = rw (process_job, out) refl

    settles_raised :
        (message : Text)
        → analysis e.request at_work st ≡ (raised message, at_work, after)
        → Round analysis st
    settles_raised message out = elim (Bool-cases (ltb (e.attempts + 1) max_attempts)) [
      | inl more ↦
          let lt : e.attempts + 1 < max_attempts = ground arith in
          (
            _,
            same_round message out ∙ round_retry message (λ _. after) max_attempts now e st m lt,
            again lt refl (marked-HasStatus message queued after a found),
          )
      | inr last ↦
          let le : max_attempts ≤ e.attempts + 1 = ground arith in
          (
            _,
            same_round message out ∙ round_fail message (λ _. after) max_attempts now e st m le,
            given_up le refl (marked-HasStatus message failed after a found),
          )
    ]

  nothing-IsEnded : (ending : Ending) → ¬ (IsEnded ending none)
  nothing-IsEnded Ending.returned h = h
  nothing-IsEnded (Ending.raised m) h = h

  by_ending :
      (analysis : AnalysisRequest → MemoryQueue → Store → Outcome × MemoryQueue × Store)
      (st : Store) (ending : Ending) (s : State) (a : Analysis)
      → first (run_key (run_of e)) s.store.analyses ≡ some a
      → analysis e.request at_work st ≡ ended (ending, s) at_work
      → IsEnded ending (some a)
      → Round analysis st
  by_ending analysis st Ending.returned s a found out h =
      settles_completed analysis st s.store a found out h.0
  by_ending analysis st (Ending.raised message) s a found out h =
      settles_raised analysis st s.store a found message out

  -- By how `analyze` ends.
  ended-Round :
      (analysis : AnalysisRequest → MemoryQueue → Store → Outcome × MemoryQueue × Store)
      (st : Store) (x : Ending × State)
      → analysis e.request at_work st ≡ ended x at_work
      → IsEnded x.0 (first (run_key (run_of e)) x.1.store.analyses)
      → Round analysis st
  ended-Round analysis st (ending, s) out h =
      elim (Option-cases (first (run_key (run_of e)) s.store.analyses)) [
        | inl gone ↦ elim (nothing-IsEnded ending (rw gone at h)) [ ]
        | inr (a, found) ↦ by_ending analysis st ending s a found out (rw found at h)
      ]

-- One round of a worker whose analysis is the pipeline, over a queue with one job whose run is stored
-- and queued or running, when no other worker writes in between: the round takes the job and
-- settles it. The job is gone and the run completed; or it waits with one more attempt and the run
-- is queued; or its attempts have reached the limit, it is gone, and the run is failed.
pub process_next-Settled :
    (env : Services) (settings : Settings) (token : Text) (max_attempts now : ℕ) (e : QueueEnvelope)
    (m : WorkerMetrics) (st : Store) (a : Analysis)
    → ((n : ℕ) (s : Store) → env.others n s ≡ s)
    → IsValid st
    → first (run_key (run_of e)) st.analyses ≡ some a
    → is_startable a.status ≡ true
    → (s' : WorkerState MemoryQueue) × (process_next memory_api
          (run_pipeline env settings token)
          max_attempts
          now
          (record { queue = only e; store = st; metrics = m })
        ≡ some (true, s'))
      × Settled max_attempts e s'
process_next-Settled env settings token max_attempts now e m st a alone valid found may =
    ended-Round max_attempts now e m (run_pipeline env settings token) st
      (analyze env settings e.request token (start st)) refl
      (analyze-IsEnded env settings e.request token alone (start st) a valid found may)
