-- ===== src/Queue/Redis/Leases.antt =====
-- Recovery takes the jobs of a worker whose lease is gone, and that worker can end none of them.
use pipe_lens.Common.{
  ℕ, ◌+◌, ◌≡◌, ◌≢◌, refl, ap, ◌∙◌, Text, text_eq, text_eq→≡, text_eq_refl, member, true, false,
  Option, none, some, List, [], ◌∷◌, ◌++◌, length, arith, Bool-cases, Option-cases, inl, inr,
}
use pipe_lens.Common.Sets.{has}
use pipe_lens.Models.{AnalysisRequest}
use pipe_lens.Queue.{QueueJob}
use pipe_lens.Queue.Redis.{
  Codec, RedisQueue, list_of, set_list, lrem, rpop, enqueue, acknowledge, retry, job_of, heartbeat,
  lease_expires, brpoplpush, dequeue, acknowledge_script, retry_script, recover_script,
  recover_each, recover_orphaned,
}
use pipe_lens.Queue.Redis.Conservation.{recover_loop-append, list_of-set_list}
use pipe_lens.Queue.Redis.Runs.{
  Step, enqueued, dequeued, acknowledged, requeued, beat, expired, recovered,
}

module _ (c : Codec) (w : Text) (job : QueueJob) (q : RedisQueue)
    (nothing : list_of w q.processing ≡ []) where
  acknowledge_nothing : acknowledge c w job q ≡ q
  unfolding acknowledge lrem
  acknowledge_nothing = elim (Option-cases job.receipt) [
    | inl e ↦ rw (e, acknowledge)
    | inr (raw, e) ↦ rw (e, acknowledge) (rw (nothing, acknowledge_script))
  ]

  retry_nothing : retry c w job q ≡ q
  unfolding retry lrem
  retry_nothing = elim (Option-cases job.receipt) [
    | inl e ↦ rw (e, retry)
    | inr (raw, e) ↦ rw (e, retry) (rw (nothing, retry_script))
  ]

module _ (other : Text) (q : RedisQueue) (dead : member other q.leases ≡ false) where
  recovered_list : list_of other (recover_script other q).1.processing ≡ []
  unfolding recover_script
  recovered_list = rw dead (rw (list_of-set_list, text_eq_refl other))

  recovered_jobs :
      ((recover_script other q).0 ≡ length (list_of other q.processing))
      × ((recover_script other q).1.pending ≡ list_of other q.processing ++ q.pending)
  unfolding recover_script
  recovered_jobs =
      let items = list_of other q.processing in
      rw dead (
        rw (recover_loop-append (length items) items q.pending 0 (omega arith)) (omega arith, refl))

-- A step that is no dequeue by the worker.
abbrev pub IsOther : (c : Codec) → Text → {q r : RedisQueue} → Step c q r → Type 0
IsOther c w (enqueued request q) = Unit
IsOther c w (dequeued v q) = v ≢ w
IsOther c w (acknowledged v raw q) = Unit
IsOther c w (requeued v raw q) = Unit
IsOther c w (beat v q) = Unit
IsOther c w (expired v q) = Unit
IsOther c w (recovered self q) = Unit

-- Steps of all workers, without a dequeue by `w`.
pub data Without (c : Codec) (w : Text) (q : RedisQueue) : RedisQueue → Type 0 where
  here : Without c w q q
  next : {r s : RedisQueue} → Without c w q r → (st : Step c r s) → IsOther c w st → Without c w q s

module _ (c : Codec) (w : Text) where
  enqueue-nothing :
      (request : AnalysisRequest) (q : RedisQueue)
      → list_of w q.processing ≡ []
      → list_of w (enqueue c request q).1.processing ≡ []
  unfolding enqueue
  enqueue-nothing request q h = elim (Bool-cases (has request.run_id q.run_ids)) [
    | inl known ↦ rw known h
    | inr new ↦ rw new h
  ]

  -- What another worker's list becomes does not matter.
  set_list-nothing :
      (v : Text) (xs : List Text) (q : RedisQueue)
      → list_of w q.processing ≡ []
      → (text_eq v w ≡ true → xs ≡ [])
      → list_of w (set_list v xs q.processing) ≡ []
  set_list-nothing v xs q h own = elim (Bool-cases (text_eq v w)) [
    | inl same ↦ rw (list_of-set_list w v xs q.processing, same) (own same)
    | inr other ↦ rw (list_of-set_list w v xs q.processing, other) h
  ]

  dequeue-nothing :
      (v : Text) (q : RedisQueue)
      → v ≢ w
      → list_of w q.processing ≡ []
      → list_of w (dequeue c v q).1.processing ≡ []
  unfolding dequeue brpoplpush heartbeat
  dequeue-nothing v q ne h = elim (Option-cases (rpop q.pending)) [
    | inl e ↦ rw (e, brpoplpush) h
    | inr ((raw, left), e) ↦
        rw (e, brpoplpush)
          (set_list-nothing v (raw ∷ list_of v q.processing) q h
            (λ same. elim (ne (text_eq→≡ v w same)) [ ]))
  ]

  -- Nothing is removed of a list that is empty.
  lrem-nothing :
      (v raw : Text) (left : List Text) (q : RedisQueue)
      → list_of w q.processing ≡ []
      → lrem raw (list_of v q.processing) ≡ some left
      → text_eq v w ≡ true
      → left ≡ []
  unfolding lrem
  lrem-nothing v raw left q h e same =
      let own : list_of v q.processing ≡ [] =
        ap (λ x. list_of x q.processing) (text_eq→≡ v w same) ∙ h in
      let wrong : Path (Option (List Text)) none (some left) = rw own at e in cc wrong

  acknowledge-nothing :
      (v raw : Text) (q : RedisQueue)
      → list_of w q.processing ≡ []
      → list_of w (acknowledge c v (job_of c raw) q).processing ≡ []
  unfolding acknowledge
  acknowledge-nothing v raw q h = elim (Option-cases (lrem raw (list_of v q.processing))) [
    | inl e ↦ rw (e, acknowledge_script) h
    | inr (left, e) ↦
        rw (e, acknowledge_script) (set_list-nothing v left q h (lrem-nothing v raw left q h e))
  ]

  retry-nothing :
      (v raw : Text) (q : RedisQueue)
      → list_of w q.processing ≡ []
      → list_of w (retry c v (job_of c raw) q).processing ≡ []
  unfolding retry
  retry-nothing v raw q h = elim (Option-cases (lrem raw (list_of v q.processing))) [
    | inl e ↦ rw (e, retry_script) h
    | inr (left, e) ↦
        rw (e, retry_script) (set_list-nothing v left q h (lrem-nothing v raw left q h e))
  ]

  recover_script-nothing :
      (v : Text) (q : RedisQueue)
      → list_of w q.processing ≡ []
      → list_of w (recover_script v q).1.processing ≡ []
  unfolding recover_script
  recover_script-nothing v q h = elim (Bool-cases (member v q.leases)) [
    | inl alive ↦ rw alive h
    | inr dead ↦ rw dead (set_list-nothing v [] q h (λ same. refl))
  ]

  recover_each-nothing :
      (self : Text) (vs : List Text) (n : ℕ) (q : RedisQueue)
      → list_of w q.processing ≡ []
      → list_of w (recover_each self vs n q).1.processing ≡ []
  unfolding recover_each
  recover_each-nothing self [] n q h = h
  recover_each-nothing self (v ∷ vs) n q h = elim (Bool-cases (text_eq v self)) [
    | inl same ↦ rw same (recover_each-nothing self vs n q h)
    | inr other ↦ rw other (
        recover_each-nothing self vs (n + (recover_script v q).0) (recover_script v q).1
          (recover_script-nothing v q h))
  ]

  Step-nothing :
      {q r : RedisQueue} (st : Step c q r)
      → IsOther c w st
      → list_of w q.processing ≡ []
      → list_of w r.processing ≡ []
  unfolding heartbeat lease_expires recover_orphaned
  Step-nothing (enqueued request q) o h = enqueue-nothing request q h
  Step-nothing (dequeued v q) o h = dequeue-nothing v q o h
  Step-nothing (acknowledged v raw q) o h = acknowledge-nothing v raw q h
  Step-nothing (requeued v raw q) o h = retry-nothing v raw q h
  Step-nothing (beat v q) o h = h
  Step-nothing (expired v q) o h = h
  Step-nothing (recovered self q) o h = recover_each-nothing self q.workers 0 q h

  Without-nothing :
      {q r : RedisQueue}
      → Without c w q r
      → list_of w q.processing ≡ []
      → list_of w r.processing ≡ []
  Without-nothing here h = h
  Without-nothing (next steps st o) h = Step-nothing st o (Without-nothing steps h)

-- The recovery of a worker with no lease returns the number of its jobs and puts them in front of the
-- pending list in their order; then, whatever steps all workers take, as long as that worker dequeues
-- nothing, its acknowledgements and retries, of any job, change nothing.
pub recovery_fences :
    (other : Text) (q : RedisQueue) (c : Codec) (job : QueueJob) (later : RedisQueue)
    → member other q.leases ≡ false
    → Without c other (recover_script other q).1 later
    → let (n, q') = recover_script other q in
      (n ≡ length (list_of other q.processing))
      × (q'.pending ≡ list_of other q.processing ++ q.pending)
      × (acknowledge c other job later ≡ later)
      × (retry c other job later ≡ later)
recovery_fences other q c job later dead steps =
    let nothing = Without-nothing c other steps (recovered_list other q dead) in
    let (count, front) = recovered_jobs other q dead in
    (
      count,
      front,
      acknowledge_nothing c other job later nothing,
      retry_nothing c other job later nothing,
    )
