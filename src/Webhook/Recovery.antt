-- ===== src/Webhook/Recovery.antt =====
-- No stored run is forgotten: what the webhook stores, and what a restart finds, has its job.
use pipe_lens.Common.{
  ℕ, ◌+◌, ltb, &&-true, ◌≡◌, refl, sym, ◌∙◌, Text, Bool, true, false, ◌&&◌, ◌||◌, Option, none,
  some, List, [], ◌∷◌, ◌++◌, arith, is_some, Bool-cases, Option-cases, inl, inr, All, All-weaker,
  ==_refl,
}
use pipe_lens.Common.Sets.{has, has-add}
use pipe_lens.Models.{Analysis, AnalysisRequest}
use pipe_lens.Table.{select, first, order_by}
use pipe_lens.Table.Rows.{first-append}
use pipe_lens.Common.{text_eq}
use pipe_lens.Store.{inserted_row}
use pipe_lens.Table.Order.{order_by-All}
use pipe_lens.Store.{Store, run_key, create_if_absent}
use pipe_lens.Store.Reads.{is_queued, requests_of, queued_requests}
use pipe_lens.Queue.{QueueJob}
use pipe_lens.Queue.Memory.{MemoryQueue, enqueue}
use pipe_lens.Queue.Memory.Runs.{
  World, Reach, next, enqueued, start, waiting, working, one_job_per_run,
}
use pipe_lens.Webhook.{Body, enqueue_all, reconcile_queued_analyses, on_failure, enqueue_existing}

-- The run is in the set of run ids.
abbrev Known : MemoryQueue → ℕ → Type 0
Known q run_id = has run_id q.run_ids ≡ true

-- The queue with the jobs that its workers have taken.
abbrev pub world : List QueueJob → MemoryQueue → World
world js q = record { queue = q; at_work = js }

-- Exactly one job of the run is waiting in the queue or at work.
abbrev pub InQueue : List QueueJob → MemoryQueue → ℕ → Type 0
InQueue js q run_id = waiting run_id q.queue + working run_id js ≡ 1

Known-InQueue :
    (js : List QueueJob) (q : MemoryQueue) (n : ℕ)
    → Reach start (world js q)
    → Known q n
    → InQueue js q n
Known-InQueue js q n reach known = one_job_per_run n (world js q) reach ∙ rw known refl

enqueue-Known : (r : AnalysisRequest) (q : MemoryQueue) → Known (enqueue r q).1 r.run_id
unfolding enqueue
enqueue-Known r q = elim (Bool-cases (has r.run_id q.run_ids)) [
  | inl there ↦ rw there there
  | inr absent ↦ rw absent (rw (has-add r.run_id r.run_id q.run_ids, ==_refl r.run_id) refl)
]

enqueue_keeps :
    (r : AnalysisRequest) (q : MemoryQueue) (n : ℕ) → Known q n → Known (enqueue r q).1 n
unfolding enqueue
enqueue_keeps r q n h = elim (Bool-cases (has r.run_id q.run_ids)) [
  | inl there ↦ rw there h
  | inr absent ↦ rw absent (ground (arith, has-add r.run_id n q.run_ids, h))
]

enqueue_all_keeps :
    (rs : List AnalysisRequest) (q : MemoryQueue) (n : ℕ)
    → Known q n
    → Known (enqueue_all enqueue rs q).1 n
unfolding enqueue_all
enqueue_all_keeps [] q n h = h
enqueue_all_keeps (r ∷ rs) q n h = enqueue_all_keeps rs (enqueue r q).1 n (enqueue_keeps r q n h)

enqueue_all-Known :
    (rs : List AnalysisRequest) (q : MemoryQueue)
    → All (λ (r : AnalysisRequest). Known (enqueue_all enqueue rs q).1 r.run_id) rs
unfolding enqueue_all
enqueue_all-Known [] q = tt
enqueue_all-Known (r ∷ rs) q = (
  enqueue_all_keeps rs (enqueue r q).1 r.run_id (enqueue-Known r q),
  enqueue_all-Known rs (enqueue r q).1,
)

enqueue_all-Reach :
    (js : List QueueJob) (rs : List AnalysisRequest) (q : MemoryQueue)
    → Reach start (world js q)
    → Reach start (world js (enqueue_all enqueue rs q).1)
unfolding enqueue_all
enqueue_all-Reach js [] q reach = reach
enqueue_all-Reach js (r ∷ rs) q reach =
    enqueue_all-Reach js rs (enqueue r q).1 (next reach (enqueued r (world js q)))

abbrev pub is_reconciled : Analysis → Bool
is_reconciled r = is_queued r.status && is_some r.installation_id

module _ (P : ℕ → Type 0) where
  -- What holds of the requests holds of the rows that they are made of.
  requests_of-All :
      (rs : List Analysis)
      → All (λ (r : AnalysisRequest). P r.run_id) (requests_of rs)
      → All (λ (r : Analysis). is_some r.installation_id ≡ true → P r.run_id) rs
  unfolding requests_of
  requests_of-All [] h = tt
  requests_of-All (r ∷ rs) h = elim (Option-cases r.installation_id) [
    | inl e ↦
        let rest = rw (requests_of, e) at h in
        ((λ some_. ground (arith, some_, e)), requests_of-All rs rest)
    | inr (i, e) ↦
        let both : P r.run_id × All (λ (r : AnalysisRequest). P r.run_id) (requests_of rs) =
          rw (requests_of, e) at h in
        ((λ _. both.0), requests_of-All rs both.1)
  ]

  select-All :
      (p : Analysis → Bool) (Q : Analysis → Type 0) (rs : List Analysis)
      → All Q (select p rs)
      → All (λ r. p r ≡ true → Q r) rs
  unfolding select
  select-All p Q [] h = tt
  select-All p Q (r ∷ rs) h = elim (Bool-cases (p r)) [
    | inl on ↦
        let both : Q r × All Q (select p rs) = rw on at h in
        ((λ _. both.0), select-All p Q rs both.1)
    | inr off ↦
        let rest : All Q (select p rs) = rw off at h in
        ((λ yes_. ground (arith, off, yes_)), select-All p Q rs rest)
  ]

-- What `reconcile_queued_analyses` leaves for a row.
abbrev pub Reconciled : List QueueJob → MemoryQueue → Analysis → Type 0
Reconciled js q r = is_reconciled r ≡ true → InQueue js q r.run_id

-- From every reachable state of the in-memory queue, also with jobs that workers have taken, after
-- `reconcile_queued_analyses` each stored run that is queued and has an installation has exactly one
-- job that is waiting in the queue or at work.
pub reconcile_queued_analyses-Reconciled :
    (s : Store) (q : MemoryQueue) (js : List QueueJob)
    → Reach start (world js q)
    → All (Reconciled js (reconcile_queued_analyses enqueue s q).1) s.analyses
unfolding reconcile_queued_analyses queued_requests
reconcile_queued_analyses-Reconciled s q js reach =
    let before = λ (x : Analysis) (y : Analysis). ltb x.created_at y.created_at in
    let chosen = select is_reconciled s.analyses in
    let requests = requests_of (order_by before chosen) in
    let q' = (enqueue_all enqueue requests q).1 in
    let Row = λ (r : Analysis). is_some r.installation_id ≡ true → Known q' r.run_id in
    let in_order =
      requests_of-All (Known q') (order_by before chosen) (enqueue_all-Known requests q) in
    let in_rows =
      select-All (Known q') is_reconciled Row s.analyses
        (order_by-All before Row chosen in_order) in
    All-weaker (λ r. is_reconciled r ≡ true → Row r) (Reconciled js q')
      (λ r h on.
        Known-InQueue js q' r.run_id (enqueue_all-Reach js requests q reach)
          (h on (&&-true (is_queued r.status) (is_some r.installation_id) on).1))
      s.analyses in_rows

module _ (p q : Analysis → Bool) where
  first_either :
      (rows : List Analysis)
      → first p rows ≡ none
      → is_some (first (λ x. p x || q x) rows) ≡ is_some (first q rows)
  unfolding first
  first_either [] h = refl
  first_either (x ∷ rows) h = elim (Bool-cases (p x)) [
    | inl on ↦ cc (rw on at h)
    | inr off ↦
        let ih = first_either rows (rw off at h) in
        elim (Bool-cases (q x)) [ inl yes_ ↦ rw (off, yes_) refl | inr not_ ↦ rw (off, not_) ih ]
  ]

  first_neither :
      (rows : List Analysis) → is_some (first (λ x. p x || q x) rows) ≡ false → first p rows ≡ none
  unfolding first
  first_neither [] h = refl
  first_neither (x ∷ rows) h = elim (Bool-cases (p x)) [
    | inl on ↦ cc (rw on at h)
    | inr off ↦ elim (Bool-cases (q x)) [
      | inl yes_ ↦ cc (rw (off, yes_) at h)
      | inr not_ ↦ rw off (first_neither rows (rw (off, not_) at h))
    ]
  ]

-- The queue of one process never raises.
abbrev pub put : AnalysisRequest → MemoryQueue → Option (Bool × MemoryQueue)
put r q = some (enqueue r q)

module _ (hexdigest : Text → Text → Text) (nulls_first : Bool) (parse : Text → Body)
    (secret : Text) where
  module _ (js : List QueueJob) where
    -- A row that is queued and has an installation has its one job.
    abbrev pub Enqueued : MemoryQueue → Option Analysis → Type 0
    Enqueued q none = Unit
    Enqueued q (some e) = Reconciled js q e

    enqueue_existing-Enqueued :
        (created : Bool) (s : Store) (q : MemoryQueue) (o : Option Analysis)
        → Reach start (world js q)
        → let (a, s', q') = enqueue_existing hexdigest put nulls_first parse secret created s q o in
          (a.status_code ≡ 202) × (s' ≡ s) × Enqueued q' o
    enqueue_existing-Enqueued created s q none reach = (refl, refl, tt)
    enqueue_existing-Enqueued created s q (some e) reach = elim (Bool-cases (is_queued e.status)) [
      | inr off ↦ rw off (refl, refl, (λ h. ground (arith, h, off)))
      | inl on ↦ elim (Option-cases e.installation_id) [
        | inl gone ↦ rw (on, gone) (refl, refl, (λ h. ground (arith, h)))
        | inr (i, found) ↦
            let request : AnalysisRequest = record {
              run_id = e.run_id;
              repository = e.repository;
              installation_id = i;
              head_sha = e.head_sha;
            } in
            let job =
              Known-InQueue js (enqueue request q).1 e.run_id
                (next reach (enqueued request (world js q))) (enqueue-Known request q) in
            rw (on, found) (refl, refl, (λ h. job))
      ]
    ]

    -- The row of the run has its one job; where no row is stored of it, another run of the same
    -- delivery was stored before.
    abbrev pub HasJob : Text → Store → MemoryQueue → Option Analysis → Type 0
    HasJob delivery s q none =
        is_some (first (λ (x : Analysis). text_eq x.delivery_id delivery) s.analyses) ≡ true
    HasJob delivery s q (some e) = Reconciled js q e

    known-HasJob :
        (r : Analysis) (s : Store) (q : MemoryQueue)
        → is_some
            (first (λ x. run_key r.run_id x || text_eq x.delivery_id r.delivery_id) s.analyses)
          ≡ true
        → Enqueued q (first (run_key r.run_id) s.analyses)
        → HasJob r.delivery_id s q (first (run_key r.run_id) s.analyses)
    known-HasJob r s q known h = elim (Option-cases (first (run_key r.run_id) s.analyses)) [
      | inl gone ↦ rw gone (
          sym (
            first_either (run_key r.run_id) (λ x. text_eq x.delivery_id r.delivery_id) s.analyses
              gone)
          ∙ known)
      | inr (e, found) ↦ rw found (rw found at h)
    ]

    -- When the webhook takes a failed run that has an installation, and the in-memory queue is in a
    -- reachable state, it answers 202, and the row that is then stored of the run, whether it was
    -- stored now or before, has exactly one job waiting in the queue or at work, unless the row is not
    -- queued any more or has no installation; a row is stored of the run, unless one of the same
    -- delivery was stored of another run before.
    pub on_failure-Enqueued :
        (r : Analysis) (s : Store) (q : MemoryQueue)
        → is_reconciled r ≡ true
        → Reach start (world js q)
        → let (a, s', q') = on_failure hexdigest put nulls_first parse secret r s q in
          (a.status_code ≡ 202) × HasJob r.delivery_id s q' (first (run_key r.run_id) s'.analyses)
    unfolding on_failure create_if_absent
    on_failure-Enqueued r s q ready reach =
        elim (Bool-cases (
          is_some
            (first (λ x. run_key r.run_id x || text_eq x.delivery_id r.delivery_id) s.analyses))) [
              | inl known ↦
                  let q' =
                    (enqueue_existing hexdigest put nulls_first parse secret false s q
                      (first (run_key r.run_id) s.analyses)).2 in
                  let (ok_, same, enqueued_) =
                    enqueue_existing-Enqueued false s q (first (run_key r.run_id) s.analyses)
                      reach in
                  rw known (ok_, rw same (known-HasJob r s q' known enqueued_))
              | inr new ↦
                  let row = inserted_row r in
                  let s' : Store = record s { analyses = s.analyses ++ row ∷ [] } in
                  let (ok_, same, enqueued_) = enqueue_existing-Enqueued true s' q (some r) reach in
                  let absent =
                    first_neither (run_key r.run_id) (λ x. text_eq x.delivery_id r.delivery_id)
                      s.analyses new in
                  let here_ : first (run_key r.run_id) (row ∷ []) ≡ some row =
                    unfold first in rw (==_refl r.run_id) refl in
                  let found : first (run_key r.run_id) s'.analyses ≡ some row =
                    first-append (run_key r.run_id) s.analyses (row ∷ []) absent ∙ here_ in
                  rw new (ok_, rw same (rw found (λ on. enqueued_ ready)))
            ]
