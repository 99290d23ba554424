-- ===== src/Pipeline/Ends.antt =====
-- How an attempt leaves its run, when no other worker writes in between.
use pipe_lens.Common.{
  ℕ, suc, ◌≡◌, ◌≢◌, refl, Text, true, Option, none, some, Bool-cases, Option-cases, inl, inr, arith,
  subst,
}
use pipe_lens.Common.Try.{Try, value, raise}
use pipe_lens.Models.{AnalysisStatus, AnalysisStage, StageStatus, Analysis, AnalysisRequest}
use pipe_lens.Table.{first}
use pipe_lens.Store.{
  Store, Result, ok, err, run_key, is_startable, AnalysisStart, started_row, finished_row, Changes,
  start_of, queue_wait, begun as begun_store,
}
use pipe_lens.Store.Fencing.{IsValid, begin_ok, begun_row, begin_analysis-IsValid}
use pipe_lens.Store.Lifecycle.{finish_ok, ended_row}
use pipe_lens.Store.Holding.{Held, Kept, record_stage-Kept, update_analysis-Kept}
use pipe_lens.Pipeline.{
  Settings, Services, Effect, Failure, attempt_superseded, failed, State, emit, accessed, save,
  note_stage, begin_attempt, finish_attempt,
}
use pipe_lens.Pipeline.Analyze.{
  run_stages, analyze, begun, settle, after_failure, after_success, Ending, returned, raised,
  observe_start,
}
use pipe_lens.Pipeline.Invariants.{May, Safe, Any, Good, run_stages-Safe}

-- The run at the end of an attempt: a returned one has completed it, a raised one has marked it as
-- failed, and in both cases nobody holds it.
abbrev pub IsEnded : Ending → Option Analysis → Type 0
IsEnded ending none = ⊥
IsEnded returned (some a) = (a.status ≡ AnalysisStatus.completed) × (a.attempt_token ≡ none)
IsEnded (raised m) (some a) = (a.status ≡ AnalysisStatus.failed) × (a.attempt_token ≡ none)

abbrev Unexpected : Failure → Type 0
Unexpected e = e ≢ attempt_superseded

module _ (env : Services) (settings : Settings) (r : AnalysisRequest) (token : Text)
    (alone : (n : ℕ) (st : Store) → env.others n st ≡ st) where
  abbrev Holding : State → Type 0
  Holding s = Held r.run_id token s.store

  abbrev row : Store → Option Analysis
  row st = first (run_key r.run_id) st.analyses

  Kept-Good :
      {A : Type 0} (s : State) (x : Result A × Store)
      → Kept r.run_id token x
      → Good Holding Unexpected (Any Holding Unexpected) (accessed env r.run_id token s x)
  Kept-Good s (ok a, st) h = (h, tt)
  Kept-Good s (err e, st) h = elim h [ ]

  note_stage-Safe :
      (st : AnalysisStage) (status : StageStatus) (error : Option Text)
      → Safe Holding Unexpected
          (Any Holding Unexpected)
          (note_stage env r.run_id token st status error)
  unfolding note_stage
  note_stage-Safe st status error = record {
    keeps = λ s h. Kept-Good s _ (
        rw (alone s.accesses s.store)
          (record_stage-Kept r.run_id token s.store h (env.now s.accesses) st status error));
  }

  save-Safe :
      (c : Changes) → Safe Holding Unexpected (Any Holding Unexpected) (save env r.run_id token c)
  unfolding save
  save-Safe c = record {
    keeps = λ s h. Kept-Good s _ (
        rw (alone s.accesses s.store) (
          update_analysis-Kept r.run_id token s.store h (env.now s.accesses) AnalysisStatus.running
            c));
  }

  emit-Safe : (e : Effect) → May true e → Safe Holding Unexpected (Any Holding Unexpected) (emit e)
  unfolding emit
  emit-Safe e may = record { keeps = λ s h. (h, tt) }

  stages-Safe : Safe Holding Unexpected (Any Holding Unexpected) (run_stages env settings r token)
  stages-Safe =
      run_stages-Safe Holding Unexpected env r token note_stage-Safe settings true emit-Safe
        (λ m e. ground (arith, e)) save-Safe (λ t h. refl)

  -- `finish_analysis` with the token that holds the run.
  abbrev Finished : AnalysisStatus → Try Failure ℕ × State → Type 0
  Finished status (value n, s) =
      (a : Analysis) × (row s.store ≡ some a) × (a.status ≡ status) × (a.attempt_token ≡ none)
  Finished status (raise e, s) = ⊥

  finish-Finished :
      (started_at : ℕ) (status : AnalysisStatus) (s : State)
      → Holding s
      → Finished status (finish_attempt env r.run_id token started_at status s)
  unfolding finish_attempt finished_row
  finish-Finished started_at status s (valid, held) = elim (Option-cases (row s.store)) [
    | inl gone ↦ ground (arith, held, gone)
    | inr (a, found) ↦
        let token_held : a.attempt_token ≡ some token = rw found at held in
        rw
          (
            alone s.accesses s.store,
            finish_ok (env.now s.accesses) r.run_id token s.store valid started_at status a found
                token_held,
          )
          (
            _,
            ended_row (env.now s.accesses) r.run_id token s.store valid started_at status a found
                token_held,
            refl,
            refl,
          )
  ]

  after_failure-IsEnded :
      (m : Text) (x : Try Failure ℕ × State)
      → Finished AnalysisStatus.failed x
      → let (ending, s) = after_failure env settings r token m x in IsEnded ending (row s.store)
  after_failure-IsEnded m (raise e, s) h = elim h [ ]
  after_failure-IsEnded m (value n, s) (a, found, status, free) = rw found (status, free)

  after_success-IsEnded :
      (x : Try Failure ℕ × State)
      → Finished AnalysisStatus.completed x
      → let (ending, s) = after_success env settings r token x in IsEnded ending (row s.store)
  after_success-IsEnded (raise e, s) h = elim h [ ]
  after_success-IsEnded (value n, s) (a, found, status, free) = rw found (status, free)

  settle-IsEnded :
      (started_at : ℕ) (x : Try Failure (Unit {0}) × State)
      → Good Holding Unexpected (Any Holding Unexpected) x
      → let (ending, s) = settle env settings r token started_at x in IsEnded ending (row s.store)
  settle-IsEnded started_at (raise attempt_superseded, s) (h, ne) = elim (ne refl) [ ]
  settle-IsEnded started_at (raise (failed m), s) (h, ne) =
      after_failure-IsEnded m _ (finish-Finished started_at AnalysisStatus.failed s h)
  settle-IsEnded started_at (value u, s) (h, ok_) =
      after_success-IsEnded _ (finish-Finished started_at AnalysisStatus.completed s h)

  observe_start-Holding :
      (start : AnalysisStart) (s : State)
      → Holding s
      → Holding (observe_start env settings r token start s)
  observe_start-Holding start s h = elim (Bool-cases start.first_start) [
    | inl first_ ↦ rw first_ h
    | inr again ↦ rw again h
  ]

  begun_value-IsEnded :
      (start : AnalysisStart) (s : State)
      → Holding s
      → let (ending, s') = begun env settings r token (value start, s) in
        IsEnded ending (row s'.store)
  begun_value-IsEnded start s h =
      settle-IsEnded start.attempt_started_at
        (run_stages env settings r token (observe_start env settings r token start s))
        (stages-Safe.keeps _ (observe_start-Holding start s h))

  -- When no other worker writes in between, an attempt of a stored run that is queued or running
  -- ends it, whatever GitHub and the model answer: `analyze` returns and the run is completed, or it
  -- raises and the run is failed, and in both cases the run has no token any more.
  pub analyze-IsEnded :
      (s : State) (a : Analysis)
      → IsValid s.store
      → first (run_key r.run_id) s.store.analyses ≡ some a
      → is_startable a.status ≡ true
      → let (ending, s') = analyze env settings r token s in IsEnded ending (row s'.store)
  unfolding analyze begin_attempt
  analyze-IsEnded s a valid found startable =
      let now = env.now s.accesses in
      let e = begin_ok now r.run_id token s.store valid a found startable in
      let held =
        subst {A = Result AnalysisStart × Store} (λ x. Held r.run_id token x.1) e
          (
            begin_analysis-IsValid now r.run_id token s.store valid,
            rw (begun_row now r.run_id token s.store valid a found startable)
                (unfold started_row in refl),
          ) in
      rw (alone s.accesses s.store, e)
        (begun_value-IsEnded (start_of now a)
          (record s {
            store = begun_store now r.run_id (some token) (queue_wait now a) s.store;
            accesses = suc s.accesses;
          })
          held)
