-- ===== src/Pipeline/Trust.antt =====
-- What a run that is not trusted never causes.
use pipe_lens.Common.{
  ℕ, ◌≡◌, refl, Text, Bool, false, Option, some, List, All, Bool-cases, inl, inr, arith,
}
use pipe_lens.Common.Try.{Try, value, raise}
use pipe_lens.Models.{AnalysisStatus, AnalysisStage, StageStatus, AnalysisRequest}
use pipe_lens.Store.{
  Store, Result, ok, err, AnalysisStart, Changes, begin_analysis, finish_analysis, record_stage,
  update_analysis,
}
use pipe_lens.Pipeline.{
  Settings, Services, Effect, Failure, attempt_superseded, failed, State, emit, accessed, access,
  save, note_stage, begin_attempt, finish_attempt,
}
use pipe_lens.Pipeline.Steps.{is_trusted, fallback_context}
use pipe_lens.Pipeline.Analyze.{
  run_stages, analyze, begun, settle, after_failure, after_success, observe_start,
}
use pipe_lens.Pipeline.Invariants.{sensitive, May, Safe, Any, Good, run_stages-Safe}

-- The model was not asked, no check was written and no diff was judged.
abbrev pub Harmless : List Effect → Type 0
Harmless = All (λ e. sensitive e ≡ false)

abbrev Quiet : State → Type 0
Quiet s = Harmless s.effects

abbrev Whatever : Failure → Type 0
Whatever e = Unit

module _ (env : Services) (run_id : ℕ) (token : Text) where
  accessed-Good :
      {A : Type 0} (s : State) (x : Result A × Store)
      → Quiet s
      → Good Quiet Whatever (Any Quiet Whatever) (accessed env run_id token s x)
  accessed-Good s (ok a, st) h = (h, tt)
  accessed-Good s (err e, st) h = (h, tt)

  access-Safe :
      {A : Type 0} (call : ℕ → Store → Result A × Store)
      → Safe Quiet Whatever (Any Quiet Whatever) (access env run_id token call)
  unfolding access
  access-Safe call = record {
    keeps = λ s h. accessed-Good s (call (env.now s.accesses) (env.others s.accesses s.store)) h;
  }

module _ (env : Services) (settings : Settings) (r : AnalysisRequest) (token : Text) where
  note_stage-Safe :
      (st : AnalysisStage) (status : StageStatus) (error : Option Text)
      → Safe Quiet Whatever (Any Quiet Whatever) (note_stage env r.run_id token st status error)
  unfolding note_stage
  note_stage-Safe st status error =
      access-Safe env r.run_id token (λ now. record_stage now r.run_id st status error (some token))

  save-Safe : (c : Changes) → Safe Quiet Whatever (Any Quiet Whatever) (save env r.run_id token c)
  unfolding save
  save-Safe c =
      access-Safe env r.run_id token
        (λ now. update_analysis now r.run_id AnalysisStatus.running c (some token))

  emit-Safe : (e : Effect) → May false e → Safe Quiet Whatever (Any Quiet Whatever) (emit e)
  unfolding emit
  emit-Safe e may = record {
    keeps = λ s h. (
      (elim (Bool-cases (sensitive e)) [ inl bad ↦ ground (arith, may bad) | inr fine ↦ fine ], h),
      tt,
    );
  }

  -- The trust level that GitHub's answer gives the run.
  abbrev pub trusts : Text → Bool
  trusts t =
      is_trusted
        (fallback_context (env.repository_context r.repository r.run_id r.head_sha t)).trust_level

  module _ (untrusted : (t : Text) → trusts t ≡ false) where
    stages-Safe : Safe Quiet Whatever (Any Quiet Whatever) (run_stages env settings r token)
    stages-Safe =
        run_stages-Safe Quiet Whatever env r token note_stage-Safe settings false emit-Safe
          (λ m. tt) save-Safe (λ t h. ground (arith, untrusted t, h))

    after_failure-Quiet :
        (message : Text) (x : Try Failure ℕ × State)
        → Quiet x.1
        → Quiet (after_failure env settings r token message x).1
    after_failure-Quiet message (value n, s) h = (refl, h)
    after_failure-Quiet message (raise e, s) h = (refl, h)

    after_success-Quiet :
        (x : Try Failure ℕ × State) → Quiet x.1 → Quiet (after_success env settings r token x).1
    after_success-Quiet (value n, s) h = (refl, (refl, (refl, h)))
    after_success-Quiet (raise e, s) h = (refl, h)

    finish-Quiet :
        (started_at : ℕ) (status : AnalysisStatus) (s : State)
        → Quiet s
        → Quiet (finish_attempt env r.run_id token started_at status s).1
    unfolding finish_attempt
    finish-Quiet started_at status s h =
        let safe =
          access-Safe env r.run_id token
            (λ now. finish_analysis now r.run_id started_at status (some token)) in
        (safe.keeps s h).0

    settle-Quiet :
        (started_at : ℕ) (x : Try Failure (Unit {0}) × State)
        → Quiet x.1
        → Quiet (settle env settings r token started_at x).1
    settle-Quiet started_at (raise attempt_superseded, s) h = (refl, h)
    settle-Quiet started_at (raise (failed m), s) h =
        after_failure-Quiet m _ (finish-Quiet started_at AnalysisStatus.failed s h)
    settle-Quiet started_at (value u, s) h =
        after_success-Quiet _ (finish-Quiet started_at AnalysisStatus.completed s h)

    observe_start-Quiet :
        (start : AnalysisStart) (s : State)
        → Quiet s
        → Quiet (observe_start env settings r token start s)
    observe_start-Quiet start s h = elim (Bool-cases start.first_start) [
      | inl first ↦ rw first (refl, (refl, h))
      | inr again ↦ rw again h
    ]

    begun-Quiet :
        (x : Try Failure AnalysisStart × State) → Quiet x.1 → Quiet (begun env settings r token x).1
    begun-Quiet (raise e, s) h = (refl, h)
    begun-Quiet (value start, s) h =
        settle-Quiet start.attempt_started_at
          (run_stages env settings r token (observe_start env settings r token start s))
          (stages-Safe.keeps _ (observe_start-Quiet start s h)).0

    -- When GitHub does not confirm that a run is trusted, be it a fork, an unverified run or an error,
    -- `analyze` never asks the model, writes no check and judges no diff, however it ends, and whatever
    -- the services answer and other workers do to the store.
    pub untrusted_is_not_sent :
        (s : State) → Harmless s.effects → Harmless (analyze env settings r token s).1.effects
    unfolding analyze begin_attempt
    untrusted_is_not_sent s h =
        let safe =
          access-Safe env r.run_id token (λ now. begin_analysis now r.run_id (some token)) in
        begun-Quiet _ (safe.keeps s h).0
