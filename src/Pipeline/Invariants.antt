-- ===== src/Pipeline/Invariants.antt =====
-- What the stages keep: an invariant of the state that every access to the store and every effect of
-- the pipeline keeps is kept by `_analyze`, whatever the services do.
use pipe_lens.Common.{
  ℕ, ◌≡◌, refl, Text, Bool, true, false, ◌&&◌, ◌||◌, Option, none, some, List, [], ◌∷◌, Bool-cases,
  inl, inr, if◌then◌else◌, arith, is_empty,
}
use pipe_lens.Common.Try.{Try, value, raise}
use pipe_lens.Models.{
  AnalysisStage, StageStatus, Classification, Diagnosis, RepositoryContext, RelatedFile,
  AnalysisRequest,
}
use pipe_lens.Llm.{LlmContext}
use pipe_lens.Store.{Changes}
use pipe_lens.Patching.Verify.{Tally}
use pipe_lens.Patching.Bumps.{VersionBump, find_version_bumps}
use pipe_lens.Pipeline.{
  Settings, Services, Effect, asked_model, checked, patch_outcome, Provider, Failure, failed, State,
  Step, ◌>>=◌, continue_with, return, emit, lift, save, note_stage, close_stage, with_stage,
}
use pipe_lens.Pipeline.Steps.{
  Collected, Sanitized, Diagnosed, is_trusted, fallback_context, gather, ask_model, answered,
  checked_answer, is_untrusted_fork,
}
use pipe_lens.Pipeline.Analyze.{
  collect, sanitize, classify, diagnose, publish, run_stages, attach_verified_patches, attach_bumps,
  attach, count_outcomes, patched, patch_files, publish_check, publish_body_to, publish_body,
}

-- What is done for a trusted run only: to ask the model, to write a check, to judge diffs.
abbrev pub sensitive : Effect → Bool
sensitive (asked_model c) = true
sensitive (checked summary body) = true
sensitive (patch_outcome verified) = true
sensitive _ = false

abbrev pub May : Bool → Effect → Type 0
May b e = sensitive e ≡ true → b ≡ true

plain : {b : Bool} → false ≡ true → b ≡ true
plain h = ground arith

module _ (I : State → Type 0) (Expected : Failure → Type 0) where
  -- How a step ends: with a value that `P` holds of, or with an expected exception.
  abbrev pub Meets : {A : Type 0} → (A → Type 0) → Try Failure A → Type 0
  Meets P (value a) = P a
  Meets P (raise e) = Expected e

  abbrev pub Good : {A : Type 0} → (A → Type 0) → Try Failure A × State → Type 0
  Good P (r, s) = I s × Meets P r

  pub record Safe {A : Type 0} (P : A → Type 0) (m : Step A) : Type 0 where
    pub keeps : (s : State) → I s → Good P (m s)

  abbrev pub Any : {A : Type 0} → A → Type 0
  Any a = Unit

  continue-Good :
      {A B : Type 0} (P : A → Type 0) (Q : B → Type 0) (k : A → Step B) (x : Try Failure A × State)
      → Good P x
      → ((a : A) → P a → Safe Q (k a))
      → Good Q (continue_with k x)
  continue-Good P Q k (value a, s) (i, p) safe = (safe a p).keeps s i
  continue-Good P Q k (raise e, s) (i, p) safe = (i, p)

  pub bind-Safe :
      {A B : Type 0} (P : A → Type 0) (Q : B → Type 0) (m : Step A) (k : A → Step B)
      → Safe P m
      → ((a : A) → P a → Safe Q (k a))
      → Safe Q (m >>= k)
  unfolding ◌>>=◌
  bind-Safe P Q m k safe later = record {
    keeps = λ s i. continue-Good P Q k (m s) (safe.keeps s i) later;
  }

  -- A step that does nothing but return.
  return-Safe : {A : Type 0} (P : A → Type 0) (a : A) → P a → Safe P (return a)
  unfolding return
  return-Safe P a p = record { keeps = λ s i. (i, p) }

  raise-Safe : {A : Type 0} (P : A → Type 0) (e : Failure) → Expected e → Safe P (λ s. (raise e, s))
  raise-Safe P e x = record { keeps = λ s i. (i, x) }

  if-Safe :
      {A : Type 0} (P : A → Type 0) (t : Bool) (x y : Step A)
      → Safe P x
      → Safe P y
      → Safe P (if t then x else y)
  if-Safe P true x y hx hy = hx
  if-Safe P false x y hx hy = hy

  module _ (env : Services) (r : AnalysisRequest) (token : Text)
      (note_ok : (st : AnalysisStage) (status : StageStatus) (error : Option Text)
        → Safe Any (note_stage env r.run_id token st status error)) where
    close-Good :
        {A : Type 0} (P : A → Type 0) (st : AnalysisStage) (x : Try Failure A × State)
        → Good P x
        → Good P (close_stage env r.run_id token st x)
    close-Good P st (value a, s) (i, p) =
        let safe =
          bind-Safe Any P (note_stage env r.run_id token st StageStatus.completed none)
            (λ _. return a) (note_ok st StageStatus.completed none) (λ _ _. return-Safe P a p) in
        safe.keeps s i
    close-Good P st (raise e, s) (i, p) =
        let safe =
          bind-Safe Any P (note_stage env r.run_id token st StageStatus.failed _)
            (λ _ s'. (raise e, s')) (note_ok st StageStatus.failed _) (λ _ _. raise-Safe P e p) in
        safe.keeps s i

    pub with_stage-Safe :
        {A : Type 0} (P : A → Type 0) (st : AnalysisStage) (body : Step A)
        → Safe P body
        → Safe P (with_stage env r.run_id token st body)
    unfolding with_stage
    with_stage-Safe P st body safe =
        bind-Safe Any P (note_stage env r.run_id token st StageStatus.started none)
          (λ _ s. close_stage env r.run_id token st (body s)) (note_ok st StageStatus.started none)
          (λ _ _. record { keeps = λ s i. close-Good P st (body s) (safe.keeps s i) })

    module _ (settings : Settings) (b : Bool) (emit_ok : (e : Effect) → May b e → Safe Any (emit e))
        (raise_ok : (message : Text) → Expected (failed message))
        (save_ok : (c : Changes) → Safe Any (save env r.run_id token c))
        (known : (t : Text)
          → is_trusted
              (fallback_context
                (env.repository_context r.repository r.run_id r.head_sha t)).trust_level
            ≡ true
          → b ≡ true) where
      abbrev Known : Collected → Type 0
      Known c = is_trusted c.context.trust_level ≡ true → b ≡ true

      lift-Safe : {A : Type 0} (x : Try Text A) → Safe Any (lift x)
      unfolding lift
      lift-Safe (value a) = record { keeps = λ s i. (i, tt) }
      lift-Safe (raise message) = record { keeps = λ s i. (i, raise_ok message) }

      collect-Safe : Safe Known (collect env settings r token)
      unfolding collect
      collect-Safe =
          bind-Safe Any Known (lift (env.installation_token r.installation_id)) _ (lift-Safe _)
            (λ t _.
              bind-Safe Any Known
                (lift (
                  gather env.logs_fail_first (env.failed_jobs r.repository r.run_id t)
                    (env.download_logs r.repository r.run_id t)))
                _ (lift-Safe _)
                (λ jobs_logs _.
                  bind-Safe Any Known (save env r.run_id token _) _ (save_ok _) (λ _ _.
                    bind-Safe Any Known (emit _) _ (emit_ok _ plain)
                      (λ _ _. return-Safe Known _ (known t)))))

      sanitize-Safe : (c : Collected) → Safe Any (sanitize env settings r token c)
      unfolding sanitize
      sanitize-Safe c = bind-Safe Any Any (emit _) _ (emit_ok _ plain) (λ _ _. return-Safe Any _ tt)

      classify-Safe : (x : Sanitized) → Safe Any (classify env settings r token x)
      unfolding classify
      classify-Safe x = bind-Safe Any Any (emit _) _ (emit_ok _ plain) (λ _ _. return-Safe Any _ tt)

      answered-Safe :
          (p : Provider) (d : Diagnosis) (o : Option Diagnosis) → Safe Any (answered p d o)
      answered-Safe p d (some d') =
          bind-Safe Any Any (emit _) _ (emit_ok _ plain) (λ _ _. return-Safe Any _ tt)
      answered-Safe p d none =
          bind-Safe Any Any (emit _) _ (emit_ok _ plain) (λ _ _. return-Safe Any _ tt)

      ask_model-Safe :
          (p : Option Provider) (trusted : Bool) (c : LlmContext) (d : Diagnosis)
          → (trusted ≡ true → b ≡ true)
          → Safe Any (ask_model p trusted c d)
      unfolding ask_model
      ask_model-Safe none trusted c d h = return-Safe Any _ tt
      ask_model-Safe (some p) false c d h = return-Safe Any _ tt
      ask_model-Safe (some p) true c d h =
          bind-Safe Any Any (emit (asked_model c)) _ (emit_ok _ (λ _. h refl))
            (λ _ _. answered-Safe p d (checked_answer c (p.ask c)))

      count_outcomes-Safe :
          b ≡ true
          → (ts : List (Tally env.unicode env.parsers))
          → Safe Any (count_outcomes env settings r token ts)
      unfolding count_outcomes
      count_outcomes-Safe h [] = return-Safe Any _ tt
      count_outcomes-Safe h (x ∷ ts) =
          bind-Safe Any Any (emit _) _ (emit_ok _ (λ _. h)) (λ _ _. count_outcomes-Safe h ts)

      attach-Safe :
          b ≡ true
          → (o : Option (Diagnosis × List (Tally env.unicode env.parsers)))
          → Safe Any (attach env settings r token o)
      attach-Safe h none = lift-Safe (raise env.patch_error)
      attach-Safe h (some (d, ts)) =
          bind-Safe Any Any (count_outcomes env settings r token ts) _ (count_outcomes-Safe h ts)
            (λ _ _. return-Safe Any _ tt)

      attach_bumps-Safe :
          b ≡ true
          → (t : Text) (d : Diagnosis) (log : Text) (related : List RelatedFile)
            (c : RepositoryContext) (o : Option (List VersionBump))
          → Safe Any (attach_bumps env settings r token t d log related c o)
      attach_bumps-Safe h t d log related c none = lift-Safe (raise _)
      attach_bumps-Safe h t d log related c (some bumps) =
          if-Safe Any (is_empty bumps && is_empty (patch_files d.suggestions)) _ _
            (return-Safe Any _ tt) (attach-Safe h _)

      patched-Safe :
          (trusted : Bool) (t log : Text) (related : List RelatedFile) (c : RepositoryContext)
          (d : Diagnosed)
          → (trusted ≡ true → b ≡ true)
          → Safe Any (patched env settings r token trusted t log related c d)
      unfolding attach_verified_patches
      patched-Safe true t log related c d h =
          bind-Safe Any Any _ _
            (attach_bumps-Safe (h refl) t d.diagnosis log related c
              (find_version_bumps env.unicode log))
            (λ _ _. return-Safe Any _ tt)
      patched-Safe false t log related c d h = return-Safe Any _ tt

      diagnose-Safe :
          (c : Collected) (x : Sanitized) (cl : Classification) (related : List RelatedFile)
          → Known c
          → Safe Any (diagnose env settings r token c x cl related)
      unfolding diagnose
      diagnose-Safe c x cl related h =
          bind-Safe Any Any (ask_model env.provider (is_trusted c.context.trust_level) _ _) _
            (ask_model-Safe env.provider (is_trusted c.context.trust_level) _ _ h)
            (λ d _.
              bind-Safe Any Any
                (patched env settings r token (is_trusted c.context.trust_level) c.access_token
                  x.log related c.context d)
                _
                (patched-Safe (is_trusted c.context.trust_level) c.access_token x.log related
                  c.context d h)
                (λ _ _. return-Safe Any _ tt))

      publish_check-Safe :
          (c : Collected) (d : Diagnosis) (body : Text)
          → Known c
          → Safe Any (publish_check env settings r token c d body)
      publish_check-Safe c d body h = elim (Bool-cases (is_trusted c.context.trust_level)) [
        | inl yes_ ↦ rw yes_ (
            bind-Safe Any Any (emit (checked d.summary body)) _ (emit_ok _ (λ _. h yes_))
              (λ _ _. lift-Safe _))
        | inr off ↦ rw off (return-Safe Any _ tt)
      ]

      publish_body_to-Safe :
          (c : Collected) (d : Diagnosis) (body : Text) (pr : Option ℕ)
          → Known c
          → Safe Any (publish_body_to env settings r token c d body pr)
      publish_body_to-Safe c d body none h = publish_check-Safe c d body h
      publish_body_to-Safe c d body (some n) h =
          if-Safe Any (is_trusted c.context.trust_level || is_untrusted_fork c.context.trust_level)
            _ _ (bind-Safe Any Any (emit _) _ (emit_ok _ plain) (λ _ _. lift-Safe _))
            (publish_check-Safe c d body h)

      publish-Safe :
          (c : Collected) (cl : Classification) (d : Diagnosis) (related : List RelatedFile)
          → Known c
          → Safe Any (publish env settings r token c cl d related)
      unfolding publish
      publish-Safe c cl d related h =
          if-Safe Any settings.publish_checks _ _
            (publish_body_to-Safe c d (publish_body env settings r token c cl d related)
              c.context.pull_request_number h)
            (return-Safe Any _ tt)

      pub run_stages-Safe : Safe Any (run_stages env settings r token)
      unfolding run_stages
      run_stages-Safe =
          bind-Safe Known Any _ _ (with_stage-Safe Known AnalysisStage.collecting _ collect-Safe)
            (λ c h.
              bind-Safe Any Any _ _
                (with_stage-Safe Any AnalysisStage.sanitizing _ (sanitize-Safe c))
                (λ x _.
                  bind-Safe Any Any _ _
                    (with_stage-Safe Any AnalysisStage.classifying _ (classify-Safe x))
                    (λ cl _.
                      bind-Safe Any Any _ _
                        (with_stage-Safe Any AnalysisStage.correlating _ (return-Safe Any _ tt))
                        (λ related _.
                          bind-Safe Any Any _ _
                            (with_stage-Safe Any AnalysisStage.diagnosing _
                              (diagnose-Safe c x cl related h))
                            (λ d _. bind-Safe Any Any _ _ (save_ok _) (λ _ _.
                              with_stage-Safe Any AnalysisStage.publishing _
                                (publish-Safe c cl d.diagnosis related h)))))))
