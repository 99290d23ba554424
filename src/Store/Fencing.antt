-- ===== src/Store/Fencing.antt =====
-- The fencing token of an attempt: an older attempt can write nothing once a newer one has begun.
use pipe_lens.Common.{
  ℕ, ◌+◌, ◌≡◌, refl, ◌≢◌, Text, text_eq_iff, opt_eq, Bool, true, false, ◌&&◌, ◌||◌, Option, none,
  some, List, [], ◌∷◌, arith, Option-cases, inl, inr, Bool-cases, ◌⊎◌, ◌∙◌, text_eq_refl,
}
use pipe_lens.Models.{AnalysisStatus, AnalysisStage, StageStatus, Analysis}
use pipe_lens.Table.{first, row_count, IsKeyed}
use pipe_lens.Table.Keyed.{
  matching, updated, first-row_count_zero, first-row_count_pos, row_count-IsKeyed,
  first-update_self, update-IsKeyed,
}
use pipe_lens.Store.{
  Store, superseded, Result, ok, err, run_key, token_current, startable, is_startable, Changes,
  started_row, begin_analysis, begun, start_of, queue_wait, finish_analysis, finish_body,
  begin_body, update_analysis, record_stage,
}

abbrev pub run_id_of : Analysis → ℕ
run_id_of r = r.run_id

-- The primary key of `analyses`.
abbrev pub IsValid : Store → Type 0
IsValid s = IsKeyed run_id_of s.analyses

abbrev pub row_token : Option Analysis → Option Text
row_token none = none
row_token (some r) = r.attempt_token

-- The token of the attempt in progress.
abbrev pub holder : ℕ → Store → Option Text
holder run_id s = row_token (first (run_key run_id) s.analyses)

-- What an attempt asks of the store between its begin and its end.
pub data AttemptOp : Type 0 where
  write : AnalysisStatus → Changes → AttemptOp
  stage : AnalysisStage → StageStatus → Option Text → AttemptOp
  finish : ℕ → AnalysisStatus → AttemptOp

abbrev pub accepted : {A : Type 0} → Result A → Bool
accepted (ok _) = true
accepted (err _) = false

-- One call with the token `t`: whether it was accepted, and the store after it.
abbrev pub attempt : ℕ → ℕ → Text → AttemptOp → Store → Bool × Store
attempt now run_id t (write status c) s =
    let (r, s') = update_analysis now run_id status c (some t) s in (accepted r, s')
attempt now run_id t (stage st status e) s =
    let (r, s') = record_stage now run_id st status e (some t) s in (accepted r, s')
attempt now run_id t (finish started_at status) s =
    let (r, s') = finish_analysis now run_id started_at status (some t) s in (accepted r, s')

opt_eq_ne : (o : Option Text) (t : Text) → o ≢ some t → opt_eq o t ≡ false
opt_eq_ne none t ne = refl
opt_eq_ne (some a) t ne = ground (arith, text_eq_iff a t)

matching_ne :
    (t : Text) (o : Option Analysis)
    → row_token o ≢ some t
    → matching (token_current (some t)) o ≡ 0
matching_ne t none ne = refl
matching_ne t (some r) ne = rw (opt_eq_ne r.attempt_token t ne)

matching_self :
    (t : Text) (o : Option Analysis)
    → row_token o ≡ some t
    → matching (token_current (some t)) o ≡ 1
matching_self t none e = cc
matching_self t (some r) e = rw (e, text_eq_refl t)

module _ (run_id : ℕ) (t : Text) (s : Store) (valid : IsValid s) where
  count_stale :
      holder run_id s ≢ some t
      → row_count (λ x. run_key run_id x && token_current (some t) x) s.analyses ≡ 0
  count_stale stale =
      row_count-IsKeyed run_id_of run_id (token_current (some t)) s.analyses valid
      ∙ matching_ne t _ stale

  pub count_current :
      holder run_id s ≡ some t
      → row_count (λ x. run_key run_id x && token_current (some t) x) s.analyses ≡ 1
  count_current e =
      row_count-IsKeyed run_id_of run_id (token_current (some t)) s.analyses valid
      ∙ matching_self t _ e

  -- A call whose token is not that of the run's attempt in progress is refused, and leaves every
  -- table as it was, whichever call it is.
  pub stale_attempt_refused :
      (now : ℕ) (op : AttemptOp) → holder run_id s ≢ some t → attempt now run_id t op s ≡ (false, s)
  unfolding update_analysis record_stage finish_analysis
  stale_attempt_refused now (write status c) stale = rw (count_stale stale)
  stale_attempt_refused now (stage st status e) stale =
      rw (first-row_count_zero _ s.analyses (count_stale stale))
  stale_attempt_refused now (finish started_at status) stale =
      elim (Option-cases (first (run_key run_id) s.analyses)) [
        | inl gone ↦ rw (gone, finish_body)
        | inr (r, found) ↦ rw (found, finish_body) (rw (count_stale stale))
      ]

  -- A call with the token of the attempt in progress is accepted.
  pub current_attempt_accepted :
      (now : ℕ) (op : AttemptOp) → holder run_id s ≡ some t → (attempt now run_id t op s).0 ≡ true
  unfolding update_analysis record_stage finish_analysis
  current_attempt_accepted now (write status c) e = rw (count_current e)
  current_attempt_accepted now (stage st status er) e = rw (
      first-row_count_pos (λ x. run_key run_id x && token_current (some t) x) s.analyses
        (omega (arith, count_current e)))
  current_attempt_accepted now (finish started_at status) e =
      elim (Option-cases (first (run_key run_id) s.analyses)) [
        | inl gone ↦ ground arith
        | inr (r, found) ↦ rw (found, finish_body) (rw (count_current e))
      ]

-- The calls of one attempt in order, and whether any was accepted.
abbrev pub attempts : ℕ → ℕ → Text → List AttemptOp → Store → Bool × Store
attempts now run_id t [] s = (false, s)
attempts now run_id t (op ∷ ops) s =
    let (a, s') = attempt now run_id t op s in
    let (b, s'') = attempts (now + 1) run_id t ops s' in (a || b, s'')

attempts_refused :
    (now run_id : ℕ) (t : Text) (ops : List AttemptOp) (s : Store)
    → IsValid s
    → holder run_id s ≢ some t
    → attempts now run_id t ops s ≡ (false, s)
attempts_refused now run_id t [] s valid stale = refl
attempts_refused now run_id t (op ∷ ops) s valid stale =
    rw (stale_attempt_refused run_id t s valid now op stale)
      (rw (attempts_refused (now + 1) run_id t ops s valid stale))

-- `begin_analysis` with a token succeeds exactly when the run is stored and queued or running.
abbrev pub row_startable : Option Analysis → Bool
row_startable none = false
row_startable (some r) = is_startable r.status

module _ (now run_id : ℕ) (t : Text) (s : Store) (valid : IsValid s) where
  count_startable :
      row_count (λ x. run_key run_id x && startable (some t) x) s.analyses
      ≡ matching (startable (some t)) (first (run_key run_id) s.analyses)
  count_startable = row_count-IsKeyed run_id_of run_id (startable (some t)) s.analyses valid

  pub begin_ok :
      (r : Analysis)
      → first (run_key run_id) s.analyses ≡ some r
      → is_startable r.status ≡ true
      → begin_analysis now run_id (some t) s
        ≡ (ok (start_of now r), begun now run_id (some t) (queue_wait now r) s)
  unfolding begin_analysis
  begin_ok r found h = rw (found, begin_body) (rw (count_startable, found, h))

  pub begin_refused :
      row_startable (first (run_key run_id) s.analyses) ≡ false
      → begin_analysis now run_id (some t) s ≡ (err superseded, s)
  unfolding begin_analysis
  begin_refused h = elim (Option-cases (first (run_key run_id) s.analyses)) [
    | inl gone ↦ rw (gone, begin_body)
    | inr (r, found) ↦
        let idle : is_startable r.status ≡ false = rw found at h in
        rw (found, begin_body) (rw (count_startable, found, idle))
  ]

  -- `begin_analysis` with a token either finds the run stored and queued or running, and is accepted,
  -- or finds it absent or at its end, raises, and writes nothing.
  pub begin_accepted :
      ((row_startable (first (run_key run_id) s.analyses) ≡ true)
        × (accepted (begin_analysis now run_id (some t) s).0 ≡ true))
      ⊎ ((row_startable (first (run_key run_id) s.analyses) ≡ false)
          × (begin_analysis now run_id (some t) s ≡ (err superseded, s)))
  begin_accepted = elim (Option-cases (first (run_key run_id) s.analyses)) [
    | inl gone ↦ inr (rw gone, begin_refused (rw gone))
    | inr (r, found) ↦ elim (Bool-cases (is_startable r.status)) [
      | inl h ↦ inl (rw (found, h), rw (begin_ok r found h))
      | inr h ↦ inr (rw (found, h), begin_refused (rw (found, h)))
    ]
  ]

  -- The row of the run after an accepted begin.
  pub begun_row :
      (r : Analysis)
      → first (run_key run_id) s.analyses ≡ some r
      → is_startable r.status ≡ true
      → first (run_key run_id) (begin_analysis now run_id (some t) s).1.analyses
        ≡ some (started_row now (queue_wait now r) (some t) r)
  begun_row r found h =
      let after : first (run_key run_id) (begun now run_id (some t) (queue_wait now r) s).analyses
          ≡ updated (startable (some t)) (started_row now (queue_wait now r) (some t)) (some r) =
        unfold begun started_row in
        rw (
          first-update_self run_id_of (started_row now (queue_wait now r) (some t)) (λ x. refl)
              run_id (startable (some t)) s.analyses,
          found,
        ) in
      rw (begin_ok r found h) (after ∙ rw h)

  pub begin_analysis-IsValid : IsValid (begin_analysis now run_id (some t) s).1
  begin_analysis-IsValid = elim (Option-cases (first (run_key run_id) s.analyses)) [
    | inl gone ↦ rw (begin_refused (rw gone)) valid
    | inr (r, found) ↦ elim (Bool-cases (is_startable r.status)) [
      | inl h ↦ rw (begin_ok r found h) (
          unfold begun started_row in
          update-IsKeyed run_id_of _ (λ x. refl) (λ x. run_key run_id x && startable (some t) x)
            s.analyses valid)
      | inr h ↦ rw (begin_refused (rw (found, h))) valid
    ]
  ]

  begin_holder :
      accepted (begin_analysis now run_id (some t) s).0 ≡ true
      → holder run_id (begin_analysis now run_id (some t) s).1 ≡ some t
  begin_holder yes_ = elim (Option-cases (first (run_key run_id) s.analyses)) [
    | inl gone ↦ cc (yes_, begin_refused (rw gone))
    | inr (r, found) ↦ elim (Bool-cases (is_startable r.status)) [
      | inl h ↦ rw (begun_row r found h) (unfold started_row in refl)
      | inr h ↦ cc (yes_, begin_refused (rw (found, h)))
    ]
  ]

  -- Once `begin_analysis` has given the run to the token `t`, no call of an attempt with another
  -- token is accepted, and none changes any table, in whatever order the older attempt makes them.
  pub takeover_fences :
      (old : Text) (ops : List AttemptOp)
      → accepted (begin_analysis now run_id (some t) s).0 ≡ true
      → old ≢ t
      → let s' = (begin_analysis now run_id (some t) s).1 in
        attempts now run_id old ops s' ≡ (false, s')
  takeover_fences old ops begun_ ne =
      attempts_refused now run_id old ops (begin_analysis now run_id (some t) s).1
        begin_analysis-IsValid (λ e. ne (cc (begin_holder begun_, e)))
