-- ===== src/Store/Lifecycle.antt =====
-- The life of a stored run: creation, the end of an attempt, and what an attempt leaves alone.
use pipe_lens.Common.{
  ℕ, ◌-◌, ◌≡◌, refl, Text, text_eq_refl, true, false, ◌&&◌, none, some, List, [], ◌∷◌, arith, ◌∙◌,
  or_else, Bool-cases, inl, inr,
}
use pipe_lens.Common.Int.{sub_ℕ}
use pipe_lens.Models.{AnalysisStatus, running, Analysis}
use pipe_lens.Table.{first, update}
use pipe_lens.Table.Keyed.{first-update_self, update-IsKeyed}
use pipe_lens.Store.{
  Store, ok, run_key, token_current, is_startable, started_row, finished_row, begin_analysis, begun,
  finished, finish_analysis, finish_body, StageRow, open_stage, supersede_stage, supersede_stages,
}
use pipe_lens.Store.Fencing.{
  run_id_of, IsValid, accepted, count_current, begin_ok, begun_row, begin_refused,
}

-- No stage event of the run is left in the status `started`.
abbrev pub NoOpenStage : ℕ → List StageRow → Type 0
NoOpenStage run_id [] = Unit
NoOpenStage run_id (e ∷ es) = (open_stage run_id e ≡ false) × NoOpenStage run_id es

NoOpenStage-update :
    (run_id : ℕ) (es : List StageRow)
    → NoOpenStage run_id (update (open_stage run_id) supersede_stage es)
unfolding update
NoOpenStage-update run_id [] = tt
NoOpenStage-update run_id (e ∷ es) = (ground arith, NoOpenStage-update run_id es)

-- The events that an accepted begin closes stay in their places; it adds and removes none.
module _ (now run_id : ℕ) (t : Text) (s : Store) (valid : IsValid s) where
  -- An accepted `begin_analysis` leaves no stage of the run open, so an attempt that was cut off
  -- does not look as if it were still at work; it empties the run's error and end, and it keeps the
  -- time of the first start and the queue wait of a run that had started before.
  pub begin_restarts :
      (r : Analysis)
      → first (run_key run_id) s.analyses ≡ some r
      → is_startable r.status ≡ true
      → let s' = (begin_analysis now run_id (some t) s).1 in
        NoOpenStage run_id s'.stage_events
        × (first (run_key run_id) s'.analyses
            ≡ some (record r {
              status = running;
              error = none;
              attempt_token = some t;
              analysis_started_at = some (or_else r.analysis_started_at now);
              analysis_completed_at = none;
              duration_seconds = none;
              queue_wait_seconds = some (or_else r.queue_wait_seconds (now - r.created_at));
              total_latency_seconds = none;
              updated_at = now;
            }))
  begin_restarts r found h = (
    rw (begin_ok now run_id t s valid r found h)
        (unfold begun supersede_stages in NoOpenStage-update run_id s.stage_events),
    begun_row now run_id t s valid r found h ∙ (unfold started_row in refl),
  )

  module _ (started_at : ℕ) (status : AnalysisStatus) (r : Analysis)
      (found : first (run_key run_id) s.analyses ≡ some r) (held : r.attempt_token ≡ some t) where
    pub finish_ok : finish_analysis now run_id started_at status (some t) s ≡ (
      ok (now - r.created_at),
      finished now run_id started_at status (now - r.created_at) (some t) s,
    )
    unfolding finish_analysis
    finish_ok = rw (found, finish_body) (rw (count_current run_id t s valid (rw (found, held))))

    pub ended_row :
        first
          (run_key run_id)
          (finished now run_id started_at status (now - r.created_at) (some t) s).analyses
        ≡ some (finished_row now started_at status (now - r.created_at) r)
    unfolding finished finished_row
    ended_row =
        rw
          (
            first-update_self run_id_of (finished_row now started_at status (now - r.created_at))
                (λ x. refl) run_id (token_current (some t)) s.analyses,
            found,
          )
          (rw (held, text_eq_refl t))

    pub ended-IsValid :
        IsValid (finished now run_id started_at status (now - r.created_at) (some t) s)
    unfolding finished finished_row
    ended-IsValid =
        update-IsKeyed run_id_of _ (λ x. refl) (λ x. run_key run_id x && token_current (some t) x)
          s.analyses valid

    -- The current attempt's `finish_analysis` returns the latency, and leaves the row with the status,
    -- without a token, and with the end, the duration and the latency; all else in the row is as it was.
    -- A begin with a token on the store that it leaves is accepted exactly when the status is queued or
    -- running.
    pub finish_ends :
        (later : ℕ) (next : Text)
        → let s' = (finish_analysis now run_id started_at status (some t) s).1 in
          ((finish_analysis now run_id started_at status (some t) s).0 ≡ ok (now - r.created_at))
          × (first (run_key run_id) s'.analyses
              ≡ some (record r {
                status = status;
                attempt_token = none;
                analysis_completed_at = some now;
                duration_seconds = some (sub_ℕ now started_at);
                total_latency_seconds = some (now - r.created_at);
                updated_at = now;
              }))
          × (accepted (begin_analysis later run_id (some next) s').0 ≡ is_startable status)
    finish_ends later next =
        let latency = now - r.created_at in
        let s' = finished now run_id started_at status latency (some t) s in
        let r' = finished_row now started_at status latency r in
        rw finish_ok (
          refl,
          ended_row ∙ (unfold finished_row in refl),
          elim (Bool-cases (is_startable status)) [
            | inl may ↦
                rw
                  (
                    begin_ok later run_id next s' ended-IsValid r' ended_row
                        (unfold finished_row in may),
                    may,
                  )
                  refl
            | inr over ↦
                rw
                  (
                    begin_refused later run_id next s' ended-IsValid
                        (rw ended_row (unfold finished_row in over)),
                    over,
                  )
                  refl
          ],
        )
