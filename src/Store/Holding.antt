-- ===== src/Store/Holding.antt =====
-- The attempt that holds a run: its writes are accepted, and leave it the run.
use pipe_lens.Common.{ℕ, ◌≡◌, refl, Text, ◌&&◌, Option, none, some, arith, ◌∙◌, ap}
use pipe_lens.Models.{AnalysisStatus, AnalysisStage, StageStatus, Analysis}
use pipe_lens.Table.{first}
use pipe_lens.Table.Keyed.{updated, first-row_count_pos, first-update_self, update-IsKeyed}
use pipe_lens.Store.{
  Store, Result, ok, err, run_key, token_current, Changes, changed_row, update_analysis,
  record_stage,
}
use pipe_lens.Store.Fencing.{run_id_of, IsValid, holder, row_token, count_current}

-- The run is held with the token `t`.
abbrev pub Held : ℕ → Text → Store → Type 0
Held run_id t s = IsValid s × (holder run_id s ≡ some t)

-- A call was accepted and left the run to its holder.
abbrev pub Kept : {A : Type 0} → ℕ → Text → Result A × Store → Type 0
Kept run_id t (ok a, s) = Held run_id t s
Kept run_id t (err e, s) = ⊥

module _ (run_id : ℕ) (t : Text) (s : Store) (held : Held run_id t s) where
  pub record_stage-Kept :
      (now : ℕ) (stage : AnalysisStage) (status : StageStatus) (error : Option Text)
      → Kept run_id t (record_stage now run_id stage status error (some t) s)
  unfolding record_stage
  record_stage-Kept now stage status error =
      rw
        (first-row_count_pos (λ x. run_key run_id x && token_current (some t) x) s.analyses
          (omega (arith, count_current run_id t s held.0 held.1)))
        held

  updated-row_token :
      (now : ℕ) (status : AnalysisStatus) (c : Changes) (o : Option Analysis)
      → row_token (updated (token_current (some t)) (changed_row now status c) o) ≡ row_token o
  unfolding changed_row
  updated-row_token now status c none = refl
  updated-row_token now status c (some r) = ground arith

  pub update_analysis-Kept :
      (now : ℕ) (status : AnalysisStatus) (c : Changes)
      → Kept run_id t (update_analysis now run_id status c (some t) s)
  unfolding update_analysis changed_row
  update_analysis-Kept now status c = rw (count_current run_id t s held.0 held.1) (
    update-IsKeyed run_id_of (changed_row now status c) (λ x. refl)
        (λ x. run_key run_id x && token_current (some t) x) s.analyses held.0,
    ap row_token (
          first-update_self run_id_of (changed_row now status c) (λ x. refl) run_id
            (token_current (some t)) s.analyses)
        ∙ (updated-row_token now status c (first (run_key run_id) s.analyses) ∙ held.1),
  )
