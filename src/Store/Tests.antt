-- ===== src/Store/Tests.antt =====
-- The store at concrete rows.
use pipe_lens.Common.{
  ◌≡◌, refl, codes, true, false, none, some, List, [], ◌∷◌, ◌≢◌, ◌⊎◌, opt_eq, ap, text_eq,
}
use pipe_lens.Models.{
  completed, failed, running, Analysis, queued_record, AnalysisStage, StageStatus,
}
use pipe_lens.Common.Int.{pos}
use pipe_lens.Table.{first, row_count}
use pipe_lens.Store.{
  Store, ok, err, superseded, run_key, is_startable, begin_analysis, finish_analysis, no_changes,
}
use pipe_lens.Store.Fencing.{
  IsValid, holder, AttemptOp, write, stage, finish, attempt, attempts, accepted, row_startable,
  stale_attempt_refused, current_attempt_accepted, begin_accepted, takeover_fences,
}
use pipe_lens.Common.{ℕ, Text}
use pipe_lens.Store.Lease.{Call, begin, op, answers, calls, view, calls_refine_lease}
use pipe_lens.Store.Lifecycle.{NoOpenStage, begin_restarts, finish_ends}

abbrev pub row : Analysis
unfolding queued_record
row =
    queued_record 7 (codes "d") (codes "o/r") (codes "ci") (codes "a") (codes "u") 1 none none none
      (some 3) 50

-- A row that the attempt `old` holds.
abbrev held : Analysis
held = record row {
  status = running;
  attempt_token = some (codes "old");
  analysis_started_at = some 60;
}

abbrev pub stored : Analysis → Store
stored r = record { analyses = r ∷ []; stage_events = []; feedback = [] }

pub stored-IsValid : (r : Analysis) → IsValid (stored r)
unfolding first
stored-IsValid r = (refl, tt)

first-held : first (run_key 7) (stored held).analyses ≡ some held
unfolding first queued_record
first-held = refl

holder-held : holder 7 (stored held) ≡ some (codes "old")
holder-held = rw first-held refl

old_ne_new : codes "old" ≢ codes "new"
unfolding text_eq
old_ne_new e = cc (ap (λ t. text_eq t (codes "new")) e)

held_stale : holder 7 (stored held) ≢ some (codes "new")
unfolding text_eq
held_stale e = cc (ap (λ o. opt_eq o (codes "new")) e, ap (λ o. opt_eq o (codes "new")) holder-held)

stale_attempt_refused_example :
    attempt 90 7 (codes "new") (write completed no_changes) (stored held) ≡ (false, stored held)
stale_attempt_refused_example =
    stale_attempt_refused 7 (codes "new") (stored held) (stored-IsValid held) 90
      (write completed no_changes) held_stale

current_attempt_accepted_example :
    (attempt 90 7 (codes "old") (finish 60 completed) (stored held)).0 ≡ true
current_attempt_accepted_example =
    current_attempt_accepted 7 (codes "old") (stored held) (stored-IsValid held) 90
      (finish 60 completed) holder-held

begin_accepted_example :
    ((row_startable (first (run_key 7) (stored held).analyses) ≡ true)
      × (accepted (begin_analysis 90 7 (some (codes "new")) (stored held)).0 ≡ true))
    ⊎ ((row_startable (first (run_key 7) (stored held).analyses) ≡ false)
        × (begin_analysis 90 7 (some (codes "new")) (stored held) ≡ (err superseded, stored held)))
begin_accepted_example = begin_accepted 90 7 (codes "new") (stored held) (stored-IsValid held)

held_begun : accepted (begin_analysis 90 7 (some (codes "new")) (stored held)).0 ≡ true
unfolding begin_analysis queued_record first row_count
held_begun = refl

-- The store after the attempt `new` has begun.
abbrev taken_over : Store
taken_over = (begin_analysis 90 7 (some (codes "new")) (stored held)).1

abbrev late : List AttemptOp
late =
    stage AnalysisStage.publishing StageStatus.started none
    ∷ write completed no_changes
    ∷ finish 60 completed
    ∷ []

takeover_fences_example : attempts 90 7 (codes "old") late taken_over ≡ (false, taken_over)
takeover_fences_example =
    takeover_fences 90 7 (codes "new") (stored held) (stored-IsValid held) (codes "old") late
      held_begun old_ne_new

begin_restarts_example :
    NoOpenStage 7 taken_over.stage_events
    × (first (run_key 7) taken_over.analyses
        ≡ some (record held {
          error = none;
          attempt_token = some (codes "new");
          analysis_completed_at = none;
          duration_seconds = none;
          queue_wait_seconds = some 40;
          total_latency_seconds = none;
          updated_at = 90;
        }))
unfolding queued_record
begin_restarts_example =
    begin_restarts 90 7 (codes "new") (stored held) (stored-IsValid held) held first-held refl

-- The store after the end of the attempt `old`.
abbrev ended : Store
ended = (finish_analysis 90 7 60 failed (some (codes "old")) (stored held)).1

finish_ends_example :
    ((finish_analysis 90 7 60 failed (some (codes "old")) (stored held)).0 ≡ ok 40)
    × (first (run_key 7) ended.analyses
        ≡ some (record held {
          status = failed;
          attempt_token = none;
          analysis_completed_at = some 90;
          duration_seconds = some (pos 30);
          total_latency_seconds = some 40;
          updated_at = 90;
        }))
    × (accepted (begin_analysis 95 7 (some (codes "new")) ended).0 ≡ is_startable failed)
unfolding queued_record
finish_ends_example =
    finish_ends 90 7 (codes "old") (stored held) (stored-IsValid held) 60 failed held first-held
      refl 95 (codes "new")

-- An attempt that is taken over: its write is refused, and the other ends the run.
abbrev takeover : List (ℕ × Text × Call)
takeover =
    (60, codes "one", begin)
    ∷ (61, codes "two", begin)
    ∷ (62, codes "one", op (write running no_changes))
    ∷ (63, codes "two", op (finish 61 completed))
    ∷ []

takeover_test :
    (answers takeover (some (record { open_ = true; held_by = none }))).0
    ≡ true ∷ true ∷ false ∷ true ∷ []
unfolding text_eq
takeover_test = refl

calls_refine_lease_example :
    ((calls 7 takeover (stored row)).0 ≡ (answers takeover (view 7 (stored row))).0)
    × (view 7 (calls 7 takeover (stored row)).1 ≡ (answers takeover (view 7 (stored row))).1)
calls_refine_lease_example = calls_refine_lease 7 takeover (stored row) (stored-IsValid row)
