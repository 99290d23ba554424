-- ===== src/Store/Followup.antt =====
-- `record_followup_run` and `save_feedback` of `AnalysisStore`, and `delete`, whose foreign keys take
-- the feedback and the stage events with the run. A NULL of `run_completed_at` is first or last in
-- an order by it, as the database has it: `nulls_first`.
pub mod Sound
use pipe_lens.Common.{
  ℕ, ◌-◌, Text, codes, text_eq, opt_eq, Bool, true, false, not, ◌&&◌, ◌||◌, Option, none, some,
  List, [], ◌∷◌, ◌++◌, ◌==◌, ltb, if◌then◌else◌, is_some, or_else, any,
}
use pipe_lens.Models.{
  Analysis, ResolutionOutcome, resolved, still_failing, ResolutionRecord, FeedbackRequest,
  FeedbackRecord,
}
use pipe_lens.Table.{select, first, update, row_count, delete, has_key, order_by}
use pipe_lens.Store.{Store, StageRow, run_key}

-- The arguments of `record_followup_run`.
pub record Followup : Type 0 where
  pub repository : Text
  pub workflow_name : Text
  pub head_branch : Option Text
  pub pull_request_number : Option ℕ
  pub run_id : ℕ
  pub run_attempt : ℕ
  pub html_url : Text
  pub conclusion : Text
  pub completed_at : ℕ

pub record ResolutionMatch : Type 0 where
  pub failed_run_id : ℕ
  pub resolution : ResolutionRecord

-- A comparison of a column with a value in SQL is not true of NULL.
abbrev number_eq : Option ℕ → ℕ → Bool
number_eq none n = false
number_eq (some m) n = m == n

abbrev branch_eq : Option Text → Option Text → Bool
branch_eq column none = false
branch_eq column (some b) = opt_eq column b

unfoldable pub target_match : Followup → Analysis → Bool
target_match f r = elim f.pull_request_number [
  | none ↦ branch_eq r.head_branch f.head_branch
  | some n ↦
      number_eq r.pull_request_number n
      || (not (is_some r.pull_request_number) && branch_eq r.head_branch f.head_branch)
]

unfoldable pub prior_run : Followup → Analysis → Bool
prior_run f r = ltb r.run_id f.run_id || (r.run_id == f.run_id && ltb r.run_attempt f.run_attempt)

abbrev is_still_failing : Option ResolutionOutcome → Bool
is_still_failing (some still_failing) = true
is_still_failing _ = false

abbrev attempt_before : Option ℕ → ℕ → Bool
attempt_before none n = false
attempt_before (some m) n = ltb m n

unfoldable pub unresolved_or_same_run_retry : Followup → Analysis → Bool
unresolved_or_same_run_retry f r =
    not (is_some r.resolution_outcome)
    || (r.run_id == f.run_id
        && is_still_failing r.resolution_outcome
        && number_eq r.resolution_run_id f.run_id
        && attempt_before r.resolution_run_attempt f.run_attempt)

-- The condition of the select.
unfoldable pub is_candidate : Followup → Analysis → Bool
unfolding target_match prior_run unresolved_or_same_run_retry
is_candidate f r =
    text_eq r.repository f.repository
    && text_eq r.workflow_name f.workflow_name
    && unresolved_or_same_run_retry f r
    && target_match f r
    && prior_run f r

-- `run_completed_at.desc()`
abbrev completed_after : Bool → Option ℕ → Option ℕ → Bool
completed_after nulls_first none none = false
completed_after nulls_first none (some b) = nulls_first
completed_after nulls_first (some a) none = not nulls_first
completed_after nulls_first (some a) (some b) = ltb b a

-- The three columns of the order.
unfoldable pub newer : Bool → Analysis → Analysis → Bool
newer nulls_first x y =
    completed_after nulls_first x.run_completed_at y.run_completed_at
    || (not (completed_after nulls_first y.run_completed_at x.run_completed_at)
        && (ltb y.run_id x.run_id || (x.run_id == y.run_id && ltb y.run_attempt x.run_attempt)))

abbrev outcome_of : Text → ResolutionOutcome
outcome_of conclusion = if text_eq conclusion (codes "success") then resolved else still_failing

-- What is recorded of a candidate.
abbrev pub resolution_of : Followup → Analysis → ResolutionRecord
resolution_of f r = record {
  outcome = outcome_of f.conclusion;
  followup_run_id = f.run_id;
  followup_run_attempt = f.run_attempt;
  followup_html_url = f.html_url;
  followup_completed_at = f.completed_at;
  recovery_seconds = f.completed_at - or_else r.run_completed_at r.created_at;
}

abbrev pub resolved_row : ℕ → ResolutionRecord → Analysis → Analysis
resolved_row now x r = record r {
  resolution_outcome = some x.outcome;
  resolution_run_id = some x.followup_run_id;
  resolution_run_attempt = some x.followup_run_attempt;
  resolution_html_url = some x.followup_html_url;
  resolution_completed_at = some x.followup_completed_at;
  recovery_seconds = some x.recovery_seconds;
  updated_at = now;
}

-- `.first()` of the ordered select
abbrev first_of : List Analysis → Option Analysis
first_of [] = none
first_of (r ∷ _) = some r

-- The update, and the test of its `rowcount`; the block ends without an exception either way.
unfoldable pub resolve : ℕ → Followup → Option Analysis → Store → Option ResolutionMatch × Store
unfolding unresolved_or_same_run_retry
resolve now f none s = (none, s)
resolve now f (some r) s =
    let where_ = λ (x : Analysis). run_key r.run_id x && unresolved_or_same_run_retry f x in
    let s' : Store = record s {
      analyses = update where_ (resolved_row now (resolution_of f r)) s.analyses;
    } in
    (
      if row_count where_ s.analyses == 1
          then some (record { failed_run_id = r.run_id; resolution = resolution_of f r })
          else none,
      s',
    )

-- `conclusion not in {...}`, or a run with no target
unfoldable pub is_ignored : Followup → Bool
unfolding text_eq
is_ignored f =
    not (text_eq f.conclusion (codes "success") || text_eq f.conclusion (codes "failure"))
    || (not (is_some f.head_branch) && not (is_some f.pull_request_number))

unfoldable pub record_followup_run : Bool → ℕ → Followup → Store → Option ResolutionMatch × Store
unfolding is_ignored is_candidate newer resolve
record_followup_run nulls_first now f s =
    let candidate = first_of (order_by (newer nulls_first) (select (is_candidate f) s.analyses)) in
    if is_ignored f then (none, s) else resolve now f candidate s

abbrev pub is_feedback : ℕ → FeedbackRecord → Bool
is_feedback = has_key (λ (r : FeedbackRecord). r.run_id)

-- `installation_id.in_(installation_ids)`, when there is such a set.
abbrev member_of : Option ℕ → List ℕ → Bool
member_of none ids = false
member_of (some n) ids = any (λ m. m == n) ids

abbrev pub is_visible : Option (List ℕ) → Analysis → Bool
is_visible none r = true
is_visible (some ids) r = member_of r.installation_id ids

abbrev pub feedback_row : ℕ → ℕ → FeedbackRequest → FeedbackRecord
feedback_row now run_id f = record {
  run_id = run_id;
  accuracy = f.accuracy;
  suggestion_resolved = f.suggestion_resolved;
  comment = f.comment;
  created_at = now;
  updated_at = now;
}

abbrev pub feedback_changed : ℕ → FeedbackRequest → FeedbackRecord → FeedbackRecord
feedback_changed now f r = record r {
  accuracy = f.accuracy;
  suggestion_resolved = f.suggestion_resolved;
  comment = f.comment;
  updated_at = now;
}

-- The insert or the update of the feedback of a run.
unfoldable pub stored_feedback : ℕ → ℕ → FeedbackRequest → List FeedbackRecord → List FeedbackRecord
stored_feedback now run_id f rows =
    if is_some (first (is_feedback run_id) rows)
    then update (is_feedback run_id) (feedback_changed now f) rows
    else rows ++ feedback_row now run_id f ∷ []

unfoldable pub save_feedback :
    ℕ → ℕ → FeedbackRequest → Option (List ℕ) → Store → Option FeedbackRecord × Store
unfolding stored_feedback
save_feedback now run_id f installation_ids s =
    let rows = stored_feedback now run_id f s.feedback in
    if is_some (first (λ x. run_key run_id x && is_visible installation_ids x) s.analyses)
    then (first (is_feedback run_id) rows, record s { feedback = rows })
    else (none, s)

unfoldable pub delete_analysis : ℕ → Store → Store
delete_analysis run_id s = record s {
  analyses = delete (run_key run_id) s.analyses;
  stage_events = delete (has_key (λ (r : StageRow). r.run_id) run_id) s.stage_events;
  feedback = delete (is_feedback run_id) s.feedback;
}
