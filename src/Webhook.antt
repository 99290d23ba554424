-- ===== src/Webhook.antt =====
-- The webhook of src/pipelens/main.py, with `verify_github_signature` of src/pipelens/security.py, and
-- `reconcile_queued_analyses`. The bytes of a body are numbers; HMAC and the reader of the JSON are
-- parameters. The queue is any that `enqueue` may be called of: `none` is its exception.
pub mod Recovery
mod Tests
use pipe_lens.Common.{
  ℕ, ◌+◌, Text, codes, text_eq, compare_digest, starts_with, falsy, Bool, true, false, not, ◌&&◌,
  ◌||◌, Option, none, some, List, [], ◌∷◌, ◌++◌, ◌==◌, if◌then◌else◌, is_some, or_else,
}
use pipe_lens.Models.{AnalysisStatus, queued, Analysis, AnalysisRequest, queued_record}
use pipe_lens.Table.{first}
use pipe_lens.Store.{Store, run_key, create_if_absent}
use pipe_lens.Store.Followup.{Followup, ResolutionMatch, record_followup_run}
use pipe_lens.Store.Reads.{is_queued, queued_requests}

-- The values that are read of `payload["workflow_run"]`.
pub record RunValues : Type 0 where
  pub run_id : ℕ
  pub run_attempt : ℕ
  pub workflow_name : Text
  pub head_branch : Option Text
  pub pull_request_number : Option ℕ
  pub completed_at : ℕ
  pub html_url : Text

-- A payload that has a run, which is an object, and a repository. `values` is `none` when reading them
-- raises one of the exceptions that the handler expects. `installation` is `none` when it is there but
-- no object, so that `.get("id")` raises; otherwise it holds its id, if it has one.
pub record Payload : Type 0 where
  pub repository : Text
  pub action : Option Text
  pub conclusion : Option Text
  pub values : Option RunValues
  pub head_sha : Option Text
  pub installation : Option (Option ℕ)

-- What becomes of reading the body: an exception that the handler expects, another one, as for bytes
-- that are no UTF-8 or a run that is no object, or a payload.
pub data Body : Type 0 where
  invalid unexpected : Body
  payload : Payload → Body

pub record Delivery : Type 0 where
  pub body : Text
  pub event : Option Text
  pub delivery_id : Option Text
  pub signature : Option Text

-- The label `outcome` of `metrics.webhooks`; `unhandled` is an exception that leaves the handler.
pub data WebhookOutcome : Type 0 where
  invalid_signature ignored_event invalid_payload ignored_run resolution_recorded queue_error
        accepted recovered duplicate unhandled :
      WebhookOutcome

pub record Answer : Type 0 where
  pub status_code : ℕ
  pub outcome : WebhookOutcome

abbrev is_text : Text → Option Text → Bool
is_text t none = false
is_text t (some s) = text_eq s t

module _ (hexdigest : Text → Text → Text) where
  -- `some true`: it returns; `some false`: `InvalidSignatureError`; `none`: the `TypeError` of
  -- `compare_digest`.
  unfoldable pub verify_github_signature : Text → Option Text → Text → Option Bool
  unfolding starts_with text_eq
  verify_github_signature body signature secret =
      if falsy signature || not (starts_with (or_else signature []) (codes "sha256="))
      then some false
      else compare_digest (codes "sha256=" ++ hexdigest secret body) (or_else signature [])

  module _ {Q : Type 0} (enqueue : AnalysisRequest → Q → Option (Bool × Q)) (nulls_first : Bool)
      (parse : Text → Body) (secret : Text) where
    abbrev Handled : Type 0
    Handled = Answer × Store × Q

    abbrev answer : ℕ → WebhookOutcome → Store → Q → Handled
    answer status outcome s q = (record { status_code = status; outcome = outcome }, s, q)

    abbrev finish : Bool → Bool → Store → Q → Handled
    finish created enqueued =
        answer 202 (if created then accepted else if enqueued then recovered else duplicate)

    abbrev after_enqueue : Bool → Store → Q → Option (Bool × Q) → Handled
    after_enqueue created s q none = answer 503 queue_error s q
    after_enqueue created s q (some (enqueued, q')) = finish created enqueued s q'

    abbrev enqueue_row : Bool → Store → Q → Analysis → Option ℕ → Handled
    enqueue_row created s q e none = finish created false s q
    enqueue_row created s q e (some installation) = after_enqueue created s q (
        enqueue
          (record {
            run_id = e.run_id;
            repository = e.repository;
            installation_id = installation;
            head_sha = e.head_sha;
          })
          q)

    -- `existing` is queued and has an installation.
    abbrev enqueue_existing : Bool → Store → Q → Option Analysis → Handled
    enqueue_existing created s q none = finish created false s q
    enqueue_existing created s q (some e) =
        if is_queued e.status
        then enqueue_row created s q e e.installation_id
        else finish created false s q

    -- A failed run is stored and enqueued.
    unfoldable pub on_failure : Analysis → Store → Q → Handled
    unfolding create_if_absent first
    on_failure r s q =
        let (created, s') = create_if_absent r s in
        enqueue_existing created s' q
          (if created then some r else first (run_key r.run_id) s'.analyses)

    abbrev record_of : ℕ → Text → Payload → RunValues → ℕ → Text → Analysis
    record_of now delivery p v installation sha =
        queued_record v.run_id delivery p.repository v.workflow_name sha v.html_url v.run_attempt
          v.head_branch v.pull_request_number (some v.completed_at) (some installation) now

    -- `installation_id` is asked for first, then `run["head_sha"]`; the `AttributeError` of the one and
    -- the `KeyError` of the other are not caught.
    abbrev on_failed_run :
        ℕ → Text → Payload → RunValues → Option (Option ℕ) → Option Text → Store → Q → Handled
    on_failed_run now delivery p v none sha s q = answer 500 unhandled s q
    on_failed_run now delivery p v (some none) sha s q = answer 400 invalid_payload s q
    on_failed_run now delivery p v (some (some installation)) none s q = answer 500 unhandled s q
    on_failed_run now delivery p v (some (some installation)) (some sha) s q =
        on_failure (record_of now delivery p v installation sha) s q

    abbrev followup_of : Payload → RunValues → Followup
    followup_of p v = record {
      repository = p.repository;
      workflow_name = v.workflow_name;
      head_branch = v.head_branch;
      pull_request_number = v.pull_request_number;
      run_id = v.run_id;
      run_attempt = v.run_attempt;
      html_url = v.html_url;
      conclusion = or_else p.conclusion [];
      completed_at = v.completed_at;
    }

    -- What is done once the run is recorded as a follow-up.
    abbrev on_recorded :
        ℕ → Text → Payload → RunValues → Option ResolutionMatch × Store → Q → Handled
    on_recorded now delivery p v (resolution, s) q =
        if is_text (codes "success") p.conclusion
        then answer 204 (if is_some resolution then resolution_recorded else ignored_run) s q
        else on_failed_run now delivery p v p.installation p.head_sha s q

    abbrev on_values : ℕ → Text → Payload → Option RunValues → Store → Q → Handled
    on_values now delivery p none s q = answer 400 invalid_payload s q
    on_values now delivery p (some v) s q =
        if v.run_attempt == 0
        then answer 400 invalid_payload s q
        else on_recorded now delivery p v (record_followup_run nulls_first now (followup_of p v) s)
            q

    abbrev is_concluded : Payload → Bool
    is_concluded p =
        is_text (codes "completed") p.action
        && (is_text (codes "success") p.conclusion || is_text (codes "failure") p.conclusion)

    abbrev on_payload : ℕ → Text → Body → Store → Q → Handled
    on_payload now delivery invalid s q = answer 400 invalid_payload s q
    on_payload now delivery unexpected s q = answer 500 unhandled s q
    on_payload now delivery (payload p) s q =
        if is_concluded p then on_values now delivery p p.values s q else answer 204 ignored_run s q

    -- What follows the check of the signature, whose `TypeError` is not caught.
    abbrev on_signature : ℕ → Delivery → Option Bool → Store → Q → Handled
    on_signature now d none s q = answer 500 unhandled s q
    on_signature now d (some false) s q = answer 401 invalid_signature s q
    on_signature now d (some true) s q =
        if not (is_text (codes "workflow_run") d.event)
        then answer 204 ignored_event s q
        else if falsy d.delivery_id
        then answer 400 invalid_payload s q
        else on_payload now (or_else d.delivery_id []) (parse d.body) s q

    -- `github_webhook`
    unfoldable pub github_webhook : ℕ → Delivery → Store → Q → Handled
    unfolding verify_github_signature on_failure record_followup_run queued_record text_eq
    github_webhook now d s q =
        on_signature now d (verify_github_signature d.body d.signature secret) s q

-- The loop of `reconcile_queued_analyses`: how many were enqueued, and the queue.
module _ {Q : Type 0} (enqueue : AnalysisRequest → Q → Bool × Q) where
  unfoldable pub enqueue_all : List AnalysisRequest → Q → ℕ × Q
  enqueue_all [] q = (0, q)
  enqueue_all (r ∷ rs) q =
      let (enqueued, q') = enqueue r q in
      let (n, q'') = enqueue_all rs q' in (if enqueued then n + 1 else n, q'')

  unfoldable pub reconcile_queued_analyses : Store → Q → ℕ × Q
  unfolding enqueue_all queued_requests
  reconcile_queued_analyses s q = enqueue_all (queued_requests s) q
