-- ===== src/Github.antt =====
-- What src/pipelens/github.py decides of the answers of GitHub: `_trust_level`, and
-- `_resolve_external_pull_request`, where `listed` is the answer to the request for pull requests.
-- An object that is missing, null or empty is `none`; the names of GitHub are texts or missing.
mod Tests
use pipe_lens.Common.{
  ℕ, Text, codes, text_eq, Bool, true, false, not, ◌&&◌, ◌||◌, Option, none, some, List, [], ◌∷◌,
  ◌==◌, if◌then◌else◌, is_empty, any, opt_eq,
}
use pipe_lens.Models.{TrustLevel, trusted, untrusted_fork, unverified}
use pipe_lens.Regex.{Unicode, casefold}
use pipe_lens.Table.{select}

pub record Repository : Type 0 where
  pub id : Option ℕ
  pub full_name : Option Text

pub record PullRequest : Type 0 where
  pub number : ℕ
  pub sha : Option Text
  pub head : Option Repository
  pub base : Option Repository

pub record WorkflowRun : Type 0 where
  pub event : Option Text
  pub head_repository : Option Repository
  pub head_branch : Option Text
  pub pull_requests : List PullRequest

abbrev name_of : Option Repository → Option Text
name_of none = none
name_of (some r) = r.full_name

abbrev id_of : Option Repository → Option ℕ
id_of none = none
id_of (some r) = r.id

module _ (u : Unicode) where
  -- The names are equal but for the case of their letters.
  abbrev pub same_name : Text → Text → Bool
  same_name a b = text_eq (casefold u a) (casefold u b)

  abbrev pub is_named : Text → Option Text → Bool
  is_named name none = false
  is_named name (some a) = same_name a name

  -- By the name of the repository that the code comes from.
  abbrev by_name : Text → Option Text → TrustLevel
  by_name name none = unverified
  by_name name (some a) = if same_name a name then trusted else untrusted_fork

  -- `head or head_repository`
  abbrev or_run : Option Repository → Option Repository → Option Repository
  or_run none run_head = run_head
  or_run (some r) run_head = some r

  -- `base_name` is the name of the base, which is that of the repository.
  abbrev by_repositories : Text → Text → PullRequest → Option Repository → Option Text → TrustLevel
  by_repositories repository base_name p run_head none =
      by_name repository (name_of (or_run p.head run_head))
  by_repositories repository base_name p run_head (some head_name) =
      by_name base_name (some head_name)

  abbrev by_ids : Text → Text → PullRequest → Option Repository → Option ℕ → Option ℕ → TrustLevel
  by_ids repository base_name p run_head (some head_id) (some base_id) =
      if head_id == base_id then trusted else untrusted_fork
  by_ids repository base_name p run_head (some head_id) none =
      by_repositories repository base_name p run_head (name_of p.head)
  by_ids repository base_name p run_head none base_id =
      by_repositories repository base_name p run_head (name_of p.head)

  abbrev by_base : Text → PullRequest → Option Repository → Option Text → TrustLevel
  by_base repository p run_head none = unverified
  by_base repository p run_head (some base_name) =
      if same_name base_name repository
      then by_ids repository base_name p run_head (id_of p.head) (id_of p.base)
      else unverified

  -- `_trust_level`
  unfoldable pub trust_of : Text → List PullRequest → Option Repository → TrustLevel
  unfolding casefold text_eq
  trust_of repository [] run_head = by_name repository (name_of run_head)
  trust_of repository (p ∷ ps) run_head = by_base repository p run_head (name_of p.base)

  abbrev pub trust_level : Text → WorkflowRun → TrustLevel
  trust_level repository run = trust_of repository run.pull_requests run.head_repository

  -- What a listed pull request must have to be that of the run.
  abbrev pub is_match : Text → Text → Text → PullRequest → Bool
  is_match repository head_sha head_name p =
      opt_eq p.sha head_sha
      && is_named head_name (name_of p.head)
      && is_named repository (name_of p.base)

  abbrev only_match : WorkflowRun → List PullRequest → WorkflowRun
  only_match run (p ∷ []) = record run { pull_requests = p ∷ [] }
  only_match run _ = run

  -- The owner of `owner/name`, by `partition`; `none` where there is no slash.
  abbrev with_head : ℕ → Option Text → Option Text
  with_head c none = none
  with_head c (some owner) = some (c ∷ owner)

  unfoldable pub owner_of : Text → Option Text
  owner_of [] = none
  owner_of (c ∷ cs) = let rest = owner_of cs in if c == 47 then some [] else with_head c rest

  module _ (listed : Text → Text → List PullRequest) (repository head_sha : Text) where
    abbrev matched : WorkflowRun → Text → Text → Text → WorkflowRun
    matched run head_name owner branch =
        only_match run (select (is_match repository head_sha head_name) (listed owner branch))

    abbrev from_owner : WorkflowRun → Text → Option Text → Option Text → WorkflowRun
    from_owner run head_name (some owner) (some branch) =
        if is_empty owner || is_empty branch then run else matched run head_name owner branch
    from_owner run head_name (some owner) none = run
    from_owner run head_name none branch = run

    abbrev from_name : WorkflowRun → Option Text → WorkflowRun
    from_name run none = run
    from_name run (some head_name) = from_owner run head_name (owner_of head_name) run.head_branch

    abbrev on_trust : WorkflowRun → TrustLevel → WorkflowRun
    on_trust run trusted = run
    on_trust run untrusted_fork = from_name run (name_of run.head_repository)
    on_trust run unverified = run

    -- `_resolve_external_pull_request`
    unfoldable pub resolve_external_pull_request : WorkflowRun → WorkflowRun
    unfolding trust_of owner_of select
    resolve_external_pull_request run =
        if not (is_empty run.pull_requests) || not (opt_eq run.event (codes "pull_request"))
        then run
        else on_trust run (trust_level repository run)
