-- ===== src/Store/Accounts/Tests.antt =====
-- A user with a session and installations, and a follow-up of a failed run.
use pipe_lens.Common.{
  ℕ, ◌≡◌, ◌≢◌, refl, ap, Text, text_eq, codes, Bool, true, false, none, some, [], ◌∷◌, map, arith,
}
use pipe_lens.Models.{Analysis, GitHubInstallation}
use pipe_lens.Table.{first, delete, order_by}
use pipe_lens.Store.Tests.{row}
use pipe_lens.Store.Accounts.{
  Accounts, UserRow, InstallationRow, create_auth_session, get_auth_session, delete_auth_session,
  replace_user_installations, installations_for_user, owned, is_session, is_user,
}
use pipe_lens.Store.Accounts.Sessions.{create_auth_session_lem, replace_user_installations_lem}
use pipe_lens.Store.Followup.{Followup}

abbrev user : UserRow
user = record {
  github_user_id = 5;
  login = codes "ann";
  avatar_url = none;
  created_at = 10;
  updated_at = 10;
}

abbrev accounts : Accounts
accounts = record { users = user ∷ []; sessions = []; installations = [] }

no_session : first (is_session (codes "h")) accounts.sessions ≡ none
unfolding first
no_session = refl

known_user : first (is_user 5) accounts.users ≡ some user
unfolding first
known_user = refl

other_hash : codes "g" ≢ codes "h"
unfolding text_eq
other_hash e = cc (ap (λ t. text_eq t (codes "h")) e)

create_auth_session_lem_example :
    (a' : Accounts) × (create_auth_session 20 (codes "h") 5 (codes "t") 90 accounts ≡ some a')
    × (get_auth_session (codes "h") a'
        ≡ some (record {
          github_user_id = 5;
          encrypted_access_token = codes "t";
          expires_at = 90;
          login = codes "ann";
          avatar_url = none;
        }))
    × (get_auth_session (codes "h") (delete_auth_session (codes "h") a') ≡ none)
    × (get_auth_session (codes "g") (delete_auth_session (codes "h") a')
        ≡ get_auth_session (codes "g") a')
create_auth_session_lem_example =
    create_auth_session_lem 20 (codes "h") 5 (codes "t") 90 accounts user no_session known_user
      (codes "g") other_hash

abbrev six : ℕ
six = 6

six_ne : six ≢ 5
six_ne = omega arith

abbrev installation : GitHubInstallation
installation = record {
  installation_id = 3;
  account_login = codes "org";
  account_type = codes "Organization";
  repository_selection = codes "all";
}

abbrev installed : Accounts
installed = record accounts { installations = owned 30 5 installation ∷ [] }

installed_ok : replace_user_installations 30 5 (installation ∷ []) accounts ≡ some installed
unfolding replace_user_installations first delete
installed_ok = refl

-- Any order of texts.
abbrev shorter : Text → Text → Bool
shorter [] [] = false
shorter [] (_ ∷ _) = true
shorter (_ ∷ _) _ = false

replace_user_installations_lem_example :
    (installations_for_user shorter 5 installed
      ≡ map
          (λ (r : InstallationRow). r.installation)
          (order_by
            (λ (x : InstallationRow) (y : InstallationRow).
              shorter x.installation.account_login y.installation.account_login)
            (map (owned 30 5) (installation ∷ []))))
    × (installations_for_user shorter 6 installed ≡ installations_for_user shorter 6 accounts)
replace_user_installations_lem_example =
    replace_user_installations_lem shorter 30 5 (installation ∷ []) accounts installed installed_ok
      6 six_ne

-- The run 8 of the workflow of run 7, on its branch, succeeded.
abbrev failed_run : Analysis
failed_run = record row { head_branch = some (codes "main") }

abbrev followup : Followup
followup = record {
  repository = codes "o/r";
  workflow_name = codes "ci";
  head_branch = some (codes "main");
  pull_request_number = none;
  run_id = 8;
  run_attempt = 1;
  html_url = codes "u8";
  conclusion = codes "success";
  completed_at = 80;
}
