-- ===== src/Store/Accounts.antt =====
-- `AnalysisStore`: the users, their sessions and their installations. An `IntegrityError` of a primary
-- or a foreign key is `none`, and undoes what the block wrote.
pub mod Sessions
mod Tests
use pipe_lens.Common.{
  ℕ, Text, text_eq, Bool, true, false, not, ◌&&◌, ◌||◌, Option, none, some, List, [], ◌∷◌, ◌++◌,
  map, ◌==◌, if◌then◌else◌, is_some, any,
}
use pipe_lens.Models.{GitHubUser, GitHubInstallation}
use pipe_lens.Table.{select, first, update, delete, order_by}

pub record UserRow : Type 0 where
  pub github_user_id : ℕ
  pub login : Text
  pub avatar_url : Option Text
  pub created_at : ℕ
  pub updated_at : ℕ

pub record SessionRow : Type 0 where
  pub session_hash : Text
  pub github_user_id : ℕ
  pub encrypted_access_token : Text
  pub expires_at : ℕ
  pub created_at : ℕ

pub record InstallationRow : Type 0 where
  pub github_user_id : ℕ
  pub installation : GitHubInstallation
  pub updated_at : ℕ

pub record Accounts : Type 0 where
  pub users : List UserRow
  pub sessions : List SessionRow
  pub installations : List InstallationRow

abbrev pub is_user : ℕ → UserRow → Bool
is_user id r = r.github_user_id == id

abbrev pub is_session : Text → SessionRow → Bool
is_session hash r = text_eq r.session_hash hash

abbrev pub is_owner : ℕ → InstallationRow → Bool
is_owner id r = r.github_user_id == id

abbrev user_changed : ℕ → GitHubUser → UserRow → UserRow
user_changed now user r = record r {
  login = user.login;
  avatar_url = user.avatar_url;
  updated_at = now;
}

unfoldable pub upsert_github_user : ℕ → GitHubUser → Accounts → Accounts
upsert_github_user now user a = record a {
  users =
      if is_some (first (is_user user.github_user_id) a.users)
      then update (is_user user.github_user_id) (user_changed now user) a.users
      else a.users
        ++ record {
          github_user_id = user.github_user_id;
          login = user.login;
          avatar_url = user.avatar_url;
          created_at = now;
          updated_at = now;
        }
          ∷ [];
}

-- Two of the installations have the same id.
unfoldable pub has_duplicate : List GitHubInstallation → Bool
has_duplicate [] = false
has_duplicate (i ∷ is) =
    any (λ (j : GitHubInstallation). j.installation_id == i.installation_id) is || has_duplicate is

abbrev is_empty : List GitHubInstallation → Bool
is_empty [] = true
is_empty (_ ∷ _) = false

abbrev pub owned : ℕ → ℕ → GitHubInstallation → InstallationRow
owned now id i = record { github_user_id = id; installation = i; updated_at = now }

unfoldable pub replace_user_installations :
    ℕ → ℕ → List GitHubInstallation → Accounts → Option Accounts
unfolding has_duplicate
replace_user_installations now id installations a =
    if (not (is_empty installations) && not (is_some (first (is_user id) a.users)))
      || has_duplicate installations
    then none
    else some (record a {
      installations = delete (is_owner id) a.installations ++ map (owned now id) installations;
    })

unfoldable pub create_auth_session : ℕ → Text → ℕ → Text → ℕ → Accounts → Option Accounts
create_auth_session now hash id token expires_at a =
    if is_some (first (is_session hash) a.sessions) || not (is_some (first (is_user id) a.users))
    then none
    else some (record a {
      sessions =
          a.sessions
          ++ record {
            session_hash = hash;
            github_user_id = id;
            encrypted_access_token = token;
            expires_at = expires_at;
            created_at = now;
          }
            ∷ [];
    })

-- `AuthSessionRow`
pub record AuthSession : Type 0 where
  pub github_user_id : ℕ
  pub encrypted_access_token : Text
  pub expires_at : ℕ
  pub login : Text
  pub avatar_url : Option Text

-- The join of a session with its user.
abbrev pub joined : SessionRow → Option UserRow → Option AuthSession
joined s none = none
joined s (some user) = some (record {
  github_user_id = s.github_user_id;
  encrypted_access_token = s.encrypted_access_token;
  expires_at = s.expires_at;
  login = user.login;
  avatar_url = user.avatar_url;
})

abbrev session_of : List UserRow → Option SessionRow → Option AuthSession
session_of users none = none
session_of users (some s) = joined s (first (is_user s.github_user_id) users)

unfoldable pub get_auth_session : Text → Accounts → Option AuthSession
get_auth_session hash a = session_of a.users (first (is_session hash) a.sessions)

unfoldable pub delete_auth_session : Text → Accounts → Accounts
delete_auth_session hash a = record a { sessions = delete (is_session hash) a.sessions }

unfoldable pub update_auth_session_token : Text → Text → Accounts → Accounts
update_auth_session_token hash token a = record a {
  sessions =
      update (is_session hash) (λ (s : SessionRow). record s { encrypted_access_token = token })
        a.sessions;
}

-- `order_by(account_login)`: `before` is the order of texts in the database.
unfoldable pub installations_for_user :
    (Text → Text → Bool) → ℕ → Accounts → List GitHubInstallation
installations_for_user before id a =
    map (λ (r : InstallationRow). r.installation)
      (order_by
        (λ (x : InstallationRow) (y : InstallationRow).
          before x.installation.account_login y.installation.account_login)
        (select (is_owner id) a.installations))
