-- ===== src/Auth.antt =====
-- `AuthService.authenticate` of src/pipelens/auth.py. The hash of tokens, the ciphers of Fernet (the
-- first key, and the ring of all keys) and the decoder of UTF-8 are parameters.
pub mod Rotation
pub mod State
mod Tests
use pipe_lens.Common.{ℕ, Text, falsy, or_else, Option, none, some, [], if◌then◌else◌, leb}
use pipe_lens.Models.{GitHubUser}
use pipe_lens.Store.Accounts.{
  Accounts, AuthSession, get_auth_session, delete_auth_session, update_auth_session_token,
}

pub record AuthenticatedSession : Type 0 where
  pub session_hash : Text
  pub user : GitHubUser
  pub access_token : Text

-- `decrypt_primary` and `decrypt_ring` answer `none` where the cipher raises `InvalidToken`, and
-- `decode` where the bytes are no text.
pub record Ciphers : Type 0 where
  pub hash_token : Text → Text
  pub encrypt : Text → Text
  pub decrypt_primary : Text → Option Text
  pub decrypt_ring : Text → Option Text
  pub decode : Text → Option Text

module _ (c : Ciphers) where
  abbrev Answered : Type 0
  Answered = Option AuthenticatedSession × Accounts

  abbrev session_with : Text → AuthSession → Text → AuthenticatedSession
  session_with hash row access_token = record {
    session_hash = hash;
    user = record {
      github_user_id = row.github_user_id;
      login = row.login;
      avatar_url = row.avatar_url;
    };
    access_token = access_token;
  }

  abbrev decoded : Text → AuthSession → Accounts → Option Text → Answered
  decoded hash row a none = (none, delete_auth_session hash a)
  decoded hash row a (some access_token) = (some (session_with hash row access_token), a)

  abbrev by_ring : Text → AuthSession → Accounts → Option Text → Answered
  by_ring hash row a none = (none, delete_auth_session hash a)
  by_ring hash row a (some bytes) =
      decoded hash row (update_auth_session_token hash (c.encrypt bytes) a) (c.decode bytes)

  abbrev by_primary : Text → AuthSession → Accounts → Option Text → Answered
  by_primary hash row a none = by_ring hash row a (c.decrypt_ring row.encrypted_access_token)
  by_primary hash row a (some bytes) = decoded hash row a (c.decode bytes)

  abbrev looked_up : ℕ → Text → Accounts → Option AuthSession → Answered
  looked_up now hash a none = (none, a)
  looked_up now hash a (some row) =
      if leb row.expires_at now
      then (none, delete_auth_session hash a)
      else by_primary hash row a (c.decrypt_primary row.encrypted_access_token)

  unfoldable pub authenticate : ℕ → Option Text → Accounts → Answered
  unfolding get_auth_session delete_auth_session update_auth_session_token
  authenticate now token a =
      if falsy token
      then (none, a)
      else let hash = c.hash_token (or_else token []) in
        looked_up now hash a (get_auth_session hash a)
