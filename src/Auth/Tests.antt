-- ===== src/Auth/Tests.antt =====
-- A session whose token is under an old key. Here a cipher puts the number of its key in front.
use pipe_lens.Common.{
  ℕ, ◌≡◌, ◌↔◌, refl, Text, codes, text_eq, is_ascii, true, false, Option, none, some, [], ◌∷◌, ◌==◌,
  if◌then◌else◌,
}
use pipe_lens.Table.{first, update}
use pipe_lens.Store.Accounts.{Accounts, get_auth_session, update_auth_session_token}
use pipe_lens.Auth.{Ciphers, authenticate}
use pipe_lens.Auth.State.{
  new_oauth_state, verify_oauth_state, IsIssued, has_dot, verify_oauth_state-IsIssued,
}
use pipe_lens.Auth.Rotation.{IsAnswer, authenticate-IsAnswer}

abbrev opened_by : ℕ → Text → Option Text
opened_by key [] = none
opened_by key (k ∷ bytes) = if k == key then some bytes else none

abbrev opened : Text → Option Text
opened [] = none
opened (k ∷ bytes) = some bytes

abbrev ciphers : Ciphers
ciphers = record {
  hash_token = λ t. t;
  encrypt = λ bytes. 1 ∷ bytes;
  decrypt_primary = opened_by 1;
  decrypt_ring = opened;
  decode = some;
}

abbrev accounts_under : ℕ → Accounts
accounts_under key = record {
  users =
      record {
        github_user_id = 5;
        login = codes "ann";
        avatar_url = none;
        created_at = 10;
        updated_at = 10;
      }
      ∷ [];
  sessions =
      record {
        session_hash = codes "h";
        github_user_id = 5;
        encrypted_access_token = key ∷ codes "t";
        expires_at = 90;
        created_at = 10;
      }
      ∷ [];
  installations = [];
}

rotated_test : (authenticate ciphers 50 (some (codes "h")) (accounts_under 2)).1 ≡ accounts_under 1
unfolding authenticate first update get_auth_session update_auth_session_token text_eq
rotated_test = refl

expired_test : (authenticate ciphers 90 (some (codes "h")) (accounts_under 1)).0 ≡ none
unfolding authenticate first get_auth_session text_eq
expired_test = refl

authenticate-IsAnswer_example :
    IsAnswer ciphers 50
      (codes "h")
      (accounts_under 2)
      (authenticate ciphers 50 (some (codes "h")) (accounts_under 2))
authenticate-IsAnswer_example =
    authenticate-IsAnswer ciphers 50 (codes "h") (accounts_under 2) refl (λ bytes. refl)

-- A digest of one hexadecimal digit.
abbrev digest : Text → Text → Text
digest key [] = codes "a"
digest key (c ∷ cs) = codes "b"

forged_state_test :
    verify_oauth_state digest (codes "k") (some (codes "x.y.a")) (some (codes "x.y.a")) ≡ some false
unfolding verify_oauth_state
forged_state_test = refl

odd_state_test :
    verify_oauth_state digest (codes "k") (some (codes "é")) (some (codes "x.b")) ≡ none
unfolding verify_oauth_state
odd_state_test = refl

digest-is_ascii : (t : Text) → is_ascii (digest (codes "k") t) ≡ true
digest-is_ascii [] = refl
digest-is_ascii (c ∷ cs) = refl

digest-has_dot : (t : Text) → has_dot (digest (codes "k") t) ≡ false
digest-has_dot [] = refl
digest-has_dot (c ∷ cs) = refl

verify_oauth_state-IsIssued_example :
    let state = some (new_oauth_state digest (codes "k") (codes "n.m")) in
    (verify_oauth_state digest (codes "k") state state ≡ some true)
    ↔ IsIssued digest (codes "k") state state
verify_oauth_state-IsIssued_example =
    let state = some (new_oauth_state digest (codes "k") (codes "n.m")) in
    verify_oauth_state-IsIssued digest (codes "k") state state digest-is_ascii digest-has_dot
