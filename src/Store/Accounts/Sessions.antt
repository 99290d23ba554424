-- ===== src/Store/Accounts/Sessions.antt =====
-- The life of a session, and whose installations a replacement touches.
use pipe_lens.Common.{
  ℕ, ◌≡◌, ◌≢◌, refl, ◌∙◌, Text, text_eq_refl, text_eq→≡, Bool, true, false, none, some, List, [],
  ◌∷◌, ◌++◌, map, ◌==◌, ==_refl, arith, Bool-cases, inl, inr, append-nil,
}
use pipe_lens.Models.{GitHubInstallation}
use pipe_lens.Table.{select, first, delete, order_by}
use pipe_lens.Table.Rows.{
  first-append, first-delete, first-delete_other, select-delete, select-delete_other, select-append,
}
use pipe_lens.Store.Accounts.{
  Accounts, UserRow, SessionRow, InstallationRow, is_user, is_session, is_owner, owned,
  create_auth_session, get_auth_session, delete_auth_session, replace_user_installations,
  installations_for_user,
}

other_session :
    (hash other : Text)
    → other ≢ hash
    → (x : SessionRow) → is_session other x ≡ true
    → is_session hash x ≡ false
other_session hash other ne x e = elim (Bool-cases (is_session hash x)) [
  | inl on ↦ elim (ne (cc (text_eq→≡ x.session_hash hash on, text_eq→≡ x.session_hash other e))) [ ]
  | inr off ↦ off
]

other_owner :
    (id other : ℕ)
    → other ≢ id
    → (x : InstallationRow) → is_owner other x ≡ true
    → is_owner id x ≡ false
other_owner id other ne x e = ground arith

select-owned :
    (now id : ℕ) (is : List GitHubInstallation)
    → select (is_owner id) (map (owned now id) is) ≡ map (owned now id) is
unfolding select
select-owned now id [] = refl
select-owned now id (i ∷ is) = rw (==_refl id) (rw (select-owned now id is) refl)

select-owned_other :
    (now id other : ℕ) (is : List GitHubInstallation)
    → other ≢ id
    → select (is_owner other) (map (owned now id) is) ≡ []
unfolding select
select-owned_other now id other [] ne = refl
select-owned_other now id other (i ∷ is) ne =
    let off : (id == other) ≡ false = ground arith in rw off (select-owned_other now id other is ne)

-- A hash that has no session and a user that is stored: `create_auth_session` succeeds, the session is
-- then found with the login of the user, and a logout with the hash ends it and no other session.
pub create_auth_session_lem :
    (now : ℕ) (hash : Text) (id : ℕ) (token : Text) (expires_at : ℕ) (a : Accounts) (user : UserRow)
    → first (is_session hash) a.sessions ≡ none
    → first (is_user id) a.users ≡ some user
    → (other : Text) → other ≢ hash
    → (a' : Accounts) × (create_auth_session now hash id token expires_at a ≡ some a')
      × (get_auth_session hash a'
          ≡ some (record {
            github_user_id = id;
            encrypted_access_token = token;
            expires_at = expires_at;
            login = user.login;
            avatar_url = user.avatar_url;
          }))
      × (get_auth_session hash (delete_auth_session hash a') ≡ none)
      × (get_auth_session other (delete_auth_session hash a') ≡ get_auth_session other a')
unfolding create_auth_session get_auth_session delete_auth_session
create_auth_session_lem now hash id token expires_at a user free known other ne =
    let row : SessionRow = record {
      session_hash = hash;
      github_user_id = id;
      encrypted_access_token = token;
      expires_at = expires_at;
      created_at = now;
    } in
    let here : first (is_session hash) (row ∷ []) ≡ some row =
      unfold first in rw (text_eq_refl hash) refl in
    let found : first (is_session hash) (a.sessions ++ row ∷ []) ≡ some row =
      first-append (is_session hash) a.sessions (row ∷ []) free ∙ here in
    (
      record a { sessions = a.sessions ++ row ∷ [] },
      rw (free, known) refl,
      rw found (rw known refl),
      rw (first-delete (is_session hash) (a.sessions ++ row ∷ [])) refl,
      rw
          (first-delete_other (is_session hash) (is_session other)
            (λ x e. other_session hash other ne x e) (a.sessions ++ row ∷ []))
          refl,
    )

-- A replacement that succeeds leaves the user the given installations, in the order of their
-- accounts, and every other user theirs.
pub replace_user_installations_lem :
    (before : Text → Text → Bool) (now id : ℕ) (is : List GitHubInstallation) (a a' : Accounts)
    → replace_user_installations now id is a ≡ some a'
    → (other : ℕ) → other ≢ id
    → (installations_for_user before id a'
        ≡ map
            (λ (r : InstallationRow). r.installation)
            (order_by
              (λ (x : InstallationRow) (y : InstallationRow).
                before x.installation.account_login y.installation.account_login)
              (map (owned now id) is)))
      × (installations_for_user before other a' ≡ installations_for_user before other a)
unfolding replace_user_installations installations_for_user
replace_user_installations_lem before now id is a a' h other ne =
    let rows = delete (is_owner id) a.installations ++ map (owned now id) is in
    let stored : a'.installations ≡ rows = ground arith in
    (
      rw
          (
            stored,
            select-append (is_owner id) (delete (is_owner id) a.installations)
                (map (owned now id) is),
            select-delete (is_owner id) a.installations,
            select-owned now id is,
          )
          refl,
      rw
          (
            stored,
            select-append (is_owner other) (delete (is_owner id) a.installations)
                (map (owned now id) is),
            select-delete_other (is_owner id) (is_owner other) (other_owner id other ne)
                a.installations,
            select-owned_other now id other is ne,
            append-nil,
          )
          refl,
    )
