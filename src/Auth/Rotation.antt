-- ===== src/Auth/Rotation.antt =====
-- Who a session token lets in, and the rotation of the keys.
use pipe_lens.Common.{
  ℕ, ◌<◌, ◌≡◌, refl, ap, Text, falsy, false, Option, none, some, leb, arith, Bool-cases,
  Option-cases, inl, inr, ◌⊎◌,
}
use pipe_lens.Table.{first}
use pipe_lens.Table.Rows.{first-delete, first-update}
use pipe_lens.Store.Accounts.{
  Accounts, SessionRow, AuthSession, is_session, is_user, joined, get_auth_session,
  delete_auth_session, update_auth_session_token,
}
use pipe_lens.Auth.{
  AuthenticatedSession, Ciphers, session_with, decoded, by_ring, by_primary, authenticate,
}

deleted_session :
    (hash : Text) (a : Accounts) → get_auth_session hash (delete_auth_session hash a) ≡ none
unfolding get_auth_session delete_auth_session
deleted_session hash a = rw (first-delete (is_session hash) a.sessions) refl

-- The row of a session whose token is encrypted anew.
abbrev with_token : Text → AuthSession → AuthSession
with_token token row = record row { encrypted_access_token = token }

abbrev renewed : Text → Option AuthSession → Option AuthSession
renewed token none = none
renewed token (some row) = some (with_token token row)

updated_session :
    (hash token : Text) (a : Accounts) (row : AuthSession)
    → get_auth_session hash a ≡ some row
    → get_auth_session hash (update_auth_session_token hash token a) ≡ some (with_token token row)
unfolding get_auth_session update_auth_session_token
updated_session hash token a row h = elim (Option-cases (first (is_session hash) a.sessions)) [
  | inl gone ↦ cc (rw gone at h)
  | inr (s, found) ↦ elim (Option-cases (first (is_user s.github_user_id) a.users)) [
    | inl gone ↦ cc (rw (found, gone) at h)
    | inr (user, known) ↦
        let same : joined s (some user) ≡ some row = rw (found, known) at h in
        rw
          (
            first-update (is_session hash)
                (λ (x : SessionRow). record x { encrypted_access_token = token }) (λ x. refl)
                a.sessions s found,
            known,
          )
          (ap (renewed token) same)
  ]
]

module _ (c : Ciphers) where
  -- What an accepted session rests on: a row that has not expired, whose token one of the keys opens;
  -- its token is under the first key from then on.
  abbrev pub Granted : ℕ → Text → Accounts → Accounts → AuthenticatedSession → Type 0
  Granted now hash a a' s =
      (row row' : AuthSession) × (bytes : Text) × (get_auth_session hash a ≡ some row)
      × (now < row.expires_at)
      × (s ≡ session_with c hash row s.access_token)
      × (c.decode bytes ≡ some s.access_token)
      × ((c.decrypt_primary row.encrypted_access_token ≡ some bytes)
          ⊎ (c.decrypt_ring row.encrypted_access_token ≡ some bytes))
      × (get_auth_session hash a' ≡ some row')
      × (row'.expires_at ≡ row.expires_at)
      × (c.decrypt_primary row'.encrypted_access_token ≡ some bytes)

  -- What `authenticate` answers: nobody, and no session of the token is left, or the user.
  abbrev pub IsAnswer : ℕ → Text → Accounts → Option AuthenticatedSession × Accounts → Type 0
  IsAnswer now hash a (none, a') = get_auth_session hash a' ≡ none
  IsAnswer now hash a (some s, a') = Granted now hash a a' s

  module _ (opens : (bytes : Text) → c.decrypt_primary (c.encrypt bytes) ≡ some bytes) (now : ℕ)
      (hash : Text) (a : Accounts) (row : AuthSession) (stored : get_auth_session hash a ≡ some row)
      (lasts : now < row.expires_at) where
    decoded-IsAnswer :
        (bytes : Text) (a' : Accounts) (row' : AuthSession)
        → ((c.decrypt_primary row.encrypted_access_token ≡ some bytes)
            ⊎ (c.decrypt_ring row.encrypted_access_token ≡ some bytes))
        → get_auth_session hash a' ≡ some row'
        → row'.expires_at ≡ row.expires_at
        → c.decrypt_primary row'.encrypted_access_token ≡ some bytes
        → IsAnswer now hash a (decoded c hash row a' (c.decode bytes))
    decoded-IsAnswer bytes a' row' opened kept same first_key =
        elim (Option-cases (c.decode bytes)) [
          | inl bad ↦ rw bad (deleted_session hash a')
          | inr (t, ok_) ↦
              rw ok_ (row, row', bytes, stored, lasts, refl, ok_, opened, kept, same, first_key)
        ]

    by_ring-IsAnswer :
        IsAnswer now hash a (by_ring c hash row a (c.decrypt_ring row.encrypted_access_token))
    by_ring-IsAnswer = elim (Option-cases (c.decrypt_ring row.encrypted_access_token)) [
      | inl closed ↦ rw closed (deleted_session hash a)
      | inr (bytes, opened) ↦ rw opened (
          decoded-IsAnswer bytes (update_auth_session_token hash (c.encrypt bytes) a)
            (with_token (c.encrypt bytes) row) (inr opened)
            (updated_session hash (c.encrypt bytes) a row stored) refl (opens bytes))
    ]

    by_primary-IsAnswer :
        IsAnswer now hash a (by_primary c hash row a (c.decrypt_primary row.encrypted_access_token))
    by_primary-IsAnswer = elim (Option-cases (c.decrypt_primary row.encrypted_access_token)) [
      | inl closed ↦ rw closed by_ring-IsAnswer
      | inr (bytes, opened) ↦
          rw opened (decoded-IsAnswer bytes a row (inl opened) stored refl opened)
    ]

  -- When the first key opens what it has encrypted, authenticate with a token answers nobody and leaves
  -- no session of that token, or the user of a stored session that has not expired, with the access
  -- token that the first key or the ring finds in it; the session is then still stored until the same
  -- time, and the first key alone opens it to the same access token.
  pub authenticate-IsAnswer :
      (now : ℕ) (token : Text) (a : Accounts)
      → falsy (some token) ≡ false
      → ((bytes : Text) → c.decrypt_primary (c.encrypt bytes) ≡ some bytes)
      → IsAnswer now (c.hash_token token) a (authenticate c now (some token) a)
  unfolding authenticate
  authenticate-IsAnswer now token a given opens =
      let hash = c.hash_token token in
      elim (Option-cases (get_auth_session hash a)) [
        | inl gone ↦ rw (given, gone) gone
        | inr (row, stored) ↦ elim (Bool-cases (leb row.expires_at now)) [
          | inl over ↦ rw (given, stored, over) (deleted_session hash a)
          | inr lasts ↦
              let lt : now < row.expires_at = ground arith in
              rw (given, stored, lasts) (by_primary-IsAnswer opens now hash a row stored lt)
        ]
      ]
