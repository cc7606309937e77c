-- ===== src/Auth/Sessions/Lifetime.antt =====
-- From signing in to signing out.
use wispbox.Base.{
  if◌then◌else◌, sym, ◌∙◌, ℕ, ◌+◌, Text, true, false, not, ◌||◌, Option, none, some, ok, err, arith,
  ◌≡◌, ◌≢◌, inl, inr, refl, same, same_iff, same_refl, Bool-cases, [], ltb,
}
use wispbox.Base.Rows.{find, exists, find-append, find-exists, find-delete, find-delete_gone}
use wispbox.Db.Models.{Session, UserType, admin, mailbox}
use wispbox.Db.Tables.{Store, format_time, parse_time}
use wispbox.Db.Sessions.{
  create_session, lookup_session, check_session, same_user_type, is_over, delete_session,
  delete_session_by_id,
}
use wispbox.Auth.Sessions.{
  Sessions, Request, Cookie, Credentials, session_cookie, resolve, resolve_token, login, logout,
  session_ttl, keep_credentials, credentials_for, set_credentials, forget_credentials, Entry,
}

same_user_type_refl : (t : UserType) → same_user_type t t ≡ true
same_user_type_refl admin = refl
same_user_type_refl mailbox = refl

-- The row of a session that signing in makes.
abbrev pub new_session : Text → ℕ → UserType → ℕ → Session
new_session id now user_type user_id = record {
  id = id;
  user_type = user_type;
  user_id = user_id;
  expires_at = format_time (now + session_ttl user_type);
  created_at = format_time now;
}

-- What a request's token resolves to, by the rows alone.
abbrev pub outcome : ℕ → UserType → Text → Option Session → Option Session
outcome now want token none = none
outcome now want token (some x) =
    if same token [] || (not (same_user_type x.user_type want) || is_over now x)
    then none
    else some x

check_outcome :
    (now : ℕ) (want : UserType) (token : Text) (o : Option Session) (s : Store)
    → same token [] ≡ false
    → (elim (check_session now want o s).1 [ ok x ↦ some x | err _ ↦ none ])
      ≡ outcome now want token o
unfolding check_session
check_outcome now want token none s h = refl
check_outcome now want token (some x) s h = ground arith

empty_outcome :
    (now : ℕ) (want : UserType) (token : Text) (o : Option Session)
    → same token [] ≡ true
    → none ≡ outcome now want token o
empty_outcome now want token none h = refl
empty_outcome now want token (some x) h = ground arith

apart : (id a b : Text) → a ≢ b → same id a ≡ true → same id b ≡ false
apart id a b ne h = elim (Bool-cases (same id b)) [
  | inr e ↦ e
  | inl e ↦ absurd (ne (sym ((same_iff id a).0 h) ∙ (same_iff id b).0 e))
]

module _ (hash mac : Text → Text) where
  abbrev row_of : Text → Sessions → Option Session
  row_of token st = find (λ x. same x.id (hash token)) st.store.sessions

  pub resolve_token-outcome :
      (now : ℕ) (want : UserType) (token : Text) (st : Sessions)
      → (resolve_token hash mac now want (some token) st).1
        ≡ outcome now want token (row_of token st)
  unfolding lookup_session check_session
  resolve_token-outcome now want token st = elim (Bool-cases (same token [])) [
    | inl e ↦ rw (e, resolve_token) (empty_outcome now want token (row_of token st) e)
    | inr e ↦ rw (e, resolve_token) (check_outcome now want token (row_of token st) st.store e)
  ]

  pub keep_credentials_store :
      (id : Text) (c : Option Credentials) (st : Sessions)
      → (keep_credentials id c st).store ≡ st.store
  unfolding set_credentials
  keep_credentials_store id none st = refl
  keep_credentials_store id (some c) st = refl

  login_row :
      (now : ℕ) (token : Text) (user_type : UserType) (user_id : ℕ) (c : Option Credentials)
      (st : Sessions) (cookie : Cookie) (csrf : Text)
      → (login hash mac now token user_type user_id c st).1 ≡ ok (cookie, csrf)
      → (cookie.value ≡ token)
        × (row_of token (login hash mac now token user_type user_id c st).0
            ≡ some (new_session (hash token) now user_type user_id))
  unfolding login create_session
  login_row now token user_type user_id c st cookie csrf h =
      elim (Bool-cases (exists (λ (x : Session). same x.id (hash token)) st.store.sessions)) [
        | inl k ↦ ground arith
        | inr k ↦ (
          ground arith,
          rw
              (
                k,
                login,
                create_session,
                keep_credentials_store,
                create_session,
                k,
                find-append,
                find-exists (λ (x : Session). same x.id (hash token)) st.store.sessions k,
                same_refl,
              )
              refl,
        )
      ]

  -- After a login that succeeds, a request whose cookie for the user type holds the value that the login
  -- set resolves to the user's session up to the end of the session's lifetime in whole milliseconds,
  -- 12 hours for an admin and 7 days for a mailbox, and to none after it.
  pub login-resolve :
      (now : ℕ) (token : Text) (user_type : UserType) (user_id : ℕ) (c : Option Credentials)
      (st : Sessions) (cookie : Cookie) (csrf : Text)
      → token ≢ []
      → (login hash mac now token user_type user_id c st).1 ≡ ok (cookie, csrf)
      → (later : ℕ) (r : Request) → session_cookie r user_type ≡ some cookie.value
      → (resolve hash mac later r user_type (login hash mac now token user_type user_id c st).0).1
        ≡ (if ltb (parse_time (format_time (now + session_ttl user_type))) later
            then none
            else some (new_session (hash token) now user_type user_id))
  unfolding resolve
  login-resolve now token user_type user_id c st cookie csrf e h later r k =
      let (q, found) = login_row now token user_type user_id c st cookie csrf h in
      rw (k, q, resolve_token-outcome, found)
        (ground (arith, same_iff token [], same_user_type_refl user_type))

  -- After a logout by a request with a session cookie, no request resolves by that cookie's token as any
  -- user type, and the session's mail credentials are gone.
  pub logout_ends :
      (r : Request) (user_type : UserType) (st : Sessions) (token : Text)
      → session_cookie r user_type ≡ some token
      → (now : ℕ) (r' : Request) (user_type' : UserType) → session_cookie r' user_type' ≡ some token
      → ((resolve hash mac now r' user_type' (logout hash mac r user_type st).0).1 ≡ none)
        × (credentials_for (hash token) (logout hash mac r user_type st).0 ≡ none)
  unfolding resolve logout delete_session delete_session_by_id forget_credentials credentials_for
  logout_ends r user_type st token e now r' user_type' e' =
      rw (e, e', resolve_token-outcome)
        (
          rw
              (find-delete_gone (λ (x : Session). same x.id (hash token))
                (λ x. same x.id (hash token)) st.store.sessions (λ x k. k))
              refl,
          rw
              (
                credentials_for,
                find-delete_gone (λ (x : Entry). same x.session_id (hash token))
                    (λ x. same x.session_id (hash token)) st.creds (λ x k. k),
              )
              refl,
        )

  -- A logout leaves every other session: a request whose token has another hash resolves as before, and
  -- that session's mail credentials are as before.
  pub logout_keeps :
      (r : Request) (user_type : UserType) (st : Sessions) (token : Text)
      → session_cookie r user_type ≡ some token
      → (now : ℕ) (r' : Request) (user_type' : UserType) (other : Text)
      → session_cookie r' user_type' ≡ some other
      → hash other ≢ hash token
      → ((resolve hash mac now r' user_type' (logout hash mac r user_type st).0).1
          ≡ (resolve hash mac now r' user_type' st).1)
        × (credentials_for (hash other) (logout hash mac r user_type st).0
            ≡ credentials_for (hash other) st)
  unfolding resolve logout delete_session delete_session_by_id forget_credentials credentials_for
  logout_keeps r user_type st token e now r' user_type' other e' ne =
      rw (e, e', resolve_token-outcome, resolve_token-outcome)
        (
          rw
              (find-delete (λ (x : Session). same x.id (hash other)) (λ x. same x.id (hash token))
                st.store.sessions (λ x k. apart x.id (hash other) (hash token) ne k))
              refl,
          rw
              (
                credentials_for,
                find-delete (λ (x : Entry). same x.session_id (hash other))
                    (λ x. same x.session_id (hash token)) st.creds
                    (λ x k. apart x.session_id (hash other) (hash token) ne k),
              )
              refl,
        )
