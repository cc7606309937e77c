-- ===== src/Auth/Sessions/Safety.antt =====
-- Whom a request is taken for.
use wispbox.Base.{
  ℕ, Text, true, false, Option, none, some, ok, arith, ◌≡◌, ◌⊎◌, inl, inr, refl, In, same, same_iff,
  Bool-cases, [],
}
use wispbox.Base.Rows.{find, find-In}
use wispbox.Db.Models.{Session, UserType, admin, mailbox}
use wispbox.Db.Tables.{Store}
use wispbox.Db.Sessions.{lookup_session, check_session, same_user_type, is_over}
use wispbox.Auth.Sessions.{
  Sessions, Request, session_cookie, resolve, resolve_token, verify_csrf, is_safe, csrf_token,
  require_session,
}

-- Two user types with the same code are one.
same_user_type_eq : (t u : UserType) → same_user_type t u ≡ true → t ≡ u
same_user_type_eq admin admin h = refl
same_user_type_eq mailbox mailbox h = refl
same_user_type_eq admin mailbox h = cc
same_user_type_eq mailbox admin h = cc

module _ (hash mac : Text → Text) where
  -- What a session that the token proves is like.
  pub record IsProven (now : ℕ) (token : Text) (user_type : UserType) (x : Session) (st : Sessions)
      : Type 0 where
    pub stored : In x st.store.sessions
    pub is_hashed : x.id ≡ hash token
    pub of_type : x.user_type ≡ user_type
    pub alive : is_over now x ≡ false

  check_session_ok :
      (now : ℕ) (want : UserType) (o : Option Session) (s : Store) (x : Session)
      → (check_session now want o s).1 ≡ ok x
      → (o ≡ some x) × (same_user_type x.user_type want ≡ true) × (is_over now x ≡ false)
  unfolding check_session
  check_session_ok now want none s x h = cc
  check_session_ok now want (some y) s x h = ground arith

  lookup_session_ok :
      (now : ℕ) (token : Text) (want : UserType) (s : Store) (x : Session)
      → (lookup_session hash now token want s).1 ≡ ok x
      → In x s.sessions × (x.id ≡ hash token) × (x.user_type ≡ want) × (is_over now x ≡ false)
  unfolding lookup_session
  lookup_session_ok now token want s x h = elim (Bool-cases (same token [])) [
    | inl e ↦ ground arith
    | inr e ↦
        let found = find (λ (x : Session). same x.id (hash token)) s.sessions in
        let (q, t, live) = check_session_ok now want found s x (ground arith) in
        let (m, k) = find-In (λ (x : Session). same x.id (hash token)) s.sessions q in
        (m, (same_iff x.id (hash token)).0 k, same_user_type_eq x.user_type want t, live)
  ]

  resolve_token-some :
      (now : ℕ) (user_type : UserType) (o : Option Text) (st : Sessions) (x : Session)
      → (resolve_token hash mac now user_type o st).1 ≡ some x
      → (token : Text) × (o ≡ some token) × IsProven now token user_type x st
  resolve_token-some now user_type none st x h = cc
  resolve_token-some now user_type (some token) st x h =
      let (m, i, t, live) = lookup_session_ok now token user_type st.store x (ground arith) in
      (token, refl, record { stored = m; is_hashed = i; of_type = t; alive = live })

  -- A session that a request resolves to as one user type is stored under the hash of the request's
  -- cookie for this user type, was made for this user type, and has not expired.
  pub resolve-IsProven :
      (now : ℕ) (r : Request) (user_type : UserType) (st : Sessions) (x : Session)
      → (resolve hash mac now r user_type st).1 ≡ some x
      → (token : Text) × (session_cookie r user_type ≡ some token)
        × IsProven now token user_type x st
  unfolding resolve
  resolve-IsProven now r user_type st x =
      resolve_token-some now user_type (session_cookie r user_type) st x

  -- A request that the guard lets through as one user type presents, in its cookie for this user type, a
  -- token under whose hash an unexpired session of this user type is stored; unless its method is GET
  -- or HEAD, its CSRF header is the token derived from this very cookie.
  pub require_session-IsProven :
      (now : ℕ) (r : Request) (user_type : UserType) (st : Sessions) (x : Session)
      → (require_session hash mac now r user_type st).1 ≡ ok x
      → (token : Text) × (session_cookie r user_type ≡ some token)
        × IsProven now token user_type x st
        × ((is_safe r ≡ true) ⊎ (r.csrf_header ≡ csrf_token hash mac token))
  unfolding require_session verify_csrf
  require_session-IsProven now r user_type st x h =
      let found : (resolve hash mac now r user_type st).1 ≡ some x = ground arith in
      let (token, e, p) = resolve-IsProven now r user_type st x found in
      (
        token,
        e,
        p,
        elim (Bool-cases (is_safe r)) [
          | inl k ↦ inl k
          | inr k ↦ inr ((same_iff r.csrf_header (csrf_token hash mac token)).0 (ground arith))
        ],
      )
