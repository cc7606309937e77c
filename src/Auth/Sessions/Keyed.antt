-- ===== src/Auth/Sessions/Keyed.antt =====
-- Sweeping out expired sessions, over every sequence of the operations on sessions.
use wispbox.Base.{
  ap, ℕ, ◌≤◌, Text, not, List, [], Option, none, some, arith, ◌≡◌, inl, inr, refl, sym, ◌∙◌, same,
  Bool-cases, ltb, if◌then◌else◌, subst,
}
use wispbox.Base.Rows.{find, exists}
use wispbox.Base.Keyed.{IsKeyedBy, delete-IsKeyed, append-IsKeyed, find-delete_keyed}
use wispbox.Db.Models.{Session, UserType}
use wispbox.Db.Tables.{Store, format_time}
use wispbox.Db.Sessions.{
  create_session, lookup_session, check_session, is_over, delete_session, delete_session_by_id,
  prune_sessions, same_user_type,
}
use wispbox.Auth.Sessions.{
  drop_session, forget_credentials, Sessions, Request, Credentials, session_cookie, resolve,
  resolve_token, login, logout, sweep,
}
use wispbox.Auth.Sessions.Lifetime.{outcome, resolve_token-outcome, keep_credentials_store}

-- id is the PRIMARY KEY of the table.
abbrev pub IsKeyed : List Session → Type 0
IsKeyed = IsKeyedBy (λ x. x.id)

module _ (hash mac : Text → Text) where
  -- The operations, with whatever arguments, and all else that leaves the sessions alone.
  pub data Step (st : Sessions) : Sessions → Type 0 where
    logs_in :
        (now : ℕ) (token : Text) (user_type : UserType) (user_id : ℕ) (c : Option Credentials)
        → Step st (login hash mac now token user_type user_id c st).0
    logs_out : (r : Request) (user_type : UserType) → Step st (logout hash mac r user_type st).0
    asks :
        (now : ℕ) (r : Request) (user_type : UserType)
        → Step st (resolve hash mac now r user_type st).0
    sweeps : (now : ℕ) → Step st (sweep now st)
    other : {st' : Sessions} → st'.store.sessions ≡ st.store.sessions → Step st st'

  pub data Reach (st : Sessions) : Sessions → Type 0 where
    here : Reach st st
    next : {st' st'' : Sessions} → Reach st st' → Step st' st'' → Reach st st''

  login-IsKeyed :
      (now : ℕ) (token : Text) (user_type : UserType) (user_id : ℕ) (c : Option Credentials)
      (st : Sessions)
      → IsKeyed st.store.sessions
      → IsKeyed (login hash mac now token user_type user_id c st).0.store.sessions
  unfolding login create_session
  login-IsKeyed now token user_type user_id c st h =
      elim (Bool-cases (exists (λ (x : Session). same x.id (hash token)) st.store.sessions)) [
        | inl k ↦ rw (login, create_session, k, create_session, k) h
        | inr k ↦
            rw (login, create_session, k, keep_credentials_store, create_session, k)
              (append-IsKeyed (λ (y : Session). y.id) st.store.sessions _ h k)
      ]

  drop-IsKeyed :
      (o : Option Text) (st : Sessions)
      → IsKeyed st.store.sessions
      → IsKeyed (drop_session hash mac o st).store.sessions
  unfolding delete_session delete_session_by_id forget_credentials
  drop-IsKeyed none st h = h
  drop-IsKeyed (some token) st h =
      delete-IsKeyed (λ (y : Session). y.id) (λ x. same x.id (hash token)) st.store.sessions h

  check-IsKeyed :
      (now : ℕ) (want : UserType) (o : Option Session) (s : Store)
      → IsKeyed s.sessions
      → IsKeyed (check_session now want o s).0.sessions
  unfolding check_session delete_session_by_id
  check-IsKeyed now want none s h = h
  check-IsKeyed now want (some x) s h = elim (Bool-cases (not (same_user_type x.user_type want))) [
    | inl e ↦ rw e h
    | inr e ↦ rw e (elim (Bool-cases (is_over now x)) [
      | inl k ↦ rw k (delete-IsKeyed (λ (y : Session). y.id) (λ y. same y.id x.id) s.sessions h)
      | inr k ↦ rw k h
    ])
  ]

  token-IsKeyed :
      (now : ℕ) (want : UserType) (o : Option Text) (st : Sessions)
      → IsKeyed st.store.sessions
      → IsKeyed (resolve_token hash mac now want o st).0.store.sessions
  unfolding lookup_session
  token-IsKeyed now want none st h = h
  token-IsKeyed now want (some token) st h = elim (Bool-cases (same token [])) [
    | inl e ↦ rw (e, resolve_token) h
    | inr e ↦
        rw (e, resolve_token)
          (check-IsKeyed now want (find (λ x. same x.id (hash token)) st.store.sessions) st.store h)
  ]

  logout-IsKeyed :
      (r : Request) (user_type : UserType) (st : Sessions)
      → IsKeyed st.store.sessions
      → IsKeyed (logout hash mac r user_type st).0.store.sessions
  unfolding logout
  logout-IsKeyed r user_type st h = drop-IsKeyed (session_cookie r user_type) st h

  resolve-IsKeyed :
      (now : ℕ) (r : Request) (user_type : UserType) (st : Sessions)
      → IsKeyed st.store.sessions
      → IsKeyed (resolve hash mac now r user_type st).0.store.sessions
  unfolding resolve
  resolve-IsKeyed now r user_type st h =
      token-IsKeyed now user_type (session_cookie r user_type) st h

  Step-IsKeyed :
      {st st' : Sessions} → Step st st' → IsKeyed st.store.sessions → IsKeyed st'.store.sessions
  unfolding sweep prune_sessions
  Step-IsKeyed {st} (logs_in now token user_type user_id c) h =
      login-IsKeyed now token user_type user_id c st h
  Step-IsKeyed {st} (logs_out r user_type) h = logout-IsKeyed r user_type st h
  Step-IsKeyed {st} (asks now r user_type) h = resolve-IsKeyed now r user_type st h
  Step-IsKeyed {st} (sweeps now) h =
      delete-IsKeyed (λ (y : Session). y.id) (λ x. ltb x.expires_at (format_time now))
        st.store.sessions h
  Step-IsKeyed (other e) h = subst IsKeyed (sym e) h

  Reach-IsKeyed :
      {st st' : Sessions} → IsKeyed st.store.sessions → Reach st st' → IsKeyed st'.store.sessions
  Reach-IsKeyed h here = h
  Reach-IsKeyed h (next r step) = Step-IsKeyed step (Reach-IsKeyed h r)

  sweep_outcome :
      (now later : ℕ)
      → now ≤ later
      → (want : UserType) (token : Text) (o : Option Session)
      → outcome later want token (elim o [
        | none ↦ none
        | some x ↦ if ltb x.expires_at (format_time now) then none else some x
      ])
        ≡ outcome later want token o
  sweep_outcome now later le want token none = refl
  sweep_outcome now later le want token (some x) = ground arith

  sweep_token :
      (now later : ℕ)
      → now ≤ later
      → (want : UserType) (st : Sessions) → IsKeyed st.store.sessions
      → (o : Option Text)
      → (resolve_token hash mac later want o (sweep now st)).1
        ≡ (resolve_token hash mac later want o st).1
  unfolding sweep prune_sessions
  sweep_token now later le want st h none = refl
  sweep_token now later le want st h (some token) =
      resolve_token-outcome hash mac later want token (sweep now st)
      ∙ ap (outcome later want token) (
          find-delete_keyed (λ (y : Session). y.id) (λ x. ltb x.expires_at (format_time now))
            (hash token) st.store.sessions h)
      ∙ sweep_outcome now later le want token (find (λ x. same x.id (hash token)) st.store.sessions)
      ∙ sym (resolve_token-outcome hash mac later want token st)

  -- In every state that logins, logouts, requests and sweeps reach from one without sessions, a sweep
  -- changes no answer: a request that comes no earlier than the sweep resolves as without it.
  pub sweep-resolve :
      {start st : Sessions}
      → start.store.sessions ≡ []
      → Reach start st
      → (now later : ℕ) → now ≤ later
      → (r : Request) (user_type : UserType)
      → (resolve hash mac later r user_type (sweep now st)).1
        ≡ (resolve hash mac later r user_type st).1
  unfolding resolve
  sweep-resolve {start} {st} e run now later le r user_type =
      let keyed = Reach-IsKeyed (subst IsKeyed (sym e) tt) run in
      sweep_token now later le user_type st keyed (session_cookie r user_type)
