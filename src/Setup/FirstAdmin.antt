-- ===== src/Setup/FirstAdmin.antt =====
-- The administrators before and after each part of a request to the wizard.
use wispbox.Base.{
  ℕ, ◌+◌, ◌≤◌, Text, codes, Bool, true, List, [], ◌∷◌, ◌++◌, Option, none, some, Result, ok, err,
  ◌≡◌, not, ◌&&◌, refl, arith, inl, inr, Bool-cases, ltb, same, to_lower, trim_space, ap, ◌∙◌,
}
use wispbox.Base.Outcome.{Result-cases, Option-cases}
use wispbox.Base.Rows.{find, count, exists}
use wispbox.Db.Models.{Session, UserType, Admin, admin}
use wispbox.Db.Tables.{Store, Table, nocase}
use wispbox.Db.Admins.{create_admin, count_admins}
use wispbox.Db.Sessions.{create_session, lookup_session, check_session}
use wispbox.Db.Settings.{set_setting, is_initialized, append_audit}
use wispbox.Auth.Sessions.{
  Sessions, Request, login, resolve, resolve_token, require_session, session_cookie, is_safe,
  verify_csrf, session_ttl, Refusal,
}
use wispbox.Security.RateLimit.{allow}
use wispbox.Db.Validate.{validate_admin_username}
use wispbox.Setup.{
  Wizard, Step, Answer, admin_step, host_step, complete_step, HostRequest, serve, run_step,
  signed_in_step, complete, configure_host, check_host, store_host, make_admin, admit,
  create_first_admin, refused,
}

abbrev pub admins_of : Sessions → Table Admin
admins_of st = st.store.admins

check_session-admins :
    (now : ℕ) (want : UserType) (o : Option Session) (s : Store)
    → (check_session now want o s).0.admins ≡ s.admins
unfolding check_session
check_session-admins now want none s = refl
check_session-admins now want (some x) s = ground arith

count-append :
    (rows : List Admin) (a : Admin)
    → count (λ _. true) (rows ++ a ∷ []) ≡ count (λ _. true) rows + 1
unfolding count
count-append [] a = refl
count-append (b ∷ rows) a = omega (arith, count-append rows a)

create_admin-count :
    (now : ℕ) (username hashed : Text) (s : Store)
    → count_admins (create_admin now username hashed s).0 ≤ count_admins s + 1
unfolding create_admin count_admins
create_admin-count now username hashed s =
    elim (Bool-cases
      (exists (λ a. nocase a.username (to_lower (trim_space username))) s.admins.rows)) [
        | inl q ↦ rw (create_admin, q) (omega arith)
        | inr q ↦ rw (create_admin, q) (omega (arith, count-append s.admins.rows _))
      ]

module _ (hash mac : Text → Text) where
  lookup_session-admins :
      (now : ℕ) (token : Text) (want : UserType) (s : Store)
      → (lookup_session hash now token want s).0.admins ≡ s.admins
  unfolding lookup_session
  lookup_session-admins now token want s = elim (Bool-cases (same token [])) [
    | inl e ↦ rw (lookup_session, e) refl
    | inr e ↦
        rw (lookup_session, e)
          (check_session-admins now want (find (λ (x : Session). same x.id (hash token)) s.sessions)
            s)
  ]

  resolve_token-admins :
      (now : ℕ) (t : UserType) (o : Option Text) (st : Sessions)
      → admins_of (resolve_token hash mac now t o st).0 ≡ admins_of st
  resolve_token-admins now t none st = refl
  resolve_token-admins now t (some token) st = lookup_session-admins now token t st.store

  require_session-admins :
      (now : ℕ) (r : Request) (t : UserType) (st : Sessions)
      → admins_of (require_session hash mac now r t st).0 ≡ admins_of st
  unfolding require_session resolve
  require_session-admins now r t st =
      let kept = resolve_token-admins now t (session_cookie r t) st in
      elim (Option-cases (resolve hash mac now r t st).1) [
        | inl q ↦ rw (require_session, q) kept
        | inr (x, q) ↦ elim (Bool-cases (not (is_safe r) && not (verify_csrf hash mac r t))) [
          | inl f ↦ rw (require_session, q, f) kept
          | inr f ↦ rw (require_session, q, f) kept
        ]
      ]

  create_session-admins :
      (now : ℕ) (token : Text) (t : UserType) (id ttl : ℕ) (s : Store)
      → (create_session hash now token t id ttl s).0.admins ≡ s.admins
  unfolding create_session
  create_session-admins now token t id ttl s =
      elim (Bool-cases (exists (λ (x : Session). same x.id (hash token)) s.sessions)) [
        | inl q ↦ rw (create_session, q) refl
        | inr q ↦ rw (create_session, q) refl
      ]

  login-admins :
      (now : ℕ) (token : Text) (t : UserType) (id : ℕ) (st : Sessions)
      → admins_of (login hash mac now token t id none st).0 ≡ admins_of st
  unfolding login
  login-admins now token t id st =
      let kept = create_session-admins now token t id (session_ttl t) st.store in
      elim (Result-cases (create_session hash now token t id (session_ttl t) st.store).1) [
        | inl (x, q) ↦ rw (login, q) kept
        | inr (x, q) ↦ rw (login, q) kept
      ]

  module _ (hash_password : Text → Option Text) (parse_address : Text → Option Text)
      (valid_ip : Bool → Text → Bool) where
    pub make_admin-count :
        (now : ℕ) (token ip username password : Text) (st : Sessions)
        → count_admins
            (make_admin hash mac hash_password parse_address valid_ip now token ip username password
              st).0.store
          ≤ count_admins st.store + 1
    unfolding make_admin append_audit count_admins
    make_admin-count now token ip username password st =
        elim (Result-cases (validate_admin_username username)) [
          | inr (e, q) ↦ rw (make_admin, q) (omega arith)
          | inl (u, q) ↦ elim (Option-cases (hash_password password)) [
            | inl k ↦ rw (make_admin, q, k) (omega arith)
            | inr (hashed, k) ↦
                let grown = create_admin-count now username hashed st.store in
                elim (Result-cases (create_admin now username hashed st.store).1) [
                  | inr (e, c) ↦ rw (make_admin, q, k, c) (omega (arith, grown))
                  | inl (a, c) ↦
                      let st' : Sessions = record st {
                        store = (create_admin now username hashed st.store).0;
                      } in
                      let kept =
                        ap (λ (t : Table Admin). count (λ _. true) t.rows)
                          (login-admins now token admin a.id st') in
                      elim (Result-cases (login hash mac now token admin a.id none st').1) [
                        | inr (e, l) ↦ rw (make_admin, q, k, c, l) (omega (arith, grown, kept))
                        | inl ((cookie, csrf), l) ↦
                            rw (make_admin, q, k, c, l) (omega (arith, grown, kept))
                      ]
                ]
          ]
        ]

    -- A request that passes the first part has found no administrator.
    pub admit_lem :
        (now : ℕ) (ip : Text) (w : Wizard)
        → let begun = admit hash mac hash_password parse_address valid_ip now ip w in
          (begun.0.sessions ≡ w.sessions) × ((begun.1 ≡ none) → count_admins w.sessions.store ≡ 0)
    unfolding admit
    admit_lem now ip w = elim (Bool-cases (allow now (codes "setup:" ++ ip) w.limiter).1) [
      | inr a ↦ rw (admit, a) (refl, λ e. cc e)
      | inl a ↦ elim (Bool-cases (ltb 0 (count_admins w.sessions.store))) [
        | inl c ↦ rw (admit, a, c) (refl, λ e. cc e)
        | inr c ↦ rw (admit, a, c) (refl, λ e. ground (arith, c))
      ]
    ]

    create_first_admin-count :
        (now : ℕ) (token ip username password : Text) (w : Wizard) (most : ℕ)
        → 1 ≤ most
        → count_admins w.sessions.store ≤ most
        → count_admins
            (create_first_admin hash mac hash_password parse_address valid_ip now token ip username
              password w).0.sessions.store
          ≤ most
    unfolding create_first_admin
    create_first_admin-count now token ip username password w most one h =
        let begun = admit hash mac hash_password parse_address valid_ip now ip w in
        let (same_sessions, none_yet) = admit_lem now ip w in
        let unchanged : count_admins begun.0.sessions.store ≡ count_admins w.sessions.store =
          ap (λ (t : Sessions). count_admins t.store) same_sessions in
        elim (Option-cases begun.1) [
          | inr (a, q) ↦ rw (create_first_admin, q) (omega (arith, h, unchanged))
          | inl q ↦
              let grown = make_admin-count now token ip username password begun.0.sessions in
              rw (create_first_admin, q) (omega (arith, one, grown, unchanged, none_yet q))
        ]

    configure_host-admins :
        (req : HostRequest) (st : Sessions)
        → admins_of (configure_host hash mac hash_password parse_address valid_ip req st).0
          ≡ admins_of st
    unfolding configure_host store_host set_setting
    configure_host-admins req st =
        elim (Result-cases (check_host hash mac hash_password parse_address valid_ip req)) [
          | inl (u, q) ↦ rw (configure_host, q) refl
          | inr (e, q) ↦ rw (configure_host, q) refl
        ]

    signed_in_step-admins :
        (now : ℕ) (ip : Text) (step : Step) (w : Wizard)
        → admins_of
            (signed_in_step hash mac hash_password parse_address valid_ip now ip step w).0.sessions
          ≡ admins_of w.sessions
    unfolding signed_in_step complete append_audit set_setting
    signed_in_step-admins now ip (admin_step username password) w = refl
    signed_in_step-admins now ip complete_step w = refl
    signed_in_step-admins now ip (host_step req) w = configure_host-admins req w.sessions

    -- A step behind the session, by what the guard found, leaves the administrators as they are.
    guarded-admins :
        (now : ℕ) (ip : Text) (step : Step) (w : Wizard) (st : Sessions)
        (found : Result Refusal Session)
        → let w' : Wizard = record w { sessions = st } in
          admins_of
            (elim found as (λ _. Wizard × Answer) [
              | err e ↦ (w', refused e)
              | ok _ ↦ signed_in_step hash mac hash_password parse_address valid_ip now ip step w'
            ]).0.sessions
          ≡ admins_of st
    guarded-admins now ip step w st (err e) = refl
    guarded-admins now ip step w st (ok x) =
        signed_in_step-admins now ip step (record w { sessions = st })

    guarded-count :
        (now : ℕ) (ip : Text) (r : Request) (step : Step) (w : Wizard)
        → let (st, found) = require_session hash mac now r admin w.sessions in
          let w' : Wizard = record w { sessions = st } in
          count_admins
            (elim found as (λ _. Wizard × Answer) [
              | err e ↦ (w', refused e)
              | ok _ ↦ signed_in_step hash mac hash_password parse_address valid_ip now ip step w'
            ]).0.sessions.store
          ≡ count_admins w.sessions.store
    unfolding count_admins
    guarded-count now ip r step w =
        let checked = require_session hash mac now r admin w.sessions in
        ap (λ (t : Table Admin). count (λ _. true) t.rows)
          (guarded-admins now ip step w checked.0 checked.1
            ∙ require_session-admins now r admin w.sessions)

    run_step-count :
        (now : ℕ) (token ip : Text) (r : Request) (step : Step) (w : Wizard) (most : ℕ)
        → 1 ≤ most
        → count_admins w.sessions.store ≤ most
        → count_admins
            (run_step hash mac hash_password parse_address valid_ip now token ip r step
              w).0.sessions.store
          ≤ most
    unfolding run_step
    run_step-count now token ip r (admin_step username password) w most one h =
        create_first_admin-count now token ip username password w most one h
    run_step-count now token ip r (host_step req) w most one h =
        omega (arith, h, guarded-count now ip r (host_step req) w)
    run_step-count now token ip r complete_step w most one h =
        omega (arith, h, guarded-count now ip r complete_step w)

    -- A request leaves no more administrators than there were, or one.
    pub serve-count :
        (now : ℕ) (token ip : Text) (r : Request) (step : Step) (w : Wizard) (most : ℕ)
        → 1 ≤ most
        → count_admins w.sessions.store ≤ most
        → count_admins
            (serve hash mac hash_password parse_address valid_ip now token ip r step
              w).0.sessions.store
          ≤ most
    unfolding serve
    serve-count now token ip r step w most one h =
        elim (Bool-cases (is_initialized w.sessions.store)) [
          | inl i ↦ rw (serve, i) h
          | inr i ↦ rw (serve, i) (run_step-count now token ip r step w most one h)
        ]
