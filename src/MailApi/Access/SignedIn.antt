-- ===== src/MailApi/Access/SignedIn.antt =====
-- Whom the webmail signs in.
use wispbox.Base.{
  ℕ, Text, codes, Bool, true, false, [], ◌++◌, Option, some, ok, same, trim_space, ◌≡◌, refl, ◌⊎◌,
  inl, inr, Bool-cases, ◌∙◌, ap,
}
use wispbox.Base.Outcome.{Option-cases, Result-cases}
use wispbox.Db.Models.{Mailbox, mailbox}
use wispbox.Db.Tables.{Store}
use wispbox.Db.Mailboxes.{get_mailbox_by_email}
use wispbox.Auth.Sessions.{Sessions, Cookie, login}
use wispbox.Security.RateLimit.{allow}
use wispbox.MailApi.Access.{
  Server, LoginRequest, signed_in, login_audit, audited, opened, code_fits, start_session,
  check_login, login_mail,
}

module _ (hash mac : Text → Text) (verify_password validate_totp : Text → Text → Bool)
    (decrypt : Text → Option Text) where
  opened-some :
      (req : LoginRequest) (s : Store) (m : Mailbox)
      → opened hash mac verify_password validate_totp decrypt req s ≡ some m
      → (get_mailbox_by_email req.email s ≡ ok m)
        × (m.enabled ≡ true)
        × (verify_password req.password m.password_hash ≡ true)
  unfolding opened
  opened-some req s m h = elim (Result-cases (get_mailbox_by_email req.email s)) [
    | inr (e, q) ↦ cc (rw (opened, q) at h)
    | inl (x, q) ↦ elim (Bool-cases x.enabled) [
      | inr a ↦ cc (rw (opened, q, a) at h)
      | inl a ↦ elim (Bool-cases (verify_password req.password x.password_hash)) [
        | inr b ↦ cc (rw (opened, q, a, b) at h)
        | inl b ↦
            let z : x ≡ m = cc (rw (opened, q, a, b) at h) in (q ∙ ap ok z, rw (← z) a, rw (← z) b)
      ]
    ]
  ]

  -- What a sign-in has behind it.
  abbrev pub Proven : LoginRequest → Store → Mailbox → Type 0
  Proven req s m =
      (get_mailbox_by_email req.email s ≡ ok m)
      × (m.enabled ≡ true)
      × (verify_password req.password m.password_hash ≡ true)
      × ((m.two_factor_enabled ≡ false)
          ⊎ (code_fits hash mac verify_password validate_totp decrypt req m ≡ true))

  abbrev pub Started : ℕ → Text → Text → LoginRequest → Mailbox → Sessions → Sessions → Type 0
  Started now token ip req m st after =
      after
      ≡ audited now (login_audit m.id (codes "login") m.email ip)
          (login hash mac now token mailbox m.id
            (some (record { email = m.email; password = req.password })) st).0

  start_session-signed_in :
      (now : ℕ) (token ip : Text) (req : LoginRequest) (m : Mailbox) (st : Sessions)
      (email csrf : Text) (cookie : Cookie)
      → (start_session hash mac verify_password validate_totp decrypt now token ip req m st).1
        ≡ signed_in email cookie csrf
      → Started now token ip req m st
          (start_session hash mac verify_password validate_totp decrypt now token ip req m st).0
  unfolding start_session
  start_session-signed_in now token ip req m st email csrf cookie h =
      let made =
        (login hash mac now token mailbox m.id
          (some (record { email = m.email; password = req.password })) st).1 in
      elim (Result-cases made) [
        | inr (e, q) ↦ cc (rw (start_session, q) at h)
        | inl ((c, k), q) ↦ rw (start_session, q) refl
      ]

  check_login-signed_in :
      (now : ℕ) (token ip : Text) (req : LoginRequest) (st : Sessions) (email csrf : Text)
      (cookie : Cookie)
      → (check_login hash mac verify_password validate_totp decrypt now token ip req st).1
        ≡ signed_in email cookie csrf
      → (m : Mailbox) × Proven req st.store m
        × Started now token ip req m st
            (check_login hash mac verify_password validate_totp decrypt now token ip req st).0
  unfolding check_login
  check_login-signed_in now token ip req st email csrf cookie h =
      elim (Option-cases (opened hash mac verify_password validate_totp decrypt req st.store)) [
        | inl q ↦ cc (rw (check_login, q) at h)
        | inr (m, q) ↦
            let (found, on, pw) = opened-some req st.store m q in
            elim (Bool-cases m.two_factor_enabled) [
              | inr f ↦
                  rw (check_login, q, f)
                    (
                      m,
                      (found, on, pw, inl f),
                      start_session-signed_in now token ip req m st email csrf cookie
                          (rw (check_login, q, f) at h),
                    )
              | inl f ↦ elim (Bool-cases (same (trim_space req.totp_code) [])) [
                | inl b ↦ cc (rw (check_login, q, f, b) at h)
                | inr b ↦
                    elim (Bool-cases
                      (code_fits hash mac verify_password validate_totp decrypt req m)) [
                        | inr c ↦ cc (rw (check_login, q, f, b, c) at h)
                        | inl c ↦
                            rw (check_login, q, f, b, c)
                              (
                                m,
                                (found, on, pw, inr c),
                                start_session-signed_in now token ip req m st email csrf cookie
                                    (rw (check_login, q, f, b, c) at h),
                              )
                      ]
              ]
            ]
      ]

  -- A sign-in that succeeds was let through by the limiter, names an enabled mailbox, has its password and,
  -- where two factors are on, a fitting code; what it leaves is the session of that mailbox, with the
  -- mailbox's address and the password as its credentials, and one line in the audit log.
  pub login_mail-Proven :
      (now : ℕ) (token ip : Text) (req : LoginRequest) (server : Server) (email csrf : Text)
      (cookie : Cookie)
      → (login_mail hash mac verify_password validate_totp decrypt now token ip req server).1
        ≡ signed_in email cookie csrf
      → ((allow now (codes "mail:" ++ ip) server.limiter).1 ≡ true)
        × (m : Mailbox) × Proven req server.sessions.store m
        × Started now token ip req m server.sessions
            (login_mail hash mac verify_password validate_totp decrypt now token ip req
              server).0.sessions
  unfolding login_mail
  login_mail-Proven now token ip req server email csrf cookie h =
      elim (Bool-cases (allow now (codes "mail:" ++ ip) server.limiter).1) [
        | inr a ↦ cc (rw (login_mail, a) at h)
        | inl a ↦
            let (m, p, s) =
              check_login-signed_in now token ip req server.sessions email csrf cookie
                (rw (login_mail, a) at h) in
            (a, m, p, rw (login_mail, a) s)
      ]
