-- ===== src/MailApi/Access.antt =====
-- internal/mailapi/mailapi.go: signing in to the webmail, and the guard of its other handlers.
-- `verify_password` is auth.VerifyMailboxPassword, `validate_totp` auth.ValidateTOTP and `decrypt`
-- security.Decrypt under the server's secret. The request has been decoded.
pub mod SignedIn
use wispbox.Base.{
  ℕ, Text, codes, Bool, false, not, ◌&&◌, ◌||◌, [], ◌++◌, Option, none, some, Result, ok, err,
  if◌then◌else◌, same, trim_space,
}
use wispbox.Db.Errors.{Error}
use wispbox.Db.Models.{Session, Mailbox, AuditLog, mailbox}
use wispbox.Db.Tables.{Store}
use wispbox.Db.Mailboxes.{get_mailbox_by_email}
use wispbox.Db.Settings.{append_audit}
use wispbox.Auth.Sessions.{
  Sessions, Credentials, Cookie, Request, Refusal, login, require_session, credentials_for,
}
use wispbox.Security.RateLimit.{RateLimiter, allow}

-- What the handlers share.
pub record Server : Type 0 where
  pub limiter : RateLimiter
  pub sessions : Sessions

pub record LoginRequest : Type 0 where
  pub email : Text
  pub password : Text
  pub totp_code : Text

pub data LoginAnswer : Type 0 where
  too_many_attempts wrong_password two_factor_required wrong_code : LoginAnswer
  no_session : Error → LoginAnswer
  signed_in : Text → Cookie → Text → LoginAnswer

abbrev pub login_audit : ℕ → Text → Text → Text → AuditLog
login_audit actor_id action target ip = record {
  id = 0;
  actor_type = codes "mailbox";
  actor_id = actor_id;
  action = action;
  target_type = codes "mailbox";
  target_id = target;
  ip = ip;
  created_at = 0;
}

unfoldable pub audited : ℕ → AuditLog → Sessions → Sessions
unfolding append_audit
audited now entry st = record st { store = append_audit now entry st.store }

-- What the guard makes of a request that it lets through.
pub record MailCtx : Type 0 where
  pub session : Session
  pub creds : Credentials
  pub mailbox : Mailbox

pub data GuardRefusal : Type 0 where
  refused : Refusal → GuardRefusal
  sign_in_again mailbox_disabled : GuardRefusal

module _ (hash : Text → Text) (mac : Text → Text) where
  module _ (verify_password : Text → Text → Bool) (validate_totp : Text → Text → Bool)
      (decrypt : Text → Option Text) where
    -- The mailbox that the password opens.
    unfoldable pub opened : LoginRequest → Store → Option Mailbox
    unfolding get_mailbox_by_email
    opened req s = elim (get_mailbox_by_email req.email s) [
      | err _ ↦ none
      | ok m ↦
          if not m.enabled || not (verify_password req.password m.password_hash)
          then none
          else some m
    ]

    unfoldable pub code_fits : LoginRequest → Mailbox → Bool
    code_fits req m = elim (decrypt m.encrypted_totp_secret) [
      | none ↦ false
      | some secret ↦ validate_totp secret req.totp_code
    ]

    unfoldable pub start_session :
        ℕ → Text → Text → LoginRequest → Mailbox → Sessions → Sessions × LoginAnswer
    unfolding login audited
    start_session now token ip req m st =
        let (st', made) =
          login hash mac now token mailbox m.id
            (some (record { email = m.email; password = req.password })) st in
        elim made [
          | err e ↦ (st', no_session e)
          | ok (cookie, csrf) ↦ (
            audited now (login_audit m.id (codes "login") m.email ip) st',
            signed_in m.email cookie csrf,
          )
        ]

    -- Past the limiter.
    unfoldable pub check_login : ℕ → Text → Text → LoginRequest → Sessions → Sessions × LoginAnswer
    unfolding opened code_fits start_session audited same trim_space
    check_login now token ip req st = elim (opened req st.store) [
      | none ↦ (audited now (login_audit 0 (codes "login_failed") req.email ip) st, wrong_password)
      | some m ↦
          if m.two_factor_enabled && same (trim_space req.totp_code) []
          then (st, two_factor_required)
          else if m.two_factor_enabled && not (code_fits req m)
          then (audited now (login_audit m.id (codes "login_failed") req.email ip) st, wrong_code)
          else start_session now token ip req m st
    ]

    unfoldable pub login_mail : ℕ → Text → Text → LoginRequest → Server → Server × LoginAnswer
    unfolding allow check_login
    login_mail now token ip req server =
        let (limiter, allowed) = allow now (codes "mail:" ++ ip) server.limiter in
        let (st, answer) = check_login now token ip req server.sessions in
        if allowed
        then (record { limiter = limiter; sessions = st }, answer)
        else (record { limiter = limiter; sessions = server.sessions }, too_many_attempts)

  unfoldable pub authed : ℕ → Request → Sessions → Sessions × Result GuardRefusal MailCtx
  unfolding require_session credentials_for get_mailbox_by_email
  authed now r st =
      let (st', found) = require_session hash mac now r mailbox st in
      elim found [
        | err e ↦ (st', err (refused e))
        | ok x ↦ elim (credentials_for x.id st') [
          | none ↦ (st', err sign_in_again)
          | some c ↦ elim (get_mailbox_by_email c.email st'.store) [
            | err _ ↦ (st', err mailbox_disabled)
            | ok m ↦
                if m.enabled
                then (st', ok (record { session = x; creds = c; mailbox = m }))
                else (st', err mailbox_disabled)
          ]
        ]
      ]
