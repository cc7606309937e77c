-- ===== src/Setup.antt =====
-- internal/setup/setup.go: the gate of the wizard, and its steps that create the administrator, store the
-- host and lock the wizard. `hash_password` is auth.HashAdminPassword, `valid_ip` net.ParseIP's verdict for
-- a version. The settings of the host are stored one after the other in the order of the source; Go's map
-- has none. A request has been decoded, and `token` is the fresh randomness of a session.
pub mod Locked
pub mod FirstAdmin
pub mod Overlap
pub mod Tests
use wispbox.Base.{
  ℕ, Text, codes, Bool, true, false, not, ◌&&◌, [], ◌++◌, Option, none, some, Result, ok, err, ltb,
  if◌then◌else◌, same,
}
use wispbox.Base.Outcome.{refuse, ◌>>◌}
use wispbox.Db.Errors.{Error, invalid, ipv4_malformed, ipv6_malformed}
use wispbox.Db.Models.{AuditLog, admin}
use wispbox.Db.Tables.{Store}
use wispbox.Db.Admins.{create_admin, count_admins}
use wispbox.Db.Settings.{is_initialized, set_setting, append_audit}
use wispbox.Db.Validate.{validate_admin_username, validate_hostname, validate_email}
use wispbox.Auth.Sessions.{Sessions, Cookie, Request, Refusal, login, require_session}
use wispbox.Security.RateLimit.{RateLimiter, allow}

pub record Wizard : Type 0 where
  pub limiter : RateLimiter
  pub sessions : Sessions

pub record HostRequest : Type 0 where
  pub hostname : Text
  pub server_ipv4 : Text
  pub server_ipv6 : Text
  pub acme_email : Text

-- POST /api/setup/admin, /host and /complete
pub data Step : Type 0 where
  admin_step : Text → Text → Step
  host_step : HostRequest → Step
  complete_step : Step

pub data Answer : Type 0 where
  not_found too_many_attempts admin_exists weak_password done : Answer
  refused : Refusal → Answer
  rejected : Error → Answer
  admin_created : Text → Cookie → Text → Answer

abbrev pub setup_audit : ℕ → Text → Text → Text → Text → AuditLog
setup_audit actor_id action target_type target ip = record {
  id = 0;
  actor_type = codes "admin";
  actor_id = actor_id;
  action = action;
  target_type = target_type;
  target_id = target;
  ip = ip;
  created_at = 0;
}

unfoldable pub store_host : HostRequest → Store → Store
unfolding set_setting
store_host req s = set_setting (codes "acme_email") req.acme_email (
    set_setting (codes "server_ipv6") req.server_ipv6 (
      set_setting (codes "server_ipv4") req.server_ipv4
        (set_setting (codes "primary_hostname") req.hostname s)))

module _ (hash : Text → Text) (mac : Text → Text) where
  module _ (hash_password : Text → Option Text) (parse_address : Text → Option Text)
      (valid_ip : Bool → Text → Bool) where
    -- Past the limiter, with no administrator yet.
    unfoldable pub make_admin : ℕ → Text → Text → Text → Text → Sessions → Sessions × Answer
    unfolding validate_admin_username create_admin login append_audit
    make_admin now token ip username password st = elim (validate_admin_username username) [
      | err e ↦ (st, rejected e)
      | ok _ ↦ elim (hash_password password) [
        | none ↦ (st, weak_password)
        | some hashed ↦
            let (store, created) = create_admin now username hashed st.store in
            elim created [
              | err e ↦ (record st { store = store }, rejected e)
              | ok a ↦
                  let (st', made) =
                    login hash mac now token admin a.id none (record st { store = store }) in
                  elim made [
                    | err e ↦ (st', rejected e)
                    | ok (cookie, csrf) ↦ (
                      record st' {
                        store =
                            append_audit now
                              (setup_audit a.id (codes "setup_admin_created") (codes "admin")
                                a.username ip)
                              st'.store;
                      },
                      admin_created a.username cookie csrf,
                    )
                  ]
            ]
      ]
    ]

    -- The part of createAdmin up to its count of the administrators: the refusal, or none.
    unfoldable pub admit : ℕ → Text → Wizard → Wizard × Option Answer
    unfolding allow count_admins
    admit now ip w =
        let (limiter, allowed) = allow now (codes "setup:" ++ ip) w.limiter in
        let w' : Wizard = record w { limiter = limiter } in
        if not allowed
        then (w', some too_many_attempts)
        else if ltb 0 (count_admins w.sessions.store)
        then (w', some admin_exists)
        else (w', none)

    unfoldable pub create_first_admin : ℕ → Text → Text → Text → Text → Wizard → Wizard × Answer
    unfolding admit make_admin
    create_first_admin now token ip username password w =
        let (w', refusal) = admit now ip w in
        let (st, answer) = make_admin now token ip username password w'.sessions in
        elim refusal [ some a ↦ (w', a) | none ↦ (record w' { sessions = st }, answer) ]

    unfoldable pub check_host : HostRequest → Result Error (Unit {0})
    unfolding validate_hostname validate_email
    check_host req =
        validate_hostname req.hostname
        >> refuse (not (same req.server_ipv4 []) && not (valid_ip false req.server_ipv4))
            (invalid ipv4_malformed)
        >> refuse (not (same req.server_ipv6 []) && not (valid_ip true req.server_ipv6))
            (invalid ipv6_malformed)
        >> (if same req.acme_email [] then ok tt else validate_email parse_address req.acme_email)

    unfoldable pub configure_host : HostRequest → Sessions → Sessions × Answer
    unfolding check_host store_host
    configure_host req st = elim (check_host req) [
      | err e ↦ (st, rejected e)
      | ok _ ↦ (record st { store = store_host req st.store }, done)
    ]

    unfoldable pub complete : ℕ → Text → Sessions → Sessions
    unfolding set_setting append_audit
    complete now ip st = record st {
      store =
          append_audit now (setup_audit 0 (codes "setup_completed") [] [] ip)
            (set_setting (codes "initialized") (codes "true") st.store);
    }

    -- The handlers behind the admin session.
    unfoldable pub signed_in_step : ℕ → Text → Step → Wizard → Wizard × Answer
    unfolding configure_host complete
    signed_in_step now ip (host_step req) w =
        let (st, answer) = configure_host req w.sessions in (record w { sessions = st }, answer)
    signed_in_step now ip complete_step w =
        (record w { sessions = complete now ip w.sessions }, done)
    signed_in_step now ip (admin_step username password) w = (w, not_found)

    unfoldable pub run_step : ℕ → Text → Text → Request → Step → Wizard → Wizard × Answer
    unfolding create_first_admin require_session signed_in_step
    run_step now token ip r (admin_step username password) w =
        create_first_admin now token ip username password w
    run_step now token ip r step w =
        let (st, found) = require_session hash mac now r admin w.sessions in
        let w' : Wizard = record w { sessions = st } in
        elim found [ err e ↦ (w', refused e) | ok _ ↦ signed_in_step now ip step w' ]

    -- The gate, and the step behind it.
    unfoldable pub serve : ℕ → Text → Text → Request → Step → Wizard → Wizard × Answer
    unfolding is_initialized run_step
    serve now token ip r step w =
        if is_initialized w.sessions.store then (w, not_found) else run_step now token ip r step w
