-- ===== src/Setup/Tests.antt =====
-- Closed runs of the wizard.
use wispbox.Base.{
  trim_space, to_lower, ℕ, ◌+◌, arith, ◌≤◌, Text, codes, Bool, true, some, [], ◌∷◌, ◌≡◌, refl,
}
use wispbox.Db.Models.{Session, admin}
use wispbox.Db.Tables.{fresh}
use wispbox.Db.Admins.{count_admins}
use wispbox.Auth.Sessions.{Request, resolve, cookie_of, verify_csrf, csrf_token}
use wispbox.Db.Sessions.{lookup_session, create_session}
use wispbox.Security.RateLimit.{login_limiter}
use wispbox.Setup.{Wizard, admin_step, complete_step, not_found, serve, admit, make_admin}
use wispbox.Db.Validate.{admin_username_re}
use wispbox.Db.Settings.{is_initialized}
use wispbox.Setup.Locked.{complete_locks}
use wispbox.Setup.Overlap.{here, begins, inserts, Reach-count_admins}

abbrev hash : Text → Text
hash t = b'h' ∷ t

abbrev mac : Text → Text
mac t = b'm' ∷ t

abbrev any_ip : Bool → Text → Bool
any_ip six ip = true

abbrev row : Session
row = record { id = codes "ht"; user_type = admin; user_id = 1; expires_at = 900; created_at = 0 }

abbrev untouched : Wizard
untouched = record {
  limiter = login_limiter;
  sessions = record { store = fresh 0; secure = true; creds = [] };
}

abbrev almost : Wizard
almost = record untouched {
  sessions = record { store = record (fresh 0) { sessions = row ∷ [] }; secure = true; creds = [] };
}

abbrev request : Request
request = record {
  method = codes "POST";
  cookies = (codes "wispbox_admin", codes "t") ∷ [];
  csrf_header = mac (codes "csrf:ht");
}

complete_locks_example :
    let after =
      (serve hash mac some some any_ip 5 [] (codes "ip") request complete_step almost).0 in
    serve hash mac some some any_ip 6
      (codes "u")
      (codes "ip")
      request
      (admin_step (codes "eve") (codes "pw"))
      after
    ≡ (after, not_found)
unfolding serve resolve cookie_of lookup_session verify_csrf csrf_token
complete_locks_example =
    complete_locks hash mac some some any_ip 5 6 [] (codes "u") (codes "ip") (codes "ip") request
      request (admin_step (codes "eve") (codes "pw")) almost refl

-- Two requests of which neither sees the administrator of the other.
abbrev one_begun : Wizard
one_begun = (admit hash mac some some any_ip 5 (codes "ip") untouched).0

abbrev both_begun : Wizard
both_begun = (admit hash mac some some any_ip 6 (codes "ip") one_begun).0

abbrev inserted : ℕ → Text → Text → Wizard → Wizard
inserted now token username w = record w {
  sessions =
      (make_admin hash mac some some any_ip now token (codes "ip") username (codes "pw")
        w.sessions).0;
}

abbrev raced : Wizard
raced = inserted 8 (codes "u") (codes "eve") (inserted 7 (codes "t") (codes "root") both_begun)

raced_count : count_admins raced.sessions.store ≡ 2
unfolding make_admin admit count_admins trim_space to_lower admin_username_re create_session
raced_count = refl

Reach-count_admins_example : count_admins raced.sessions.store + 0 ≤ 2
unfolding admit is_initialized count_admins
Reach-count_admins_example = Reach-count_admins hash mac some some any_ip 2 {a = untouched} refl (
    inserts 8 (codes "u") (codes "ip") (codes "eve") (codes "pw") (
      inserts 7 (codes "t") (codes "ip") (codes "root") (codes "pw") (
        begins 6 (codes "ip") (begins 5 (codes "ip") here (omega arith) refl refl) (omega arith)
          refl refl)))
