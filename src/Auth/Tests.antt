-- ===== src/Auth/Tests.antt =====
-- One administrator signs in, asks, and signs out.
use wispbox.Base.{
  ◌+◌, ltb, Text, codes, true, [], ◌∷◌, none, some, ◌≡◌, ◌⊎◌, refl, arith, if◌then◌else◌, pos, same,
  ◌↔◌, In, ◌≤◌,
}
use wispbox.Base.Rows.{find, exists}
use wispbox.Db.Models.{Session, admin, mailbox}
use wispbox.Db.Tables.{fresh, format_time, parse_time}
use wispbox.Db.Sessions.{create_session, lookup_session, check_session}
use wispbox.Auth.Sessions.{
  Sessions, Request, Cookie, session_cookie, session_ttl, login, logout, resolve, require_session,
  sweep, credentials_for, is_safe, csrf_token, cookie_of, verify_csrf, Credentials,
}
use wispbox.Auth.Sessions.Safety.{IsProven, require_session-IsProven, resolve-IsProven}
use wispbox.Auth.Sessions.Lifetime.{new_session, login-resolve, logout_ends, logout_keeps}
use wispbox.Auth.Sessions.Keyed.{here, next, logs_in, sweep-resolve}
use wispbox.Auth.Sessions.Swept.{sweep-credentials_for}

-- Stand-ins for the hash and the MAC.
abbrev hash : Text → Text
hash t = b'h' ∷ t

abbrev mac : Text → Text
mac t = b'm' ∷ t

abbrev start : Sessions
start = record { store = fresh 0; secure = true; creds = [] }

abbrev token : Text
token = codes "c0ffee"

abbrev signed_in : Sessions
signed_in = (login hash mac 0 token admin 1 none start).0

abbrev request : Request
request = record {
  method = codes "POST";
  cookies = (codes "wispbox_admin", token) ∷ [];
  csrf_header = mac (codes "csrf:hc0ffee");
}

abbrev cookie : Cookie
cookie = record { name = codes "wispbox_admin"; value = token; max_age = pos 43200; secure = true }

abbrev row : Session
row = new_session (hash token) 0 admin 1

require_session-IsProven_example :
    (t : Text) × (session_cookie request admin ≡ some t)
    × IsProven hash mac 5 t admin row signed_in
    × ((is_safe request ≡ true) ⊎ (request.csrf_header ≡ csrf_token hash mac t))
unfolding login require_session resolve verify_csrf create_session lookup_session check_session
    csrf_token find exists same cookie_of
require_session-IsProven_example =
    require_session-IsProven hash mac 5 request admin signed_in row refl

resolve-IsProven_example :
    (t : Text) × (session_cookie request admin ≡ some t) × IsProven hash mac 5 t admin row signed_in
unfolding login resolve create_session lookup_session check_session find exists same cookie_of
resolve-IsProven_example = resolve-IsProven hash mac 5 request admin signed_in row refl

login-resolve_example :
    (resolve hash mac 5 request admin signed_in).1
    ≡ (if ltb (parse_time (format_time (0 + session_ttl admin))) 5 then none else some row)
unfolding login create_session csrf_token find exists same cookie_of
login-resolve_example =
    login-resolve hash mac 0 token admin 1 none start cookie (mac (codes "csrf:hc0ffee")) (λ e. cc)
      refl 5 request refl

logout_ends_example :
    ((resolve hash mac 6 request admin (logout hash mac request admin signed_in).0).1 ≡ none)
    × (credentials_for (hash token) (logout hash mac request admin signed_in).0 ≡ none)
unfolding cookie_of same
logout_ends_example = logout_ends hash mac request admin signed_in token refl 6 request admin refl

abbrev guest : Request
guest = record {
  method = codes "GET";
  cookies = (codes "wispbox_mail", codes "beef") ∷ [];
  csrf_header = [];
}

logout_keeps_example :
    ((resolve hash mac 6 guest mailbox (logout hash mac request admin signed_in).0).1
      ≡ (resolve hash mac 6 guest mailbox signed_in).1)
    × (credentials_for (hash (codes "beef")) (logout hash mac request admin signed_in).0
        ≡ credentials_for (hash (codes "beef")) signed_in)
unfolding cookie_of same
logout_keeps_example =
    logout_keeps hash mac request admin signed_in token refl 6 guest mailbox (codes "beef") refl
      (λ e. cc)

sweep-resolve_example :
    (resolve hash mac 99 request admin (sweep 9 signed_in)).1
    ≡ (resolve hash mac 99 request admin signed_in).1
sweep-resolve_example =
    sweep-resolve hash mac {start = start} {st = signed_in} refl
      (next here (logs_in 0 token admin 1 none)) 9 99 (omega arith) request admin

abbrev secret : Credentials
secret = record { email = codes "a@x.io"; password = codes "pw" }

abbrev mail_open : Sessions
mail_open = (login hash mac 0 (codes "beef") mailbox 7 (some secret) start).0

sweep-credentials_for_example :
    (credentials_for (hash (codes "beef")) (sweep 9 mail_open) ≡ some secret) ↔ (
      (credentials_for (hash (codes "beef")) mail_open ≡ some secret)
      × ((x : Session) × In x mail_open.store.sessions
          × (x.id ≡ hash (codes "beef"))
          × (x.user_type ≡ mailbox)
          × (format_time 9 ≤ x.expires_at)))
sweep-credentials_for_example = sweep-credentials_for 9 mail_open (hash (codes "beef")) secret
