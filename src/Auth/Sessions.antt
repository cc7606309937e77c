-- ===== src/Auth/Sessions.antt =====
-- internal/auth/session.go. `hash` is db.HashSessionToken; `mac` is the hexadecimal HMAC-SHA-256 under
-- the server's secret. A token is fresh randomness that the store makes, an argument here.
pub mod Safety
pub mod Lifetime
pub mod Keyed
pub mod Swept
use wispbox.Base.{
  ℕ, ◌*◌, ◌/◌, Text, codes, Bool, false, not, ◌&&◌, ◌||◌, List, [], ◌∷◌, ◌++◌, Option, none, some,
  Result, ok, err, if◌then◌else◌, same, ℤ, pos, negsuc,
}
use wispbox.Base.Rows.{find, delete, exists}
use wispbox.Db.Errors.{Error}
use wispbox.Db.Models.{Session, UserType, admin, mailbox}
use wispbox.Db.Tables.{Store}
use wispbox.Db.Sessions.{
  create_session, lookup_session, delete_session, prune_sessions, same_user_type,
}

pub record Credentials : Type 0 where
  pub email : Text
  pub password : Text

-- creds, by the session id
pub record Entry : Type 0 where
  pub session_id : Text
  pub credentials : Credentials

pub record Sessions : Type 0 where
  pub store : Store
  pub secure : Bool
  pub creds : List Entry

-- What the server reads of a request: the method, the cookies in their order and the CSRF header,
-- which is empty when it is absent.
pub record Request : Type 0 where
  pub method : Text
  pub cookies : List (Text × Text)
  pub csrf_header : Text

-- The session cookies set HttpOnly, Path=/ and SameSite=Lax.
pub record Cookie : Type 0 where
  pub name : Text
  pub value : Text
  pub max_age : ℤ
  pub secure : Bool

abbrev pub second : ℕ
second = 1000000000

-- 12 hours
abbrev pub admin_session_ttl : ℕ
admin_session_ttl = 43200 * second

-- 7 days
abbrev pub mail_session_ttl : ℕ
mail_session_ttl = 604800 * second

abbrev pub session_ttl : UserType → ℕ
session_ttl mailbox = mail_session_ttl
session_ttl admin = admin_session_ttl

abbrev pub cookie_name : UserType → Text
cookie_name mailbox = codes "wispbox_mail"
cookie_name admin = codes "wispbox_admin"

-- r.Cookie(name): the first cookie with the name
unfoldable pub cookie_of : Text → List (Text × Text) → Option Text
unfolding same
cookie_of name [] = none
cookie_of name (c ∷ cs) = let rest = cookie_of name cs in if same c.0 name then some c.1 else rest

abbrev pub session_cookie : Request → UserType → Option Text
session_cookie r user_type = cookie_of (cookie_name user_type) r.cookies

unfoldable pub credentials_for : Text → Sessions → Option Credentials
unfolding find same
credentials_for session_id st = elim (find (λ e. same e.session_id session_id) st.creds) [
  | none ↦ none
  | some e ↦ some e.credentials
]

unfoldable pub forget_credentials : Text → Sessions → Sessions
unfolding delete same
forget_credentials session_id st = record st {
  creds = delete (λ e. same e.session_id session_id) st.creds;
}

unfoldable pub set_credentials : Text → Credentials → Sessions → Sessions
unfolding forget_credentials
set_credentials session_id c st = record st {
  creds =
      record { session_id = session_id; credentials = c }
      ∷ delete (λ e. same e.session_id session_id) st.creds;
}

abbrev pub keep_credentials : Text → Option Credentials → Sessions → Sessions
keep_credentials session_id none st = st
keep_credentials session_id (some c) st = set_credentials session_id c st

-- The methods that change nothing.
abbrev pub is_safe : Request → Bool
is_safe r = same r.method (codes "GET") || same r.method (codes "HEAD")

pub data Refusal : Type 0 where
  unauthorized forbidden : Refusal

module _ (hash : Text → Text) (mac : Text → Text) where
  unfoldable pub csrf_token : Text → Text
  csrf_token token = mac (codes "csrf:" ++ hash token)

  -- The cookie to set and the CSRF token.
  unfoldable pub login :
      ℕ
      → Text
      → UserType
      → ℕ
      → Option Credentials
      → Sessions
      → Sessions × Result Error (Cookie × Text)
  login now token user_type user_id creds st =
      let (store, made) =
        create_session hash now token user_type user_id (session_ttl user_type) st.store in
      elim made [
        | err e ↦ (record st { store = store }, err e)
        | ok made_token ↦ (
          keep_credentials (hash made_token) creds (record st { store = store }),
          ok (
            record {
              name = cookie_name user_type;
              value = made_token;
              max_age = pos (session_ttl user_type / second);
              secure = st.secure;
            },
            csrf_token made_token,
          ),
        )
      ]

  abbrev pub drop_session : Option Text → Sessions → Sessions
  drop_session none st = st
  drop_session (some token) st =
      let st' = forget_credentials (hash token) st in
      record st' { store = delete_session hash token st'.store }

  -- The cookie is cleared with MaxAge = -1.
  unfoldable pub logout : Request → UserType → Sessions → Sessions × Cookie
  logout r user_type st = (
    drop_session (session_cookie r user_type) st,
    record { name = cookie_name user_type; value = []; max_age = negsuc 0; secure = st.secure },
  )

  abbrev pub resolve_token : ℕ → UserType → Option Text → Sessions → Sessions × Option Session
  resolve_token now user_type none st = (st, none)
  resolve_token now user_type (some token) st =
      let (store, found) = lookup_session hash now token user_type st.store in
      (record st { store = store }, elim found [ err _ ↦ none | ok x ↦ some x ])

  unfoldable pub resolve : ℕ → Request → UserType → Sessions → Sessions × Option Session
  resolve now r user_type st = resolve_token now user_type (session_cookie r user_type) st

  unfoldable pub csrf_for_request : Request → UserType → Text
  csrf_for_request r user_type = elim (session_cookie r user_type) [
    | none ↦ []
    | some token ↦ csrf_token token
  ]

  unfoldable pub verify_csrf : Request → UserType → Bool
  verify_csrf r user_type = elim (session_cookie r user_type) [
    | none ↦ false
    | some token ↦ not (same r.csrf_header []) && same r.csrf_header (csrf_token token)
  ]

  unfoldable pub require_session :
      ℕ → Request → UserType → Sessions → Sessions × Result Refusal Session
  require_session now r user_type st =
      let (st', found) = resolve now r user_type st in
      elim found [
        | none ↦ (st', err unauthorized)
        | some x ↦
            if not (is_safe r) && not (verify_csrf r user_type)
            then (st', err forbidden)
            else (st', ok x)
      ]

unfoldable pub is_live : List Session → Text → Bool
unfolding exists same
is_live sessions id = exists (λ x. same_user_type x.user_type mailbox && same x.id id) sessions

unfoldable pub sweep : ℕ → Sessions → Sessions
unfolding prune_sessions delete is_live
sweep now st =
    let store = prune_sessions now st.store in
    record st {
      store = store;
      creds = delete (λ e. not (is_live store.sessions e.session_id)) st.creds;
    }
