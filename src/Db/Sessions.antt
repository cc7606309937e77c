-- ===== src/Db/Sessions.antt =====
-- internal/db/store.go, the sessions. `hash` is HashSessionToken, the hexadecimal SHA-256 of a token;
-- the token of CreateSession is fresh randomness, an argument here.
use wispbox.Base.{
  ℕ, ◌+◌, Text, Bool, true, false, not, [], ◌∷◌, ◌++◌, Option, none, some, Result, ok, err, ltb,
  if◌then◌else◌, same,
}
use wispbox.Base.Rows.{find, delete, exists}
use wispbox.Db.Errors.{Error, Entity, not_found, unique_violation}
use wispbox.Db.Models.{Session, UserType, admin, mailbox}
use wispbox.Db.Tables.{Store, format_time, parse_time}

abbrev pub same_user_type : UserType → UserType → Bool
same_user_type admin admin = true
same_user_type mailbox mailbox = true
same_user_type _ _ = false

unfoldable pub delete_session_by_id : Text → Store → Store
unfolding delete same
delete_session_by_id id s = record s { sessions = delete (λ x. same x.id id) s.sessions }

-- `time.Now().UTC().After(exp)`
abbrev pub is_over : ℕ → Session → Bool
is_over now x = ltb (parse_time x.expires_at) now

-- The checks on the row that the token's hash finds.
unfoldable pub check_session : ℕ → UserType → Option Session → Store → Store × Result Error Session
unfolding delete_session_by_id
check_session now want none s = (s, err (not_found Entity.session))
check_session now want (some x) s =
    if not (same_user_type x.user_type want)
    then (s, err (not_found Entity.session))
    else if is_over now x
    then (delete_session_by_id x.id s, err (not_found Entity.session))
    else (s, ok x)

module _ (hash : Text → Text) where
  unfoldable pub create_session : ℕ → Text → UserType → ℕ → ℕ → Store → Store × Result Error Text
  unfolding exists same
  create_session now token user_type user_id ttl s =
      let row : Session = record {
        id = hash token;
        user_type = user_type;
        user_id = user_id;
        expires_at = format_time (now + ttl);
        created_at = format_time now;
      } in
      if exists (λ x. same x.id (hash token)) s.sessions
      then (s, err unique_violation)
      else (record s { sessions = s.sessions ++ row ∷ [] }, ok token)

  unfoldable pub lookup_session : ℕ → Text → UserType → Store → Store × Result Error Session
  unfolding find same check_session
  lookup_session now token want s =
      if same token []
      then (s, err (not_found Entity.session))
      else check_session now want (find (λ x. same x.id (hash token)) s.sessions) s

  unfoldable pub delete_session : Text → Store → Store
  unfolding delete_session_by_id
  delete_session token = delete_session_by_id (hash token)

-- DELETE FROM sessions WHERE expires_at < now
unfoldable pub prune_sessions : ℕ → Store → Store
unfolding delete
prune_sessions now s = record s {
  sessions = delete (λ x. ltb x.expires_at (format_time now)) s.sessions;
}
