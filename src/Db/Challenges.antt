-- ===== src/Db/Challenges.antt =====
-- internal/db/store_security.go, the challenges of a sign-in. The id is fresh randomness.
use wispbox.Base.{
  ℕ, ◌+◌, Text, ◌&&◌, [], ◌∷◌, ◌++◌, Option, none, some, Result, ok, err, ltb, leb, if◌then◌else◌,
  same,
}
use wispbox.Base.Rows.{find, delete, exists}
use wispbox.Db.Errors.{Error, Entity, not_found, unique_violation}
use wispbox.Db.Models.{AuthChallenge, UserType}
use wispbox.Db.Tables.{Store, format_time, parse_time}

unfoldable pub create_auth_challenge :
    ℕ → Text → UserType → ℕ → Text → Text → ℕ → Store → Store × Result Error Text
unfolding exists same
create_auth_challenge now id user_type user_id kind session_data ttl s =
    let row : AuthChallenge = record {
      id = id;
      user_type = user_type;
      user_id = user_id;
      kind = kind;
      session_data = session_data;
      created_at = format_time now;
      expires_at = format_time (now + ttl);
    } in
    if exists (λ c. same c.id id) s.challenges
    then (s, err unique_violation)
    else (record s { challenges = s.challenges ++ row ∷ [] }, ok id)

unfoldable pub delete_auth_challenge : Text → Store → Store
unfolding delete same
delete_auth_challenge id s = record s { challenges = delete (λ c. same c.id id) s.challenges }

unfoldable pub check_challenge :
    ℕ → Text → Option AuthChallenge → Store → Store × Result Error AuthChallenge
unfolding delete_auth_challenge
check_challenge now id none s = (s, err (not_found Entity.challenge))
check_challenge now id (some c) s =
    if ltb (parse_time c.expires_at) now
    then (delete_auth_challenge id s, err (not_found Entity.challenge))
    else (s, ok c)

unfoldable pub get_auth_challenge : ℕ → Text → Text → Store → Store × Result Error AuthChallenge
unfolding find same check_challenge
get_auth_challenge now id kind s =
    check_challenge now id (find (λ c. same c.id id && same c.kind kind) s.challenges) s

-- DELETE FROM auth_challenges WHERE expires_at <= now
unfoldable pub prune_auth_challenges : ℕ → Store → Store
unfolding delete
prune_auth_challenges now s = record s {
  challenges = delete (λ c. leb c.expires_at (format_time now)) s.challenges;
}
