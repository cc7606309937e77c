-- ===== src/Security/Tests.antt =====
-- The rate limiter and the checks on attachments at work.
use wispbox.Base.{
  ℕ, ◌+◌, ◌-◌, ◌*◌, ◌≤◌, Text, codes, not, [], ◌∷◌, ltb, if◌then◌else◌, same, ◌≡◌, refl, arith, err,
}
use wispbox.Security.Attachments.{
  check_outgoing_attachment, cannot_be_sent, is_empty, safe_download_type, octet_stream,
}
use wispbox.Security.RateLimit.{login_limiter, allow}
use wispbox.Security.RateLimit.Level.{level, IsSane, allow-level, grown, spent}
use wispbox.Security.RateLimit.Bound.{Attempts, granted, granted_bound, end_time}

abbrev key : Text
key = codes "mail:192.0.2.1"

-- Six attempts within a second.
abbrev burst_of_six : Attempts
burst_of_six = (0, key) ∷ (1, key) ∷ (2, key) ∷ (3, key) ∷ (4, key) ∷ (1000000000, key) ∷ []

login_limiter-IsSane : IsSane login_limiter
login_limiter-IsSane = record { keyed = tt; fills = omega arith }

burst_of_six-granted : granted key burst_of_six login_limiter ≡ 5
unfolding granted
burst_of_six-granted = refl

granted_bound_example :
    granted key burst_of_six login_limiter * login_limiter.one
    ≤ login_limiter.burst + (end_time 0 burst_of_six - 0) * login_limiter.rate
granted_bound_example =
    granted_bound 0 key burst_of_six login_limiter login_limiter-IsSane
      (omega arith, (omega arith, (omega arith, (omega arith, (omega arith, (omega arith, tt))))))

allow-level_example :
    ((allow 7 key login_limiter).1 ≡ not (ltb (level 7 key login_limiter) login_limiter.one))
    × ((later : ℕ) (key' : Text)
        → 7 ≤ later
        → level later key' (allow 7 key login_limiter).0 ≡ (
            if same key key'
            then grown login_limiter
                (spent login_limiter.one (level 7 key login_limiter))
                (later - 7)
            else level later key' login_limiter))
allow-level_example = allow-level 7 key login_limiter login_limiter-IsSane

renamed_script : check_outgoing_attachment (codes "a.pdf.JS") 9 ≡ err cannot_be_sent
unfolding check_outgoing_attachment
renamed_script = refl

dot_of_a_directory : check_outgoing_attachment (codes "v1.js/readme") 0 ≡ err is_empty
unfolding check_outgoing_attachment
dot_of_a_directory = refl

page_called_image :
    safe_download_type (λ _. codes "text/html; charset=utf-8") (codes "image/png") [] ≡ octet_stream
unfolding safe_download_type
page_called_image = refl

type_with_parameter :
    safe_download_type (λ _. codes "text/plain") (codes " Image/PNG ; q=1") [] ≡ codes "image/png"
unfolding safe_download_type
type_with_parameter = refl
