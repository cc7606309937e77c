-- ===== src/Certs/Manager/Parts.antt =====
-- internal/certs/manager.go: the state of the manager, what an attempt is told, and the functions of an attempt
-- that need no more.
use wispbox.Base.{
  ℕ, ◌+◌, ◌-◌, ◌*◌, ◌/◌, ◌^◌, min, Text, codes, List, [], ◌∷◌, ◌++◌, Option, none, some, Result, ok,
  err, ltb, length, take, if◌then◌else◌, ◌||◌, same, contains,
}
use wispbox.Base.Outcome.{checked}
use wispbox.Base.Assoc.{get, put}
use wispbox.Db.Errors.{Error}
use wispbox.Db.Models.{Certificate, ServiceEvent}
use wispbox.Db.Tables.{Store}
use wispbox.Db.Certificates.{get_certificate_by_hostname, create_certificate}

abbrev pub hour : ℕ
hour = 3600000000000

abbrev pub renew_before : ℕ
renew_before = 30 * (24 * hour)

abbrev pub max_backoff : ℕ
max_backoff = 24 * hour

-- What leaves the process during an attempt.
pub data Effect : Type 0 where
  ca_contacted : Text → Effect
  config_regenerated : Effect
  service_reloaded : Text → Effect

pub record Manager (P : Type 0) : Type 0 where
  pub cache : List (Text × P)
  pub failures : List (Text × ℕ)
  pub fallback : Option P
  pub files : List (Text × Text)
  pub effects : List Effect

pub record Issued : Type 0 where
  pub cert_pem : Text
  pub key_pem : Text
  pub not_before : ℕ
  pub not_after : ℕ

-- What the outside says during one attempt, an error by its message.
pub record Answers : Type 0 where
  pub preflight : Result Text (Unit {0})
  pub issue : Result Text Issued
  pub make_dir : Result Text (Unit {0})
  pub write_cert : Result Text (Unit {0})
  pub write_key : Result Text (Unit {0})

pub data IssueError : Type 0 where
  stored : Error → IssueError
  cause : Text → IssueError

-- m.failures[hostname]
unfoldable pub failures_of : Text → List (Text × ℕ) → ℕ
unfolding get
failures_of hostname failures = elim (get hostname failures) [ none ↦ 0 | some n ↦ n ]

unfoldable pub backoff : ℕ → ℕ
backoff n =
    let wait = 2 ^ min (n - 1) 5 * hour in if ltb max_backoff wait then max_backoff else wait

-- renewAfter.Before(now), with the month moved to the other side
unfoldable pub renewal_time : ℕ → Issued → ℕ
renewal_time now i =
    if ltb i.not_after (now + renew_before)
    then i.not_before + (i.not_after - i.not_before) * 2 / 3
    else i.not_after - renew_before

-- "…" is three bytes.
unfoldable pub human_cert_error : Text → Text
unfolding contains
human_cert_error s =
    if contains s (codes "rateLimited")
    then codes "Let's Encrypt rate limit reached. wispbox will retry automatically; "
      ++ codes "no action needed unless this persists for a day."
    else if contains s (codes "urn:ietf:params:acme:error:unauthorized")
    then codes "The certificate authority could not reach this server on port 80. "
      ++ codes "Check that port 80 is open and not used by another service. ("
      ++ s
      ++ codes ")"
    else if contains s (codes "does not resolve") || contains s (codes "fix the A/AAAA record")
    then s
    else if ltb 500 (length s)
    then take 500 s ++ 226 ∷ 128 ∷ 166 ∷ []
    else s

-- strings.TrimSuffix(s, ".")
unfoldable pub trim_dot : Text → Text
unfolding same
trim_dot [] = []
trim_dot (c ∷ s) = let rest = trim_dot s in if same (c ∷ s) (codes ".") then [] else c ∷ rest

unfoldable pub ensure_tracked : ℕ → ℕ → Text → Store → Store × Result Error Certificate
unfolding get_certificate_by_hostname create_certificate
ensure_tracked now domain_id hostname s = elim (get_certificate_by_hostname hostname s) [
  | ok c ↦ (s, ok c)
  | err _ ↦ create_certificate now domain_id hostname s
]

-- writePEMPair. What the disk says of a file is about all that atomicWrite does, from the temporary file to
-- the rename: the file is replaced, or is left as it was.
unfoldable pub write_pem_pair :
    Answers
    → Text
    → Text
    → Text
    → Text
    → List (Text × Text)
    → List (Text × Text) × Result Text (Unit {0})
unfolding put
write_pem_pair answers cert_path key_path cert_pem key_pem files =
    checked answers.make_dir files λ _. checked answers.write_cert files λ _.
      let files' = put cert_path cert_pem files in
      checked answers.write_key files' λ _. (put key_path key_pem files', ok tt)

-- What Issuer.Kind says.
pub data IssuerKind : Type 0 where
  http_01 self_signed : IssuerKind

abbrev pub kind_name : IssuerKind → Text
kind_name http_01 = codes "http-01"
kind_name self_signed = codes "self-signed"

-- The event that an attempt leaves.
abbrev pub cert_event : Text → Text → ServiceEvent
cert_event status message = record {
  id = 0;
  service = codes "wispboxd";
  event_type = codes "cert_renew";
  status = status;
  message = message;
  created_at = 0;
}
