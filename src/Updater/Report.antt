-- ===== src/Updater/Report.antt =====
-- What the admin panel shows of a failed upgrade, and when two versions are the same.
use wispbox.Base.{
  zero, ℕ, Text, codes, true, false, List, [], ◌∷◌, Option, same, same_iff, trim_space,
  trim_space_idem, In, ◌≡◌, refl, inl, inr, Bool-cases,
}
use wispbox.Updater.{
  fallback_error, drop_returns, strip_escapes, Status, read_status, tail, failure_summary,
  clean_log_line, tells_failure,
}

-- A line of the log that tells of a failure, cleaned.
pub record IsFailure (lines : List Text) (text : Text) : Type 0 where
  pub line : Text
  pub logged : In line lines
  pub cleaned : text ≡ clean_log_line line
  pub tells : tells_failure text ≡ true

default_nonblank : same (trim_space (codes "Upgrade failed.")) [] ≡ false
unfolding same trim_space
default_nonblank = refl

fallback_error_nonblank :
    (summary message : Text)
    → trim_space summary ≡ summary
    → trim_space message ≡ message
    → same (trim_space (fallback_error summary message)) [] ≡ false
unfolding fallback_error
fallback_error_nonblank summary message f g = elim (Bool-cases (same summary [])) [
  | inr q ↦ rw (q, f) q
  | inl q ↦ elim (Bool-cases (same message [])) [
    | inr k ↦ rw (q, k, g) k
    | inl k ↦ rw (q, k) default_nonblank
  ]
]

summary_trimmed : (lines : List Text) → trim_space (failure_summary lines) ≡ failure_summary lines
unfolding failure_summary clean_log_line
summary_trimmed [] = unfold trim_space in refl
summary_trimmed (line ∷ lines) = elim (Bool-cases (same (failure_summary lines) [])) [
  | inr q ↦ rw q (summary_trimmed lines)
  | inl q ↦ elim (Bool-cases (tells_failure (clean_log_line line))) [
    | inl t ↦ rw (q, t) (trim_space_idem (drop_returns (strip_escapes zero line)))
    | inr t ↦ rw (q, t) (unfold trim_space in refl)
  ]
]

-- A status that Read gives as failed has an error that is not blank.
pub read_status_failed :
    (decoded : Status) (n : ℕ) (log : Option (List Text))
    → (read_status decoded n log).state ≡ codes "failed"
    → same (trim_space (read_status decoded n log).error) [] ≡ false
unfolding read_status
read_status_failed decoded n log h =
    let failed = (same_iff (read_status decoded n log).state (codes "failed")).1 h in
    elim (Bool-cases (same (trim_space decoded.error) [])) [
      | inl q ↦
          rw (failed, q)
            (fallback_error_nonblank (failure_summary (tail n log)) (trim_space decoded.message)
              (summary_trimmed (tail n log)) (trim_space_idem decoded.message))
      | inr q ↦ rw (failed, q) q
    ]
