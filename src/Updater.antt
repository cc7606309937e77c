-- ===== src/Updater.antt =====
-- internal/updater/updater.go: the status of the last upgrade, its log and the version numbers. What the
pub mod Tests
-- status file decodes to and the lines of the log, as the scanner splits them, are arguments.
pub mod LogTail
pub mod Report
use wispbox.Base.{
  ℕ, suc, zero, ◌+◌, ◌-◌, Text, codes, Bool, true, false, not, ◌&&◌, ◌||◌, List, [], ◌∷◌, ◌++◌,
  Option, none, some, leb, length, drop, ◌==◌, if◌then◌else◌, same, to_lower, trim_space,
  trim_prefix, contains,
}

pub record Status : Type 0 where
  pub available : Bool
  pub state : Text
  pub current_version : Text
  pub current_commit : Text
  pub current_date : Text
  pub latest_version : Text
  pub update_available : Bool
  pub target_version : Text
  pub started_at : Text
  pub finished_at : Text
  pub message : Text
  pub error : Text
  pub log_tail : List Text

-- The loop of Tail: a full window moves up by one line.
unfoldable pub tail_from : ℕ → List Text → List Text → List Text
tail_from n window [] = window
tail_from n window (line ∷ lines) =
    tail_from n (if length window == n then drop 1 window ++ line ∷ [] else window ++ line ∷ [])
      lines

-- `none` stands for a log that cannot be opened or read.
unfoldable pub tail : ℕ → Option (List Text) → List Text
unfolding tail_from
tail n none = []
tail n (some lines) = if n == 0 then [] else tail_from n [] lines

abbrev in_range : ℕ → ℕ → ℕ → Bool
in_range lo hi c = leb lo c && leb c hi

abbrev is_parameter : ℕ → Bool
is_parameter c = in_range b'0' b'9' c || (c == b';' || c == b'?')

-- How much of the text is [0-9;?]*[ -/]*[@-~], from the left, or 0. The three classes are disjoint, so
-- that there is one way to match.
unfoldable pub sequence_length : Bool → Text → ℕ
sequence_length in_parameters [] = 0
sequence_length in_parameters (c ∷ s) =
    let parameters = sequence_length true s in
    let intermediates = sequence_length false s in
    if in_parameters && is_parameter c
    then (if parameters == 0 then 0 else suc parameters)
    else if in_range b' ' b'/' c
    then (if intermediates == 0 then 0 else suc intermediates)
    else if in_range b'@' b'~' c
    then 1
    else 0

abbrev escape : ℕ
escape = 27

-- How much of the text is \x1b\[[0-9;?]*[ -/]*[@-~], or 0.
unfoldable pub escape_length : Text → ℕ
unfolding sequence_length
escape_length [] = 0
escape_length (c ∷ []) = 0
escape_length (c ∷ d ∷ s) =
    if (c == escape) && (d == b'[')
    then (if sequence_length true s == 0 then 0 else sequence_length true s + 2)
    else 0

-- ReplaceAllString with nothing; `skip` is what is left of the match at hand.
unfoldable pub strip_escapes : ℕ → Text → Text
unfolding escape_length
strip_escapes skip [] = []
strip_escapes (suc skip) (c ∷ s) = strip_escapes skip s
strip_escapes zero (c ∷ s) =
    let matched = strip_escapes (escape_length (c ∷ s) - 1) s in
    let rest = strip_escapes zero s in if escape_length (c ∷ s) == 0 then c ∷ rest else matched

unfoldable pub drop_returns : Text → Text
drop_returns [] = []
drop_returns (c ∷ s) = let rest = drop_returns s in if c == 13 then rest else c ∷ rest

unfoldable pub clean_log_line : Text → Text
unfolding strip_escapes drop_returns trim_space
clean_log_line line = trim_space (drop_returns (strip_escapes zero line))

abbrev pub needles : List Text
needles =
    codes "error:"
    ∷ codes "failed"
    ∷ codes "failure"
    ∷ codes "could not"
    ∷ codes "permission denied"
    ∷ codes "not found"
    ∷ codes "no such file"
    ∷ codes "exited"
    ∷ []

unfoldable pub has_needle : List Text → Text → Bool
unfolding contains
has_needle [] lowered = false
has_needle (n ∷ ns) lowered = contains lowered n || has_needle ns lowered

-- Whether a cleaned line tells of a failure.
abbrev pub tells_failure : Text → Bool
tells_failure line = not (same line []) && has_needle needles (to_lower line)

-- The loop runs from the last line to the first.
unfoldable pub failure_summary : List Text → Text
unfolding clean_log_line has_needle same to_lower
failure_summary [] = []
failure_summary (line ∷ lines) =
    let later = failure_summary lines in
    if not (same later [])
    then later
    else if tells_failure (clean_log_line line)
    then clean_log_line line
    else []

-- The error of a failed upgrade that reports none.
unfoldable pub fallback_error : Text → Text → Text
unfolding same
fallback_error summary message =
    if not (same summary [])
    then summary
    else if not (same message [])
    then message
    else codes "Upgrade failed."

-- Read, once the file is decoded over the idle status.
unfoldable pub read_status : Status → ℕ → Option (List Text) → Status
unfolding tail failure_summary trim_space fallback_error
read_status decoded n log =
    let state = if same decoded.state [] then codes "idle" else decoded.state in
    record decoded {
      state = state;
      log_tail = tail n log;
      error =
          if same state (codes "failed") && same (trim_space decoded.error) []
          then fallback_error (failure_summary (tail n log)) (trim_space decoded.message)
          else decoded.error;
    }

unfoldable pub normalize_version : Text → Text
unfolding trim_prefix trim_space
normalize_version v = trim_prefix (trim_prefix (trim_space v) (codes "wispbox ")) (codes "v")

unfoldable pub same_version : Text → Text → Bool
unfolding normalize_version same
same_version a b =
    not (same (normalize_version a) []) && same (normalize_version a) (normalize_version b)
