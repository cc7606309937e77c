-- ===== src/Updater/Tests.antt =====
-- The log of a failed upgrade.
use wispbox.Base.{Text, codes, true, false, List, [], ◌∷◌, some, ◌≡◌, refl, same, trim_space}
use wispbox.Updater.{Status, tail, read_status}
use wispbox.Updater.LogTail.{last_of, tail_lem}
use wispbox.Updater.Report.{read_status_failed}

abbrev log : List Text
log = codes "fetching" ∷ codes "Error: no space" ∷ codes "bye" ∷ []

abbrev decoded : Status
decoded = record {
  available = true;
  state = codes "failed";
  current_version = [];
  current_commit = [];
  current_date = [];
  latest_version = [];
  update_available = false;
  target_version = [];
  started_at = [];
  finished_at = [];
  message = [];
  error = codes " ";
  log_tail = [];
}

tail_lem_example : tail 2 (some log) ≡ last_of 2 log
tail_lem_example = tail_lem 2 log

read_status_failed_example : same (trim_space (read_status decoded 2 (some log)).error) [] ≡ false
unfolding read_status
read_status_failed_example = read_status_failed decoded 2 (some log) refl
