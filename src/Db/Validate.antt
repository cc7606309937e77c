-- ===== src/Db/Validate.antt =====
-- internal/db/validate.go. A regular expression is the test that it stands for.
pub mod Accepted
use wispbox.Base.{
  ℕ, ◌+◌, Text, codes, Bool, true, false, not, ◌&&◌, ◌||◌, [], ◌∷◌, ◌++◌, Option, none, some,
  Result, err, leb, ltb, ◌==◌, if◌then◌else◌, length, same, to_lower, trim_space, has_prefix,
  contains,
}
use wispbox.Base.Outcome.{refuse, ◌>>◌}
use wispbox.Db.Errors.{
  Error, invalid, username_required, username_not_lowercase, username_malformed, domain_required,
  domain_not_lowercase, domain_is_url, domain_has_mail_prefix, domain_too_long, domain_malformed,
  hostname_required, hostname_malformed, local_part_required, local_part_not_lowercase,
  local_part_too_long, local_part_malformed, local_part_double_dot, email_required, email_malformed,
}

abbrev pub is_lower : ℕ → Bool
is_lower c = leb b'a' c && leb c b'z'

-- [a-z0-9]
abbrev pub is_alnum : ℕ → Bool
is_alnum c = is_lower c || (leb b'0' c && leb c b'9')

module _ (inner : ℕ → Bool) where
  -- inner* and then [a-z0-9], up to the end
  unfoldable pub ends_well : Text → Bool
  ends_well [] = false
  ends_well (c ∷ []) = is_alnum c
  ends_well (c ∷ d ∷ s) = inner c && ends_well (d ∷ s)

  -- ^[a-z0-9](?:inner{lo,hi}[a-z0-9])?$
  unfoldable pub bounded_word : ℕ → ℕ → Text → Bool
  unfolding ends_well
  bounded_word lo hi [] = false
  bounded_word lo hi (c ∷ []) = is_alnum c
  bounded_word lo hi (c ∷ d ∷ s) =
      is_alnum c
      && (ends_well (d ∷ s) && (leb (lo + 1) (length (d ∷ s)) && leb (length (d ∷ s)) (hi + 1)))

abbrev pub in_username : ℕ → Bool
in_username c = is_alnum c || (c == b'.' || (c == b'_' || c == b'-'))

abbrev pub in_label : ℕ → Bool
in_label c = is_alnum c || c == b'-'

abbrev pub in_local_part : ℕ → Bool
in_local_part c = is_alnum c || (c == b'.' || (c == b'_' || (c == b'+' || c == b'-')))

unfoldable pub admin_username_re : Text → Bool
unfolding bounded_word
admin_username_re = bounded_word in_username 1 30

unfoldable pub local_part_re : Text → Bool
local_part_re = bounded_word in_local_part 0 62

unfoldable pub all_lower : Text → Bool
all_lower [] = true
all_lower (c ∷ s) = is_lower c && all_lower s

-- [a-z]{2,63}$
unfoldable pub top_level : Text → Bool
unfolding all_lower
top_level s = all_lower s && (leb 2 (length s) && leb (length s) 63)

-- (?:label\.)* and then a top level; `label` is what has been read since the last dot
unfoldable pub labels_re : Text → Text → Bool → Bool
unfolding bounded_word top_level
labels_re [] label dotted = dotted && top_level label
labels_re (c ∷ s) label dotted =
    let here = bounded_word in_label 0 61 label && labels_re s [] true in
    let more = labels_re s (label ++ c ∷ []) dotted in if c == b'.' then here else more

unfoldable pub domain_re : Text → Bool
unfolding labels_re
domain_re s = labels_re s [] false

-- The error of the first check that fails.
unfoldable pub validate_admin_username : Text → Result Error (Unit {0})
validate_admin_username username = do
  let name = trim_space username
  refuse (same name []) (invalid username_required)
  refuse (not (same name (to_lower name))) (invalid username_not_lowercase)
  refuse (not (admin_username_re name)) (invalid username_malformed)

unfoldable pub validate_domain_name : Text → Result Error (Unit {0})
validate_domain_name text = do
  let name = trim_space text
  refuse (same name []) (invalid domain_required)
  refuse (not (same name (to_lower name))) (invalid domain_not_lowercase)
  refuse (contains name (codes "://") || contains name (codes "/")) (invalid domain_is_url)
  refuse (has_prefix name (codes "mail.")) (invalid domain_has_mail_prefix)
  refuse (ltb 253 (length name)) (invalid domain_too_long)
  refuse (not (domain_re name)) (invalid domain_malformed)

unfoldable pub validate_hostname : Text → Result Error (Unit {0})
validate_hostname text = do
  let name = trim_space (to_lower text)
  refuse (same name []) (invalid hostname_required)
  refuse (ltb 253 (length name) || not (domain_re name)) (invalid hostname_malformed)

unfoldable pub default_mail_hostname : Text → Text
unfolding trim_space to_lower
default_mail_hostname domain = codes "mail." ++ to_lower (trim_space domain)

unfoldable pub validate_local_part : Text → Result Error (Unit {0})
validate_local_part text = do
  let lp = trim_space text
  refuse (same lp []) (invalid local_part_required)
  refuse (not (same lp (to_lower lp))) (invalid local_part_not_lowercase)
  refuse (ltb 64 (length lp)) (invalid local_part_too_long)
  refuse (not (local_part_re lp)) (invalid local_part_malformed)
  refuse (contains lp (codes "..")) (invalid local_part_double_dot)

-- `parse_address` is mail.ParseAddress: the address in the text, if it is one.
module _ (parse_address : Text → Option Text) where
  unfoldable pub validate_email : Text → Result Error (Unit {0})
  validate_email text = do
    let addr = trim_space text
    refuse (same addr []) (invalid email_required)
    elim (parse_address addr) [
      | none ↦ err (invalid email_malformed)
      | some address ↦ refuse (not (same address addr)) (invalid email_malformed)
    ]
