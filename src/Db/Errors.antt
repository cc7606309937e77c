-- ===== src/Db/Errors.antt =====
-- The error values of the packages db, delivery and auth, one constructor for each message.
use wispbox.Base.{ℕ}

pub data Entity : Type 0 where
  admin domain mailbox alias relay policy certificate passkey session setting challenge : Entity

-- internal/db/validate.go
pub data Invalid : Type 0 where
  username_required username_not_lowercase username_malformed : Invalid
  domain_required domain_not_lowercase domain_is_url domain_has_mail_prefix : Invalid
  domain_too_long domain_malformed : Invalid
  hostname_required hostname_malformed : Invalid
  local_part_required local_part_not_lowercase local_part_too_long : Invalid
  local_part_malformed local_part_double_dot : Invalid
  email_required email_malformed ipv4_malformed ipv6_malformed : Invalid

pub data Error : Type 0 where
  -- notFound(entity), which wraps ErrNotFound
  not_found : Entity → Error
  -- a UNIQUE violation that the store puts into words
  already_exists : Entity → Error
  -- a UNIQUE violation passed on as the driver words it
  unique_violation : Error
  invalid : Invalid → Error
  alias_not_on_domain alias_to_itself : Error
  relay_in_use : ℕ → Error
  -- internal/delivery
  invalid_mode global_inherit relay_not_selected relay_missing relay_disabled : Error
  global_policy_missing : Error
