-- ===== src/Db/Validate/Accepted.antt =====
-- What a text that the checks accept is like.
use wispbox.Base.{ℕ, Text, Bool, true, [], ◌∷◌, ok, ◌≡◌, ◌≢◌, arith, trim_space, same_iff}
use wispbox.Db.Validate.{
  validate_local_part, validate_domain_name, bounded_word, local_part_re, in_local_part, is_alnum,
}

pub local_part_ne_nil : (t : Text) → validate_local_part t ≡ ok tt → trim_space t ≢ []
unfolding validate_local_part
local_part_ne_nil t h e = ground (arith, same_iff (trim_space t) [])

pub domain_ne_nil : (t : Text) → validate_domain_name t ≡ ok tt → trim_space t ≢ []
unfolding validate_domain_name
domain_ne_nil t h e = ground (arith, same_iff (trim_space t) [])

bounded_word-head :
    (inner : ℕ → Bool) (lo hi c : ℕ) (t : Text)
    → bounded_word inner lo hi (c ∷ t) ≡ true
    → is_alnum c ≡ true
unfolding bounded_word
bounded_word-head inner lo hi c [] h = h
bounded_word-head inner lo hi c (d ∷ t) h = ground arith

pub local_part_head :
    (t : Text) (c : ℕ) (r : Text)
    → validate_local_part t ≡ ok tt
    → trim_space t ≡ c ∷ r
    → is_alnum c ≡ true
unfolding validate_local_part local_part_re
local_part_head t c r h e =
    let matched : local_part_re (trim_space t) ≡ true = ground arith in
    bounded_word-head in_local_part 0 62 c r (rw e at matched)
