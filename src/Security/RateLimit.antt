-- ===== src/Security/RateLimit.antt =====
-- internal/security/ratelimit.go, the token bucket of the login endpoints. Tokens are counted in whole
-- units, `one` of them to a token, so that a rate is a number of units for each nanosecond; the source's
-- floating-point rounding is not modelled. The clock does not run back.
pub mod Level
pub mod Bound
use wispbox.Base.{
  ℕ, ◌+◌, ◌-◌, ◌*◌, Text, Bool, true, false, List, [], ◌∷◌, none, some, ltb, length, if◌then◌else◌,
  same,
}
use wispbox.Base.Rows.{find, delete}

pub record Bucket : Type 0 where
  pub key : Text
  pub tokens : ℕ
  pub last : ℕ

pub record RateLimiter : Type 0 where
  pub one : ℕ
  pub rate : ℕ
  pub burst : ℕ
  pub buckets : List Bucket

-- NewRateLimiter(0.2, 5), as api/app.go calls it: 5 tokens at once, then one in 5 seconds.
abbrev pub login_limiter : RateLimiter
login_limiter = record { one = 5000000000; rate = 1; burst = 25000000000; buckets = [] }

abbrev pub ten_minutes : ℕ
ten_minutes = 600000000000

abbrev pub is_idle : ℕ → Bucket → Bool
is_idle now b = ltb ten_minutes (now - b.last)

unfoldable pub clean_up : ℕ → RateLimiter → RateLimiter
unfolding delete
clean_up now l = record l {
  buckets = if ltb 10000 (length l.buckets) then delete (is_idle now) l.buckets else l.buckets;
}

-- l.buckets[b.key] = b
unfoldable pub put_bucket : Bucket → RateLimiter → RateLimiter
unfolding delete same
put_bucket b l = record l { buckets = b ∷ delete (λ x. same x.key b.key) l.buckets }

unfoldable pub refill : ℕ → RateLimiter → Bucket → ℕ
refill now l b =
    let tokens = b.tokens + (now - b.last) * l.rate in
    if ltb l.burst tokens then l.burst else tokens

unfoldable pub take_token : ℕ → Bucket → RateLimiter → RateLimiter × Bool
unfolding refill put_bucket
take_token now b l =
    let tokens = refill now l b in
    if ltb tokens l.one
    then (put_bucket (record b { tokens = tokens; last = now }) l, false)
    else (put_bucket (record b { tokens = tokens - l.one; last = now }) l, true)

unfoldable pub allow : ℕ → Text → RateLimiter → RateLimiter × Bool
unfolding find same clean_up take_token
allow now key l = elim (find (λ b. same b.key key) l.buckets) [
  | some b ↦ take_token now b l
  | none ↦ take_token now (record { key = key; tokens = l.burst; last = now }) (clean_up now l)
]
