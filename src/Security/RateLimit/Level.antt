-- ===== src/Security/RateLimit/Level.antt =====
-- What a key has at a time, and how an attempt changes it.
use wispbox.Base.{
  subst, ℕ, ◌+◌, ◌-◌, ◌*◌, ◌≤◌, Text, Bool, true, false, not, List, [], ◌∷◌, Option, none, some,
  ltb, length, if◌then◌else◌, same, same_iff, arith, ◌≡◌, refl, sym, ◌∙◌, inl, inr, Bool-cases, ap,
}
use native.Mathlib.Nat.{mul-le-mul_right}
use wispbox.Base.Rows.{find-In, find, delete, exists, find-delete}
use wispbox.Base.Keyed.{differ, IsKeyedBy, delete-IsKeyed, find-delete_keyed}
use wispbox.Security.RateLimit.{
  RateLimiter, Bucket, clean_up, put_bucket, refill, take_token, allow, is_idle, ten_minutes,
}

abbrev pub level_of : ℕ → RateLimiter → Option Bucket → ℕ
level_of now l none = l.burst
level_of now l (some b) = refill now l b

-- What the key has at a time: a key without a bucket has the whole burst.
abbrev pub level : ℕ → Text → RateLimiter → ℕ
level now key l = level_of now l (find (λ b. same b.key key) l.buckets)

-- Each key has one bucket, and a bucket that clean-up drops has had the time to fill up.
pub record IsSane (l : RateLimiter) : Type 0 where
  pub keyed : IsKeyedBy (λ (b : Bucket). b.key) l.buckets
  pub fills : l.burst ≤ ten_minutes * l.rate

-- What is left of a level after an attempt.
abbrev pub spent : ℕ → ℕ → ℕ
spent one tokens = if ltb tokens one then tokens else tokens - one

exists-delete_gone :
    (key : Text) (xs : List Bucket)
    → exists (λ x. same x.key key) (delete (λ x. same x.key key) xs) ≡ false
unfolding exists delete
exists-delete_gone key [] = refl
exists-delete_gone key (x ∷ xs) = ground (arith, exists-delete_gone key xs)

elapsed :
    (now later : ℕ) (b : Bucket) → now ≤ later → is_idle now b ≡ true → ten_minutes ≤ later - b.last
elapsed now later b le h = ground arith

idle_full :
    (now later : ℕ) (l : RateLimiter) (b : Bucket)
    → now ≤ later
    → l.burst ≤ ten_minutes * l.rate
    → is_idle now b ≡ true
    → refill later l b ≡ l.burst
unfolding refill
idle_full now later l b le f h = ground (arith, mul-le-mul_right l.rate (elapsed now later b le h))

put_bucket-IsSane : (b : Bucket) (l : RateLimiter) → IsSane l → IsSane (put_bucket b l)
unfolding put_bucket
put_bucket-IsSane b l h = record {
  keyed = (
    exists-delete_gone b.key l.buckets,
    delete-IsKeyed (λ (x : Bucket). x.key) (λ x. same x.key b.key) l.buckets h.keyed,
  );
  fills = h.fills;
}

clean_up-IsSane : (now : ℕ) (l : RateLimiter) → IsSane l → IsSane (clean_up now l)
unfolding clean_up
clean_up-IsSane now l h = elim (Bool-cases (ltb 10000 (length l.buckets))) [
  | inl e ↦ rw e (record {
    keyed = delete-IsKeyed (λ (x : Bucket). x.key) (is_idle now) l.buckets h.keyed;
    fills = h.fills;
  })
  | inr e ↦ rw e h
]

level-put_bucket :
    (later : ℕ) (key : Text) (b : Bucket) (l : RateLimiter)
    → level later key (put_bucket b l)
      ≡ (if same b.key key then refill later l b else level later key l)
unfolding put_bucket refill find
level-put_bucket later key b l = elim (Bool-cases (same b.key key)) [
  | inl e ↦ ground arith
  | inr e ↦
      rw
        (
          e,
          find,
          find-delete (λ (x : Bucket). same x.key key) (λ x. same x.key b.key) l.buckets
              (λ x k.
                subst (λ t. same t b.key ≡ false) (sym ((same_iff x.key key).0 k))
                  (differ b.key key e)),
        )
        refl
]

level-clean_up :
    (now later : ℕ) (key : Text) (l : RateLimiter)
    → now ≤ later
    → IsSane l
    → level later key (clean_up now l) ≡ level later key l
unfolding clean_up refill
level-clean_up now later key l le h = elim (Bool-cases (ltb 10000 (length l.buckets))) [
  | inr e ↦ rw e refl
  | inl e ↦
      rw (e, find-delete_keyed (λ (b : Bucket). b.key) (is_idle now) key l.buckets h.keyed)
        (kept (find (λ b. same b.key key) l.buckets))
]
  where
    kept :
        (o : Option Bucket)
        → level_of later l
            (elim o [ none ↦ none | some b ↦ if is_idle now b then none else some b ])
          ≡ level_of later l o
    kept none = refl
    kept (some b) = ground (arith, idle_full now later l b le h.fills)

take_token-level :
    (now later : ℕ) (key : Text) (b : Bucket) (l : RateLimiter)
    → level later key (take_token now b l).0 ≡ (
        if same b.key key
        then refill later l
            (record { key = b.key; tokens = spent l.one (refill now l b); last = now })
        else level later key l)
unfolding take_token
take_token-level now later key b l = elim (Bool-cases (ltb (refill now l b) l.one)) [
  | inl e ↦
      rw (e, take_token)
        (level-put_bucket later key (record b { tokens = refill now l b; last = now }) l)
  | inr e ↦
      rw (e, take_token)
        (level-put_bucket later key (record b { tokens = refill now l b - l.one; last = now }) l)
]

take_token-IsSane :
    (now : ℕ) (b : Bucket) (l : RateLimiter) → IsSane l → IsSane (take_token now b l).0
unfolding take_token
take_token-IsSane now b l h = elim (Bool-cases (ltb (refill now l b) l.one)) [
  | inl e ↦
      rw (e, take_token) (put_bucket-IsSane (record b { tokens = refill now l b; last = now }) l h)
  | inr e ↦
      rw (e, take_token)
        (put_bucket-IsSane (record b { tokens = refill now l b - l.one; last = now }) l h)
]

pub allow-IsSane : (now : ℕ) (key : Text) (l : RateLimiter) → IsSane l → IsSane (allow now key l).0
unfolding allow
allow-IsSane now key l h = by_cases (find (λ b. same b.key key) l.buckets)
  where
    by_cases :
        (o : Option Bucket)
        → IsSane
            (elim o as (λ _. RateLimiter × Bool) [
              | some b ↦ take_token now b l
              | none ↦
                  take_token now
                    (record { key = key; tokens = l.burst; last = now })
                    (clean_up now l)
            ]).0
    by_cases none = take_token-IsSane now _ (clean_up now l) (clean_up-IsSane now l h)
    by_cases (some b) = take_token-IsSane now b l h

-- What a level becomes by a later time.
abbrev pub grown : RateLimiter → ℕ → ℕ → ℕ
grown l tokens time =
    if ltb l.burst (tokens + time * l.rate) then l.burst else tokens + time * l.rate

-- The attempt once its bucket is known.
abbrev pub taken : ℕ → Text → RateLimiter → Option Bucket → RateLimiter × Bool
taken now key l none =
    take_token now (record { key = key; tokens = l.burst; last = now }) (clean_up now l)
taken now key l (some b) = take_token now b l

take_token_lem :
    (now : ℕ) (b : Bucket) (l : RateLimiter)
    → (take_token now b l).1 ≡ not (ltb (refill now l b) l.one)
unfolding take_token
take_token_lem now b l = elim (Bool-cases (ltb (refill now l b) l.one)) [
  | inl e ↦ rw (e, take_token) refl
  | inr e ↦ rw (e, take_token) refl
]

refill_new :
    (now : ℕ) (key : Text) (l : RateLimiter)
    → refill now l (record { key = key; tokens = l.burst; last = now }) ≡ l.burst
unfolding refill
refill_new now key l = ground arith

taken_lem :
    (now : ℕ) (key : Text) (l : RateLimiter) (o : Option Bucket)
    → (taken now key l o).1 ≡ not (ltb (level_of now l o) l.one)
unfolding clean_up
taken_lem now key l none =
    let b : Bucket = record { key = key; tokens = l.burst; last = now } in
    take_token_lem now b (clean_up now l)
    ∙ ap (λ t. not (ltb t l.one)) (refill_new now key (clean_up now l))
taken_lem now key l (some b) = take_token_lem now b l

taken-level :
    (now : ℕ) (key : Text) (l : RateLimiter)
    → IsSane l
    → (o : Option Bucket) → find (λ b. same b.key key) l.buckets ≡ o
    → (later : ℕ) (key' : Text) → now ≤ later
    → level later key' (taken now key l o).0 ≡ (
        if same key key'
        then grown l (spent l.one (level_of now l o)) (later - now)
        else level later key' l)
unfolding refill clean_up
taken-level now key l h none e later key' le =
    let b : Bucket = record { key = key; tokens = l.burst; last = now } in
    take_token-level now later key' b (clean_up now l)
    ∙ ap
        (λ t.
          if same key key'
          then grown l (spent l.one t) (later - now)
          else level later key' (clean_up now l))
        (refill_new now key (clean_up now l))
    ∙ ap (λ t. if same key key' then grown l (spent l.one l.burst) (later - now) else t)
        (level-clean_up now later key' l le h)
taken-level now key l h (some b) e later key' le =
    let same_key : b.key ≡ key =
      (same_iff b.key key).0 (find-In (λ (b : Bucket). same b.key key) l.buckets e).1 in
    take_token-level now later key' b l
    ∙ ap
        (λ k.
          if same k key'
          then grown l (spent l.one (refill now l b)) (later - now)
          else level later key' l)
        same_key

-- An attempt is let through exactly if its key's level has a token, which it then spends, and no other
-- key's level changes, at any later time: clean-up, which drops the buckets of idle keys once there are
-- more than 10000, is never seen. This asks that each key has one bucket and that a bucket fills up in
-- ten minutes.
pub allow-level :
    (now : ℕ) (key : Text) (l : RateLimiter)
    → IsSane l
    → ((allow now key l).1 ≡ not (ltb (level now key l) l.one))
      × ((later : ℕ) (key' : Text)
          → now ≤ later
          → level later key' (allow now key l).0 ≡ (
              if same key key'
              then grown l (spent l.one (level now key l)) (later - now)
              else level later key' l))
unfolding allow refill
allow-level now key l h =
    let o = find (λ b. same b.key key) l.buckets in
    (taken_lem now key l o, λ later key' le. taken-level now key l h o refl later key' le)
