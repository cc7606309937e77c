-- ===== src/Security/RateLimit/Bound.antt =====
-- How many attempts a client can make.
use wispbox.Base.{
  Option, none, some, ap, ℕ, ◌+◌, ◌-◌, ◌*◌, ◌≤◌, Text, Bool, true, false, ◌&&◌, List, [], ◌∷◌, ltb,
  if◌then◌else◌, same, same_iff, arith, ◌≡◌, refl, ◌∙◌, inl, inr, Bool-cases,
}
use wispbox.Base.Rows.{find}
use native.Mathlib.Nat.{mul-le-mul_right}
use wispbox.Security.RateLimit.{
  RateLimiter, Bucket, allow, take_token, clean_up, put_bucket, refill,
}
use wispbox.Security.RateLimit.Level.{
  taken, level, level_of, IsSane, allow-level, allow-IsSane, grown, spent,
}

-- Attempts in their order, each at its time.
abbrev pub Attempts : Type 0
Attempts = List (ℕ × Text)

abbrev pub IsOrdered : ℕ → Attempts → Type 0
IsOrdered start [] = Unit
IsOrdered start (a ∷ attempts) = (start ≤ a.0) × IsOrdered a.0 attempts

abbrev pub end_time : ℕ → Attempts → ℕ
end_time start [] = start
end_time start (a ∷ attempts) = end_time a.0 attempts

-- How many attempts of the key are let through.
unfoldable pub granted : Text → Attempts → RateLimiter → ℕ
unfolding allow
granted key [] l = 0
granted key (a ∷ attempts) l =
    (if same a.1 key && (allow a.0 a.1 l).1 then 1 else 0)
    + granted key attempts (allow a.0 a.1 l).0

take_token_settings :
    (now : ℕ) (b : Bucket) (l : RateLimiter)
    → ((take_token now b l).0.one ≡ l.one)
      × ((take_token now b l).0.rate ≡ l.rate)
      × ((take_token now b l).0.burst ≡ l.burst)
unfolding take_token put_bucket
take_token_settings now b l = elim (Bool-cases (ltb (refill now l b) l.one)) [
  | inl e ↦ rw (e, take_token) (refl, refl, refl)
  | inr e ↦ rw (e, take_token) (refl, refl, refl)
]

allow_settings :
    (now : ℕ) (key : Text) (l : RateLimiter)
    → ((allow now key l).0.one ≡ l.one)
      × ((allow now key l).0.rate ≡ l.rate)
      × ((allow now key l).0.burst ≡ l.burst)
unfolding allow clean_up
allow_settings now key l = by_cases (find (λ b. same b.key key) l.buckets)
  where
    by_cases :
        (o : Option Bucket)
        → ((taken now key l o).0.one ≡ l.one)
          × ((taken now key l o).0.rate ≡ l.rate)
          × ((taken now key l o).0.burst ≡ l.burst)
    by_cases none = take_token_settings now _ (clean_up now l)
    by_cases (some b) = take_token_settings now b l

level_capped : (now : ℕ) (key : Text) (l : RateLimiter) → level now key l ≤ l.burst
unfolding refill
level_capped now key l = by_cases (find (λ b. same b.key key) l.buckets)
  where
    by_cases : (o : Option Bucket) → level_of now l o ≤ l.burst
    by_cases none = omega arith
    by_cases (some b) = ground arith

refill_grows :
    (now later : ℕ) (b : Bucket) (l : RateLimiter)
    → now ≤ later
    → refill later l b ≤ refill now l b + (later - now) * l.rate
unfolding refill
refill_grows now later b l le =
    let more =
      mul-le-mul_right {m = later - b.last} {n = (now - b.last) + (later - now)} l.rate
        (ground arith) in
    ground (arith, more)

level_grows :
    (now later : ℕ) (key : Text) (l : RateLimiter)
    → now ≤ later
    → level later key l ≤ level now key l + (later - now) * l.rate
level_grows now later key l le = by_cases (find (λ b. same b.key key) l.buckets)
  where
    by_cases : (o : Option Bucket) → level_of later l o ≤ level_of now l o + (later - now) * l.rate
    by_cases none = omega arith
    by_cases (some b) = refill_grows now later b l le

count_bound :
    (let_through : Bool) (more one before now_level after grow rest : ℕ)
    → more * one ≤ after + rest
    → now_level ≤ before + grow
    → after ≤ now_level
    → (let_through ≡ true → after + one ≤ now_level)
    → ((if let_through then 1 else 0) + more) * one ≤ before + (grow + rest)
count_bound true more one before now_level after grow rest h g k f = omega (arith, f refl)
count_bound false more one before now_level after grow rest h g k f = omega arith

grown_now : (l : RateLimiter) (tokens now : ℕ) → grown l tokens (now - now) ≤ tokens
grown_now l tokens now = ground arith

spend_le : (one left tokens v w : ℕ) → w ≡ left → left ≤ spent one tokens → tokens ≡ v → w ≤ v
spend_le one left tokens v w e h q = ground arith

spend_taken :
    (one left tokens v w : ℕ)
    → w ≡ left
    → left ≤ spent one tokens
    → tokens ≡ v
    → ltb tokens one ≡ false
    → w + one ≤ v
spend_taken one left tokens v w e h q f = ground arith

-- An attempt leaves no more than there was, and takes a token if it is let through.
after_attempt :
    (now : ℕ) (key asked : Text) (l : RateLimiter)
    → IsSane l
    → (level now key (allow now asked l).0 ≤ level now key l)
      × ((same asked key && (allow now asked l).1) ≡ true
          → level now key (allow now asked l).0 + l.one ≤ level now key l)
after_attempt now key asked l h =
    let (decided, after) = allow-level now asked l h in
    let left = after now key (omega arith) in
    elim (Bool-cases (same asked key)) [
      | inr e ↦
          let kept : level now key (allow now asked l).0 ≡ level now key l = rw e at left in
          (omega (arith, kept), λ t. ground arith)
      | inl e ↦
          let q : level now asked l ≡ level now key l =
            ap (λ t. level now t l) ((same_iff asked key).0 e) in
          let kept : level now key (allow now asked l).0
              ≡ grown l (spent l.one (level now asked l)) (now - now) =
            rw e at left in
          let small = grown_now l (spent l.one (level now asked l)) now in
          (
            spend_le l.one _ _ _ _ kept small q,
            λ t. spend_taken l.one _ _ _ _ kept small q (ground (arith, decided)),
          )
    ]

step_bound :
    (now later end : ℕ) (key asked : Text) (l : RateLimiter) (more : ℕ)
    → IsSane l
    → now ≤ later
    → later ≤ end
    → more * l.one ≤ level later key (allow later asked l).0 + (end - later) * l.rate
    → ((if same asked key && (allow later asked l).1 then 1 else 0) + more) * l.one
      ≤ level now key l + (end - now) * l.rate
step_bound now later end key asked l more h le le' k =
    let time : end - now ≡ (later - now) + (end - later) = omega arith in
    let span : (end - now) * l.rate ≡ (later - now) * l.rate + (end - later) * l.rate =
      ap (λ t. t * l.rate) time ∙ omega arith in
    let (small, taken) = after_attempt later key asked l h in
    rw span (
      count_bound (same asked key && (allow later asked l).1) more l.one (level now key l)
        (level later key l) (level later key (allow later asked l).0) ((later - now) * l.rate)
        ((end - later) * l.rate) k (level_grows now later key l le) small taken)

end_after :
    (start : ℕ) (attempts : Attempts) → IsOrdered start attempts → start ≤ end_time start attempts
end_after start [] h = omega arith
end_after start (a ∷ attempts) (le, h) = omega (arith, le, end_after a.0 attempts h)

granted-level :
    (start : ℕ) (key : Text) (attempts : Attempts) (l : RateLimiter)
    → IsSane l
    → IsOrdered start attempts
    → granted key attempts l * l.one
      ≤ level start key l + (end_time start attempts - start) * l.rate
unfolding granted
granted-level start key [] l h o = omega arith
granted-level start key (a ∷ attempts) l h (le, o) =
    let (one, rate, _) = allow_settings a.0 a.1 l in
    let rest = granted-level a.0 key attempts (allow a.0 a.1 l).0 (allow-IsSane a.0 a.1 l h) o in
    step_bound start a.0 (end_time a.0 attempts) key a.1 l
      (granted key attempts (allow a.0 a.1 l).0) h le (end_after a.0 attempts o)
      (ground (arith, one, rate, rest))

-- Over any sequence of attempts by any clients, in the order of their times, the tokens of the attempts
-- that one key is let through are at most the burst and what the rate adds from the first time to the
-- last, if at the start each key has one bucket and a bucket fills up in ten minutes.
pub granted_bound :
    (start : ℕ) (key : Text) (attempts : Attempts) (l : RateLimiter)
    → IsSane l
    → IsOrdered start attempts
    → granted key attempts l * l.one ≤ l.burst + (end_time start attempts - start) * l.rate
granted_bound start key attempts l h o =
    omega (arith, granted-level start key attempts l h o, level_capped start key l)
