-- ===== src/Base/Decimals.antt =====
-- strconv: numbers in decimal notation.
use Prim.Native.Nat.{ℕ, zero, suc, ◌+◌, ◌*◌, ◌/◌, ◌%◌, ◌-◌, ◌<◌, ◌≤◌, min}
use mathlib.Core.Path.{subst, ◌≡◌, refl, ◌∙◌, ap}
use mathlib.Core.Logic.{inl, inr}
use mathlib.Core.Bool.{Bool, true, false, ◌&&◌}
use mathlib.Core.Option.{Option, none, some}
use mathlib.Core.List.{[], ◌∷◌}
use native.Mathlib.Omega.{arith}
use wispbox.Base.Tests.{leb, ltb, ◌==◌, if◌then◌else◌, Bool-cases, ℤ, pos, negsuc}
use wispbox.Base.Texts.{Text, same, any_byte}

abbrev pub is_digit : ℕ → Bool
is_digit c = leb b'0' c && leb c b'9'

-- The digits of n before the ones in `acc`; n has at most as many digits as there is fuel.
unfoldable pub digits_before : ℕ → ℕ → Text → Text
digits_before zero n acc = acc
digits_before (suc fuel) n acc =
    let d = n % 10 + b'0' in
    let rest = digits_before fuel (n / 10) (d ∷ acc) in if n / 10 == 0 then d ∷ acc else rest

-- strconv.Itoa of a number that is not negative
unfoldable pub itoa : ℕ → Text
unfolding digits_before
itoa n = digits_before (suc n) n []

-- The value of the digits after a number v, or `none` at any other byte.
unfoldable pub digits_after : ℕ → Text → Option ℕ
digits_after v [] = some v
digits_after v (c ∷ s) =
    let rest = digits_after (v * 10 + (c - b'0')) s in if is_digit c then rest else none

-- strconv.ParseUint(s, 10, 32): `none` is an error
unfoldable pub parse_uint32 : Text → Option ℕ
unfolding digits_after
parse_uint32 [] = none
parse_uint32 (c ∷ s) = elim (digits_after 0 (c ∷ s)) [
  | none ↦ none
  | some n ↦ if ltb n 4294967296 then some n else none
]

-- The magnitude that Atoi gives for the digits, with its error dropped: 0 for a malformed number, and the
-- bound for one that is out of range.
unfoldable pub magnitude : ℕ → Text → ℕ
unfolding digits_after
magnitude bound [] = 0
magnitude bound (c ∷ s) = elim (digits_after 0 (c ∷ s)) [ none ↦ 0 | some n ↦ min bound n ]

abbrev negated : ℕ → ℤ
negated zero = pos 0
negated (suc n) = negsuc n

-- n, _ = strconv.Atoi(s)
unfoldable pub atoi : Text → ℤ
unfolding magnitude
atoi [] = pos 0
atoi (c ∷ s) =
    if c == b'-'
    then negated (magnitude 9223372036854775808 s)
    else if c == b'+'
    then pos (magnitude 9223372036854775807 s)
    else pos (magnitude 9223372036854775807 (c ∷ s))

-- One more digit.
digits_after_digit :
    (v r n : ℕ) (acc : Text)
    → r < 10
    → n ≡ v * 10 + r
    → digits_after v ((r + b'0') ∷ acc) ≡ digits_after n acc
unfolding digits_after
digits_after_digit v r n acc h e =
    let same : v * 10 + (r + 48 - 48) ≡ n = omega (arith, e) in rw same (ground (arith, h))

digits_after-before :
    (fuel n : ℕ) (acc : Text)
    → n < fuel
    → digits_after 0 (digits_before fuel n acc) ≡ digits_after n acc
unfolding digits_before
digits_after-before zero n acc h = absurd (omega (arith, h))
digits_after-before (suc fuel) n acc h = elim (Bool-cases (n / 10 == 0)) [
  | inl e ↦ rw e (digits_after_digit 0 (n % 10) n acc (omega arith) (ground (arith, e)))
  | inr e ↦
      let small : n / 10 < fuel = ground (arith, e, h) in
      rw e (
        digits_after-before fuel (n / 10) ((n % 10 + b'0') ∷ acc) small
        ∙ digits_after_digit (n / 10) (n % 10) n acc (omega arith) (omega arith))
]

pub digits_after-itoa : (n : ℕ) → digits_after 0 (itoa n) ≡ some n
unfolding itoa digits_after
digits_after-itoa n = digits_after-before (suc n) n [] (omega arith)

-- A number starts with a digit.
digits_before-head :
    (fuel n : ℕ) (acc : Text)
    → n < fuel
    → (c : ℕ) × (s : Text) × (digits_before fuel n acc ≡ c ∷ s) × (is_digit c ≡ true)
unfolding digits_before
digits_before-head zero n acc h = absurd (omega (arith, h))
digits_before-head (suc fuel) n acc h = elim (Bool-cases (n / 10 == 0)) [
  | inl e ↦ rw e (n % 10 + b'0', acc, refl, ground arith)
  | inr e ↦ rw e (digits_before-head fuel (n / 10) ((n % 10 + b'0') ∷ acc) (ground (arith, e, h)))
]

atoi_digits :
    (n c : ℕ) (s : Text)
    → n ≤ 9223372036854775807
    → is_digit c ≡ true
    → digits_after 0 (c ∷ s) ≡ some n
    → atoi (c ∷ s) ≡ pos n
unfolding atoi magnitude
atoi_digits n c s h d v =
    let minus : (c == b'-') ≡ false = ground (arith, d) in
    let plus : (c == b'+') ≡ false = ground (arith, d) in
    rw (minus, plus, magnitude, v) (ap pos (omega (arith, h)))

pub atoi-itoa : (n : ℕ) → n ≤ 9223372036854775807 → atoi (itoa n) ≡ pos n
unfolding itoa
atoi-itoa n h =
    let (c, s, e, d) = digits_before-head (suc n) n [] (omega arith) in
    rw e (atoi_digits n c s h d (subst (λ t. digits_after 0 t ≡ some n) e (digits_after-itoa n)))

uint32_digits :
    (n c : ℕ) (s : Text)
    → n < 4294967296
    → digits_after 0 (c ∷ s) ≡ some n
    → parse_uint32 (c ∷ s) ≡ some n
unfolding parse_uint32
uint32_digits n c s h v = rw (parse_uint32, v) (ground (arith, h))

pub parse_uint32-itoa : (n : ℕ) → n < 4294967296 → parse_uint32 (itoa n) ≡ some n
unfolding itoa
parse_uint32-itoa n h =
    let (c, s, e, d) = digits_before-head (suc n) n [] (omega arith) in
    rw e (uint32_digits n c s h (subst (λ t. digits_after 0 t ≡ some n) e (digits_after-itoa n)))

pub itoa-nonempty : (n : ℕ) → same (itoa n) [] ≡ false
unfolding itoa same
itoa-nonempty n = let (c, s, e, d) = digits_before-head (suc n) n [] (omega arith) in rw e refl

-- strconv.Atoi of a text, where `none` is an error
unfoldable pub signed : ℕ → (ℕ → ℤ) → Text → Option ℤ
unfolding digits_after
signed bound sign [] = none
signed bound sign (c ∷ s) = elim (digits_after 0 (c ∷ s)) [
  | none ↦ none
  | some n ↦ if leb n bound then some (sign n) else none
]

unfoldable pub parse_int : Text → Option ℤ
unfolding signed
parse_int [] = none
parse_int (c ∷ s) =
    if c == b'-'
    then signed 9223372036854775808 negated s
    else if c == b'+'
    then signed 9223372036854775807 pos s
    else signed 9223372036854775807 pos (c ∷ s)

int_digits :
    (n c : ℕ) (s : Text)
    → n ≤ 9223372036854775807
    → is_digit c ≡ true
    → digits_after 0 (c ∷ s) ≡ some n
    → parse_int (c ∷ s) ≡ some (pos n)
unfolding parse_int signed
int_digits n c s h d v =
    let minus : (c == b'-') ≡ false = ground (arith, d) in
    let plus : (c == b'+') ≡ false = ground (arith, d) in
    let fits : leb n 9223372036854775807 ≡ true = ground (arith, h) in
    rw (parse_int, minus, plus, signed, v, fits) refl

pub parse_int-itoa : (n : ℕ) → n ≤ 9223372036854775807 → parse_int (itoa n) ≡ some (pos n)
unfolding itoa
parse_int-itoa n h =
    let (c, s, e, d) = digits_before-head (suc n) n [] (omega arith) in
    rw e (int_digits n c s h d (subst (λ t. digits_after 0 t ≡ some n) e (digits_after-itoa n)))

-- A number has no byte but digits.
digits_before-digits :
    (p : ℕ → Bool) (fuel n : ℕ) (acc : Text)
    → ((c : ℕ) → is_digit c ≡ true → p c ≡ false)
    → any_byte p acc ≡ false
    → any_byte p (digits_before fuel n acc) ≡ false
unfolding digits_before any_byte
digits_before-digits p zero n acc h k = k
digits_before-digits p (suc fuel) n acc h k =
    let d : p (n % 10 + b'0') ≡ false = h (n % 10 + b'0') (ground arith) in
    let more : any_byte p ((n % 10 + b'0') ∷ acc) ≡ false = rw (d, k) refl in
    elim (Bool-cases (n / 10 == 0)) [
      | inl e ↦ rw (e, d, k) refl
      | inr e ↦ rw e (digits_before-digits p fuel (n / 10) ((n % 10 + b'0') ∷ acc) h more)
    ]

pub itoa-digits :
    (p : ℕ → Bool) (n : ℕ)
    → ((c : ℕ) → is_digit c ≡ true → p c ≡ false)
    → any_byte p (itoa n) ≡ false
unfolding itoa any_byte
itoa-digits p n h = digits_before-digits p (suc n) n [] h refl
