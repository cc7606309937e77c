-- ===== src/Base/Normal.antt =====
-- Texts that are trimmed and in lower case, as the store keeps its names.
use Prim.Native.Nat.{ℕ, ◌≤◌}
use mathlib.Core.Path.{◌≡◌, refl, sym, ap, ap₂, ◌∙◌}
use mathlib.Core.Logic.{◌≢◌, inl, inr}
use mathlib.Core.Bool.{false}
use mathlib.Core.List.{[], ◌∷◌, ◌++◌, map-append, cons-ne-nil}
use native.Mathlib.Omega.{arith}
use wispbox.Base.Tests.{Bool-cases}
use wispbox.Base.Lists.{length}
use wispbox.Base.Texts.{
  Text, is_space, lower, to_lower, trim_left, trim_right, trim_space, to_lower_idem,
  trim_space_idem, trim_space-to_lower, trim_left-trim_right, trim_right_idem,
}

abbrev pub IsNormal : Text → Type 0
IsNormal t = to_lower (trim_space t) ≡ t

pub IsNormal-normalised : (t : Text) → IsNormal (to_lower (trim_space t))
IsNormal-normalised t = rw (trim_space-to_lower, trim_space_idem, to_lower_idem)

pub lower_of_normal : (t : Text) → IsNormal t → to_lower t ≡ t
lower_of_normal t h = sym (ap to_lower h) ∙ to_lower_idem (trim_space t) ∙ h

pub trim_of_normal : (t : Text) → IsNormal t → trim_space t ≡ t
trim_of_normal t h =
    sym (ap trim_space h) ∙ trim_space-to_lower (trim_space t) ∙ ap to_lower (trim_space_idem t) ∙ h

pub IsNormal-of_parts : (t : Text) → to_lower t ≡ t → trim_space t ≡ t → IsNormal t
IsNormal-of_parts t l r = rw (r, l)

trim_left_of_trim : (t : Text) → trim_space t ≡ t → trim_left t ≡ t
unfolding trim_space
trim_left_of_trim t h = sym (ap trim_left h) ∙ trim_left-trim_right t ∙ h

trim_right_of_trim : (t : Text) → trim_space t ≡ t → trim_right t ≡ t
unfolding trim_space
trim_right_of_trim t h = sym (ap trim_right h) ∙ trim_right_idem (trim_left t) ∙ h

length-trim_left : (t : Text) → length (trim_left t) ≤ length t
unfolding trim_left
length-trim_left [] = omega arith
length-trim_left (c ∷ t) = ground (arith, length-trim_left t)

-- A trimmed text begins with no space.
pub first_no_space : (c : ℕ) (t : Text) → trim_left (c ∷ t) ≡ c ∷ t → is_space c ≡ false
unfolding trim_left
first_no_space c t h = elim (Bool-cases (is_space c)) [
  | inr e ↦ e
  | inl e ↦
      let k : trim_left t ≡ c ∷ t = rw e at h in
      absurd (omega (arith, length-trim_left t, ap (length {A = ℕ}) k))
]

trim_left-append : (a b : Text) → trim_left a ≡ a → a ≢ [] → trim_left (a ++ b) ≡ a ++ b
unfolding trim_left
trim_left-append [] b h n = absurd (n refl)
trim_left-append (c ∷ a) b h n = rw (first_no_space c a h)

trim_right-append : (a b : Text) → trim_right b ≡ b → b ≢ [] → trim_right (a ++ b) ≡ a ++ b
unfolding trim_right
trim_right-append [] b h n = h
trim_right-append (c ∷ []) [] h n = absurd (n refl)
trim_right-append (c ∷ []) (d ∷ b) h n = rw h
trim_right-append (c ∷ d ∷ a) b h n = rw (trim_right-append (d ∷ a) b h n)

to_lower-append : (a b : Text) → to_lower (a ++ b) ≡ to_lower a ++ to_lower b
unfolding to_lower
to_lower-append a b = map-append lower a b

trim_right-cons : (c : ℕ) (b : Text) → trim_right b ≡ b → b ≢ [] → trim_right (c ∷ b) ≡ c ∷ b
trim_right-cons c b h n = trim_right-append (c ∷ []) b h n

-- Normal texts round a separator make a normal text.
pub IsNormal-join :
    (a : Text) (c : ℕ) (b : Text)
    → IsNormal a
    → IsNormal b
    → lower c ≡ c
    → a ≢ []
    → b ≢ []
    → IsNormal (a ++ c ∷ b)
IsNormal-join a c b ha hb hc na nb = IsNormal-of_parts (a ++ c ∷ b) lowered trimmed
  where
    tail : to_lower (c ∷ b) ≡ c ∷ b
    tail = unfold to_lower in ap₂ (◌∷◌) hc (lower_of_normal b hb)

    lowered : to_lower (a ++ c ∷ b) ≡ a ++ c ∷ b
    lowered = rw (to_lower-append, lower_of_normal a ha, tail)

    kept : trim_right (a ++ c ∷ b) ≡ a ++ c ∷ b
    kept =
        trim_right-append a (c ∷ b)
          (trim_right-cons c b (trim_right_of_trim b (trim_of_normal b hb)) nb) (cons-ne-nil c b)

    trimmed : trim_space (a ++ c ∷ b) ≡ a ++ c ∷ b
    trimmed =
        unfold trim_space in
        rw (trim_left-append a (c ∷ b) (trim_left_of_trim a (trim_of_normal a ha)) na) kept
