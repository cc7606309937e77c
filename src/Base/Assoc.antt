-- ===== src/Base/Assoc.antt =====
-- Go maps with text keys, as association lists: a key that is missing has no entry.
use wispbox.Base.Tests.{Bool-cases, if◌then◌else◌}
use wispbox.Base.Texts.{Text, same, same_iff, same_refl}
use mathlib.Core.Path.{◌≡◌, refl, subst, sym}
use mathlib.Core.Logic.{inl, inr}
use mathlib.Core.Bool.{false}
use mathlib.Core.Option.{Option, none, some}
use mathlib.Core.List.{List, [], ◌∷◌}
use native.Mathlib.Omega.{arith}

module _ {A : Type 0} where
  -- v, ok := m[key]
  unfoldable pub get : Text → List (Text × A) → Option A
  unfolding same
  get key [] = none
  get key (e ∷ m) = if same e.0 key then some e.1 else get key m

  -- delete(m, key)
  unfoldable pub remove : Text → List (Text × A) → List (Text × A)
  unfolding same
  remove key [] = []
  remove key (e ∷ m) = let rest = remove key m in if same e.0 key then rest else e ∷ rest

  -- m[key] = v
  unfoldable pub put : Text → A → List (Text × A) → List (Text × A)
  unfolding remove
  put key v m = (key, v) ∷ remove key m

  pub get-remove : (key : Text) (m : List (Text × A)) → get key (remove key m) ≡ none
  unfolding get remove
  get-remove key [] = refl
  get-remove key (e ∷ m) = ground (arith, get-remove key m)

  pub get-put : (key : Text) (v : A) (m : List (Text × A)) → get key (put key v m) ≡ some v
  unfolding get put
  get-put key v m = rw (same_refl key) refl

  get-remove_other :
      (key other : Text) (m : List (Text × A))
      → same key other ≡ false
      → get other (remove key m) ≡ get other m
  unfolding get remove
  get-remove_other key other [] h = refl
  get-remove_other key other (e ∷ m) h = elim (Bool-cases (same e.0 key)) [
    | inl q ↦
        let apart = subst (λ t. same t other ≡ false) (sym ((same_iff e.0 key).0 q)) h in
        ground (arith, get-remove_other key other m h)
    | inr q ↦ ground (arith, get-remove_other key other m h)
  ]

  pub get-put_other :
      (key other : Text) (v : A) (m : List (Text × A))
      → same key other ≡ false
      → get other (put key v m) ≡ get other m
  unfolding get put
  get-put_other key other v m h = rw h (get-remove_other key other m h)
