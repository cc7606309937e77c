-- ===== src/Base/Keyed.antt =====
-- Rows with a key that no two of them share.
use wispbox.Base.{
  Text, Bool, true, false, List, [], ◌∷◌, ◌++◌, none, some, arith, ◌≡◌, inl, inr, refl, same,
  same_iff, same_refl, Bool-cases, if◌then◌else◌, subst,
}
use wispbox.Base.Rows.{find, exists, delete, exists-append, find-exists}

pub differ : (a b : Text) → same a b ≡ false → same b a ≡ false
differ a b h = elim (Bool-cases (same b a)) [
  | inr e ↦ e
  | inl e ↦ cc (subst (λ t. same t b ≡ true) ((same_iff b a).0 e) (same_refl b))
]

module _ {A : Type 0} (key : A → Text) where
  abbrev pub IsKeyedBy : List A → Type 0
  IsKeyedBy [] = Unit
  IsKeyedBy (x ∷ xs) = (exists (λ y. same (key y) (key x)) xs ≡ false) × IsKeyedBy xs

  pub append-IsKeyed :
      (xs : List A) (x : A)
      → IsKeyedBy xs
      → exists (λ y. same (key y) (key x)) xs ≡ false
      → IsKeyedBy (xs ++ x ∷ [])
  unfolding exists
  append-IsKeyed [] x h e = (refl, tt)
  append-IsKeyed (y ∷ xs) x (k, h) e = (
    rw (exists-append, k, differ (key y) (key x) (ground arith)) refl,
    append-IsKeyed xs x h (ground arith),
  )

  module _ (p : A → Bool) where
    pub exists-delete_none :
        (id : Text) (xs : List A)
        → exists (λ y. same (key y) id) xs ≡ false
        → exists (λ y. same (key y) id) (delete p xs) ≡ false
    unfolding exists delete
    exists-delete_none id [] h = refl
    exists-delete_none id (x ∷ xs) h = ground (arith, exists-delete_none id xs)

    pub delete-IsKeyed : (xs : List A) → IsKeyedBy xs → IsKeyedBy (delete p xs)
    unfolding delete
    delete-IsKeyed [] h = tt
    delete-IsKeyed (x ∷ xs) (e, h) = elim (Bool-cases (p x)) [
      | inl k ↦ rw k (delete-IsKeyed xs h)
      | inr k ↦ rw k (exists-delete_none (key x) xs e, delete-IsKeyed xs h)
    ]

    -- The row with a key is found after a deletion unless it was deleted.
    pub find-delete_keyed :
        (id : Text) (xs : List A)
        → IsKeyedBy xs
        → find (λ y. same (key y) id) (delete p xs) ≡ elim (find (λ y. same (key y) id) xs) [
          | none ↦ none
          | some x ↦ if p x then none else some x
        ]
    unfolding find delete
    find-delete_keyed id [] h = refl
    find-delete_keyed id (x ∷ xs) (e, h) = elim (Bool-cases (same (key x) id)) [
      | inl q ↦
          let gone =
            find-exists (λ y. same (key y) id) (delete p xs)
              (exists-delete_none id xs (
                subst (λ i. exists (λ y. same (key y) i) xs ≡ false) ((same_iff (key x) id).0 q)
                  e)) in
          ground arith
      | inr q ↦ ground (arith, find-delete_keyed id xs h)
    ]
