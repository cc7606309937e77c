-- ===== src/Base/Rows.antt =====
-- The SQL statements that the stores use, over the rows of one table in the order of insertion.
use wispbox.Base.Tests.{ltb, ◌==◌, if◌then◌else◌, Bool-cases}
use wispbox.Base.Lists.{In}
use wispbox.Base.Texts.{Text}
use Prim.Native.Nat.{ℕ, ◌+◌}
use mathlib.Core.Path.{◌≡◌, refl, ap, ◌∙◌}
use mathlib.Core.Logic.{inl, inr, ◌↔◌, ◌⊎◌}
use mathlib.Core.Bool.{Bool, true, false, ◌&&◌, ◌||◌}
use mathlib.Core.Option.{Option, none, some}
use mathlib.Core.List.{List, [], ◌∷◌, ◌++◌}
use native.Mathlib.Omega.{arith}

module _ {ℓ} {A : Type ℓ} where
  -- SELECT … WHERE p, the first row
  unfoldable pub find : (A → Bool) → List A → Option A
  find p [] = none
  find p (x ∷ xs) = if p x then some x else find p xs

  -- SELECT … WHERE p
  unfoldable pub select : (A → Bool) → List A → List A
  select p [] = []
  select p (x ∷ xs) = let rest = select p xs in if p x then x ∷ rest else rest

  -- SELECT COUNT(*) … WHERE p
  unfoldable pub count : (A → Bool) → List A → ℕ
  count p [] = 0
  count p (x ∷ xs) = (if p x then 1 else 0) + count p xs

  -- DELETE … WHERE p
  unfoldable pub delete : (A → Bool) → List A → List A
  delete p [] = []
  delete p (x ∷ xs) = let rest = delete p xs in if p x then rest else x ∷ rest

  -- UPDATE … SET f WHERE p
  unfoldable pub update : (A → Bool) → (A → A) → List A → List A
  update p f [] = []
  update p f (x ∷ xs) = (if p x then f x else x) ∷ update p f xs

  -- whether a row meets p (a UNIQUE check)
  unfoldable pub exists : (A → Bool) → List A → Bool
  exists p [] = false
  exists p (x ∷ xs) = p x || exists p xs

-- The order of texts byte by byte.
unfoldable pub text_le : Text → Text → Bool
text_le [] t = true
text_le (c ∷ s) [] = false
text_le (c ∷ s) (d ∷ t) = ltb c d || ((c == d) && text_le s t)

-- ORDER BY key, where rows with the same key stay as they stand.
module _ {A : Type 0} where
  unfoldable pub insert_by : (A → Text) → A → List A → List A
  unfolding text_le
  insert_by key x [] = x ∷ []
  insert_by key x (y ∷ ys) =
      let rest = insert_by key x ys in if text_le (key x) (key y) then x ∷ y ∷ ys else y ∷ rest

  unfoldable pub order_by : (A → Text) → List A → List A
  unfolding insert_by
  order_by key [] = []
  order_by key (x ∷ xs) = insert_by key x (order_by key xs)

  In-insert_by :
      (key : A → Text) (x : A) (ys : List A) (a : A) → In a (insert_by key x ys) ↔ In a (x ∷ ys)
  unfolding insert_by
  In-insert_by key x [] a = (λ h. h, λ h. h)
  In-insert_by key x (y ∷ ys) a = grind (arith, In-insert_by key x ys a)

  pub In-order_by : (key : A → Text) (xs : List A) (a : A) → In a (order_by key xs) ↔ In a xs
  unfolding order_by
  In-order_by key [] a = (λ h. h, λ h. h)
  In-order_by key (x ∷ xs) a =
      grind (arith, In-insert_by key x (order_by key xs) a, In-order_by key xs a)

module _ {A : Type 0} where
  pub find-In : (p : A → Bool) (xs : List A) {x : A} → find p xs ≡ some x → In x xs × (p x ≡ true)
  unfolding find
  find-In p [] h = cc
  find-In p (y ∷ xs) {x} h = ground (arith, find-In p xs {x = x})

  pub find-cases :
      (p : A → Bool) (xs : List A) → (find p xs ≡ none) ⊎ ((x : A) × (find p xs ≡ some x))
  find-cases p xs = go (find p xs) refl
    where
      go : (o : Option A) → find p xs ≡ o → (find p xs ≡ none) ⊎ ((x : A) × (find p xs ≡ some x))
      go none e = inl e
      go (some x) e = inr (x, e)

  pub find-none : (p : A → Bool) (xs : List A) → find p xs ≡ none → (x : A) → In x xs → p x ≡ false
  unfolding find
  find-none p [] h x m = absurd m
  find-none p (y ∷ xs) h x (inl e) = ground arith
  find-none p (y ∷ xs) h x (inr m) = find-none p xs (ground arith) x m

  pub exists-In : (p : A → Bool) (xs : List A) (x : A) → In x xs → p x ≡ true → exists p xs ≡ true
  unfolding exists
  exists-In p [] x m h = absurd m
  exists-In p (y ∷ xs) x (inl e) h = ground arith
  exists-In p (y ∷ xs) x (inr m) h = ground (arith, exists-In p xs x m h)

  pub exists-false :
      (p : A → Bool) (xs : List A) → exists p xs ≡ false → (x : A) → In x xs → p x ≡ false
  exists-false p xs h x m = elim (Bool-cases (p x)) [
    | inl e ↦ cc (exists-In p xs x m e)
    | inr e ↦ e
  ]

  pub find-exists : (p : A → Bool) (xs : List A) → exists p xs ≡ false → find p xs ≡ none
  unfolding find exists
  find-exists p [] h = refl
  find-exists p (y ∷ xs) h = ground (arith, find-exists p xs)

  -- A row added at the end is found if no row before it is.
  pub find-append :
      (p : A → Bool) (xs : List A) (x : A)
      → find p (xs ++ x ∷ [])
        ≡ elim (find p xs) [ some y ↦ some y | none ↦ if p x then some x else none ]
  unfolding find
  find-append p [] x = refl
  find-append p (y ∷ xs) x = ground (arith, find-append p xs x)

  pub In-select :
      (p : A → Bool) (xs : List A) (x : A) → In x (select p xs) ↔ (In x xs × (p x ≡ true))
  unfolding select
  In-select p [] x = (λ h. absurd h, λ h. absurd h.0)
  In-select p (y ∷ xs) x = grind (arith, In-select p xs x)

  pub In-delete :
      (p : A → Bool) (xs : List A) (x : A) → In x (delete p xs) ↔ (In x xs × (p x ≡ false))
  unfolding delete
  In-delete p [] x = (λ h. absurd h, λ h. absurd h.0)
  In-delete p (y ∷ xs) x = grind (arith, In-delete p xs x)

  -- Deleting rows that the query does not ask for leaves its answer.
  pub find-delete :
      (p q : A → Bool) (xs : List A)
      → ((x : A) → p x ≡ true → q x ≡ false)
      → find p (delete q xs) ≡ find p xs
  unfolding find delete
  find-delete p q [] h = refl
  find-delete p q (y ∷ xs) h = ground (arith, h y, find-delete p q xs h)

  pub find-delete_gone :
      (p q : A → Bool) (xs : List A)
      → ((x : A) → p x ≡ true → q x ≡ true)
      → find p (delete q xs) ≡ none
  unfolding find delete
  find-delete_gone p q [] h = refl
  find-delete_gone p q (y ∷ xs) h = ground (arith, h y, find-delete_gone p q xs h)

  -- An update that keeps what the query tests changes the row it finds, and no more.
  pub find-update :
      (p q : A → Bool) (f : A → A) (xs : List A)
      → ((x : A) → q x ≡ true → p (f x) ≡ p x)
      → find p (update q f xs)
        ≡ elim (find p xs) [ none ↦ none | some x ↦ some (if q x then f x else x) ]
  unfolding find update
  find-update p q f [] h = refl
  find-update p q f (y ∷ xs) h = ground (arith, h y, find-update p q f xs h)

  pub In-update :
      (q : A → Bool) (f : A → A) (xs : List A) (y : A)
      → In y (update q f xs)
      → (x : A) × In x xs × (y ≡ (if q x then f x else x))
  unfolding update
  In-update q f [] y m = absurd m
  In-update q f (x ∷ xs) y (inl e) = (x, inl refl, e)
  In-update q f (x ∷ xs) y (inr m) = let (z, m', e) = In-update q f xs y m in (z, inr m', e)

  pub In-updated :
      (q : A → Bool) (f : A → A) (xs : List A) (x : A)
      → In x xs
      → In (if q x then f x else x) (update q f xs)
  unfolding update
  In-updated q f [] x m = absurd m
  In-updated q f (y ∷ xs) x (inl e) = inl (ap (λ z. if q z then f z else z) e)
  In-updated q f (y ∷ xs) x (inr m) = inr (In-updated q f xs x m)

  pub exists-append :
      (p : A → Bool) (xs ys : List A) → exists p (xs ++ ys) ≡ (exists p xs || exists p ys)
  unfolding exists
  exists-append p [] ys = refl
  exists-append p (x ∷ xs) ys = ground (arith, exists-append p xs ys)

  pub count-zero : (p : A → Bool) (xs : List A) → count p xs ≡ 0 → (x : A) → In x xs → p x ≡ false
  unfolding count
  count-zero p [] h x m = absurd m
  count-zero p (y ∷ xs) h x (inl e) = ground arith
  count-zero p (y ∷ xs) h x (inr m) = count-zero p xs (ground arith) x m

  pub exists-delete :
      (p q : A → Bool) (xs : List A)
      → ((x : A) → p x ≡ true → q x ≡ false)
      → exists p (delete q xs) ≡ exists p xs
  unfolding exists delete
  exists-delete p q [] h = refl
  exists-delete p q (y ∷ xs) h = ground (arith, h y, exists-delete p q xs h)

  pub exists-update :
      (p q : A → Bool) (f : A → A) (xs : List A)
      → ((x : A) → q x ≡ true → p (f x) ≡ p x)
      → exists p (update q f xs) ≡ exists p xs
  unfolding exists update
  exists-update p q f [] h = refl
  exists-update p q f (y ∷ xs) h = ground (arith, h y, exists-update p q f xs h)

  pub find-some : (p : A → Bool) (xs : List A) → exists p xs ≡ true → (x : A) × (find p xs ≡ some x)
  unfolding find exists
  find-some p [] h = cc
  find-some p (y ∷ xs) h = elim (Bool-cases (p y)) [
    | inl e ↦ (y, ground arith)
    | inr e ↦ let (x, q) = find-some p xs (ground arith) in (x, ground arith)
  ]

  pub find-In_unique :
      (p : A → Bool) (xs : List A) (x : A)
      → In x xs
      → p x ≡ true
      → ((y : A) → In y xs → p y ≡ true → y ≡ x)
      → find p xs ≡ some x
  find-In_unique p xs x m h unique =
      let (y, q) = find-some p xs (exists-In p xs x m h) in
      let (my, hy) = find-In p xs q in q ∙ ap some (unique y my hy)

  -- An update of rows that the query does not ask for leaves its answer.
  pub find-update_apart :
      (p q : A → Bool) (f : A → A) (xs : List A)
      → ((x : A) → q x ≡ true → p (f x) ≡ p x)
      → ((x : A) → p x ≡ true → q x ≡ false)
      → find p (update q f xs) ≡ find p xs
  unfolding find update
  find-update_apart p q f [] h k = refl
  find-update_apart p q f (y ∷ xs) h k = ground (arith, h y, k y, find-update_apart p q f xs h k)

  pub find-append_skip :
      (p : A → Bool) (xs : List A) (x : A) → p x ≡ false → find p (xs ++ x ∷ []) ≡ find p xs
  find-append_skip p xs x h = ground (arith, find-append p xs x)
