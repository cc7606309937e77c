-- ===== src/Updater/LogTail.antt =====
-- The window over the log.
use wispbox.Base.{
  ℕ, suc, zero, ◌-◌, ◌≤◌, ◌<◌, Text, false, List, [], ◌∷◌, ◌++◌, some, length, length-append, drop,
  ◌==◌, arith, ◌≡◌, refl, sym, ◌∙◌, ap, inl, inr, Bool-cases,
}
use wispbox.Updater.{tail, tail_from}

append_one : {A : Type 0} (xs : List A) (x : A) (ys : List A) → (xs ++ x ∷ []) ++ ys ≡ xs ++ x ∷ ys
append_one [] x ys = refl
append_one (y ∷ xs) x ys = ap (λ t. y ∷ t) (append_one xs x ys)

append_nil : {A : Type 0} (xs : List A) → xs ++ [] ≡ xs
append_nil [] = refl
append_nil (x ∷ xs) = ap (λ t. x ∷ t) (append_nil xs)

-- The last n of a list.
abbrev pub last_of {ℓ} : {A : Type ℓ} → ℕ → List A → List A
last_of n xs = drop (length xs - n) xs

last_of_short : {A : Type 0} (n : ℕ) (xs : List A) → length xs ≤ n → last_of n xs ≡ xs
last_of_short n xs h = let e : length xs - n ≡ 0 = omega arith in ap (λ k. drop k xs) e

last_of_cons :
    {A : Type 0} (n : ℕ) (x : A) (xs : List A) → n ≤ length xs → last_of n (x ∷ xs) ≡ last_of n xs
last_of_cons n x xs h =
    let e : length (x ∷ xs) - n ≡ suc (length xs - n) = omega arith in ap (λ k. drop k (x ∷ xs)) e

drop_all : {A : Type 0} (xs : List A) → drop (length xs - 0) xs ≡ []
drop_all [] = refl
drop_all (x ∷ xs) =
    let e : length (x ∷ xs) - 0 ≡ suc (length xs - 0) = omega arith in
    ap (λ k. drop k (x ∷ xs)) e ∙ drop_all xs

tail_from_lem :
    (n : ℕ) (window lines : List Text)
    → 0 < n
    → length window ≤ n
    → tail_from n window lines ≡ last_of n (window ++ lines)
unfolding tail_from
tail_from_lem n window [] p h =
    sym (ap (λ t. last_of n t) (append_nil window) ∙ last_of_short n window h)
tail_from_lem n [] (line ∷ lines) p h =
    let e : (0 == n) ≡ false = ground arith in
    rw e (tail_from_lem n (line ∷ []) lines p (omega arith))
tail_from_lem n (x ∷ window) (line ∷ lines) p h = elim (Bool-cases (length (x ∷ window) == n)) [
  | inl e ↦
      let long : n ≤ length (window ++ line ∷ lines) =
        ground (arith, length-append window (line ∷ lines)) in
      let small : length (window ++ line ∷ []) ≤ n =
        ground (arith, length-append window (line ∷ [])) in
      rw e (
        tail_from_lem n (window ++ line ∷ []) lines p small
        ∙ ap (λ t. last_of n t) (append_one window line lines)
        ∙ sym (last_of_cons n x (window ++ line ∷ lines) long))
  | inr e ↦
      let small : length (x ∷ window ++ line ∷ []) ≤ n =
        ground (arith, length-append window (line ∷ [])) in
      rw e (
        tail_from_lem n (x ∷ window ++ line ∷ []) lines p small
        ∙ ap (λ t. last_of n t) (append_one (x ∷ window) line lines))
]

-- Tail gives the last n lines of a log that can be read, in their order, and all of them if it has fewer.
pub tail_lem : (n : ℕ) (lines : List Text) → tail n (some lines) ≡ last_of n lines
unfolding tail
tail_lem zero lines = sym (drop_all lines)
tail_lem (suc n) lines =
    let e : (suc n == 0) ≡ false = ground arith in
    rw e (tail_from_lem (suc n) [] lines (omega arith) (omega arith))
