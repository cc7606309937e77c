-- ===== src/Services/Queue/Scan.antt =====
-- What a scan of the queue keeps.
use wispbox.Base.{
  subst, ◌==◌, ◌||◌, zero, suc, ℕ, ◌+◌, ◌≤◌, Text, true, false, List, [], ◌∷◌, ◌++◌, Option, none,
  some, ltb, length, length-append, take, if◌then◌else◌, same, trim_space, ℤ, pos, negsuc, arith,
  ◌≡◌, refl, sym, ◌∙◌, inl, inr, Bool-cases, ap,
}
use wispbox.Services.Queue.{
  QueueItem, RawItem, QueueScan, has_room, scan_line, scan_from, scan_postqueue_json, list_limit,
  queue_count, clamp_keep, item_of,
}

take_nil : {A : Type 0} (k : ℕ) → take {A = A} k [] ≡ []
take_nil zero = refl
take_nil (suc k) = refl

take_all : {A : Type 0} (k : ℕ) (xs : List A) → length xs ≤ k → take k (xs ++ []) ≡ xs
take_all k [] h = take_nil k
take_all zero (x ∷ xs) h = absurd (omega (arith, h))
take_all (suc k) (x ∷ xs) h = ap (λ t. x ∷ t) (take_all k xs (omega arith))

-- Appending past the end of a full list is not seen.
take_full : {A : Type 0} (xs ys : List A) → take (length xs) (xs ++ ys) ≡ xs
take_full [] ys = refl
take_full (x ∷ xs) ys = ap (λ t. x ∷ t) (take_full xs ys)

append_one : {A : Type 0} (xs : List A) (x : A) (ys : List A) → (xs ++ x ∷ []) ++ ys ≡ xs ++ x ∷ ys
append_one [] x ys = refl
append_one (y ∷ xs) x ys = ap (λ t. y ∷ t) (append_one xs x ys)

clamp_keep_reset : (k : ℕ) → (k == 0 || ltb 200 k) ≡ true → clamp_keep (pos k) ≡ pos 200
unfolding clamp_keep
clamp_keep_reset k e = rw e refl

clamp_keep_same : (k : ℕ) → (k == 0 || ltb 200 k) ≡ false → clamp_keep (pos k) ≡ pos k
unfolding clamp_keep
clamp_keep_same k e = rw e refl

abbrev pushed : ℕ → QueueScan → QueueItem → QueueScan
pushed k out i = record {
  items = if has_room (pos k) (length out.items) then out.items ++ i ∷ [] else out.items;
  count = out.count + 1;
}

pushed_small :
    (k : ℕ) (out : QueueScan) (i : QueueItem)
    → length out.items ≤ k
    → length (pushed k out i).items ≤ k
pushed_small k out i h = elim (Bool-cases (ltb (length out.items) k)) [
  | inl e ↦ rw (e, length-append) (ground arith)
  | inr e ↦ rw e h
]

pushed-take :
    (k : ℕ) (out : QueueScan) (i : QueueItem) (rest : List QueueItem)
    → length out.items ≤ k
    → take k ((pushed k out i).items ++ rest) ≡ take k (out.items ++ i ∷ rest)
pushed-take k out i rest h = elim (Bool-cases (ltb (length out.items) k)) [
  | inl e ↦ rw (e, append_one) refl
  | inr e ↦
      let full : k ≡ length out.items = ground arith in
      rw (e, full) (take_full out.items rest ∙ sym (take_full out.items (i ∷ rest)))
]

module _ (rfc3339 : ℤ → Text) (decode : Text → Option RawItem) where
  -- The items that the lines stand for: blank lines and lines that do not decode stand for none.
  unfoldable pub items_of : List Text → List QueueItem
  unfolding same trim_space item_of
  items_of [] = []
  items_of (text ∷ lines) =
      let rest = items_of lines in
      if same (trim_space text) [] then rest else elim (decode (trim_space text)) [
        | none ↦ rest
        | some raw ↦ item_of rfc3339 decode raw ∷ rest
      ]

  line_blank :
      (k : ℕ) (out : QueueScan) (text : Text)
      → same (trim_space text) [] ≡ true
      → scan_line rfc3339 decode (pos k) out text ≡ out
  unfolding scan_line
  line_blank k out text e = rw e refl

  line_full :
      (k : ℕ) (out : QueueScan) (text : Text)
      → same (trim_space text) [] ≡ false
      → scan_line rfc3339 decode (pos k) out text ≡ elim (decode (trim_space text)) [
        | none ↦ out
        | some raw ↦ pushed k out (item_of rfc3339 decode raw)
      ]
  unfolding scan_line
  line_full k out text e = rw e refl

  items_blank :
      (text : Text) (lines : List Text)
      → same (trim_space text) [] ≡ true
      → items_of (text ∷ lines) ≡ items_of lines
  unfolding items_of
  items_blank text lines e = rw e refl

  items_full :
      (text : Text) (lines : List Text)
      → same (trim_space text) [] ≡ false
      → items_of (text ∷ lines) ≡ elim (decode (trim_space text)) [
        | none ↦ items_of lines
        | some raw ↦ item_of rfc3339 decode raw ∷ items_of lines
      ]
  unfolding items_of
  items_full text lines e = rw e refl

  -- With room for k items the scan keeps the first k and counts them all.
  Keeps : ℕ → QueueScan → QueueScan → List QueueItem → Type 0
  Keeps k out result items =
      (result.items ≡ take k (out.items ++ items)) × (result.count ≡ out.count + length items)

  decoded-Keeps :
      (k : ℕ) (out : QueueScan) (lines : List Text)
      → length out.items ≤ k
      → ((out' : QueueScan)
          → length out'.items ≤ k
          → Keeps k out' (scan_from rfc3339 decode (pos k) out' lines) (items_of lines))
      → (o : Option RawItem)
      → Keeps k out
          (scan_from rfc3339 decode
            (pos k)
            (elim o [ none ↦ out | some raw ↦ pushed k out (item_of rfc3339 decode raw) ])
            lines)
          (elim o [
            | none ↦ items_of lines
            | some raw ↦ item_of rfc3339 decode raw ∷ items_of lines
          ])
  unfolding Keeps
  decoded-Keeps k out lines h ih none = ih out h
  decoded-Keeps k out lines h ih (some raw) =
      let i = item_of rfc3339 decode raw in
      let (f, n) = ih (pushed k out i) (pushed_small k out i h) in
      (f ∙ pushed-take k out i (items_of lines) h, n ∙ omega arith)

  scan_from_pos :
      (k : ℕ) (out : QueueScan) (lines : List Text)
      → length out.items ≤ k
      → Keeps k out (scan_from rfc3339 decode (pos k) out lines) (items_of lines)
  unfolding scan_from
  scan_from_pos k out [] h = unfold Keeps items_of in (sym (take_all k out.items h), omega arith)
  scan_from_pos k out (text ∷ lines) h = elim (Bool-cases (same (trim_space text) [])) [
    | inl e ↦
        subst
          (λ o. Keeps k out (scan_from rfc3339 decode (pos k) o lines) (items_of (text ∷ lines)))
          (sym (line_blank k out text e))
          (subst (Keeps k out (scan_from rfc3339 decode (pos k) out lines))
            (sym (items_blank text lines e)) (scan_from_pos k out lines h))
    | inr e ↦
        subst
          (λ o. Keeps k out (scan_from rfc3339 decode (pos k) o lines) (items_of (text ∷ lines)))
          (sym (line_full k out text e))
          (subst (Keeps k out _) (sym (items_full text lines e)) (
            decoded-Keeps k out lines h (λ out' h'. scan_from_pos k out' lines h')
              (decode (trim_space text))))
  ]

  kept :
      (k : ℕ) (lines : List Text)
      → (scan_postqueue_json rfc3339 decode (pos k) lines).items ≡ take k (items_of lines)
  unfolding scan_postqueue_json Keeps
  kept k lines = (scan_from_pos k (record { items = []; count = 0 }) lines (omega arith)).0

  counted : (lines : List Text) → queue_count rfc3339 decode lines ≡ length (items_of lines)
  unfolding queue_count scan_postqueue_json Keeps
  counted lines =
      (scan_from_pos 0 (record { items = []; count = 0 }) lines (omega arith)).1 ∙ omega arith

  at_keep :
      (k : ℕ) (lines : List Text) (n : ℕ)
      → clamp_keep (pos k) ≡ pos n
      → n ≡ (if k == 0 || ltb 200 k then 200 else k)
      → list_limit rfc3339 decode (pos k) lines
        ≡ take (if k == 0 || ltb 200 k then 200 else k) (items_of lines)
  unfolding list_limit
  at_keep k lines n e q =
      ap (λ t. (scan_postqueue_json rfc3339 decode t lines).items) e
      ∙ kept n lines
      ∙ ap (λ t. take t (items_of lines)) q

  -- ListLimit gives the first items of the queue, as many as asked for where that is a number from 1 to
  -- 200 and 200 otherwise, and Count counts all of them.
  pub list_limit_lem :
      (keep : ℤ) (lines : List Text)
      → (list_limit rfc3339 decode keep lines
          ≡ take
              (elim keep [ negsuc _ ↦ 200 | pos k ↦ if k == 0 || ltb 200 k then 200 else k ])
              (items_of lines))
        × (queue_count rfc3339 decode lines ≡ length (items_of lines))
  unfolding list_limit clamp_keep
  list_limit_lem (negsuc k) lines = (kept 200 lines, counted lines)
  list_limit_lem (pos k) lines = elim (Bool-cases (k == 0 || ltb 200 k)) [
    | inl e ↦ (at_keep k lines 200 (clamp_keep_reset k e) (rw e refl), counted lines)
    | inr e ↦ (at_keep k lines k (clamp_keep_same k e) (rw e refl), counted lines)
  ]
