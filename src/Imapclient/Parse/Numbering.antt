-- ===== src/Imapclient/Parse/Numbering.antt =====
-- The numbering of attachments: the listing of a message and the download of one attachment walk over the
-- parts apart from one another.
use wispbox.Base.{
  ℕ, ◌+◌, zero, suc, Text, codes, Bool, true, false, List, [], ◌∷◌, ◌++◌, Option, none, some,
  Result, ok, err, length, length-append, ◌==◌, if◌then◌else◌, has_prefix, same, ◌&&◌, ◌≡◌, refl,
  arith, ap, sym, ◌∙◌, All, Bool-cases, inl, inr, pos, ◌⊎◌, ◌≤◌,
}
use mathlib.Core.List.{append-nil, append_assoc}
use wispbox.Imapclient.{AttachmentMeta, AttachmentContent, Message, MailError}
use wispbox.Imapclient.Parse.{
  Part, PartKind, inline, attached, MailReader, inline_image_name, attachment_name, parse_part,
  parse_parts, parse_message, from_header, extract_from, extract_attachment,
}

-- An attachment that the message lists, and one that is downloaded, by number, name and type.
abbrev pub listed : List AttachmentMeta → ℕ → Option (ℕ × Text × Text)
listed [] n = none
listed (a ∷ as_) zero = some (a.index, a.filename, a.mime_type)
listed (a ∷ as_) (suc n) = listed as_ n

abbrev pub downloaded : ℕ → Result MailError AttachmentContent → Option (ℕ × Text × Text)
downloaded n (err e) = none
downloaded n (ok c) = some (n, c.filename, c.mime_type)

-- Whether a part counts, and the name that it then has.
abbrev counts : Part → Bool
unfolding has_prefix
counts p = elim p.kind [ inline ↦ has_prefix p.content_type (codes "image/") | attached ↦ true ]

abbrev name_at : ℕ → Part → Text
name_at at p = elim p.kind [
  | inline ↦ inline_image_name p.content_type at
  | attached ↦ attachment_name p.filename at
]

PartKind-cases : (k : PartKind) → (k ≡ inline) ⊎ (k ≡ attached)
PartKind-cases inline = inl refl
PartKind-cases attached = inr refl

image_not_text :
    (t : Text)
    → has_prefix t (codes "image/") ≡ true
    → (has_prefix t (codes "text/plain") ≡ false) × (has_prefix t (codes "text/html") ≡ false)
unfolding has_prefix
image_not_text [] h = (refl, refl)
image_not_text (c ∷ t) h = let e : (c == b't') ≡ false = ground (arith, h) in rw e (refl, refl)

-- What one part adds to the listing.
parse_part-counts :
    (at : ℕ) (p : Part) (m : Message)
    → counts p ≡ true
    → ((parse_part at p m).0 ≡ at + 1)
      × (a : AttachmentMeta) × ((parse_part at p m).1.attachments ≡ m.attachments ++ a ∷ [])
      × (a.index ≡ at)
      × (a.filename ≡ name_at at p)
      × (a.mime_type ≡ p.content_type)
unfolding parse_part counts
parse_part-counts at p m c = elim (PartKind-cases p.kind) [
  | inr k ↦ rw (parse_part, k) (refl, _, refl, refl, refl, refl)
  | inl k ↦
      let image : has_prefix p.content_type (codes "image/") ≡ true = rw k at c in
      let (plain, html) = image_not_text p.content_type image in
      rw (parse_part, k, plain, html, image) (refl, _, refl, refl, refl, refl)
]

parse_part_skips :
    (at : ℕ) (p : Part) (m : Message)
    → counts p ≡ false
    → ((parse_part at p m).0 ≡ at) × ((parse_part at p m).1.attachments ≡ m.attachments)
unfolding parse_part counts
parse_part_skips at p m c = elim (PartKind-cases p.kind) [
  | inr k ↦ cc (rw k at c)
  | inl k ↦
      let other : has_prefix p.content_type (codes "image/") ≡ false = rw k at c in
      elim (Bool-cases (has_prefix p.content_type (codes "text/plain") && same m.text_body [])) [
        | inl a ↦ rw (parse_part, k, a) (refl, refl)
        | inr a ↦
            elim (Bool-cases
              (has_prefix p.content_type (codes "text/html") && same m.html_body [])) [
                | inl b ↦ rw (parse_part, k, a, b) (refl, refl)
                | inr b ↦ rw (parse_part, k, a, b, other) (refl, refl)
              ]
      ]
]

listed-beyond : (as_ : List AttachmentMeta) (i : ℕ) → length as_ ≤ i → listed as_ i ≡ none
listed-beyond [] i h = refl
listed-beyond (a ∷ as_) zero h = absurd (omega (arith, h))
listed-beyond (a ∷ as_) (suc i) h = listed-beyond as_ i (omega (arith, h))

listed-at :
    (as_ bs : List AttachmentMeta) (a : AttachmentMeta) (i : ℕ)
    → length as_ ≡ i
    → listed (as_ ++ a ∷ bs) i ≡ some (a.index, a.filename, a.mime_type)
listed-at [] bs a zero h = refl
listed-at [] bs a (suc i) h = absurd (omega (arith, h))
listed-at (x ∷ as_) bs a zero h = absurd (omega (arith, h))
listed-at (x ∷ as_) bs a (suc i) h = listed-at as_ bs a i (omega (arith, h))

parse_part-keeps :
    (at : ℕ) (p : Part) (m : Message)
    → (bs : List AttachmentMeta) × ((parse_part at p m).1.attachments ≡ m.attachments ++ bs)
parse_part-keeps at p m = elim (Bool-cases (counts p)) [
  | inl c ↦ let (_, a, e, _, _, _) = parse_part-counts at p m c in (a ∷ [], e)
  | inr c ↦ ([], (parse_part_skips at p m c).1 ∙ sym (append-nil m.attachments))
]

parse_parts-keeps :
    (at : ℕ) (ps : List Part) (m : Message)
    → (bs : List AttachmentMeta) × ((parse_parts at ps m).attachments ≡ m.attachments ++ bs)
unfolding parse_parts
parse_parts-keeps at [] m = ([], sym (append-nil m.attachments))
parse_parts-keeps at (p ∷ ps) m =
    let (bs, e) = parse_part-keeps at p m in
    let (ds, d) = parse_parts-keeps (parse_part at p m).0 ps (parse_part at p m).1 in
    (bs ++ ds, d ∙ ap (λ l. l ++ ds) e ∙ append_assoc m.attachments bs ds)

extract_counts :
    (at i : ℕ) (p : Part) (ps : List Part)
    → counts p ≡ true
    → p.read_error ≡ none
    → downloaded i (extract_from at (pos i) (p ∷ ps)) ≡ (
        if at == i
        then some (i, name_at at p, p.content_type)
        else downloaded i (extract_from (at + 1) (pos i) ps))
unfolding extract_from counts
extract_counts at i p ps c r = elim (PartKind-cases p.kind) [
  | inr k ↦ elim (Bool-cases (at == i)) [
    | inl e ↦ rw (extract_from, k, e, r) refl
    | inr e ↦ rw (extract_from, k, e) refl
  ]
  | inl k ↦
      let image : has_prefix p.content_type (codes "image/") ≡ true = rw k at c in
      elim (Bool-cases (at == i)) [
        | inl e ↦ rw (extract_from, k, image, e, r) refl
        | inr e ↦ rw (extract_from, k, image, e) refl
      ]
]

extract_skips :
    (at i : ℕ) (p : Part) (ps : List Part)
    → counts p ≡ false
    → extract_from at (pos i) (p ∷ ps) ≡ extract_from at (pos i) ps
unfolding extract_from counts
extract_skips at i p ps c = elim (PartKind-cases p.kind) [
  | inr k ↦ cc (rw k at c)
  | inl k ↦
      let other : has_prefix p.content_type (codes "image/") ≡ false = rw k at c in
      rw (extract_from, k, other) refl
]

extract-listed :
    (at i : ℕ) (ps : List Part) (m : Message)
    → All (λ p. p.read_error ≡ none) ps
    → length m.attachments ≡ at
    → at ≤ i
    → downloaded i (extract_from at (pos i) ps) ≡ listed (parse_parts at ps m).attachments i
unfolding parse_parts extract_from
extract-listed at i [] m r l h = sym (listed-beyond m.attachments i (omega (arith, l, h)))
extract-listed at i (p ∷ ps) m (r, rs) l h = elim (Bool-cases (counts p)) [
  | inr c ↦
      let (n, e) = parse_part_skips at p m c in
      ap (downloaded i) (extract_skips at i p ps c)
      ∙ (rw (parse_parts, n) (extract-listed at i ps (parse_part at p m).1 rs (rw e l) h))
  | inl c ↦
      let (n, a, e, ei, ef, et) = parse_part-counts at p m c in
      elim (Bool-cases (at == i)) [
        | inr z ↦
            rw (extract_counts at i p ps c r, z, parse_parts, n)
              (extract-listed (at + 1) i ps (parse_part at p m).1 rs
                (rw (e, length-append m.attachments (a ∷ [])) (omega (arith, l)))
                (ground (arith, z, h)))
        | inl z ↦
            let (bs, d) = parse_parts-keeps (parse_part at p m).0 ps (parse_part at p m).1 in
            let place : at ≡ i = ground (arith, z) in
            rw
              (
                extract_counts at i p ps c r,
                z,
                parse_parts,
                d,
                e,
                append_assoc m.attachments (a ∷ []) bs,
                listed-at m.attachments bs a i (l ∙ place),
                ei,
                ef,
                et,
                place,
              )
              refl
      ]
]

abbrev listing : Result Text Message → List AttachmentMeta
listing (ok m) = m.attachments
listing (err e) = []

module _ (create_reader : Text → Result Text MailReader) where
  -- Where every part of a message can be read to its end, the download of an attachment finds exactly the
  -- numbers of the message's listing, and gives each the listed name and type.
  pub extract_attachment-parse_message :
      (raw : Text) (r : MailReader) (m : Message) (i : ℕ)
      → create_reader raw ≡ ok r
      → All (λ p. p.read_error ≡ none) r.parts
      → parse_message create_reader raw ≡ ok m
      → downloaded i (extract_attachment create_reader raw (pos i)) ≡ listed m.attachments i
  unfolding parse_message extract_attachment from_header
  extract_attachment-parse_message raw r m i e rs k =
      let q = ap listing k in
      rw (extract_attachment, e)
        (extract-listed 0 i r.parts (from_header (length raw) r) rs refl (omega arith)
          ∙ ap (λ l. listed l i) (rw (parse_message, e) at q))
