-- ===== src/MailApi/Ids/RoundTrip.antt =====
-- An id gives back what it was made of.
use wispbox.Base.{
  ℕ, ◌≤◌, ◌<◌, Text, false, [], ◌∷◌, ◌++◌, Option, none, some, ◌≡◌, refl, arith, any_byte, cut,
  cut_here, ◌==◌, pos,
}
use wispbox.Base.Decimals.{itoa, itoa-digits, parse_uint32-itoa, parse_int-itoa}
use wispbox.MailApi.Ids.{
  unit_separator, encode_message_id, decode_message_id, encode_attachment_id, decode_attachment_id,
  split_three,
}

cut_none : (s : Text) (sep : ℕ) → any_byte (λ c. c == sep) s ≡ false → cut s sep ≡ none
unfolding cut any_byte
cut_none [] sep h = refl
cut_none (c ∷ s) sep h = ground (arith, cut_none s sep)

no_separator : (n : ℕ) → any_byte (λ c. c == unit_separator) (itoa n) ≡ false
no_separator n = itoa-digits (λ c. c == unit_separator) n (λ c d. ground (arith, d))

split_three-joined :
    (a b c : Text)
    → any_byte (λ x. x == unit_separator) a ≡ false
    → any_byte (λ x. x == unit_separator) b ≡ false
    → any_byte (λ x. x == unit_separator) c ≡ false
    → split_three (a ++ unit_separator ∷ (b ++ unit_separator ∷ c)) ≡ some (a, b, c)
unfolding split_three
split_three-joined a b c ha hb hc =
    rw
      (
        split_three,
        cut_here a (b ++ unit_separator ∷ c) unit_separator ha,
        cut_here b c unit_separator hb,
        cut_none c unit_separator hc,
      )
      refl

module _ (encode : Text → Text) (decode : Text → Option Text)
    (decode-encode : (t : Text) → decode (encode t) ≡ some t) where
  -- Where base64 gives back what it was given: the id of a message, and that of an attachment, decodes to the folder, the uid and the index that
  -- it was made of, for a folder without the separator, a 32-bit uid and an index that fits a Go int.
  pub decode-encode_ids :
      (folder : Text) (uid index : ℕ)
      → any_byte (λ c. c == unit_separator) folder ≡ false
      → uid < 4294967296
      → index ≤ 9223372036854775807
      → (decode_message_id decode (encode_message_id encode folder uid) ≡ some (folder, uid))
        × (decode_attachment_id decode (encode_attachment_id encode folder uid index)
            ≡ some (folder, uid, pos index))
  unfolding decode_message_id encode_message_id decode_attachment_id encode_attachment_id
  decode-encode_ids folder uid index h u i = (
    rw
        (
          decode_message_id,
          encode_message_id,
          decode-encode (folder ++ unit_separator ∷ itoa uid),
          cut_here folder (itoa uid) unit_separator h,
          parse_uint32-itoa uid u,
        )
        refl,
    rw
        (
          decode_attachment_id,
          encode_attachment_id,
          decode-encode (folder ++ unit_separator ∷ (itoa uid ++ unit_separator ∷ itoa index)),
          split_three-joined folder (itoa uid) (itoa index) h (no_separator uid)
              (no_separator index),
          parse_uint32-itoa uid u,
          parse_int-itoa index i,
        )
        refl,
  )
