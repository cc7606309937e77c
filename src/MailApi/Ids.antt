-- ===== src/MailApi/Ids.antt =====
-- internal/mailapi/mailapi.go: the ids of messages and attachments. `encode` and `decode` are
-- base64.RawURLEncoding's EncodeToString and DecodeString.
pub mod RoundTrip
use wispbox.Base.{ℕ, Text, ◌∷◌, ◌++◌, Option, none, some, cut, ℤ}
use wispbox.Base.Decimals.{itoa, parse_uint32, parse_int}

-- "\x1f"
abbrev pub unit_separator : ℕ
unit_separator = 31

module _ (encode : Text → Text) where
  unfoldable pub encode_message_id : Text → ℕ → Text
  unfolding itoa
  encode_message_id folder uid = encode (folder ++ unit_separator ∷ itoa uid)

  unfoldable pub encode_attachment_id : Text → ℕ → ℕ → Text
  unfolding itoa
  encode_attachment_id folder uid index =
      encode (folder ++ unit_separator ∷ (itoa uid ++ unit_separator ∷ itoa index))

-- Exactly three parts, as strings.Split gives them.
unfoldable pub split_three : Text → Option (Text × Text × Text)
unfolding cut
split_three s = elim (cut s unit_separator) [
  | none ↦ none
  | some (a, rest) ↦ elim (cut rest unit_separator) [
    | none ↦ none
    | some (b, c) ↦ elim (cut c unit_separator) [ none ↦ some (a, b, c) | some _ ↦ none ]
  ]
]

module _ (decode : Text → Option Text) where
  -- `none` is the error "bad message id".
  unfoldable pub decode_message_id : Text → Option (Text × ℕ)
  unfolding cut parse_uint32
  decode_message_id id = elim (decode id) [
    | none ↦ none
    | some raw ↦ elim (cut raw unit_separator) [
      | none ↦ none
      | some (folder, digits) ↦ elim (parse_uint32 digits) [
        | none ↦ none
        | some uid ↦ some (folder, uid)
      ]
    ]
  ]

  unfoldable pub decode_attachment_id : Text → Option (Text × ℕ × ℤ)
  unfolding split_three parse_uint32 parse_int
  decode_attachment_id id = elim (decode id) [
    | none ↦ none
    | some raw ↦ elim (split_three raw) [
      | none ↦ none
      | some (folder, u, i) ↦ elim (parse_uint32 u) [
        | none ↦ none
        | some uid ↦ elim (parse_int i) [ none ↦ none | some index ↦ some (folder, uid, index) ]
      ]
    ]
  ]
