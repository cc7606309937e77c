-- ===== src/Security/Attachments.antt =====
-- internal/security/attachments.go. `detect_content_type` is http.DetectContentType; a size is the
-- length of what was uploaded, which is not negative.
use wispbox.Base.{
  ℕ, Text, codes, ◌||◌, List, [], ◌∷◌, none, some, Result, ok, err, ◌==◌, ltb, if◌then◌else◌, same,
  trim_space, to_lower, has_prefix, cut,
}
use wispbox.Base.Rows.{exists}

abbrev pub max_attachment_size : ℕ
max_attachment_size = 10485760

abbrev pub dangerous_extensions : List Text
dangerous_extensions =
    codes ".exe"
    ∷ codes ".msi"
    ∷ codes ".bat"
    ∷ codes ".cmd"
    ∷ codes ".com"
    ∷ codes ".scr"
    ∷ codes ".pif"
    ∷ codes ".cpl"
    ∷ codes ".jar"
    ∷ codes ".js"
    ∷ codes ".jse"
    ∷ codes ".vbs"
    ∷ codes ".vbe"
    ∷ codes ".wsf"
    ∷ codes ".wsh"
    ∷ codes ".ps1"
    ∷ codes ".psm1"
    ∷ codes ".msh"
    ∷ codes ".hta"
    ∷ codes ".apk"
    ∷ codes ".app"
    ∷ codes ".dmg"
    ∷ []

pub data AttachmentError : Type 0 where
  cannot_be_sent exceeds_the_limit is_empty : AttachmentError

-- filepath.Ext: from the last dot on, if no slash follows it.
abbrev pub ext_from : Text → Text → Text
ext_from found [] = found
ext_from found (c ∷ s) = ext_from (if c == b'/' then [] else if c == b'.' then c ∷ s else found) s

unfoldable pub check_outgoing_attachment : Text → ℕ → Result AttachmentError (Unit {0})
unfolding to_lower same exists
check_outgoing_attachment filename size =
    if exists (same (to_lower (ext_from [] filename))) dangerous_extensions
    then err cannot_be_sent
    else if ltb max_attachment_size size
    then err exceeds_the_limit
    else if size == 0
    then err is_empty
    else ok tt

abbrev pub active_types : List Text
active_types =
    codes "text/html"
    ∷ codes "application/xhtml"
    ∷ codes "image/svg"
    ∷ codes "text/xml"
    ∷ codes "application/xml"
    ∷ []

abbrev pub octet_stream : Text
octet_stream = codes "application/octet-stream"

-- What stands before the first semicolon.
abbrev pub media_type : Text → Text
media_type declared = elim (cut declared b';') [ none ↦ declared | some (t, _) ↦ t ]

module _ (detect_content_type : Text → Text) where
  unfoldable pub safe_download_type : Text → Text → Text
  unfolding to_lower trim_space cut has_prefix same exists
  safe_download_type declared head =
      let t = to_lower (trim_space (media_type declared)) in
      let sniffed = detect_content_type head in
      if exists (λ a. has_prefix t a || has_prefix sniffed a) active_types
      then octet_stream
      else if same t [] || same t (codes "application/unknown")
      then octet_stream
      else t
