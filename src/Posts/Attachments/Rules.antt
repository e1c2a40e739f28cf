-- ===== src/Posts/Attachments/Rules.antt =====
-- modules/posts/attachment-rules.ts and dto/attachment.dto.ts: which files may be attached. The
-- extensions are pdf, png, jpg, jpeg, webp, docx, xlsx, pptx and hwp. One that the object of the
-- types inherits, as `constructor`, is refused here like any other that is not of these.
use sports_erp.Prelude.{
  ℕ, ◌*◌, List, [], ◌∷◌, Bool, true, not, ◌&&◌, ◌||◌, ◌==◌, leb, map, exists, if◌then◌else◌,
}
use sports_erp.Store.{Action, throw_if}
use sports_erp.Store.Errors.{Code}
use sports_erp.Store.Branches.{Text}
use sports_erp.Integrity.Codes.{text_eq}
use sports_erp.Texts.{is_empty}
use sports_erp.Posts.Content.{lower}

-- ATTACHMENT_MAX_BYTES and ATTACHMENTS_PER_POST
abbrev pub attachment_max_bytes : ℕ
attachment_max_bytes = 10 * 1024 * 1024

abbrev pub attachments_per_post : ℕ
attachments_per_post = 5

abbrev pub is_alphanumeric : ℕ → Bool
is_alphanumeric c = (leb 48 c && leb c 57) || ((leb 65 c && leb c 90) || (leb 97 c && leb c 122))

abbrev pub every : (ℕ → Bool) → Text → Bool
every p [] = true
every p (c ∷ t) = p c && every p t

-- `extensionOf`: `/\.([A-Za-z0-9]+)$/`; a full stop is 46.
unfoldable pub extension_of : Text → Text
extension_of [] = []
extension_of (c ∷ t) =
    let later = extension_of t in
    if c == 46 && (not (is_empty t) && every is_alphanumeric t) then map lower t else later

-- application/pdf
abbrev pub pdf_type : Text
pdf_type = 97 ∷ 112 ∷ 112 ∷ 108 ∷ 105 ∷ 99 ∷ 97 ∷ 116 ∷ 105 ∷ 111 ∷ 110 ∷ 47 ∷ 112 ∷ 100 ∷ 102 ∷ []

-- image/png
abbrev pub png_type : Text
png_type = 105 ∷ 109 ∷ 97 ∷ 103 ∷ 101 ∷ 47 ∷ 112 ∷ 110 ∷ 103 ∷ []

-- image/jpeg
abbrev pub jpeg_type : Text
jpeg_type = 105 ∷ 109 ∷ 97 ∷ 103 ∷ 101 ∷ 47 ∷ 106 ∷ 112 ∷ 101 ∷ 103 ∷ []

-- image/webp
abbrev pub webp_type : Text
webp_type = 105 ∷ 109 ∷ 97 ∷ 103 ∷ 101 ∷ 47 ∷ 119 ∷ 101 ∷ 98 ∷ 112 ∷ []

-- application/vnd.openxmlformats-officedocument.wordprocessingml.document
abbrev pub docx_type : Text
docx_type =
    97 ∷ 112 ∷ 112 ∷ 108 ∷ 105 ∷ 99 ∷ 97 ∷ 116 ∷ 105 ∷ 111 ∷ 110 ∷ 47 ∷ 118 ∷ 110 ∷ 100 ∷ 46 ∷ 111
    ∷ 112 ∷ 101 ∷ 110 ∷ 120 ∷ 109 ∷ 108 ∷ 102 ∷ 111 ∷ 114 ∷ 109 ∷ 97 ∷ 116 ∷ 115 ∷ 45 ∷ 111 ∷ 102
    ∷ 102 ∷ 105 ∷ 99 ∷ 101 ∷ 100 ∷ 111 ∷ 99 ∷ 117 ∷ 109 ∷ 101 ∷ 110 ∷ 116 ∷ 46 ∷ 119 ∷ 111 ∷ 114
    ∷ 100 ∷ 112 ∷ 114 ∷ 111 ∷ 99 ∷ 101 ∷ 115 ∷ 115 ∷ 105 ∷ 110 ∷ 103 ∷ 109 ∷ 108 ∷ 46 ∷ 100 ∷ 111
    ∷ 99 ∷ 117 ∷ 109 ∷ 101 ∷ 110 ∷ 116 ∷ []

-- application/vnd.openxmlformats-officedocument.spreadsheetml.sheet
abbrev pub xlsx_type : Text
xlsx_type =
    97 ∷ 112 ∷ 112 ∷ 108 ∷ 105 ∷ 99 ∷ 97 ∷ 116 ∷ 105 ∷ 111 ∷ 110 ∷ 47 ∷ 118 ∷ 110 ∷ 100 ∷ 46 ∷ 111
    ∷ 112 ∷ 101 ∷ 110 ∷ 120 ∷ 109 ∷ 108 ∷ 102 ∷ 111 ∷ 114 ∷ 109 ∷ 97 ∷ 116 ∷ 115 ∷ 45 ∷ 111 ∷ 102
    ∷ 102 ∷ 105 ∷ 99 ∷ 101 ∷ 100 ∷ 111 ∷ 99 ∷ 117 ∷ 109 ∷ 101 ∷ 110 ∷ 116 ∷ 46 ∷ 115 ∷ 112 ∷ 114
    ∷ 101 ∷ 97 ∷ 100 ∷ 115 ∷ 104 ∷ 101 ∷ 101 ∷ 116 ∷ 109 ∷ 108 ∷ 46 ∷ 115 ∷ 104 ∷ 101 ∷ 101 ∷ 116
    ∷ []

-- application/vnd.openxmlformats-officedocument.presentationml.presentation
abbrev pub pptx_type : Text
pptx_type =
    97 ∷ 112 ∷ 112 ∷ 108 ∷ 105 ∷ 99 ∷ 97 ∷ 116 ∷ 105 ∷ 111 ∷ 110 ∷ 47 ∷ 118 ∷ 110 ∷ 100 ∷ 46 ∷ 111
    ∷ 112 ∷ 101 ∷ 110 ∷ 120 ∷ 109 ∷ 108 ∷ 102 ∷ 111 ∷ 114 ∷ 109 ∷ 97 ∷ 116 ∷ 115 ∷ 45 ∷ 111 ∷ 102
    ∷ 102 ∷ 105 ∷ 99 ∷ 101 ∷ 100 ∷ 111 ∷ 99 ∷ 117 ∷ 109 ∷ 101 ∷ 110 ∷ 116 ∷ 46 ∷ 112 ∷ 114 ∷ 101
    ∷ 115 ∷ 101 ∷ 110 ∷ 116 ∷ 97 ∷ 116 ∷ 105 ∷ 111 ∷ 110 ∷ 109 ∷ 108 ∷ 46 ∷ 112 ∷ 114 ∷ 101 ∷ 115
    ∷ 101 ∷ 110 ∷ 116 ∷ 97 ∷ 116 ∷ 105 ∷ 111 ∷ 110 ∷ []

-- application/x-hwp
abbrev pub hwp_type : Text
hwp_type =
    97 ∷ 112 ∷ 112 ∷ 108 ∷ 105 ∷ 99 ∷ 97 ∷ 116 ∷ 105 ∷ 111 ∷ 110 ∷ 47 ∷ 120 ∷ 45 ∷ 104 ∷ 119 ∷ 112
    ∷ []

-- application/haansofthwp
abbrev pub haansoft_type : Text
haansoft_type =
    97 ∷ 112 ∷ 112 ∷ 108 ∷ 105 ∷ 99 ∷ 97 ∷ 116 ∷ 105 ∷ 111 ∷ 110 ∷ 47 ∷ 104 ∷ 97 ∷ 97 ∷ 110 ∷ 115
    ∷ 111 ∷ 102 ∷ 116 ∷ 104 ∷ 119 ∷ 112 ∷ []

-- application/vnd.hancom.hwp
abbrev pub hancom_type : Text
hancom_type =
    97 ∷ 112 ∷ 112 ∷ 108 ∷ 105 ∷ 99 ∷ 97 ∷ 116 ∷ 105 ∷ 111 ∷ 110 ∷ 47 ∷ 118 ∷ 110 ∷ 100 ∷ 46 ∷ 104
    ∷ 97 ∷ 110 ∷ 99 ∷ 111 ∷ 109 ∷ 46 ∷ 104 ∷ 119 ∷ 112 ∷ []

-- application/octet-stream
abbrev pub octet_stream : Text
octet_stream =
    97 ∷ 112 ∷ 112 ∷ 108 ∷ 105 ∷ 99 ∷ 97 ∷ 116 ∷ 105 ∷ 111 ∷ 110 ∷ 47 ∷ 111 ∷ 99 ∷ 116 ∷ 101 ∷ 116
    ∷ 45 ∷ 115 ∷ 116 ∷ 114 ∷ 101 ∷ 97 ∷ 109 ∷ []

-- ALLOWED_TYPES
abbrev pub allowed_types : List (Text × List Text)
allowed_types =
    (112 ∷ 100 ∷ 102 ∷ [], pdf_type ∷ [])
    ∷ (112 ∷ 110 ∷ 103 ∷ [], png_type ∷ [])
    ∷ (106 ∷ 112 ∷ 103 ∷ [], jpeg_type ∷ [])
    ∷ (106 ∷ 112 ∷ 101 ∷ 103 ∷ [], jpeg_type ∷ [])
    ∷ (119 ∷ 101 ∷ 98 ∷ 112 ∷ [], webp_type ∷ [])
    ∷ (100 ∷ 111 ∷ 99 ∷ 120 ∷ [], docx_type ∷ [])
    ∷ (120 ∷ 108 ∷ 115 ∷ 120 ∷ [], xlsx_type ∷ [])
    ∷ (112 ∷ 112 ∷ 116 ∷ 120 ∷ [], pptx_type ∷ [])
    ∷ (104 ∷ 119 ∷ 112 ∷ [], hwp_type ∷ haansoft_type ∷ hancom_type ∷ octet_stream ∷ [] ∷ [])
    ∷ []

-- A browser may call a file of hwp nothing at all.
unfoldable pub is_allowed : Text → Text → Bool
is_allowed ext type =
    exists
      (λ (e : Text × List Text). text_eq e.0 ext && exists (λ t. text_eq t (map lower type)) e.1)
      allowed_types

-- `checkType`
unfoldable pub check_type : Text → Text → Action (Unit {0})
unfolding is_allowed
check_type ext type = throw_if (not (is_allowed ext type)) Code.attachment_type_not_allowed
