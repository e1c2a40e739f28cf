-- ===== src/Posts/Attachments/Tests.antt =====
-- Names and types of files, and a post that is full.
use sports_erp.Prelude.{◌≡◌, refl, some, [], ◌∷◌, true, false}
use sports_erp.Store.{Db, empty_db}
use sports_erp.Store.Errors.{Code, ok, err}
use sports_erp.Store.Branches.{Text}
use sports_erp.Posts.Attachments.{Verified, attach, check_stored}
use sports_erp.Posts.Attachments.Rules.{extension_of, is_allowed, pdf_type, png_type}

-- `a.b.PDF`
abbrev scan : Text
scan = 97 ∷ 46 ∷ 98 ∷ 46 ∷ 80 ∷ 68 ∷ 70 ∷ []

abbrev pdf : Text
pdf = 112 ∷ 100 ∷ 102 ∷ []

last_part : extension_of scan ≡ pdf
unfolding extension_of
last_part = refl

-- `a.`
no_part : extension_of (97 ∷ 46 ∷ []) ≡ []
unfolding extension_of
no_part = refl

unnamed_hwp : is_allowed (104 ∷ 119 ∷ 112 ∷ []) [] ≡ true
unfolding is_allowed
unnamed_hwp = refl

other_type : is_allowed pdf png_type ≡ false
unfolding is_allowed
other_type = refl

too_large :
    (check_stored pdf (some (record { size = 10485761; content_type = some pdf_type })) empty_db).0
    ≡ err Code.attachment_too_large
unfolding check_stored
too_large = refl

abbrev file : Verified
file = record { file_type = pdf_type; file_size = 7 }

abbrev once : Db
once = (attach 1 3 pdf scan file empty_db).1

not_twice : (attach 2 3 pdf scan file once).0 ≡ err Code.attachment_duplicate
unfolding attach
not_twice = refl

abbrev five : Db
five =
    (attach 5 3 (5 ∷ []) scan file
      (attach 4 3 (4 ∷ []) scan file
        (attach 3 3 (3 ∷ []) scan file (attach 2 3 (2 ∷ []) scan file once).1).1).1).1

no_sixth : (attach 6 3 (6 ∷ []) scan file five).0 ≡ err Code.attachment_limit
unfolding attach
no_sixth = refl

another_post : (attach 6 4 (6 ∷ []) scan file five).0 ≡ ok 6
unfolding attach
another_post = refl
