-- ===== src/Posts/Attachments.antt =====
-- modules/posts/post-attachment.service.ts: the files of a post. The storage is a parameter: what it
-- knows of a path, and the folder `posts/<id>/` of a post; its signed addresses and the removal of a
-- file from it are left out. A request of the storage stands between the checks of `confirm` and its
-- transaction, so they are two steps.
pub mod Rules
pub mod Bounded
mod Tests
use sports_erp.Prelude.{
  ℕ, Option, none, some, List, [], ◌∷◌, ◌++◌, Bool, true, false, not, ◌&&◌, ◌||◌, ◌==◌, ltb, leb,
  if◌then◌else◌, find, count, remove, or_else,
}
use sports_erp.Store.{
  Db, Action, pure, throw, gets, require, require_row, transaction, ◌>>=◌, ◌>>◌, throw_if, modify,
}
use sports_erp.Store.Errors.{Code, Result, ok, err}
use sports_erp.Store.Branches.{Text}
use sports_erp.Store.Operations.{Post, Attachment}
use sports_erp.Integrity.Codes.{text_eq}
use sports_erp.Texts.{trim, is_empty}
use sports_erp.Access.{RequestUser}
use sports_erp.Posts.{find_visible, is_head_office}
use sports_erp.Posts.Content.{starts_with}
use Rules.{attachment_max_bytes, attachments_per_post, extension_of, check_type, octet_stream}

abbrev pub of_post : ℕ → Attachment → Bool
of_post post a = a.post_id == post

-- `requireAuthor`
unfoldable pub require_author : ℕ → RequestUser → Action Post
unfolding find_visible
require_author post user = do
  found ← find_visible post user
  throw_if (not (found.author_id == user.account_id)) Code.post_scope_violation
  pure found

pub record UploadInput : Type 0 where
  pub file_name : Text
  pub file_type : Text
  pub file_size : ℕ

-- `requestUpload`: the path of the file, under a new name.
unfoldable pub request_upload : (ℕ → Text) → Text → ℕ → RequestUser → UploadInput → Action Text
unfolding require_author extension_of check_type
request_upload folder uuid post user i = do
  _ ← require_author post user
  check_type (extension_of i.file_name) i.file_type
  throw_if (ltb attachment_max_bytes i.file_size) Code.attachment_too_large
  full ← gets λ db. leb attachments_per_post (count (of_post post) db.attachments)
  throw_if full Code.attachment_limit
  pure (folder post ++ (uuid ++ 46 ∷ extension_of i.file_name))

-- What the storage knows of a file.
pub record StoredObjectInfo : Type 0 where
  pub size : ℕ
  pub content_type : Option Text

-- `split(';')[0]`; a semicolon is 59.
unfoldable pub before_semicolon : Text → Text
before_semicolon [] = []
before_semicolon (c ∷ t) = let rest = before_semicolon t in if c == 59 then [] else c ∷ rest

-- What the checks of `confirm` have found out of a file.
pub record Verified : Type 0 where
  pub file_type : Text
  pub file_size : ℕ

unfoldable pub check_stored : Text → Option StoredObjectInfo → Action Verified
unfolding check_type before_semicolon trim
check_stored ext none = throw Code.attachment_not_uploaded
check_stored ext (some info) = do
  throw_if (ltb attachment_max_bytes info.size) Code.attachment_too_large
  let type = trim (before_semicolon (or_else info.content_type []))
  check_type ext type
  pure (record { file_type = type; file_size = info.size })

-- The checks of `confirm`.
unfoldable pub check_confirm :
    (ℕ → Text) → (Text → Option StoredObjectInfo) → ℕ → RequestUser → Text → Text → Action Verified
unfolding require_author extension_of check_stored
check_confirm folder stored post user path name = do
  _ ← require_author post user
  throw_if (not (starts_with (folder post) path)) Code.attachment_path_mismatch
  throw_if (not (text_eq (extension_of name) (extension_of path))) Code.attachment_type_not_allowed
  check_stored (extension_of path) (stored path)

abbrev or_octets : Text → Text
or_octets t = if is_empty t then octet_stream else t

abbrev pub new_attachment : ℕ → ℕ → Text → Text → Verified → Attachment
new_attachment new post path name v = record {
  id = new;
  post_id = post;
  url = path;
  file_name = trim name;
  file_type = or_octets v.file_type;
  file_size = v.file_size;
}

abbrev pub is_file : ℕ → Text → Attachment → Bool
is_file post path a = a.post_id == post && text_eq a.url path

unfoldable pub attach_body : ℕ → ℕ → Text → Text → Verified → Action ℕ
attach_body new post path name v = do
  again ← gets λ db. ltb 0 (count (is_file post path) db.attachments)
  throw_if again Code.attachment_duplicate
  full ← gets λ db. leb attachments_per_post (count (of_post post) db.attachments)
  throw_if full Code.attachment_limit
  modify
      λ db. record db { attachments = db.attachments ++ new_attachment new post path name v ∷ [] }
  pure new

-- The transaction of `confirm`, for a file that the checks have let pass.
unfoldable pub attach : ℕ → ℕ → Text → Text → Verified → Action ℕ
unfolding attach_body
attach new post path name v = transaction (attach_body new post path name v)

-- `remove`
unfoldable pub remove_attachment : ℕ → ℕ → RequestUser → Action ℕ
unfolding find_visible
remove_attachment post id user = do
  found ← find_visible post user
  throw_if (not (found.author_id == user.account_id) && not (is_head_office user.role))
      Code.post_scope_violation
  row ←
      require_row (λ db. find (λ a. a.id == id && a.post_id == post) db.attachments)
        Code.attachment_not_found
  modify λ db. record db { attachments = remove (λ a. a.id == row.id) db.attachments }
  pure row.id
