-- ===== src/Posts/Tests.antt =====
-- A plain post, and who may see one.
use sports_erp.Prelude.{◌≡◌, refl, none, some, [], ◌∷◌, false}
use sports_erp.Store.{Db, empty_db}
use sports_erp.Store.Errors.{Code, err}
use sports_erp.Store.Branches.{Text}
use sports_erp.Store.Staffing.{Role}
use sports_erp.Store.Operations.{Post, PostScope, PostCategory}
use sports_erp.Access.{RequestUser}
use sports_erp.Posts.{Asked, PostFilter, list, create, soft_delete, find_visible}
use sports_erp.Posts.Content.{starts_tag, lines, text_to_html, sanitize_post_content}
use sports_erp.Posts.Content.Reader.{read, sanitize_post_content_lem}

-- `a<b`, a line feed and `&`.
abbrev plain : Text
plain = 97 ∷ 60 ∷ 98 ∷ 10 ∷ 38 ∷ []

kept_html : (λ (t : Text). t) (text_to_html plain) ≡ text_to_html plain
kept_html = refl

sanitize_post_content_lem_example : read 0 (sanitize_post_content (λ t. t) plain) ≡ lines plain
unfolding starts_tag
sanitize_post_content_lem_example = sanitize_post_content_lem (λ t. t) plain kept_html refl

abbrev member : RequestUser
member = record {
  account_id = 1;
  role = Role.member;
  branch_id = some 10;
  staff_id = none;
  member_id = some 2;
  permissions = [];
  must_change_password = false;
}

abbrev letter : Post
letter = record {
  id = 4;
  scope = PostScope.hq_to_branch;
  branch_id = some 10;
  author_id = 9;
  category = PostCategory.notice;
  title = "For the staff";
  content = plain;
  view_count = 0;
  published_at = 0;
  deleted_at = none;
  visible_to_member = false;
  facility_id = none;
  created_at = 0;
}

abbrev board : Db
board = record empty_db {
  posts = letter ∷ record letter { id = 5; scope = PostScope.branch_to_member } ∷ [];
}

abbrev first_page : PostFilter
first_page = record {
  scope = Asked.any;
  category = Asked.any;
  facility_id = none;
  page = 1;
  page_size = 20;
  latest_first = false;
}

one_of_two : (list (λ b xs. xs) member first_page board).1 ≡ 1
unfolding list
one_of_two = refl

not_for_members : (find_visible 4 member board).0 ≡ err Code.post_not_found
unfolding find_visible
not_for_members = refl

gone_at_once : (find_visible 5 member (soft_delete 7 5 board).1).0 ≡ err Code.post_not_found
unfolding find_visible soft_delete
gone_at_once = refl

only_tags :
    (create
      (λ t. t)
      (λ t. [])
      0
      6
      member
      (record {
        title = "Empty";
        content = plain;
        category = PostCategory.other;
        branch_id = none;
        visible_to_member = none;
        facility_id = none;
      })
      board).0
    ≡ err Code.post_content_empty
unfolding create
only_tags = refl
