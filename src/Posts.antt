-- ===== src/Posts.antt =====
-- modules/posts/post.service.ts: the board of the head office and the branches. The two cleanings of
-- HTML are parameters, and so is what the database orders a list by; a view is left to the row. An
-- update reads the post and the facility first and writes later, and so does a view of one post, so
-- each is two steps.
pub mod Content
pub mod Attachments
mod Tests
use sports_erp.Prelude.{
  ℕ, zero, suc, ◌-◌, ◌*◌, ◌+◌, Option, none, some, List, [], ◌∷◌, ◌++◌, String, Bool, true, false,
  not, ◌&&◌, ◌||◌, ◌==◌, if◌then◌else◌, find, count, select, update, exists, is_set, or_else,
  passes,
}
use sports_erp.Store.{
  Db, Action, pure, throw, gets, require, require_row, transaction, ◌>>=◌, ◌>>◌, throw_if, modify,
}
use sports_erp.Store.Errors.{Code, Result, ok, err}
use sports_erp.Store.Branches.{Text}
use sports_erp.Store.Staffing.{Role}
use sports_erp.Store.Operations.{Post, PostScope, PostCategory, Facility}
use sports_erp.Integrity.{lock_branch_for_share, is_branch_terminated}
use sports_erp.Dates.Kst.{kst_day}
use sports_erp.Access.{RequestUser}
use Content.{sanitize_post_content, has_text}

abbrev pub is_head_office : Role → Bool
is_head_office Role.super_admin = true
is_head_office _ = false

abbrev pub is_member : Role → Bool
is_member Role.member = true
is_member _ = false

abbrev pub is_from_head_office : PostScope → Bool
is_from_head_office PostScope.hq_to_branch = true
is_from_head_office PostScope.branch_to_member = false

abbrev pub id_eq : Option ℕ → Option ℕ → Bool
id_eq none none = true
id_eq (some a) (some b) = a == b
id_eq _ _ = false

-- A post to all branches, or to that of the caller.
abbrev pub in_scope : RequestUser → Post → Bool
in_scope user p =
    not (is_set p.branch_id) || (is_set user.branch_id && id_eq p.branch_id user.branch_id)

-- `visibleWhere`
unfoldable pub is_visible : RequestUser → Post → Bool
is_visible user p =
    is_head_office user.role
    || (in_scope user p
        && not (is_member user.role && (is_from_head_office p.scope && not p.visible_to_member)))

-- A filter: not asked for, a text that names nothing, or a value.
pub data Asked (A : Type 0) : Type 0 where
  any unknown : Asked A
  only : A → Asked A

abbrev pub is_unknown : {A : Type 0} → Asked A → Bool
is_unknown unknown = true
is_unknown _ = false

abbrev pub matches : {A : Type 0} → (A → A → Bool) → Asked A → A → Bool
matches eq any b = true
matches eq unknown b = false
matches eq (only a) b = eq a b

abbrev pub scope_eq : PostScope → PostScope → Bool
scope_eq PostScope.hq_to_branch s = is_from_head_office s
scope_eq PostScope.branch_to_member s = not (is_from_head_office s)

abbrev pub category_index : PostCategory → ℕ
category_index PostCategory.notice = 0
category_index PostCategory.training_material = 1
category_index PostCategory.event = 2
category_index PostCategory.other = 3

abbrev pub category_eq : PostCategory → PostCategory → Bool
category_eq a b = category_index a == category_index b

pub record PostFilter : Type 0 where
  pub scope : Asked PostScope
  pub category : Asked PostCategory
  pub facility_id : Option ℕ
  pub page : ℕ
  pub page_size : ℕ
  pub latest_first : Bool

abbrev pub of_facility : Option ℕ → Post → Bool
of_facility none p = true
of_facility (some f) p = id_eq p.facility_id (some f)

-- The `where` of `list`.
unfoldable pub is_listed : RequestUser → PostFilter → Post → Bool
unfolding is_visible
is_listed user f p =
    not (is_set p.deleted_at)
    && (matches scope_eq f.scope p.scope
        && (matches category_eq f.category p.category
            && (of_facility f.facility_id p && is_visible user p)))

abbrev pub skip : {A : Type 0} → ℕ → List A → List A
skip zero xs = xs
skip (suc n) [] = []
skip (suc n) (x ∷ xs) = skip n xs

abbrev pub take : {A : Type 0} → ℕ → List A → List A
take zero xs = []
take (suc n) [] = []
take (suc n) (x ∷ xs) = x ∷ take n xs

-- The page and the number of all posts, with the order of the database for both senses of time.
unfoldable pub list : (Bool → List Post → List Post) → RequestUser → PostFilter → Db → List Post × ℕ
unfolding is_listed
list by_time user f db = if is_unknown f.scope || is_unknown f.category then ([], 0) else (
  take f.page_size (
      skip ((f.page - 1) * f.page_size)
        (by_time f.latest_first (select (is_listed user f) db.posts))),
  count (is_listed user f) db.posts,
)

abbrev pub has_id : ℕ → Post → Bool
has_id id p = p.id == id

abbrev pub is_there : ℕ → Post → Bool
is_there id p = p.id == id && not (is_set p.deleted_at)

unfoldable pub find_visible : ℕ → RequestUser → Action Post
unfolding is_visible
find_visible id user =
    require_row (λ db. find (λ p. is_there id p && is_visible user p) db.posts) Code.post_not_found

abbrev pub seen_once_more : Post → Post
seen_once_more p = record p { view_count = p.view_count + 1 }

-- The write of `viewDetail`, after `find_visible`.
unfoldable pub count_view : ℕ → Action Post
count_view id = do
  _ ← require_row (λ db. find (has_id id) db.posts) Code.row_missing
  modify λ db. record db { posts = update (has_id id) seen_once_more db.posts }
  require_row (λ db. find (has_id id) db.posts) Code.row_missing

pub record PostInput : Type 0 where
  pub title : String
  pub content : Text
  pub category : PostCategory
  pub branch_id : Option ℕ
  pub visible_to_member : Option Bool
  pub facility_id : Option ℕ

-- What the role of the author decides: the scope and the branch.
unfoldable pub addressed : RequestUser → PostInput → Action (PostScope × Option ℕ)
addressed author i =
    if is_head_office author.role
    then (do
      missing ←
          gets λ db.
            is_set i.branch_id && not (exists (λ b. id_eq (some b.id) i.branch_id) db.branches)
      throw_if missing Code.branch_not_found
      throw_if (is_set i.facility_id) Code.post_facility_not_allowed
      pure (PostScope.hq_to_branch, i.branch_id))
    else (do
      throw_if (not (is_set author.branch_id)) Code.branch_required
      pure (PostScope.branch_to_member, author.branch_id))

abbrev pub shown_to_members : PostScope → Option Bool → Bool
shown_to_members PostScope.branch_to_member v = true
shown_to_members PostScope.hq_to_branch v = or_else v false

abbrev pub new_post : ℕ → ℕ → RequestUser → Text → PostScope → Option ℕ → PostInput → Post
new_post now new author content scope branch i = record {
  id = new;
  scope = scope;
  branch_id = branch;
  author_id = author.account_id;
  category = i.category;
  title = i.title;
  content = content;
  view_count = 0;
  published_at = kst_day now;
  deleted_at = none;
  visible_to_member = shown_to_members scope i.visible_to_member;
  facility_id = i.facility_id;
  created_at = now;
}

abbrev pub branch_row : Option ℕ → Db → Bool
branch_row none db = false
branch_row (some branch) db = is_branch_terminated (lock_branch_for_share branch db)

-- The transaction of `create`; a notice of the head office goes to a branch whose contract has ended.
unfoldable pub create_body :
    ℕ → ℕ → RequestUser → Text → PostScope × Option ℕ → PostInput → Action Post
create_body now new author content to i = do
  ended ← gets (branch_row to.1)
  throw_if (not (is_from_head_office to.0) && ended) Code.branch_terminated
  modify λ db. record db { posts = db.posts ++ new_post now new author content to.0 to.1 i ∷ [] }
  pure (new_post now new author content to.0 to.1 i)

-- What is left out stays; a facility that is given empty is taken away.
pub record PostPatch : Type 0 where
  pub title : Option String
  pub content : Option Text
  pub category : Option PostCategory
  pub facility_id : Option (Option ℕ)

abbrev pub patched : PostPatch → Option Text → Post → Post
patched i content p = record p {
  title = or_else i.title p.title;
  content = or_else content p.content;
  category = or_else i.category p.category;
  facility_id = or_else i.facility_id p.facility_id;
}

-- A facility has to be of the branch of the post, which has to be one of a branch.
unfoldable pub check_facility : Post → Option (Option ℕ) → Action (Unit {0})
check_facility post none = pure tt
check_facility post (some none) = pure tt
check_facility post (some (some id)) = do
  throw_if (is_from_head_office post.scope) Code.post_facility_not_allowed
  facility ← require_row (λ db. find (λ f. f.id == id) db.facilities) Code.facility_not_found
  throw_if (not (id_eq (some facility.branch_id) post.branch_id)) Code.facility_branch_mismatch

module _ (sanitize_html strip_html : Text → Text) where
  unfoldable pub create : ℕ → ℕ → RequestUser → PostInput → Action Post
  unfolding addressed create_body sanitize_post_content has_text
  create now new author i = do
    let content = sanitize_post_content sanitize_html i.content
    throw_if (not (has_text strip_html content)) Code.post_content_empty
    to ← addressed author i
    transaction (create_body now new author content to i)

  abbrev pub cleaned : Option Text → Option Text
  cleaned none = none
  cleaned (some t) = some (sanitize_post_content sanitize_html t)

  -- The checks of `update` on the post that the caller has found: the text that is stored.
  unfoldable pub check_update : Post → PostPatch → Action (Option Text)
  unfolding check_facility has_text
  check_update post i = do
    let content = cleaned i.content
    throw_if (passes (λ t. not (has_text strip_html t)) content) Code.post_content_empty
    check_facility post i.facility_id
    pure content

-- The write of `update`, for the text that was cleaned.
unfoldable pub write_update : ℕ → PostPatch → Option Text → Action Post
write_update id i content = do
  changed ← gets λ db. count (is_there id) db.posts
  modify λ db. record db { posts = update (is_there id) (patched i content) db.posts }
  throw_if (changed == 0) Code.post_not_found
  require_row (λ db. find (has_id id) db.posts) Code.row_missing

abbrev pub gone : ℕ → Post → Post
gone now p = record p { deleted_at = some now }

unfoldable pub soft_delete : ℕ → ℕ → Action (Unit {0})
soft_delete now id = do
  changed ← gets λ db. count (is_there id) db.posts
  modify λ db. record db { posts = update (is_there id) (gone now) db.posts }
  throw_if (changed == 0) Code.post_not_found
