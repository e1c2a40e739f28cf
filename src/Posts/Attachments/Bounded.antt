-- ===== src/Posts/Attachments/Bounded.antt =====
-- How many files a post has, and how large they are.
use sports_erp.Prelude.{
  ℕ, ◌≤◌, ◌≡◌, ◌⊎◌, refl, subst, Option, none, some, List, [], ◌∷◌, ◌++◌, Bool, false, not, ◌&&◌,
  ◌==◌, ltb, leb, inl, inr, Bool-cases, Option-cases, count, remove, find, or_else, count-append,
  All, All-append, All-remove, arith,
}
use sports_erp.Store.{Db}
use sports_erp.Store.Errors.{ok}
use sports_erp.Store.Branches.{Text}
use sports_erp.Store.Operations.{Attachment}
use sports_erp.Access.{RequestUser}
use sports_erp.Texts.{trim}
use sports_erp.Posts.{find_visible, is_visible, is_there, is_head_office}
use sports_erp.Posts.Attachments.{
  before_semicolon, of_post, StoredObjectInfo, Verified, check_stored, attach, attach_body,
  new_attachment, remove_attachment,
}
use sports_erp.Posts.Attachments.Rules.{
  is_allowed, check_type, attachment_max_bytes, attachments_per_post,
}

-- The storage was asked at any time before.
pub data Step : Db → Db → Type 0 where
  attaches :
      (new post : ℕ) (path name ext : Text) (info : Option StoredObjectInfo) (v : Verified)
      (seen db : Db)
      → check_stored ext info seen ≡ (ok v, seen)
      → Step db (attach new post path name v db).1
  removes :
      (post id : ℕ) (user : RequestUser) (db : Db) → Step db (remove_attachment post id user db).1

pub data Reach (start : Db) : Db → Type 0 where
  begin : Reach start start
  step : (db db' : Db) → Reach start db → Step db db' → Reach start db'

abbrev pub IsSmall : Attachment → Type 0
IsSmall a = a.file_size ≤ attachment_max_bytes

-- No post has more than five files, and no file is larger than ten megabytes.
pub record IsBounded (db : Db) : Type 0 where
  pub few : (post : ℕ) → count (of_post post) db.attachments ≤ attachments_per_post
  pub small : All IsSmall db.attachments

stored-IsSmall :
    (ext : Text) (info : Option StoredObjectInfo) (v : Verified) (seen : Db)
    → check_stored ext info seen ≡ (ok v, seen)
    → v.file_size ≤ attachment_max_bytes
unfolding check_stored check_type
stored-IsSmall ext none v seen h = absurd (ground arith)
stored-IsSmall ext (some info) v seen h = elim (Bool-cases (ltb attachment_max_bytes info.size)) [
  | inl t ↦ absurd (ground (arith, h, t))
  | inr f ↦
      elim (Bool-cases (is_allowed ext (trim (before_semicolon (or_else info.content_type []))))) [
        | inr g ↦ absurd (ground (arith, h, f, g))
        | inl t ↦
            let same : v.file_size ≡ info.size = ground (arith, h, f, t) in ground (arith, f, same)
      ]
]

count-remove : (p q : Attachment → Bool) (xs : List Attachment) → count p (remove q xs) ≤ count p xs
count-remove p q [] = omega arith
count-remove p q (x ∷ xs) = ground (arith, count-remove p q xs)

attach_frame :
    (new post : ℕ) (path name : Text) (v : Verified) (db : Db)
    → ((attach new post path name v db).1.attachments ≡ db.attachments)
      ⊎ (((attach new post path name v db).1.attachments
            ≡ db.attachments ++ new_attachment new post path name v ∷ [])
          × (leb attachments_per_post (count (of_post post) db.attachments) ≡ false))
unfolding attach attach_body
attach_frame new post path name v db = ground arith

remove_frame :
    (post id : ℕ) (user : RequestUser) (db : Db)
    → ((remove_attachment post id user db).1.attachments ≡ db.attachments)
      ⊎ ((k : ℕ) × ((remove_attachment post id user db).1.attachments
            ≡ remove (λ a. a.id == k) db.attachments))
unfolding remove_attachment find_visible
remove_frame post id user db =
    elim (Option-cases (find (λ p. is_there post p && is_visible user p) db.posts)) [
      | inl n ↦ inl (ground (arith, n))
      | inr (p, e) ↦
          elim (Bool-cases
            (not (p.author_id == user.account_id) && not (is_head_office user.role))) [
              | inl t ↦ inl (ground (arith, e, t))
              | inr f ↦
                  elim (Option-cases (find (λ a. a.id == id && a.post_id == post) db.attachments)) [
                    | inl n ↦ inl (ground (arith, e, f, n))
                    | inr (a, m) ↦ inr (a.id, ground (arith, e, f, m))
                  ]
            ]
    ]

attached-few :
    (post : ℕ) (a : Attachment) (rows : List Attachment)
    → ((k : ℕ) → count (of_post k) rows ≤ attachments_per_post)
    → a.post_id ≡ post
    → leb attachments_per_post (count (of_post post) rows) ≡ false
    → (k : ℕ) → count (of_post k) (rows ++ a ∷ []) ≤ attachments_per_post
attached-few post a rows h e room k = elim (Bool-cases (a.post_id == k)) [
  | inr f ↦ ground (arith, f, h k, count-append (of_post k) rows (a ∷ []))
  | inl t ↦
      let same : post ≡ k = ground (arith, t, e) in
      let room' =
        subst (λ j. leb attachments_per_post (count (of_post j) rows) ≡ false) same room in
      ground (arith, t, room', count-append (of_post k) rows (a ∷ []))
]

Step-IsBounded : {db db' : Db} → Step db db' → IsBounded db → IsBounded db'
Step-IsBounded (attaches new post path name ext info v seen db h) b =
    elim (attach_frame new post path name v db) [
      | inl same ↦ record { few = λ k. rw same (b.few k); small = rw same b.small }
      | inr (more, room) ↦
          let a = new_attachment new post path name v in
          record {
            few = λ k. rw more (attached-few post a db.attachments b.few refl room k);
            small = rw more (
                All-append IsSmall db.attachments (a ∷ []) b.small
                  (stored-IsSmall ext info v seen h, tt));
          }
    ]
Step-IsBounded (removes post id user db) b = elim (remove_frame post id user db) [
  | inl same ↦ record { few = λ k. rw same (b.few k); small = rw same b.small }
  | inr (i, less) ↦ record {
    few = λ k.
        let fewer = count-remove (of_post k) (λ a. a.id == i) db.attachments in
        rw less (omega (arith, fewer, b.few k));
    small = rw less (All-remove IsSmall (λ a. a.id == i) db.attachments b.small);
  }
]

-- If it is so at first, then after any sequence of attachments of files whose checks were made at
-- any time and of removals no post has more than five files, and no file is larger than ten
-- megabytes.
pub Reach-IsBounded : (start db : Db) → IsBounded start → Reach start db → IsBounded db
Reach-IsBounded start _ b begin = b
Reach-IsBounded start _ b (step db db' r s) = Step-IsBounded s (Reach-IsBounded start db b r)
