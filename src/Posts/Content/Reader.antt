-- ===== src/Posts/Content/Reader.antt =====
-- Reading a plain post back: nothing of the text is lost or taken for a tag.
use sports_erp.Prelude.{
  ℕ, zero, suc, ◌&&◌, ◌≡◌, refl, sym, ap, ◌∙◌, List, [], ◌∷◌, ◌++◌, map, false, ◌==◌, if◌then◌else◌,
  inl, inr, Bool-cases, arith,
}
use sports_erp.Store.Branches.{Text}
use sports_erp.Texts.{is_space, keep, trim, trim_end}
use sports_erp.Posts.Content.{
  wrapped, starts_tag, starts_block, sanitize_post_content, begins_line, replace, amp, lt, gt, esc,
  push, lines, p_close, paragraph, join, text_to_html,
}

abbrev first : Text → ℕ
first [] = 0
first (c ∷ t) = c

-- A reader of paragraphs, which knows the tags `<p>` and `</p>` and the three entities by the
-- character behind their first one; `skip` characters have been read with it.
unfoldable pub read : ℕ → Text → List Text
read skip [] = []
read (suc skip) (c ∷ t) = read skip t
read zero (c ∷ t) =
    let opened = read 2 t in
    let close = read 3 t in
    let named = read 4 t in
    let next = read 0 t in
    if c == 60
    then (if first t == 47 then [] ∷ close else opened)
    else if c == 38
    then (if first t == 97
        then push 38 named
        else if first t == 108
        then push 60 close
        else push 62 close)
    else push c next

-- What one character becomes.
abbrev escaped : ℕ → Text
escaped c = if c == 38 then amp else if c == 60 then lt else if c == 62 then gt else c ∷ []

-- The three replacements do not meddle with one another.
esc_each : (c : ℕ) (t : Text) → esc (c ∷ t) ≡ escaped c ++ esc t
unfolding esc replace
esc_each c t = elim (Bool-cases (c == 38)) [
  | inl a ↦ ground (arith, a)
  | inr a ↦ elim (Bool-cases (c == 60)) [
    | inl b ↦ ground (arith, a, b)
    | inr b ↦ elim (Bool-cases (c == 62)) [
      | inl d ↦ ground (arith, a, b, d)
      | inr d ↦ ground (arith, a, b, d)
    ]
  ]
]

esc_empty : esc [] ≡ []
unfolding esc
esc_empty = refl

read-escaped : (c : ℕ) (t : Text) → read 0 (escaped c ++ t) ≡ push c (read 0 t)
unfolding read
read-escaped c t = elim (Bool-cases (c == 38)) [
  | inl a ↦ ground (arith, a)
  | inr a ↦ elim (Bool-cases (c == 60)) [
    | inl b ↦ ground (arith, a, b)
    | inr b ↦ elim (Bool-cases (c == 62)) [
      | inl d ↦ ground (arith, a, b, d)
      | inr d ↦ ground (arith, a, b, d)
    ]
  ]
]

++_assoc : (xs ys zs : Text) → (xs ++ ys) ++ zs ≡ xs ++ (ys ++ zs)
++_assoc [] ys zs = refl
++_assoc (x ∷ xs) ys zs = ap (λ l. x ∷ l) (++_assoc xs ys zs)

read-line : (l rest : Text) → read 0 (esc l ++ (p_close ++ rest)) ≡ l ∷ read 0 rest
unfolding read
read-line [] rest = ap (λ t. read 0 (t ++ (p_close ++ rest))) esc_empty
read-line (c ∷ l) rest =
    ap (λ t. read 0 (t ++ (p_close ++ rest))) (esc_each c l)
    ∙ ap (read 0) (++_assoc (escaped c) (esc l) (p_close ++ rest))
    ∙ read-escaped c (esc l ++ (p_close ++ rest))
    ∙ ap (push c) (read-line l rest)

read-join : (ls : List Text) → read 0 (join (map paragraph ls)) ≡ ls
unfolding read
read-join [] = refl
read-join (l ∷ ls) =
    ap (read 0) (++_assoc (esc l) p_close (join (map paragraph ls)))
    ∙ read-line l (join (map paragraph ls))
    ∙ ap (λ t. l ∷ t) (read-join ls)

read-text_to_html : (t : Text) → read 0 (text_to_html t) ≡ lines t
unfolding text_to_html
read-text_to_html t = read-join (lines t)

-- A text that ends with no white space is not cut at its end.
kept_end : (x : ℕ) (xs : Text) (c : ℕ) → keep x (xs ++ c ∷ []) ≡ x ∷ (xs ++ c ∷ [])
unfolding keep
kept_end x [] c = refl
kept_end x (y ∷ xs) c = refl

trim_end_same : (xs : Text) (c : ℕ) → is_space c ≡ false → trim_end (xs ++ c ∷ []) ≡ xs ++ c ∷ []
unfolding trim_end
trim_end_same [] c h = ground (arith, h)
trim_end_same (x ∷ xs) c h = ap (keep x) (trim_end_same xs c h) ∙ kept_end x xs c

-- The HTML of a text starts with `<p>` and ends with `>`.
ends_tag :
    (l : Text) (ls : List Text)
    → (ys : Text) × (join (map paragraph (l ∷ ls)) ≡ 60 ∷ 112 ∷ 62 ∷ (ys ++ 62 ∷ []))
ends_tag l [] = (
  esc l ++ 60 ∷ 47 ∷ 112 ∷ [],
  ap (λ t. 60 ∷ 112 ∷ 62 ∷ t)
      (++_assoc (esc l) p_close [] ∙ sym (++_assoc (esc l) (60 ∷ 47 ∷ 112 ∷ []) (62 ∷ []))),
)
ends_tag l (m ∷ ls) =
    let (ys, e) = ends_tag m ls in
    (
      esc l ++ (p_close ++ 60 ∷ 112 ∷ 62 ∷ ys),
      ap (λ t. 60 ∷ 112 ∷ 62 ∷ t)
          (++_assoc (esc l) p_close (join (map paragraph (m ∷ ls)))
            ∙ ap (λ t. esc l ++ (p_close ++ t)) e
            ∙ sym (++_assoc (esc l) (p_close ++ 60 ∷ 112 ∷ 62 ∷ ys) (62 ∷ []))),
    )

lines_some : (t : Text) → (l : Text) × (ls : List Text) × (lines t ≡ l ∷ ls)
unfolding lines
lines_some [] = ([], [], refl)
lines_some (c ∷ t) =
    let (l, ls, e) = lines_some t in
    elim (Bool-cases (c == 10)) [
      | inl a ↦ ([], lines t, ground (arith, a))
      | inr a ↦ elim (Bool-cases (c == 13 && begins_line t)) [
        | inl b ↦ (l, ls, ground (arith, a, b, e))
        | inr b ↦ (c ∷ l, ls, ground (arith, a, b, e))
      ]
    ]

tagged_same :
    (ys : Text) → wrapped (trim (60 ∷ 112 ∷ 62 ∷ (ys ++ 62 ∷ []))) ≡ 60 ∷ 112 ∷ 62 ∷ (ys ++ 62 ∷ [])
unfolding wrapped trim starts_block
tagged_same ys = ap wrapped (trim_end_same (60 ∷ 112 ∷ 62 ∷ ys) 62 refl)

stored_same : (t : Text) → wrapped (trim (text_to_html t)) ≡ text_to_html t
unfolding text_to_html
stored_same t =
    let (l, ls, e) = lines_some t in
    let (ys, f) = ends_tag l ls in
    let html = ap (λ ts. join (map paragraph ts)) e ∙ f in
    ap (λ h. wrapped (trim h)) html ∙ tagged_same ys ∙ sym html

-- A text that does not start with a tag is stored so that a reader of paragraphs and of the three
-- entities gets its lines back, character by character, if the cleaning leaves the paragraphs as
-- they are that are made of the text.
pub sanitize_post_content_lem :
    (sanitize_html : Text → Text) (t : Text)
    → sanitize_html (text_to_html t) ≡ text_to_html t
    → starts_tag t ≡ false
    → read 0 (sanitize_post_content sanitize_html t) ≡ lines t
unfolding sanitize_post_content
sanitize_post_content_lem sanitize_html t clean plain =
    rw (plain, clean) (ap (read 0) (stored_same t) ∙ read-text_to_html t)
