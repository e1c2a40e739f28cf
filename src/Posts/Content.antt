-- ===== src/Posts/Content.antt =====
-- modules/posts/post-content.ts: what is stored of the text of a post. The library that cleans HTML
-- is a parameter of `sanitize_post_content` and of `has_text`; texts are code points.
pub mod Reader
use sports_erp.Prelude.{
  ℕ, zero, suc, List, [], ◌∷◌, ◌++◌, map, Bool, true, false, not, ◌&&◌, ◌||◌, ◌==◌, leb,
  if◌then◌else◌, exists, ◌+◌,
}
use sports_erp.Store.Branches.{Text}
use sports_erp.Texts.{is_space, trim, is_empty}

-- Every occurrence of a character becomes a text: `replace(/c/g, text)`.
unfoldable pub replace : ℕ → Text → Text → Text
replace c by [] = []
replace c by (d ∷ t) = if d == c then by ++ replace c by t else d ∷ replace c by t

abbrev pub amp : Text
amp = 38 ∷ 97 ∷ 109 ∷ 112 ∷ 59 ∷ []

abbrev pub lt : Text
lt = 38 ∷ 108 ∷ 116 ∷ 59 ∷ []

abbrev pub gt : Text
gt = 38 ∷ 103 ∷ 116 ∷ 59 ∷ []

-- `&` is 38, `<` is 60 and `>` is 62.
unfoldable pub esc : Text → Text
unfolding replace
esc t = replace 62 gt (replace 60 lt (replace 38 amp t))

abbrev pub push : ℕ → List Text → List Text
push c [] = (c ∷ []) ∷ []
push c (l ∷ ls) = (c ∷ l) ∷ ls

abbrev pub begins_line : Text → Bool
begins_line [] = false
begins_line (c ∷ t) = c == 10

-- `split(/\r?\n/)`: the return before a line feed goes with it.
unfoldable pub lines : Text → List Text
lines [] = [] ∷ []
lines (c ∷ t) =
    let rest = lines t in
    if c == 10 then [] ∷ rest else if c == 13 && begins_line t then rest else push c rest

abbrev pub p_open : Text
p_open = 60 ∷ 112 ∷ 62 ∷ []

abbrev pub p_close : Text
p_close = 60 ∷ 47 ∷ 112 ∷ 62 ∷ []

abbrev pub paragraph : Text → Text
paragraph l = p_open ++ (esc l ++ p_close)

-- `join('')`
abbrev pub join : List Text → Text
join [] = []
join (t ∷ ts) = t ++ join ts

-- `textToHtml`
unfoldable pub text_to_html : Text → Text
unfolding esc lines
text_to_html t = join (map paragraph (lines t))

abbrev pub starts_with : Text → Text → Bool
starts_with [] t = true
starts_with (c ∷ s) [] = false
starts_with (c ∷ s) (d ∷ t) = c == d && starts_with s t

-- `/^\s*</`
unfoldable pub starts_tag : Text → Bool
unfolding is_space
starts_tag [] = false
starts_tag (c ∷ t) = c == 60 || (is_space c && starts_tag t)

-- The letters that the flag `i` takes for small ones.
abbrev pub lower : ℕ → ℕ
lower c = if leb 65 c && leb c 90 then c + 32 else c

abbrev pub ends_name : Text → Bool
ends_name [] = false
ends_name (c ∷ t) = is_space c || (c == 47 || c == 62)

-- What comes behind a name, if the text starts with it.
abbrev pub is_tag : Text → Text → Bool
is_tag [] t = ends_name t
is_tag (c ∷ s) [] = false
is_tag (c ∷ s) (d ∷ t) = c == lower d && is_tag s t

-- p, h2, h3, ul, ol, blockquote, hr and pre
abbrev pub block_tags : List Text
block_tags =
    (112 ∷ [])
    ∷ (104 ∷ 50 ∷ [])
    ∷ (104 ∷ 51 ∷ [])
    ∷ (117 ∷ 108 ∷ [])
    ∷ (111 ∷ 108 ∷ [])
    ∷ (98 ∷ 108 ∷ 111 ∷ 99 ∷ 107 ∷ 113 ∷ 117 ∷ 111 ∷ 116 ∷ 101 ∷ [])
    ∷ (104 ∷ 114 ∷ [])
    ∷ (112 ∷ 114 ∷ 101 ∷ [])
    ∷ []

-- `/^<(p|h2|h3|ul|ol|blockquote|hr|pre)[\s>/]/i`
unfoldable pub starts_block : Text → Bool
unfolding is_space
starts_block [] = false
starts_block (c ∷ t) = c == 60 && exists (λ s. is_tag s t) block_tags

unfoldable pub wrapped : Text → Text
unfolding starts_block
wrapped t = if is_empty t || starts_block t then t else p_open ++ (t ++ p_close)

-- `sanitizePostContent`
unfoldable pub sanitize_post_content : (Text → Text) → Text → Text
unfolding text_to_html starts_tag wrapped trim
sanitize_post_content sanitize_html input =
    wrapped (trim (sanitize_html (if starts_tag input then input else text_to_html input)))

abbrev pub nbsp : Text
nbsp = 38 ∷ 110 ∷ 98 ∷ 115 ∷ 112 ∷ 59 ∷ []

-- `replace(/&nbsp;/g, ' ')`, where `skip` characters belong to an entity that has been replaced.
unfoldable pub spaced : ℕ → Text → Text
spaced skip [] = []
spaced zero (c ∷ t) =
    let rest = spaced 5 t in
    let next = spaced 0 t in if starts_with nbsp (c ∷ t) then 32 ∷ rest else c ∷ next
spaced (suc skip) (c ∷ t) = spaced skip t

-- `hasText`, with the cleaning that takes away every tag.
unfoldable pub has_text : (Text → Text) → Text → Bool
unfolding spaced trim
has_text strip_html html = not (is_empty (trim (spaced 0 (strip_html html))))
