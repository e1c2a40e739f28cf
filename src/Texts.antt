-- ===== src/Texts.antt =====
-- What the services do to texts that they take apart: `trim` of ECMAScript, over code points.
use sports_erp.Prelude.{ℕ, [], ◌∷◌, Bool, true, false, ◌||◌, ◌&&◌, ◌==◌, leb, if◌then◌else◌}
use sports_erp.Store.Branches.{Text}

-- WhiteSpace and LineTerminator.
unfoldable pub is_space : ℕ → Bool
is_space c =
    (leb 9 c && leb c 13)
    || (c == 32
        || (c == 160
            || (c == 5760
                || ((leb 8192 c && leb c 8202)
                    || (c == 8232
                        || (c == 8233
                            || (c == 8239 || (c == 8287 || (c == 12288 || c == 65279)))))))))

unfoldable pub trim_start : Text → Text
trim_start [] = []
trim_start (c ∷ t) = if is_space c then trim_start t else c ∷ t

-- A character stays if one stays behind it, or it is no white space.
unfoldable pub keep : ℕ → Text → Text
keep c [] = if is_space c then [] else c ∷ []
keep c (d ∷ t) = c ∷ d ∷ t

unfoldable pub trim_end : Text → Text
unfolding keep
trim_end [] = []
trim_end (c ∷ t) = keep c (trim_end t)

unfoldable pub trim : Text → Text
unfolding trim_start trim_end is_space
trim t = trim_end (trim_start t)

abbrev pub is_empty : Text → Bool
is_empty [] = true
is_empty (c ∷ t) = false
