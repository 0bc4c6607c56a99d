-- ===== src/SqlSurface/Tests.antt =====
-- The mask and the stripping of comments on concrete statements.
use instacloud_oss.Base.{ℕ, ◌≡◌, refl, List, [], ◌∷◌, ◌++◌, some}
use instacloud_oss.SqlSurface.{
  mask_sql_text, mask_loop, extent_at, cover, quoted_length, line_length, block_length, last_of,
}
use instacloud_oss.GitDeploy.{units}
use instacloud_oss.Metrics.Window.{trim_start, trim_end}
use instacloud_oss.SqlSurface.Strip.{
  strip_leading_sql_comments, strip_loop, strip_round, strip_block, strip_line, after_line,
  after_block,
}
use instacloud_oss.SqlSurface.Strip.Laws.{IsStripped, strip_leading_sql_comments-IsStripped}
use instacloud_oss.SqlSurface.Keyword.{
  update, last_statement_keyword, scan, keyword_at, begins_with, last_statement_keyword-opened,
}
use instacloud_oss.SqlSurface.Laws.{IsMasked, mask_sql_text-IsMasked}

-- `s ';'--x`
abbrev statement : List ℕ
statement = b's' ∷ b' ' ∷ b'\'' ∷ b';' ∷ b'\'' ∷ b'-' ∷ b'-' ∷ b'x' ∷ []

-- `s ' '   `
abbrev masked : List ℕ
masked = b's' ∷ b' ' ∷ b'\'' ∷ b' ' ∷ b'\'' ∷ b' ' ∷ b' ' ∷ b' ' ∷ []

masks : mask_sql_text statement ≡ masked
unfolding mask_sql_text mask_loop extent_at cover quoted_length line_length last_of
masks = refl

mask_sql_text-IsMasked_example : IsMasked statement (mask_sql_text statement)
mask_sql_text-IsMasked_example = mask_sql_text-IsMasked statement

-- `/* a */ s`
abbrev commented : List ℕ
commented = units "/* a */ s"

strips : strip_leading_sql_comments commented ≡ some (units "s")
unfolding strip_leading_sql_comments strip_loop strip_round strip_block strip_line after_line
    after_block trim_start trim_end
strips = refl

-- A comment inside a comment: the stripping stops at the first end, the mask at the second.
nested :
    (strip_leading_sql_comments (units "/*/**/*/s") ≡ some (units "*/s"))
    × (mask_sql_text (units "/*/**/*/s") ≡ units "        s")
unfolding strip_leading_sql_comments strip_loop strip_round strip_block strip_line after_line
    after_block trim_start trim_end mask_sql_text mask_loop extent_at cover block_length last_of
nested = (refl, refl)

strip_leading_sql_comments-IsStripped_example :
    IsStripped commented (strip_leading_sql_comments commented)
strip_leading_sql_comments-IsStripped_example = strip_leading_sql_comments-IsStripped commented

-- The nested select does not count, the last word outside does.
last_word :
    last_statement_keyword (units "with c as (select 1) Update t set v = (select 2)") ≡ some update
unfolding last_statement_keyword scan keyword_at begins_with
last_word = refl

last_statement_keyword-opened_example :
    last_statement_keyword (units "update t set v = " ++ (b'(' ∷ units "select 2)"))
    ≡ last_statement_keyword (units "update t set v = ")
last_statement_keyword-opened_example =
    last_statement_keyword-opened (units "update t set v = ") (units "select 2)") refl refl
