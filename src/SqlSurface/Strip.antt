-- ===== src/SqlSurface/Strip.antt =====
-- The comments before a statement (`stripLeadingSqlComments` of src/sqlsurface.ts). The loop has
-- rounds as fuel, one more than there are characters, which are enough.
pub mod Cuts
pub mod Laws
use instacloud_oss.Base.{
  ℕ, zero, suc, List, [], ◌∷◌, Option, none, some, nat_instance, list_instance, ◌==◌, ◌&&◌,
  if◌then◌else◌, nat_eq, length, get_or,
}
use instacloud_oss.Metrics.Window.{trim_start, trim_end}

unfoldable pub after_line : List ℕ → List ℕ
after_line [] = []
after_line (c ∷ cs) = let rest = after_line cs in if nat_eq c 10 then cs else rest

-- `.replace(/^--[^\n]*\n?/, '')`
unfoldable pub strip_line : List ℕ → List ℕ
strip_line [] = []
strip_line (c ∷ []) = c ∷ []
strip_line (c ∷ d ∷ cs) = if nat_eq c b'-' && nat_eq d b'-' then after_line cs else c ∷ d ∷ cs

-- What follows the first `*/`.
unfoldable pub after_block : List ℕ → Option (List ℕ)
after_block [] = none
after_block (c ∷ []) = none
after_block (c ∷ d ∷ cs) =
    let rest = after_block (d ∷ cs) in if nat_eq c b'*' && nat_eq d b'/' then some cs else rest

-- `.replace(/^\/\*[\s\S]*?\*\//, '')`: a comment that is not closed stays.
unfoldable pub strip_block : List ℕ → List ℕ
strip_block [] = []
strip_block (c ∷ []) = c ∷ []
strip_block (c ∷ d ∷ cs) =
    if nat_eq c b'/' && nat_eq d b'*' then get_or (after_block cs) (c ∷ d ∷ cs) else c ∷ d ∷ cs

unfoldable pub strip_round : List ℕ → List ℕ
strip_round t = strip_block (strip_line (trim_start t))

unfoldable pub strip_loop : ℕ → List ℕ → Option (List ℕ)
strip_loop zero t = none
strip_loop (suc rounds) t =
    let again = strip_loop rounds (strip_round t) in
    if strip_round t == t then some (trim_end (trim_start t)) else again

unfoldable pub strip_leading_sql_comments : List ℕ → Option (List ℕ)
strip_leading_sql_comments sql = strip_loop (suc (length sql)) sql
