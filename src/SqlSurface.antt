-- ===== src/SqlSurface.antt =====
-- The mask that blanks the literals and comments of a statement (src/sqlsurface.ts). A statement is
-- the list of its code units.
pub mod Laws
pub mod Strip
pub mod Keyword
mod Tests
use instacloud_oss.Base.{
  ℕ, zero, suc, ◌+◌, ◌-◌, Bool, true, false, List, [], ◌∷◌, ◌++◌, Option, none, some, ◌&&◌, ◌||◌,
  not, if◌then◌else◌, leb, nat_eq, length, take, drop, max, contains, nat_instance,
}
use instacloud_oss.Metrics.Window.{is_space}

abbrev pub is_letter : ℕ → Bool
is_letter c = (leb b'A' c && leb c b'Z') || (leb b'a' c && leb c b'z')

abbrev pub is_ident_char : Option ℕ → Bool
is_ident_char none = false
is_ident_char (some c) =
    is_letter c || ((leb b'0' c && leb c b'9') || (nat_eq c b'_' || nat_eq c b'$'))

-- The characters before the next line break.
unfoldable pub line_length : List ℕ → ℕ
line_length [] = 0
line_length (c ∷ cs) = let rest = line_length cs in if nat_eq c 10 then 0 else suc rest

-- The rest of a block comment that is `suc depth` deep; comments nest.
unfoldable pub block_length : ℕ → List ℕ → ℕ
block_length depth [] = 0
block_length depth (c ∷ []) = 1
block_length depth (c ∷ d ∷ cs) =
    let deeper = block_length (suc depth) cs in
    let outer = block_length (depth - 1) cs in
    let next = block_length depth (d ∷ cs) in
    if nat_eq c b'/' && nat_eq d b'*'
    then 2 + deeper
    else (if nat_eq c b'*' && nat_eq d b'/'
        then (if nat_eq depth 0 then 2 else 2 + outer)
        else suc next)

-- The rest of a text in quotes, up to and with the quote that closes it; a doubled quote stays
-- inside, and so does any character after a backslash where those escape. It is one too many where
-- the statement ends in such a backslash.
unfoldable pub quoted_length : ℕ → Bool → List ℕ → ℕ
quoted_length quote escapes [] = 0
quoted_length quote escapes (c ∷ []) = if escapes && nat_eq c b'\\' then 2 else 1
quoted_length quote escapes (c ∷ d ∷ cs) =
    let skip = quoted_length quote escapes cs in
    let next = quoted_length quote escapes (d ∷ cs) in
    if escapes && nat_eq c b'\\'
    then 2 + skip
    else (if nat_eq c quote then (if nat_eq d quote then 2 + skip else 1) else suc next)

-- The tag of a dollar quote after its first `$`, with the `$` that ends it.
unfoldable pub tag_rest : List ℕ → Option (List ℕ)
tag_rest [] = none
tag_rest (c ∷ cs) =
    let rest = tag_rest cs in
    if nat_eq c b'$'
    then some (c ∷ [])
    else (if is_letter c || nat_eq c b'_'
        then elim rest [ none ↦ none | some t ↦ some (c ∷ t) ]
        else none)

unfoldable pub is_prefix : List ℕ → List ℕ → Bool
is_prefix [] ys = true
is_prefix (x ∷ xs) [] = false
is_prefix (x ∷ xs) (y ∷ ys) = nat_eq x y && is_prefix xs ys

-- `indexOf`
unfoldable pub index_of : List ℕ → List ℕ → Option ℕ
index_of xs [] = if is_prefix xs [] then some 0 else none
index_of xs (y ∷ ys) =
    let rest = index_of xs ys in
    if is_prefix xs (y ∷ ys) then some 0 else elim rest [ none ↦ none | some n ↦ some (suc n) ]

-- What one round of the loop does: it goes on after `total` characters, and blanks those from
-- `first` to before `last`.
pub record Extent : Type 0 where
  pub first : ℕ
  pub last : ℕ
  pub total : ℕ

abbrev extent : ℕ → ℕ → ℕ → Extent
extent first last total = record { first = first; last = last; total = total }

abbrev quoted : ℕ → ℕ → Bool → List ℕ → Extent
quoted start quote escapes body =
    let total = start + quoted_length quote escapes body in
    extent start (max start (total - 1)) total

abbrev dollar_body : List ℕ → List ℕ → Extent
dollar_body tag body = elim (index_of tag body) [
  | none ↦ extent (length tag) (length tag + length body) (length tag + length body)
  | some close ↦ extent (length tag) (length tag + close) (length tag + close + length tag)
]

abbrev dollar_extent : List ℕ → Extent
dollar_extent cs = elim (tag_rest cs) [
  | none ↦ extent 0 0 1
  | some t ↦ dollar_body (b'$' ∷ t) (drop (length t) cs)
]

abbrev is_escape_prefix : Option ℕ → ℕ → Bool
is_escape_prefix before c = (nat_eq c b'e' || nat_eq c b'E') && not (is_ident_char before)

-- A round at a character that no pair of characters decides.
abbrev single_extent : ℕ → List ℕ → Extent
single_extent c cs =
    if nat_eq c b'\''
    then quoted 1 b'\'' false cs
    else (if nat_eq c b'"'
        then quoted 1 b'"' false cs
        else (if nat_eq c b'$' then dollar_extent cs else extent 0 0 1))

-- The first argument is the character before.
unfoldable pub extent_at : Option ℕ → ℕ → List ℕ → Extent
extent_at before c [] = single_extent c []
extent_at before c (d ∷ cs) =
    if nat_eq c b'-' && nat_eq d b'-'
    then (let stop = line_length (c ∷ d ∷ cs) in extent 0 stop stop)
    else (if nat_eq c b'/' && nat_eq d b'*'
        then (let stop = 2 + block_length 0 cs in extent 0 stop stop)
        else (if is_escape_prefix before c && nat_eq d b'\''
            then quoted 2 b'\'' true cs
            else single_extent c (d ∷ cs)))

abbrev pub blank : ℕ → ℕ
blank c = if is_space c then c else 32

-- The first `total` characters, those from `first` to before `last` blanked.
unfoldable pub cover : ℕ → ℕ → ℕ → List ℕ → List ℕ
cover first last zero xs = []
cover first last (suc total) [] = []
cover zero zero (suc total) (x ∷ xs) = x ∷ cover zero zero total xs
cover zero (suc last) (suc total) (x ∷ xs) = blank x ∷ cover zero last total xs
cover (suc first) last (suc total) (x ∷ xs) = x ∷ cover first (last - 1) total xs

unfoldable pub last_of : Option ℕ → List ℕ → Option ℕ
last_of before [] = before
last_of before (x ∷ xs) = last_of (some x) xs

-- The loop of `maskSqlText`. Each round takes a character at least, so as many rounds as there are
-- characters are enough; without rounds the rest would be missing from the result.
unfoldable pub mask_loop : ℕ → Option ℕ → List ℕ → List ℕ
mask_loop zero before rest = []
mask_loop (suc rounds) before [] = []
mask_loop (suc rounds) before (c ∷ cs) =
    let e = extent_at before c cs in
    cover e.first e.last e.total (c ∷ cs)
    ++ mask_loop rounds (last_of before (take e.total (c ∷ cs))) (drop e.total (c ∷ cs))

unfoldable pub mask_sql_text : List ℕ → List ℕ
mask_sql_text sql = mask_loop (length sql) none sql

-- What stands before the index of `trailingTrimIndex`.
unfoldable pub trimmed : List ℕ → List ℕ
trimmed [] = []
trimmed (c ∷ cs) = elim (trimmed cs) [
  | [] ↦ if nat_eq c b';' || is_space c then [] else c ∷ []
  | d ∷ ds ↦ c ∷ d ∷ ds
]

unfoldable pub trailing_trim_index : List ℕ → ℕ
trailing_trim_index masked = length (trimmed masked)

unfoldable pub is_single_statement : List ℕ → Bool
is_single_statement masked = not (contains b';' (take (trailing_trim_index masked) masked))
