-- ===== src/SqlSurface/Keyword.antt =====
-- The last keyword of a statement outside parentheses (`lastStatementKeyword` of src/sqlsurface.ts).
-- The code finds words with an expression that ends after each; since a word has word characters
-- only, looking at every place with its character before finds the same ones.
use instacloud_oss.Base.{
  all, ℕ, suc, ◌+◌, ◌-◌, ◌≡◌, refl, ap, ◌∙◌, Bool, true, false, List, [], ◌∷◌, ◌++◌, Option, none,
  some, ◌&&◌, ◌||◌, not, if◌then◌else◌, ltb, leb, nat_eq, arith, Bool-cases, inl, inr,
}
use instacloud_oss.GitDeploy.{units}
use instacloud_oss.SqlSurface.{is_letter}

pub data Keyword : Type 0 where
  select insert update delete : Keyword

-- `\w`
abbrev is_word_char : ℕ → Bool
is_word_char c = is_letter c || ((leb b'0' c && leb c b'9') || nat_eq c b'_')

abbrev is_word : Option ℕ → Bool
is_word none = false
is_word (some c) = is_word_char c

abbrev word_ends : List ℕ → Bool
word_ends [] = true
word_ends (c ∷ cs) = not (is_word_char c)

-- Whether a text begins with a word of small letters, in either case, that ends there.
unfoldable pub begins_with : List ℕ → List ℕ → Bool
begins_with [] cs = word_ends cs
begins_with (p ∷ ps) [] = false
begins_with (p ∷ ps) (c ∷ cs) = (nat_eq c p || nat_eq (c + 32) p) && begins_with ps cs

unfoldable pub keyword_at : List ℕ → Option Keyword
keyword_at cs =
    if begins_with (units "select") cs
    then some select
    else (if begins_with (units "insert") cs
        then some insert
        else (if begins_with (units "update") cs
            then some update
            else (if begins_with (units "delete") cs then some delete else none)))

abbrev pub next_depth : ℕ → ℕ → ℕ
next_depth c depth =
    if nat_eq c b'(' then suc depth else (if nat_eq c b')' then depth - 1 else depth)

abbrev or_last : Option Keyword → Option Keyword → Option Keyword
or_last none last = last
or_last (some k) last = some k

-- A word counts only outside parentheses and where no word goes on.
abbrev next_last : Option ℕ → ℕ → List ℕ → Option Keyword → Option Keyword
next_last before depth cs last =
    if is_word before || ltb 0 depth then last else or_last (keyword_at cs) last

unfoldable pub scan : Option ℕ → ℕ → Option Keyword → List ℕ → Option Keyword
scan before depth last [] = last
scan before depth last (c ∷ cs) =
    scan (some c) (next_depth c depth) (next_last before depth (c ∷ cs) last) cs

unfoldable pub last_statement_keyword : List ℕ → Option Keyword
last_statement_keyword masked = scan none 0 none masked

-- Every character of the text stands inside parentheses that were open before it.
abbrev pub stays_inside : ℕ → List ℕ → Bool
stays_inside depth [] = true
stays_inside depth (c ∷ cs) = ltb 0 depth && stays_inside (next_depth c depth) cs

-- The words of a text inside parentheses do not count.
scan-inside :
    (before : Option ℕ) (depth : ℕ) (last : Option Keyword) (cs : List ℕ)
    → stays_inside depth cs ≡ true
    → scan before depth last cs ≡ last
unfolding scan
scan-inside before depth last [] h = refl
scan-inside before depth last (c ∷ cs) h = elim (Bool-cases (is_word before || ltb 0 depth)) [
  | inl e ↦ rw e (scan-inside (some c) (next_depth c depth) last cs (ground (arith, h)))
  | inr e ↦ absurd (ground (arith, e, h))
]

-- How deep a text ends, and the character before what follows it.
abbrev pub depth_after : ℕ → List ℕ → ℕ
depth_after depth [] = depth
depth_after depth (c ∷ cs) = depth_after (next_depth c depth) cs

abbrev end_char : Option ℕ → List ℕ → Option ℕ
end_char before [] = before
end_char before (c ∷ cs) = end_char (some c) cs

-- A parenthesis that opens, and the text inside it, change nothing.
scan-opened :
    (before : Option ℕ) (last : Option Keyword) (inside : List ℕ)
    → stays_inside 1 inside ≡ true
    → scan before 0 last (b'(' ∷ inside) ≡ last
unfolding scan keyword_at begins_with
scan-opened before last inside h = elim (Bool-cases (is_word before)) [
  | inl e ↦ rw e (scan-inside (some b'(') 1 last inside h)
  | inr e ↦ rw e (scan-inside (some b'(') 1 last inside h)
]

-- A parenthesis ends a word as the end of the text does.
begins_with-opened :
    (ps cs rest : List ℕ)
    → all (λ p. leb b'a' p) ps ≡ true
    → begins_with ps (cs ++ (b'(' ∷ rest)) ≡ begins_with ps cs
unfolding begins_with
begins_with-opened [] [] rest h = refl
begins_with-opened [] (c ∷ cs) rest h = refl
begins_with-opened (p ∷ ps) [] rest h = ground (arith, h)
begins_with-opened (p ∷ ps) (c ∷ cs) rest h = ground (arith, h, begins_with-opened ps cs rest)

keyword_at-opened : (cs rest : List ℕ) → keyword_at (cs ++ (b'(' ∷ rest)) ≡ keyword_at cs
unfolding keyword_at
keyword_at-opened cs rest = ground (
  arith,
  begins_with-opened (units "select") cs rest refl,
  begins_with-opened (units "insert") cs rest refl,
  begins_with-opened (units "update") cs rest refl,
  begins_with-opened (units "delete") cs rest refl,
)

scan-append :
    (before : Option ℕ) (depth : ℕ) (last : Option Keyword) (cs rest : List ℕ)
    → scan before depth last (cs ++ (b'(' ∷ rest))
      ≡ scan (end_char before cs) (depth_after depth cs) (scan before depth last cs) (b'(' ∷ rest)
unfolding scan
scan-append before depth last [] rest = refl
scan-append before depth last (c ∷ cs) rest =
    ap
      (λ k.
        scan (some c) (next_depth c depth)
          (if is_word before || ltb 0 depth then last else or_last k last) (cs ++ (b'(' ∷ rest)))
      (keyword_at-opened (c ∷ cs) rest)
    ∙ scan-append (some c) (next_depth c depth) (next_last before depth (c ∷ cs) last) cs rest

-- The keyword of a statement whose parentheses are closed stays the same when it is followed by a
-- parenthesis and any text inside it.
pub last_statement_keyword-opened :
    (statement inside : List ℕ)
    → depth_after 0 statement ≡ 0
    → stays_inside 1 inside ≡ true
    → last_statement_keyword (statement ++ (b'(' ∷ inside)) ≡ last_statement_keyword statement
unfolding last_statement_keyword
last_statement_keyword-opened statement inside d h =
    scan-append none 0 none statement inside
    ∙ (ap (λ n. scan (end_char none statement) n (scan none 0 none statement) (b'(' ∷ inside)) d
        ∙ scan-opened (end_char none statement) (scan none 0 none statement) inside h)
