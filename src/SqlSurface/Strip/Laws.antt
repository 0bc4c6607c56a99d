-- ===== src/SqlSurface/Strip/Laws.antt =====
-- What the stripping of comments leaves: every round shortens the statement, until it is bare.
use instacloud_oss.Base.{
  ℕ, zero, suc, ◌<◌, ◌≤◌, ◌≡◌, ◌≢◌, inl, inr, refl, ap, sym, ◌∙◌, subst, true, false, List, [], ◌∷◌,
  ◌++◌, Option, none, some, nat_instance, list_instance, ◌==◌, length, get_or, arith, list_same_iff,
  length-append, Bool-cases,
}
use instacloud_oss.Metrics.Window.{is_space, trim_start, trim_end}
use instacloud_oss.SqlSurface.Strip.{
  after_line, strip_line, strip_block, strip_round, strip_loop, strip_leading_sql_comments,
}
use instacloud_oss.SqlSurface.Strip.Cuts.{
  Skips, here, IsBare, Skips-trans, Skips-length, Skips-shrinks, trim_start-Skips, strip_line-Skips,
  strip_block-Skips, strip_round-Skips, after_block-cut, after_block-finds,
}

strip_round-le : (t : List ℕ) → length (strip_round t) ≤ length (trim_start t)
unfolding strip_round
strip_round-le t =
    Skips-length (
      Skips-trans (strip_line-Skips (trim_start t)) (strip_block-Skips (strip_line (trim_start t))))

trim_start-space :
    (c : ℕ) (rest : List ℕ) → is_space c ≡ true → trim_start (c ∷ rest) ≡ trim_start rest
unfolding trim_start
trim_start-space c rest w = rw w refl

round-space : (c : ℕ) (rest : List ℕ) → is_space c ≡ true → strip_round (c ∷ rest) ≢ c ∷ rest
round-space c rest w h = omega (
  arith,
  ap length h,
  strip_round-le (c ∷ rest),
  ap length (trim_start-space c rest w),
  Skips-length (trim_start-Skips rest),
)

after_line-le : (t : List ℕ) → length (after_line t) ≤ length t
unfolding after_line
after_line-le [] = omega arith
after_line-le (c ∷ cs) = ground (arith, after_line-le cs)

round-line : (rest : List ℕ) → strip_round (b'-' ∷ b'-' ∷ rest) ≢ b'-' ∷ b'-' ∷ rest
unfolding strip_round trim_start strip_line
round-line rest h =
    omega
      (arith, ap length h, Skips-length (strip_block-Skips (after_line rest)), after_line-le rest)

round-block :
    (body rest : List ℕ) → let t = b'/' ∷ b'*' ∷ (body ++ b'*' ∷ b'/' ∷ rest) in strip_round t ≢ t
unfolding strip_round trim_start strip_line strip_block
round-block body rest h =
    let cs = body ++ b'*' ∷ b'/' ∷ rest in
    let (s, k) = after_block-finds body rest in
    let (inside, cut, n) = after_block-cut cs s k in
    omega (
      arith,
      ap length (sym (ap (λ o. get_or o (b'/' ∷ b'*' ∷ cs)) k) ∙ h),
      ap length cut,
      length-append inside (b'*' ∷ b'/' ∷ s),
    )

-- Where a round changes nothing, there is nothing to strip.
round-IsBare : (t : List ℕ) → strip_round t ≡ t → IsBare t
round-IsBare t h = record {
  no_space = λ (c, rest, e, w). round-space c rest w (subst (λ x. strip_round x ≡ x) e h);
  no_line = λ (rest, e). round-line rest (subst (λ x. strip_round x ≡ x) e h);
  no_block = λ (body, rest, e). round-block body rest (subst (λ x. strip_round x ≡ x) e h);
}

IsBare-trim_start : (t : List ℕ) → IsBare t → trim_start t ≡ t
unfolding trim_start
IsBare-trim_start [] b = refl
IsBare-trim_start (c ∷ cs) b = elim (Bool-cases (is_space c)) [
  | inl e ↦ absurd (b.no_space (c, cs, refl, e))
  | inr e ↦ rw e refl
]

-- What the loop leaves: a bare text that is left of the statement by taking away white space and
-- comments from its start, without the white space at its end.
abbrev pub IsStripped : List ℕ → Option (List ℕ) → Type 0
IsStripped sql none = ⊥
IsStripped sql (some out) = (rest : List ℕ) × Skips sql rest × IsBare rest × (out ≡ trim_end rest)

further : (t s : List ℕ) (o : Option (List ℕ)) → Skips t s → IsStripped s o → IsStripped t o
further t s none e h = absurd h
further t s (some out) e (rest, f, g, k) = (rest, Skips-trans e f, g, k)

round_shortens : (t : List ℕ) → (strip_round t == t) ≡ false → length (strip_round t) < length t
round_shortens t e = elim (Skips-shrinks (strip_round-Skips t)) [
  | inl same ↦ absurd (ground (arith, e, same, list_same_iff (strip_round t) t))
  | inr less ↦ less
]

strip_loop-IsStripped :
    (rounds : ℕ) (t : List ℕ) → length t < rounds → IsStripped t (strip_loop rounds t)
unfolding strip_loop
strip_loop-IsStripped zero t h = absurd (omega arith)
strip_loop-IsStripped (suc rounds) t h = elim (Bool-cases (strip_round t == t)) [
  | inl e ↦
      let bare = round-IsBare t ((list_same_iff (strip_round t) t).0 e) in
      rw (e, strip_loop) (t, here refl, bare, ap trim_end (IsBare-trim_start t bare))
  | inr e ↦
      rw (e, strip_loop)
        (further t (strip_round t) (strip_loop rounds (strip_round t)) (strip_round-Skips t)
          (strip_loop-IsStripped rounds (strip_round t) (omega (arith, h, round_shortens t e))))
]

-- The stripping ends for every statement. It takes away white space, comments to the end of a line
-- and comments to the first `*/`, each from the start of what is left, and nothing else but the white
-- space at the end; what is left then begins with no white space and with no such comment.
pub strip_leading_sql_comments-IsStripped :
    (sql : List ℕ) → IsStripped sql (strip_leading_sql_comments sql)
unfolding strip_leading_sql_comments
strip_leading_sql_comments-IsStripped sql =
    strip_loop-IsStripped (suc (length sql)) sql (omega arith)
