-- ===== src/SqlSurface/Strip/Cuts.antt =====
-- What one round of the stripping takes away from the start of a statement.
use instacloud_oss.Base.{
  ℕ, ◌<◌, ◌≤◌, ◌≡◌, ◌⊎◌, inl, inr, refl, ap, sym, subst, Bool, true, false, List, [], ◌∷◌, ◌++◌,
  some, nat_instance, list_instance, ◌&&◌, ◌||◌, nat_eq, length, any, arith, length-append,
  Bool-cases, Option-cases,
}
use instacloud_oss.Metrics.Window.{is_space, trim_start}
use instacloud_oss.SqlSurface.Strip.{after_line, strip_line, after_block, strip_block, strip_round}

abbrev newline : ℕ
newline = 10

-- Whether `*/` stands in a text.
abbrev pub closes : List ℕ → Bool
closes [] = false
closes (c ∷ []) = false
closes (c ∷ d ∷ cs) = (nat_eq c b'*' && nat_eq d b'/') || closes (d ∷ cs)

-- The second text is left of the first by taking away white space, comments to the end of a line,
-- and comments to the first `*/`, each from its start.
pub data Skips : List ℕ → List ℕ → Type 0 where
  here : {t s : List ℕ} → t ≡ s → Skips t s
  white :
      {t s : List ℕ} (c : ℕ) (rest : List ℕ)
      → t ≡ c ∷ rest
      → is_space c ≡ true
      → Skips rest s
      → Skips t s
  line :
      {t s : List ℕ} (body rest : List ℕ)
      → t ≡ b'-' ∷ b'-' ∷ (body ++ newline ∷ rest)
      → any (nat_eq newline) body ≡ false
      → Skips rest s
      → Skips t s
  last_line :
      {t s : List ℕ} (body : List ℕ)
      → t ≡ b'-' ∷ b'-' ∷ body
      → any (nat_eq newline) body ≡ false
      → Skips [] s
      → Skips t s
  block :
      {t s : List ℕ} (body rest : List ℕ)
      → t ≡ b'/' ∷ b'*' ∷ (body ++ b'*' ∷ b'/' ∷ rest)
      → closes (body ++ b'*' ∷ []) ≡ false
      → Skips rest s
      → Skips t s

-- A text that begins with no white space and with no comment, where one in `/*` counts if `*/`
-- follows anywhere.
pub record IsBare (t : List ℕ) : Type 0 where
  pub no_space : ¬ ((c : ℕ) × (rest : List ℕ) × (t ≡ c ∷ rest) × (is_space c ≡ true))
  pub no_line : ¬ ((rest : List ℕ) × (t ≡ b'-' ∷ b'-' ∷ rest))
  pub no_block :
      ¬ ((body : List ℕ) × (rest : List ℕ) × (t ≡ b'/' ∷ b'*' ∷ (body ++ b'*' ∷ b'/' ∷ rest)))

pub Skips-trans : {t s r : List ℕ} → Skips t s → Skips s r → Skips t r
Skips-trans {r} (here e) q = subst (λ x. Skips x r) (sym e) q
Skips-trans (white c rest e w p) q = white c rest e w (Skips-trans p q)
Skips-trans (line body rest e n p) q = line body rest e n (Skips-trans p q)
Skips-trans (last_line body e n p) q = last_line body e n (Skips-trans p q)
Skips-trans (block body rest e n p) q = block body rest e n (Skips-trans p q)

pub Skips-length : {t s : List ℕ} → Skips t s → length s ≤ length t
Skips-length (here e) = omega (arith, ap length e)
Skips-length (white c rest e w p) = omega (arith, ap length e, Skips-length p)
Skips-length (line body rest e n p) =
    omega (arith, ap length e, length-append body (newline ∷ rest), Skips-length p)
Skips-length (last_line body e n p) = omega (arith, ap length e, Skips-length p)
Skips-length (block body rest e n p) =
    omega (arith, ap length e, length-append body (b'*' ∷ b'/' ∷ rest), Skips-length p)

-- Whatever takes something away leaves a shorter text.
pub Skips-shrinks : {t s : List ℕ} → Skips t s → (t ≡ s) ⊎ (length s < length t)
Skips-shrinks (here e) = inl e
Skips-shrinks (white c rest e w p) = inr (omega (arith, ap length e, Skips-length p))
Skips-shrinks (line body rest e n p) =
    inr (omega (arith, ap length e, length-append body (newline ∷ rest), Skips-length p))
Skips-shrinks (last_line body e n p) = inr (omega (arith, ap length e, Skips-length p))
Skips-shrinks (block body rest e n p) =
    inr (omega (arith, ap length e, length-append body (b'*' ∷ b'/' ∷ rest), Skips-length p))

pub trim_start-Skips : (t : List ℕ) → Skips t (trim_start t)
unfolding trim_start
trim_start-Skips [] = here refl
trim_start-Skips (c ∷ cs) = elim (Bool-cases (is_space c)) [
  | inl e ↦ rw e (white c cs refl e (trim_start-Skips cs))
  | inr e ↦ rw e (here refl)
]

-- A line ends at its newline or with the text.
after_line-cut :
    (t : List ℕ)
    → (body : List ℕ) × (any (nat_eq newline) body ≡ false)
      × ((t ≡ body ++ newline ∷ after_line t) ⊎ (t ≡ body) × (after_line t ≡ []))
unfolding after_line
after_line-cut [] = ([], refl, inr (refl, refl))
after_line-cut (c ∷ cs) = elim (Bool-cases (nat_eq c newline)) [
  | inl e ↦ rw e ([], refl, inl (ground (arith, e)))
  | inr e ↦
      let (body, n, k) = after_line-cut cs in
      rw e (
        c ∷ body,
        ground (arith, e, n),
        elim k [ inl f ↦ inl (ap (λ x. c ∷ x) f) | inr (f, g) ↦ inr (ap (λ x. c ∷ x) f, g) ],
      )
]

pub strip_line-Skips : (t : List ℕ) → Skips t (strip_line t)
unfolding strip_line
strip_line-Skips [] = here refl
strip_line-Skips (c ∷ []) = here refl
strip_line-Skips (c ∷ d ∷ cs) = elim (Bool-cases (nat_eq c b'-' && nat_eq d b'-')) [
  | inr e ↦ rw e (here refl)
  | inl e ↦
      let (body, n, k) = after_line-cut cs in
      rw e (elim k [
        | inl f ↦ line body (after_line cs) (ground (arith, e, f)) n (here refl)
        | inr (f, g) ↦ last_line body (ground (arith, e, f)) n (here (sym g))
      ])
]

closes-longer :
    (c d : ℕ) (cs body s : List ℕ)
    → (nat_eq c b'*' && nat_eq d b'/') ≡ false
    → d ∷ cs ≡ body ++ b'*' ∷ b'/' ∷ s
    → closes (body ++ b'*' ∷ []) ≡ false
    → closes (c ∷ (body ++ b'*' ∷ [])) ≡ false
closes-longer c d cs [] s e k n = ground (arith, e, k, n)
closes-longer c d cs (b ∷ body) s e k n = ground (arith, e, k, n)

pub after_block-cut :
    (t s : List ℕ)
    → after_block t ≡ some s
    → (body : List ℕ) × (t ≡ body ++ b'*' ∷ b'/' ∷ s) × (closes (body ++ b'*' ∷ []) ≡ false)
unfolding after_block
after_block-cut [] s h = cc
after_block-cut (c ∷ []) s h = cc
after_block-cut (c ∷ d ∷ cs) s h = elim (Bool-cases (nat_eq c b'*' && nat_eq d b'/')) [
  | inl e ↦ ([], ground (arith, e, h), refl)
  | inr e ↦
      let (body, k, n) = after_block-cut (d ∷ cs) s (ground (arith, e, h)) in
      (c ∷ body, ap (λ x. c ∷ x) k, closes-longer c d cs body s e k n)
]

pub after_block-finds :
    (body rest : List ℕ) → (s : List ℕ) × (after_block (body ++ b'*' ∷ b'/' ∷ rest) ≡ some s)
unfolding after_block
after_block-finds [] rest = (rest, refl)
after_block-finds (c ∷ []) rest = elim (Bool-cases (nat_eq c b'*' && nat_eq b'*' b'/')) [
  | inl e ↦ absurd (ground (arith, e))
  | inr e ↦ (rest, ground (arith, e))
]
after_block-finds (c ∷ d ∷ body) rest =
    let (s, k) = after_block-finds (d ∷ body) rest in
    elim (Bool-cases (nat_eq c b'*' && nat_eq d b'/')) [
      | inl e ↦ (body ++ b'*' ∷ b'/' ∷ rest, rw e refl)
      | inr e ↦ (s, rw e k)
    ]

pub strip_block-Skips : (t : List ℕ) → Skips t (strip_block t)
unfolding strip_block
strip_block-Skips [] = here refl
strip_block-Skips (c ∷ []) = here refl
strip_block-Skips (c ∷ d ∷ cs) = elim (Bool-cases (nat_eq c b'/' && nat_eq d b'*')) [
  | inr e ↦ rw e (here refl)
  | inl e ↦ elim (Option-cases (after_block cs)) [
    | inl f ↦ rw (e, f) (here refl)
    | inr (s, f) ↦
        let (body, k, n) = after_block-cut cs s f in
        rw (e, f) (block body s (ground (arith, e, k)) n (here refl))
  ]
]

pub strip_round-Skips : (t : List ℕ) → Skips t (strip_round t)
unfolding strip_round
strip_round-Skips t =
    Skips-trans (trim_start-Skips t) (
      Skips-trans (strip_line-Skips (trim_start t)) (strip_block-Skips (strip_line (trim_start t))))
