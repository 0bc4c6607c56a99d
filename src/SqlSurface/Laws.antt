-- ===== src/SqlSurface/Laws.antt =====
-- What the mask may change of a statement.
use instacloud_oss.Base.{
  ℕ, zero, suc, ◌-◌, ◌≡◌, ◌≤◌, ◌<◌, ◌⊎◌, refl, subst, true, false, List, [], ◌∷◌, ◌++◌, Option,
  none, ◌&&◌, nat_eq, length, take, drop, arith, Bool-cases, Option-cases, inl, inr, length-drop,
  take-append-drop,
}
use instacloud_oss.Metrics.Window.{is_space}
use instacloud_oss.SqlSurface.{
  line_length, extent_at, blank, cover, mask_loop, mask_sql_text, last_of, tag_rest, single_extent,
  dollar_extent, dollar_body, is_escape_prefix,
}

-- The second text is the first with characters blanked that are no white space; every character
-- keeps its place.
abbrev pub IsMasked : List ℕ → List ℕ → Type 0
IsMasked [] [] = Unit
IsMasked [] (y ∷ ys) = ⊥
IsMasked (x ∷ xs) [] = ⊥
IsMasked (x ∷ xs) (y ∷ ys) = ((y ≡ x) ⊎ (is_space x ≡ false) × (y ≡ 32)) × IsMasked xs ys

append-IsMasked :
    (xs ys us vs : List ℕ) → IsMasked xs ys → IsMasked us vs → IsMasked (xs ++ us) (ys ++ vs)
append-IsMasked [] [] us vs h k = k
append-IsMasked [] (y ∷ ys) us vs h k = absurd h
append-IsMasked (x ∷ xs) [] us vs h k = absurd h
append-IsMasked (x ∷ xs) (y ∷ ys) us vs (h, hs) k = (h, append-IsMasked xs ys us vs hs k)

blank_lem : (x : ℕ) → (blank x ≡ x) ⊎ (is_space x ≡ false) × (blank x ≡ 32)
blank_lem x = elim (Bool-cases (is_space x)) [
  | inl e ↦ inl (rw e refl)
  | inr e ↦ inr (e, rw e refl)
]

cover-IsMasked :
    (first last total : ℕ) (xs : List ℕ) → IsMasked (take total xs) (cover first last total xs)
unfolding cover
cover-IsMasked first last zero xs = tt
cover-IsMasked first last (suc total) [] = tt
cover-IsMasked zero zero (suc total) (x ∷ xs) = (inl refl, cover-IsMasked zero zero total xs)
cover-IsMasked zero (suc last) (suc total) (x ∷ xs) =
    (blank_lem x, cover-IsMasked zero last total xs)
cover-IsMasked (suc first) last (suc total) (x ∷ xs) =
    (inl refl, cover-IsMasked first (last - 1) total xs)

dollar_body_total : (t body : List ℕ) → 0 < (dollar_body (b'$' ∷ t) body).total
dollar_body_total t body = ground arith

dollar_extent_total : (cs : List ℕ) → 0 < (dollar_extent cs).total
dollar_extent_total cs = elim (Option-cases (tag_rest cs)) [
  | inl e ↦ rw (e, dollar_extent) (omega arith)
  | inr (t, e) ↦ rw (e, dollar_extent) (dollar_body_total t (drop (length t) cs))
]

single_extent_total : (c : ℕ) (cs : List ℕ) → 0 < (single_extent c cs).total
single_extent_total c cs = elim (Bool-cases (nat_eq c b'\'')) [
  | inl e ↦ rw e (omega arith)
  | inr e ↦ elim (Bool-cases (nat_eq c b'"')) [
    | inl f ↦ rw (e, f) (omega arith)
    | inr f ↦ elim (Bool-cases (nat_eq c b'$')) [
      | inl g ↦ rw (e, f, g) (dollar_extent_total cs)
      | inr g ↦ rw (e, f, g) (omega arith)
    ]
  ]
]

line_length-positive :
    (c d : ℕ) (cs : List ℕ) → (nat_eq c b'-' && nat_eq d b'-') ≡ true → 0 < line_length (c ∷ d ∷ cs)
unfolding line_length
line_length-positive c d cs h = ground arith

extent_at_total : (before : Option ℕ) (c : ℕ) (cs : List ℕ) → 0 < (extent_at before c cs).total
unfolding extent_at
extent_at_total before c [] = single_extent_total c []
extent_at_total before c (d ∷ cs) = elim (Bool-cases (nat_eq c b'-' && nat_eq d b'-')) [
  | inl e ↦ rw e (line_length-positive c d cs e)
  | inr e ↦ elim (Bool-cases (nat_eq c b'/' && nat_eq d b'*')) [
    | inl f ↦ rw (e, f) (omega arith)
    | inr f ↦ elim (Bool-cases (is_escape_prefix before c && nat_eq d b'\'')) [
      | inl g ↦ rw (e, f, g) (omega arith)
      | inr g ↦ rw (e, f, g) (single_extent_total c (d ∷ cs))
    ]
  ]
]

mask_loop-IsMasked :
    (rounds : ℕ) (before : Option ℕ) (rest : List ℕ)
    → length rest ≤ rounds
    → IsMasked rest (mask_loop rounds before rest)
unfolding mask_loop
mask_loop-IsMasked zero before [] h = tt
mask_loop-IsMasked zero before (c ∷ cs) h = absurd (omega arith)
mask_loop-IsMasked (suc rounds) before [] h = tt
mask_loop-IsMasked (suc rounds) before (c ∷ cs) h =
    let e = extent_at before c cs in
    let left = drop e.total (c ∷ cs) in
    let fewer : length left ≤ rounds =
      omega (arith, length-drop e.total (c ∷ cs), extent_at_total before c cs, h) in
    subst
      (λ xs. IsMasked xs (
        cover e.first e.last e.total (c ∷ cs)
        ++ mask_loop rounds (last_of before (take e.total (c ∷ cs))) left))
      (take-append-drop e.total (c ∷ cs))
      (append-IsMasked (take e.total (c ∷ cs)) (cover e.first e.last e.total (c ∷ cs)) left
        (mask_loop rounds (last_of before (take e.total (c ∷ cs))) left)
        (cover-IsMasked e.first e.last e.total (c ∷ cs))
        (mask_loop-IsMasked rounds (last_of before (take e.total (c ∷ cs))) left fewer))

-- The mask reaches the end of every statement, keeps every character in its place, and only ever
-- replaces one that is no white space by a blank; so nothing shifts, and its length is the same.
pub mask_sql_text-IsMasked : (sql : List ℕ) → IsMasked sql (mask_sql_text sql)
unfolding mask_sql_text
mask_sql_text-IsMasked sql = mask_loop-IsMasked (length sql) none sql (omega arith)
