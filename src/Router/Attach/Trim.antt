-- ===== src/Router/Attach/Trim.antt =====
-- `trim` takes away the white space at both ends, and `.replace(/\\.$/, '')` one last dot.
use instacloud_oss.Base.{
  ℕ, ◌≡◌, ◌⊎◌, inl, inr, refl, ap, ◌∙◌, true, [], ◌∷◌, ◌++◌, nat_eq, All, arith, Bool-cases,
}
use instacloud_oss.Metrics.Window.{is_space, trim_start, trim_end}
use instacloud_oss.Router.Table.{Text}
use instacloud_oss.Router.Table.Names.{dot}
use instacloud_oss.Router.Attach.{trim, strip_dot}

-- The core of a text: what stands between the white space at its ends.
pub record IsCore (raw core : Text) : Type 0 where
  pub front : Text
  pub back : Text
  pub whole : raw ≡ front ++ (core ++ back)
  pub front_space : All (λ c. is_space c ≡ true) front
  pub back_space : All (λ c. is_space c ≡ true) back
  pub no_first_space : ¬ ((c : ℕ) × (rest : Text) × (core ≡ c ∷ rest) × (is_space c ≡ true))
  pub no_last_space : ¬ ((c : ℕ) × (rest : Text) × (core ≡ rest ++ c ∷ []) × (is_space c ≡ true))

List-cases : (xs : Text) → (xs ≡ []) ⊎ ((x : ℕ) × (rest : Text) × (xs ≡ x ∷ rest))
List-cases [] = inl refl
List-cases (x ∷ xs) = inr (x, xs, refl)

trim_start-cut :
    (t : Text) → (front : Text) × (t ≡ front ++ trim_start t) × All (λ c. is_space c ≡ true) front
unfolding trim_start
trim_start-cut [] = ([], refl, tt)
trim_start-cut (c ∷ cs) = elim (Bool-cases (is_space c)) [
  | inl e ↦ let (front, k, w) = trim_start-cut cs in rw e (c ∷ front, ap (λ x. c ∷ x) k, (e, w))
  | inr e ↦ rw e ([], refl, tt)
]

trim_start-first :
    (t : Text) → ¬ ((c : ℕ) × (rest : Text) × (trim_start t ≡ c ∷ rest) × (is_space c ≡ true))
unfolding trim_start
trim_start-first [] (c, rest, e, w) = ground (arith, e)
trim_start-first (d ∷ ds) (c, rest, e, w) = elim (Bool-cases (is_space d)) [
  | inl f ↦ trim_start-first ds (c, rest, (rw (f, trim_start) at e), w)
  | inr f ↦ let same = rw (f, trim_start) at e in ground (arith, f, same, w)
]

trim_end-cut :
    (t : Text) → (back : Text) × (t ≡ trim_end t ++ back) × All (λ c. is_space c ≡ true) back
unfolding trim_end
trim_end-cut [] = ([], refl, tt)
trim_end-cut (c ∷ cs) =
    let (back, k, w) = trim_end-cut cs in
    elim (List-cases (trim_end cs)) [
      | inl e ↦
          let rest = rw e at k in
          elim (Bool-cases (is_space c)) [
            | inl f ↦ rw (e, f) (c ∷ back, ap (λ x. c ∷ x) rest, (f, w))
            | inr f ↦ rw (e, f) (back, ap (λ x. c ∷ x) rest, w)
          ]
      | inr (d, ds, e) ↦ let rest = rw e at k in rw e (back, ap (λ x. c ∷ x) rest, w)
    ]

no_end : (rest : Text) (c : ℕ) → [] ≡ rest ++ c ∷ [] → ⊥
no_end [] c e = ground (arith, e)
no_end (r ∷ rest) c e = ground (arith, e)

same_end : (rest : Text) (c x : ℕ) → x ∷ [] ≡ rest ++ c ∷ [] → x ≡ c
same_end [] c x e = ground (arith, e)
same_end (r ∷ rest) c x e = absurd (no_end rest c (ground (arith, e)))

-- The end of a text of two characters or more is the end of what follows the first.
end_behind :
    (x : ℕ) (xs rest : Text) (c d : ℕ) (ds : Text)
    → xs ≡ d ∷ ds
    → x ∷ xs ≡ rest ++ c ∷ []
    → (behind : Text) × (xs ≡ behind ++ c ∷ [])
end_behind x xs [] c d ds k e = absurd (ground (arith, k, e))
end_behind x xs (r ∷ rest) c d ds k e = (rest, ground (arith, e))

trim_end-last :
    (t : Text) (c : ℕ) (rest : Text) → trim_end t ≡ rest ++ c ∷ [] → is_space c ≡ true → ⊥
unfolding trim_end
trim_end-last [] c [] e w = ground (arith, e)
trim_end-last [] c (r ∷ rest) e w = ground (arith, e)
trim_end-last (x ∷ xs) c rest e w = elim (List-cases (trim_end xs)) [
  | inl k ↦ elim (Bool-cases (is_space x)) [
    | inl f ↦ no_end rest c (rw (k, f, trim_end) at e)
    | inr f ↦ ground (arith, f, w, same_end rest c x (rw (k, f, trim_end) at e))
  ]
  | inr (d, ds, k) ↦
      let (behind, m) = end_behind x (d ∷ ds) rest c d ds refl (rw (k, trim_end) at e) in
      trim_end-last xs c behind (k ∙ m) w
]

pub trim-IsCore : (raw : Text) → IsCore raw (trim raw)
trim-IsCore raw =
    let (front, k, w) = trim_start-cut raw in
    let (back, m, v) = trim_end-cut (trim_start raw) in
    record {
      front = front;
      back = back;
      whole = k ∙ ap (λ x. front ++ x) m;
      front_space = w;
      back_space = v;
      no_first_space =
          λ (c, rest, e, f). trim_start-first raw (c, rest ++ back, m ∙ ap (λ x. x ++ back) e, f);
      no_last_space = λ (c, rest, e, f). trim_end-last (trim_start raw) c rest e f;
    }

pub strip_dot-cut : (t : Text) → (t ≡ strip_dot t) ⊎ (t ≡ strip_dot t ++ dot ∷ [])
unfolding strip_dot
strip_dot-cut [] = inl refl
strip_dot-cut (c ∷ []) = elim (Bool-cases (nat_eq c dot)) [
  | inl e ↦ rw e (inr (ground (arith, e)))
  | inr e ↦ rw e (inl refl)
]
strip_dot-cut (c ∷ d ∷ cs) = elim (strip_dot-cut (d ∷ cs)) [
  | inl e ↦ inl (ap (λ x. c ∷ x) e)
  | inr e ↦ inr (ap (λ x. c ∷ x) e)
]
