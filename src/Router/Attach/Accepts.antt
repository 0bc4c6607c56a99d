-- ===== src/Router/Attach/Accepts.antt =====
-- A text that has the shape of a custom domain passes the tests of the code.
use instacloud_oss.Base.{
  ℕ, ◌≡◌, ◌≢◌, ◌≤◌, ◌⊎◌, inl, inr, refl, sym, ap, subst, ◌∙◌, true, false, List, [], ◌∷◌, ◌++◌,
  nat_eq, length, all, All, nat_instance, list_instance, arith, Bool-cases,
}
use instacloud_oss.Metrics.Window.{is_space, trim_start, trim_end}
use instacloud_oss.Router.Table.{Text}
use instacloud_oss.Router.Table.Names.{dot, split_dots, is_label}
use instacloud_oss.Router.Attach.{trim, strip_dot}
use instacloud_oss.Router.Attach.Shape.{join_dots, IsLabelChar, IsLabel, split_dots-some}
use instacloud_oss.Router.Attach.Trim.{IsCore, strip_dot-cut}

abbrev AllSpace : Text → Type 0
AllSpace t = All (λ c. is_space c ≡ true) t

trim_start-front : (front t : Text) → AllSpace front → trim_start (front ++ t) ≡ trim_start t
unfolding trim_start
trim_start-front [] t h = refl
trim_start-front (c ∷ front) t (w, h) = rw w (trim_start-front front t h)

trim_end-back : (back : Text) → AllSpace back → trim_end back ≡ []
unfolding trim_end
trim_end-back [] h = refl
trim_end-back (c ∷ back) (w, h) = rw (trim_end-back back h, w) refl

trim_end-core :
    (core back : Text)
    → AllSpace back
    → ¬ ((c : ℕ) × (rest : Text) × (core ≡ rest ++ c ∷ []) × (is_space c ≡ true))
    → trim_end (core ++ back) ≡ core
unfolding trim_end
trim_end-core [] back h n = trim_end-back back h
trim_end-core (c ∷ []) back h n = elim (Bool-cases (is_space c)) [
  | inl e ↦ absurd (n (c, [], refl, e))
  | inr e ↦ rw (trim_end-back back h, e) refl
]
trim_end-core (c ∷ d ∷ cs) back h n =
    let later =
      trim_end-core (d ∷ cs) back h (λ (x, rest, e, w). n (x, c ∷ rest, ap (λ y. c ∷ y) e, w)) in
    rw later refl

trim_start-core :
    (core back : Text)
    → core ≢ []
    → ¬ ((c : ℕ) × (rest : Text) × (core ≡ c ∷ rest) × (is_space c ≡ true))
    → trim_start (core ++ back) ≡ core ++ back
unfolding trim_start
trim_start-core [] back given n = absurd (given refl)
trim_start-core (c ∷ cs) back given n = elim (Bool-cases (is_space c)) [
  | inl e ↦ absurd (n (c, cs, refl, e))
  | inr e ↦ rw e refl
]

pub IsCore-trim : (raw core : Text) → core ≢ [] → IsCore raw core → trim raw ≡ core
IsCore-trim raw core given k =
    ap trim k.whole
    ∙ (ap trim_end (
          trim_start-front k.front (core ++ k.back) k.front_space
          ∙ trim_start-core core k.back given k.no_first_space)
        ∙ trim_end-core core k.back k.back_space k.no_last_space)

strip_dot-append : (h : Text) → strip_dot (h ++ dot ∷ []) ≡ h
unfolding strip_dot
strip_dot-append [] = refl
strip_dot-append (c ∷ []) = refl
strip_dot-append (c ∷ d ∷ h) = ap (λ x. c ∷ x) (strip_dot-append (d ∷ h))

-- Behind a last dot there is an empty label.
last_dot :
    (x l : Text) (ls : List Text) → split_dots (x ++ dot ∷ []) ≡ l ∷ ls → all is_label ls ≡ false
unfolding split_dots is_label
last_dot [] l ls e = ground (arith, e)
last_dot (c ∷ x) l ls e =
    let (m, ms, k) = split_dots-some (x ++ dot ∷ []) in
    let empty = last_dot x m ms k in
    elim (Bool-cases (nat_eq c dot)) [
      | inl f ↦ let split = rw (f, k, split_dots) at e in ground (arith, split, empty)
      | inr f ↦ let split = rw (f, k, split_dots) at e in ground (arith, split, empty)
    ]

no_last_dot : (h x : Text) → all is_label (split_dots h) ≡ true → h ≢ x ++ dot ∷ []
no_last_dot h x shaped e =
    let (l, ls, k) = split_dots-some (x ++ dot ∷ []) in
    let split = ap split_dots e ∙ k in
    let good = subst (λ y. all is_label y ≡ true) split shaped in
    ground (arith, good, last_dot x l ls k)

pub strip_dot-kept :
    (t h : Text)
    → all is_label (split_dots h) ≡ true
    → (t ≡ h) ⊎ (t ≡ h ++ dot ∷ [])
    → strip_dot t ≡ h
strip_dot-kept t h shaped (inr e) = ap strip_dot e ∙ strip_dot-append h
strip_dot-kept t h shaped (inl e) = ap strip_dot e ∙ elim (strip_dot-cut h) [
  | inl f ↦ sym f
  | inr f ↦ absurd (no_last_dot h (strip_dot h) shaped f)
]

split-label :
    (l rest : Text) → All IsLabelChar l → split_dots (l ++ dot ∷ rest) ≡ l ∷ split_dots rest
unfolding split_dots
split-label [] rest h = refl
split-label (c ∷ l) rest (k, h) =
    rw (split-label l rest h) (elim (Bool-cases (nat_eq c dot)) [
      | inl e ↦ absurd (ground (arith, e, k))
      | inr e ↦ rw e refl
    ])

split-last : (l : Text) → All IsLabelChar l → split_dots l ≡ l ∷ []
unfolding split_dots
split-last [] h = refl
split-last (c ∷ l) (k, h) =
    rw (split-last l h) (elim (Bool-cases (nat_eq c dot)) [
      | inl e ↦ absurd (ground (arith, e, k))
      | inr e ↦ rw e refl
    ])

pub split-join :
    (labels : List Text)
    → 1 ≤ length labels
    → All IsLabel labels
    → split_dots (join_dots labels) ≡ labels
split-join [] n h = absurd (omega (arith, n))
split-join (l ∷ []) n (k, h) = split-last l k.plain
split-join (l ∷ m ∷ ls) n (k, h) =
    split-label l (join_dots (m ∷ ls)) k.plain
    ∙ ap (λ x. l ∷ x) (split-join (m ∷ ls) (omega arith) h)
