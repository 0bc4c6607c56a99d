-- ===== src/Identity/Cookie/Cuts.antt =====
-- Where a text is cut.
use instacloud_oss.Base.{
  ℕ, ◌≡◌, ◌≢◌, refl, false, List, [], ◌∷◌, ◌++◌, none, some, nat_instance, list_instance, nat_eq,
  any, arith, Bool-cases, Option-cases, inl, inr,
}
use instacloud_oss.Identity.Sessions.{Text}
use instacloud_oss.Identity.Cookie.{extend, split_on, cut_first, cut_last}

pub cut_last-some : (sep : ℕ) (cs a b : Text) → cut_last sep cs ≡ some (a, b) → cs ≡ a ++ (sep ∷ b)
unfolding cut_last
cut_last-some sep [] a b h = cc
cut_last-some sep (c ∷ cs) a b h = elim (Option-cases (cut_last sep cs)) [
  | inl e ↦ ground (arith, e, h)
  | inr ((x, y), e) ↦ ground (arith, e, h, cut_last-some sep cs x y e)
]

-- The last separator is the one with none behind it.
cut_last-none : (sep : ℕ) (b : Text) → any (nat_eq sep) b ≡ false → cut_last sep b ≡ none
unfolding cut_last
cut_last-none sep [] h = refl
cut_last-none sep (c ∷ cs) h = ground (arith, h, cut_last-none sep cs)

pub cut_last-append :
    (sep : ℕ) (a b : Text)
    → any (nat_eq sep) b ≡ false
    → cut_last sep (a ++ (sep ∷ b)) ≡ some (a, b)
unfolding cut_last
cut_last-append sep [] b h = ground (arith, cut_last-none sep b h)
cut_last-append sep (c ∷ a) b h = ground (arith, cut_last-append sep a b h)

pub cut_first-append :
    (sep : ℕ) (a b : Text)
    → any (nat_eq sep) a ≡ false
    → cut_first sep (a ++ (sep ∷ b)) ≡ some (a, b)
unfolding cut_first
cut_first-append sep [] b h = elim (Option-cases (cut_first sep b)) [
  | inl e ↦ ground (arith, e)
  | inr (p, e) ↦ ground (arith, e)
]
cut_first-append sep (c ∷ a) b h = ground (arith, h, cut_first-append sep a b)

extend-append : (c : ℕ) (xs ys : List Text) → xs ≢ [] → extend c (xs ++ ys) ≡ extend c xs ++ ys
extend-append c [] ys ne = absurd (ne refl)
extend-append c (x ∷ xs) ys ne = refl

split_on-filled : (sep : ℕ) (a : Text) → split_on sep a ≢ []
unfolding split_on
split_on-filled sep [] h = cc
split_on-filled sep (c ∷ a) h = elim (Bool-cases (nat_eq c sep)) [
  | inl e ↦ ground (arith, e, h)
  | inr e ↦ extend-filled (split_on sep a) (rw (e, split_on) at h)
]
  where
    extend-filled : (xs : List Text) → extend c xs ≢ []
    extend-filled [] k = cc
    extend-filled (x ∷ xs) k = cc

pub split_on-append :
    (sep : ℕ) (a b : Text) → split_on sep (a ++ (sep ∷ b)) ≡ split_on sep a ++ split_on sep b
unfolding split_on
split_on-append sep [] b = ground arith
split_on-append sep (c ∷ a) b = ground (
  arith,
  split_on-append sep a b,
  extend-append c (split_on sep a) (split_on sep b) (split_on-filled sep a),
)

pub split_on-whole :
    (sep : ℕ) (a : Text) → any (λ c. nat_eq c sep) a ≡ false → split_on sep a ≡ a ∷ []
unfolding split_on
split_on-whole sep [] h = refl
split_on-whole sep (c ∷ a) h = ground (arith, h, split_on-whole sep a)
