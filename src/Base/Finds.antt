-- ===== src/Base/Finds.antt =====
-- What a search of a list finds in other lists.
use mathlib.Core.Path.{◌≡◌, refl}
use mathlib.Core.Bool.{Bool, true, false}
use mathlib.Core.List.{List, [], ◌∷◌, ◌++◌}
use mathlib.Core.Option.{none, some}
use mathlib.Core.Logic.{inl, inr}
use native.Mathlib.Omega.{arith}
use instacloud_oss.Base.Tests.{Bool-cases}
use instacloud_oss.Base.Lists.{find, filter}

module _ {ℓ} {A : Type ℓ} where
  pub find-passes : (p : A → Bool) (xs : List A) (a : A) → find p xs ≡ some a → p a ≡ true
  find-passes p [] a h = cc
  find-passes p (x ∷ xs) a h = elim (Bool-cases (p x)) [
    | inl e ↦ ground (arith, e, h)
    | inr e ↦ find-passes p xs a (ground (arith, e, h))
  ]

  pub find-append :
      (p : A → Bool) (xs ys : List A) → find p xs ≡ none → find p (xs ++ ys) ≡ find p ys
  find-append p [] ys h = refl
  find-append p (x ∷ xs) ys h = ground (arith, h, find-append p xs ys)

  -- The elements that pass a test are found as before when others are left out.
  pub find-filter :
      (p q : A → Bool) (xs : List A)
      → ((x : A) → p x ≡ true → q x ≡ true)
      → find p (filter q xs) ≡ find p xs
  find-filter p q [] h = refl
  find-filter p q (x ∷ xs) h = ground (arith, h x, find-filter p q xs h)

  pub find-left_out :
      (p q : A → Bool) (xs : List A) → find p xs ≡ none → find p (filter q xs) ≡ none
  find-left_out p q [] h = refl
  find-left_out p q (x ∷ xs) h = ground (arith, h, find-left_out p q xs)

  pub find-filter-none :
      (p q : A → Bool) (xs : List A)
      → ((x : A) → q x ≡ true → p x ≡ false)
      → find p (filter q xs) ≡ none
  find-filter-none p q [] h = refl
  find-filter-none p q (x ∷ xs) h = ground (arith, h x, find-filter-none p q xs h)
