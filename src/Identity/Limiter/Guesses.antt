-- ===== src/Identity/Limiter/Guesses.antt =====
-- The failures of one address that are not older than a time.
use instacloud_oss.Base.{
  ℕ, suc, ◌+◌, ◌≡◌, ◌≤◌, ◌<◌, refl, String, Bool, true, List, [], ◌∷◌, ◌++◌, get, string_instance,
  ltb, leb, filter, length, get_or, arith, length-append,
}
use instacloud_oss.Identity.Limiter.{SignInLimiter, LimiterConfig, recent, fail}
use instacloud_oss.Identity.Limiter.Laws.{fail-get}

filter-of-filter :
    (p q : ℕ → Bool) (xs : List ℕ)
    → ((x : ℕ) → p x ≡ true → q x ≡ true)
    → filter p (filter q xs) ≡ filter p xs
filter-of-filter p q [] h = refl
filter-of-filter p q (x ∷ xs) h = ground (arith, h x, filter-of-filter p q xs h)

filter-le :
    (p q : ℕ → Bool) (xs : List ℕ)
    → ((x : ℕ) → p x ≡ true → q x ≡ true)
    → length (filter p xs) ≤ length (filter q xs)
filter-le p q [] h = omega arith
filter-le p q (x ∷ xs) h = ground (arith, h x, filter-le p q xs h)

filter-append : (p : ℕ → Bool) (xs ys : List ℕ) → filter p (xs ++ ys) ≡ filter p xs ++ filter p ys
filter-append p [] ys = refl
filter-append p (x ∷ xs) ys = ground (arith, filter-append p xs ys)

module _ (cfg : LimiterConfig) (ip : String) (from : ℕ) where
  -- The failures of the address that are not older than a time.
  abbrev pub since : SignInLimiter → ℕ
  since l = length (filter (leb from) (get_or (get ip l.failures) []))

  within :
      (now x : ℕ)
      → now < from + cfg.window_ms
      → leb from x ≡ true
      → ltb now (x + cfg.window_ms) ≡ true
  within now x w h = ground (arith, h)

  pub since-recent :
      (now : ℕ) (l : SignInLimiter)
      → now < from + cfg.window_ms
      → since l ≤ length (recent cfg now ip l)
  unfolding recent
  since-recent now l w =
      filter-le (leb from) (λ t. ltb now (t + cfg.window_ms)) (get_or (get ip l.failures) [])
        (λ x. within now x w)

  filter-recent :
      (now : ℕ) (l : SignInLimiter)
      → now < from + cfg.window_ms
      → filter (leb from) (recent cfg now ip l) ≡ filter (leb from) (get_or (get ip l.failures) [])
  unfolding recent
  filter-recent now l w =
      filter-of-filter (leb from) (λ t. ltb now (t + cfg.window_ms)) (get_or (get ip l.failures) [])
        (λ x. within now x w)

  pub since-fail :
      (now : ℕ) (l : SignInLimiter)
      → from ≤ now
      → now < from + cfg.window_ms
      → 0 < cfg.max_ips
      → since (fail cfg now ip l) ≡ suc (since l)
  since-fail now l b w p =
      rw
        (
          fail-get cfg now ip l (omega arith) p,
          filter-append (leb from) (recent cfg now ip l) (now ∷ []),
          filter-recent now l w,
        )
        (ground
          (arith, b, length-append (filter (leb from) (get_or (get ip l.failures) [])) (now ∷ [])))
