-- ===== src/Identity/Limiter/Held.antt =====
-- The failures of one address that the limiter still holds against it, whatever other addresses do.
use instacloud_oss.Base.{
  ℕ, suc, ◌+◌, ◌≡◌, ◌≤◌, ◌<◌, refl, ap, ◌∙◌, String, Bool, true, false, List, [], ◌∷◌, ◌++◌, some,
  Map, get, put, del, string_instance, ◌==◌, not, if◌then◌else◌, leb, filter, length,
  length-filter-le, get_or, arith, get-put, get-del, Bool-cases, Option-cases, inl, inr,
}
use instacloud_oss.Identity.Limiter.{
  SignInLimiter, LimiterConfig, is_stale, prune, recent, fail, clear,
}
use instacloud_oss.Identity.Limiter.Laws.{fail-get}
use instacloud_oss.Identity.Limiter.Guesses.{since-fail}
use instacloud_oss.Identity.Limiter.Room.{taken, taken-del, taken-put, cap_ips-fits}

-- The last of the times is not older than the first argument.
abbrev pub ends_since : ℕ → List ℕ → Bool
ends_since from [] = false
ends_since from (t ∷ []) = leb from t
ends_since from (t ∷ u ∷ ts) = ends_since from (u ∷ ts)

ends_since-last :
    (from now : ℕ) (ts : List ℕ) → from ≤ now → ends_since from (ts ++ now ∷ []) ≡ true
ends_since-last from now [] h = ground (arith, h)
ends_since-last from now (t ∷ []) h = ground (arith, h)
ends_since-last from now (t ∷ u ∷ ts) h = ends_since-last from now (u ∷ ts) h

get-filter-some :
    (q : List ℕ → Bool) (ip : String) (m : Map String (List ℕ)) (v : List ℕ)
    → get ip m ≡ some v
    → q v ≡ true
    → get ip (filter (λ e. q e.1) m) ≡ some v
unfolding get
get-filter-some q ip [] v h p = cc
get-filter-some q ip ((k, w) ∷ m) v h p = elim (Bool-cases (k == ip)) [
  | inl e ↦ ground (arith, e, h, p)
  | inr e ↦ ground (arith, e, h, p, get-filter-some q ip m v)
]

module _ (cfg : LimiterConfig) (ip : String) (from : ℕ) where
  -- The failures of the address since a time, if its last one is not older than that.
  abbrev pub held : SignInLimiter → ℕ
  held l =
      let ts = get_or (get ip l.failures) [] in
      if ends_since from ts then length (filter (leb from) ts) else 0

  ends_since-fresh :
      (now : ℕ) (ts : List ℕ)
      → now < from + cfg.window_ms
      → ends_since from ts ≡ true
      → not (is_stale cfg now ts) ≡ true
  unfolding is_stale
  ends_since-fresh now [] w h = ground (arith, h)
  ends_since-fresh now (t ∷ []) w h = ground (arith, h)
  ends_since-fresh now (t ∷ u ∷ ts) w h = ends_since-fresh now (u ∷ ts) w h

  -- A failure of the address counts.
  pub held-fail :
      (now : ℕ) (l : SignInLimiter)
      → from ≤ now
      → now < from + cfg.window_ms
      → 0 < cfg.max_ips
      → suc (held l) ≤ held (fail cfg now ip l)
  held-fail now l b w p =
      let same = fail-get cfg now ip l (omega arith) p in
      let ends = ends_since-last from now (recent cfg now ip l) b in
      let more = since-fail cfg ip from now l b w p in ground (arith, same, ends, more)

  get-fail_other :
      (now : ℕ) (j : String) (l : SignInLimiter) (v : List ℕ)
      → (j == ip) ≡ false
      → suc (taken ip l.failures) ≤ cfg.max_ips
      → get ip l.failures ≡ some v
      → not (is_stale cfg now v) ≡ true
      → get ip (fail cfg now j l).failures ≡ some v
  unfolding fail prune
  get-fail_other now j l v d room e fresh =
      let ts = recent cfg now j l ++ (now ∷ []) in
      let m = put j ts (del j l.failures) in
      let kept = filter (λ (e : String × List ℕ). not (is_stale cfg now e.1)) m in
      ap (get ip) (
        cap_ips-fits ip cfg kept (
          omega (
            arith,
            length-filter-le (λ (e : String × List ℕ). not (is_stale cfg now e.1)) m,
            taken-put ip j ts (del j l.failures),
            taken-del ip j l.failures,
          )))
      ∙ get-filter-some (λ x. not (is_stale cfg now x)) ip m v
          (rw (get-put j ip ts (del j l.failures), d, get-del j ip l.failures, d) e) fresh

  -- What another address does takes nothing away, while there is room for all.
  pub held-fail_other :
      (now : ℕ) (j : String) (l : SignInLimiter)
      → (j == ip) ≡ false
      → suc (taken ip l.failures) ≤ cfg.max_ips
      → now < from + cfg.window_ms
      → held l ≤ held (fail cfg now j l)
  held-fail_other now j l d room w = elim (Option-cases (get ip l.failures)) [
    | inl e ↦ rw e (omega arith)
    | inr (v, e) ↦ elim (Bool-cases (ends_since from v)) [
      | inr f ↦ rw (e, f) (omega arith)
      | inl f ↦ rw (e, get-fail_other now j l v d room e (ends_since-fresh now v w f)) (omega arith)
    ]
  ]

  pub held-clear_other :
      (j : String) (l : SignInLimiter) → (j == ip) ≡ false → held (clear j l) ≡ held l
  unfolding clear
  held-clear_other j l d = rw (get-del j ip l.failures, d) refl
