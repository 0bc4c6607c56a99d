-- ===== src/Identity/Limiter/Room.antt =====
-- How much room of the limiter is taken, with a place for one address in any case.
use instacloud_oss.Base.{
  ℕ, suc, ◌+◌, ◌≡◌, ◌≤◌, refl, String, Bool, List, [], ◌∷◌, ◌++◌, Map, get, put, del, has,
  string_instance, not, if◌then◌else◌, filter, length, length-filter-le, arith, eq_iff,
}
use instacloud_oss.Identity.Limiter.{
  SignInLimiter, LimiterConfig, is_stale, cap_ips, prune, recent, fail, clear,
}

length-del : (j : String) (m : Map String (List ℕ)) → length (del j m) ≤ length m
unfolding del
length-del j [] = omega arith
length-del j (e ∷ m) = ground (arith, length-del j m)

length-put :
    (j : String) (v : List ℕ) (m : Map String (List ℕ)) → length (put j v m) ≤ suc (length m)
unfolding put
length-put j v [] = omega arith
length-put j v (e ∷ m) = ground (arith, length-put j v m)

length-cap_ips : (cfg : LimiterConfig) (m : Map String (List ℕ)) → length (cap_ips cfg m) ≤ length m
unfolding cap_ips
length-cap_ips cfg [] = omega arith
length-cap_ips cfg (e ∷ m) = ground (arith, length-cap_ips cfg m)

module _ (ip : String) where
  -- The entries, and one more if the address has none.
  abbrev pub taken : Map String (List ℕ) → ℕ
  taken m = length m + (if has ip m then 0 else 1)

  taken-le : (m : Map String (List ℕ)) → taken m ≤ suc (length m)
  taken-le m = ground arith

  pub taken-positive : (m : Map String (List ℕ)) → 1 ≤ taken m
  unfolding get
  taken-positive [] = omega arith
  taken-positive (e ∷ m) = ground arith

  taken-filter :
      (p : String × List ℕ → Bool) (m : Map String (List ℕ)) → taken (filter p m) ≤ taken m
  unfolding get
  taken-filter p [] = omega arith
  taken-filter p ((k, v) ∷ m) =
      ground (arith, taken-filter p m, taken-le (filter p m), length-filter-le p m)

  pub taken-del : (j : String) (m : Map String (List ℕ)) → taken (del j m) ≤ taken m
  unfolding get del
  taken-del j [] = omega arith
  taken-del j ((k, v) ∷ m) = ground (arith, taken-del j m, taken-le (del j m), length-del j m)

  pub taken-put :
      (j : String) (v : List ℕ) (m : Map String (List ℕ)) → taken (put j v m) ≤ suc (taken m)
  unfolding get put
  taken-put j v [] = ground arith
  taken-put j v ((k, w) ∷ m) = ground (arith, taken-put j v m, length-put j v m, eq_iff k j)

  -- What the address itself adds has its place already.
  taken-put_self : (v : List ℕ) (m : Map String (List ℕ)) → taken (put ip v m) ≤ taken m
  unfolding get put
  taken-put_self v [] = ground (arith, eq_iff ip ip)
  taken-put_self v ((k, w) ∷ m) = ground (arith, taken-put_self v m, eq_iff k ip, eq_iff ip ip)

  module _ (cfg : LimiterConfig) where
    taken-cap_ips : (m : Map String (List ℕ)) → taken (cap_ips cfg m) ≤ taken m
    unfolding get cap_ips
    taken-cap_ips [] = omega arith
    taken-cap_ips ((k, v) ∷ m) =
        ground (arith, taken-cap_ips m, taken-le (cap_ips cfg m), length-cap_ips cfg m)

    pub cap_ips-fits : (m : Map String (List ℕ)) → length m ≤ cfg.max_ips → cap_ips cfg m ≡ m
    unfolding cap_ips
    cap_ips-fits [] h = refl
    cap_ips-fits (e ∷ m) h = ground (arith, h)

    taken-prune :
        (now : ℕ) (m : Map String (List ℕ))
        → taken (prune cfg now (record { failures = m })).failures ≤ taken m
    unfolding prune
    taken-prune now m =
        let fresh = λ (e : String × List ℕ). not (is_stale cfg now e.1) in
        omega (arith, taken-cap_ips (filter fresh m), taken-filter fresh m)

    pub taken-fail :
        (now : ℕ) (j : String) (l : SignInLimiter)
        → taken (fail cfg now j l).failures ≤ suc (taken l.failures)
    unfolding fail
    taken-fail now j l =
        let v = recent cfg now j l ++ (now ∷ []) in
        omega (
          arith,
          taken-prune now (put j v (del j l.failures)),
          taken-put j v (del j l.failures),
          taken-del j l.failures,
        )

    pub taken-fail_self :
        (now : ℕ) (l : SignInLimiter) → taken (fail cfg now ip l).failures ≤ taken l.failures
    unfolding fail
    taken-fail_self now l =
        let v = recent cfg now ip l ++ (now ∷ []) in
        omega (
          arith,
          taken-prune now (put ip v (del ip l.failures)),
          taken-put_self v (del ip l.failures),
          taken-del ip l.failures,
        )

    pub taken-clear :
        (j : String) (l : SignInLimiter) → taken (clear j l).failures ≤ taken l.failures
    unfolding clear
    taken-clear j l = taken-del j l.failures
