-- ===== src/Identity/Limiter/Laws.antt =====
-- The limiter's bounds, and what it does to an address that keeps guessing.
use instacloud_oss.Base.{
  ℕ, ◌≡◌, ◌≤◌, ◌<◌, refl, String, Bool, true, false, List, [], ◌∷◌, ◌++◌, none, some, Map, get, put,
  del, string_instance, not, filter, length, arith, eq_refl, get-del_self,
}
use instacloud_oss.Identity.Limiter.{
  SignInLimiter, LimiterConfig, is_stale, cap_ips, prune, recent, fail,
}

module _ (cfg : LimiterConfig) where
  cap_ips-length : (m : Map String (List ℕ)) → length (cap_ips cfg m) ≤ cfg.max_ips
  unfolding cap_ips
  cap_ips-length [] = omega arith
  cap_ips-length (e ∷ m) = ground (arith, cap_ips-length m)

  pub fail-length :
      (now : ℕ) (ip : String) (l : SignInLimiter)
      → length (fail cfg now ip l).failures ≤ cfg.max_ips
  unfolding fail prune
  fail-length now ip l = cap_ips-length _

  put-del :
      (ip : String) (v : List ℕ) (m : Map String (List ℕ))
      → get ip m ≡ none
      → put ip v m ≡ m ++ ((ip, v) ∷ [])
  unfolding put get
  put-del ip v [] h = refl
  put-del ip v ((k, w) ∷ m) h = ground (arith, h, put-del ip v m)

  get-last :
      (ip : String) (v : List ℕ) (m : Map String (List ℕ))
      → get ip m ≡ none
      → get ip (m ++ ((ip, v) ∷ [])) ≡ some v
  unfolding get
  get-last ip v [] h = ground (arith, eq_refl ip)
  get-last ip v ((k, w) ∷ m) h = ground (arith, h, get-last ip v m)

  get-cap_ips :
      (ip : String) (v : List ℕ) (m : Map String (List ℕ))
      → get ip m ≡ none
      → 0 < cfg.max_ips
      → get ip (cap_ips cfg (m ++ ((ip, v) ∷ []))) ≡ some v
  unfolding cap_ips get
  get-cap_ips ip v [] h p = ground (arith, eq_refl ip)
  get-cap_ips ip v ((k, w) ∷ m) h p = ground (arith, h, p, get-cap_ips ip v m, get-last ip v m)

  filter-last :
      (p : String × List ℕ → Bool) (e : String × List ℕ) (m : Map String (List ℕ))
      → p e ≡ true
      → filter p (m ++ (e ∷ [])) ≡ filter p m ++ (e ∷ [])
  filter-last p e [] h = ground (arith, h)
  filter-last p e (f ∷ m) h = ground (arith, filter-last p e m h)

  get-filter-none :
      (p : String × List ℕ → Bool) (ip : String) (m : Map String (List ℕ))
      → get ip m ≡ none
      → get ip (filter p m) ≡ none
  unfolding get
  get-filter-none p ip [] h = refl
  get-filter-none p ip ((k, w) ∷ m) h = ground (arith, h, get-filter-none p ip m)

  is_stale-last :
      (now : ℕ) (ts : List ℕ) → 0 < cfg.window_ms → is_stale cfg now (ts ++ (now ∷ [])) ≡ false
  unfolding is_stale
  is_stale-last now [] w = ground arith
  is_stale-last now (t ∷ []) w = ground arith
  is_stale-last now (t ∷ u ∷ ts) w = is_stale-last now (u ∷ ts) w

  -- A failure is recorded behind those of the window, whatever the pruning drops of others.
  pub fail-get :
      (now : ℕ) (ip : String) (l : SignInLimiter)
      → 0 < cfg.window_ms
      → 0 < cfg.max_ips
      → get ip (fail cfg now ip l).failures ≡ some (recent cfg now ip l ++ (now ∷ []))
  unfolding fail prune
  fail-get now ip l w p =
      let ts = recent cfg now ip l in
      let m = del ip l.failures in
      let fresh = λ (e : String × List ℕ). not (is_stale cfg now e.1) in
      rw
        (
          put-del ip (ts ++ (now ∷ [])) m (get-del_self ip l.failures),
          filter-last fresh (ip, ts ++ (now ∷ [])) m (rw (is_stale-last now ts w) refl),
        )
        (get-cap_ips ip (ts ++ (now ∷ [])) (filter fresh m)
          (get-filter-none fresh ip m (get-del_self ip l.failures)) p)
