-- ===== src/Identity/SignIn/Guesses.antt =====
-- Guessing a password over the network.
use instacloud_oss.Base.{
  ℕ, ◌+◌, ◌-◌, ◌≡◌, ◌≤◌, ◌<◌, suc, refl, String, string_instance, eq_iff, if◌then◌else◌, Bool,
  false, List, [], ◌∷◌, Option, none, some, ◌==◌, ◌&&◌, All, arith, Bool-cases, Option-cases, inl,
  inr, list_instance, nat_instance,
}
use instacloud_oss.Identity.Limiter.{LimiterConfig, blocked, fail, clear}
use instacloud_oss.Identity.Limiter.Guesses.{since-recent}
use instacloud_oss.Identity.Limiter.Room.{
  taken, taken-positive, taken-fail, taken-fail_self, taken-clear,
}
use instacloud_oss.Identity.Limiter.Held.{held, held-fail, held-fail_other, held-clear_other}
use instacloud_oss.Identity.Sessions.{Text, AdminRow, AuthConfig}
use instacloud_oss.Identity.Keys.{Value}
use instacloud_oss.Identity.SignIn.{
  AuthState, Draw, SignIn, refused, invalid_credentials, admin_of, normalize_email,
  check_credentials, sign_in, admit_admin, text_or_empty,
}

-- A request to sign in, with the time at which it is handled.
pub record Attempt : Type 0 where
  pub at : ℕ
  pub draw : Draw
  pub remember_me : Bool
  pub email : Value
  pub password : Value

-- How many come from other addresses.
abbrev pub others : String → List Attempt → ℕ
others ip [] = 0
others ip (a ∷ rest) = (if a.draw.ip == ip then 0 else 1) + others ip rest

-- One for an answer that says that the credentials are wrong.
abbrev pub wrong : SignIn → ℕ
wrong (refused invalid_credentials) = 1
wrong _ = 0

module _ (hash : Text → String) (verify_password : (password stored : Text) → Bool)
    (to_lower_case : Text → Text) (cfg : LimiterConfig) (auth : AuthConfig) where
  abbrev pub attempt : Attempt → AuthState → SignIn × AuthState
  attempt a s =
      sign_in hash verify_password to_lower_case cfg auth a.at a.draw a.remember_me a.email
        a.password s

  -- How many of the attempts from the address had their credentials checked and found wrong.
  unfoldable pub checked_and_wrong : String → List Attempt → AuthState → ℕ
  checked_and_wrong ip [] s = 0
  checked_and_wrong ip (a ∷ rest) s =
      let (answer, after) = attempt a s in
      let later = checked_and_wrong ip rest after in
      (if a.draw.ip == ip then wrong answer else 0) + later

  -- What an attempt with a password that nothing verifies did.
  data Fate (a : Attempt) (s : AuthState) (p : SignIn × AuthState) : Type 0 where
    unchecked : wrong p.0 ≡ 0 → p.1.limiter ≡ s.limiter → Fate a s p
    counted :
        wrong p.0 ≡ 1
        → blocked cfg a.at a.draw.ip s.limiter ≡ false
        → p.1.limiter ≡ fail cfg a.at a.draw.ip s.limiter
        → Fate a s p

  Hopeless : Attempt → Type 0
  Hopeless a = (stored : Text) → verify_password (text_or_empty a.password) stored ≡ false

  check_credentials-Fate :
      (a : Attempt) (email : Text) (o : Option AdminRow) (s : AuthState)
      → Hopeless a
      → blocked cfg a.at a.draw.ip s.limiter ≡ false
      → Fate a s (
          check_credentials hash verify_password to_lower_case cfg auth a.at a.draw a.remember_me
            email
            (text_or_empty a.password)
            o
            s)
  unfolding check_credentials Hopeless
  check_credentials-Fate a email none s h b = counted refl b refl
  check_credentials-Fate a email (some admin) s h b =
      elim (Bool-cases
        (admin.email == email && verify_password (text_or_empty a.password) admin.password_hash)) [
          | inl e ↦ absurd (ground (arith, e, h admin.password_hash))
          | inr e ↦ rw (e, check_credentials) (counted refl b refl)
        ]

  attempt-Fate : (a : Attempt) (s : AuthState) → Hopeless a → Fate a s (attempt a s)
  unfolding sign_in
  attempt-Fate a s h = elim (Bool-cases (blocked cfg a.at a.draw.ip s.limiter)) [
    | inl e ↦ rw (e, sign_in) (unchecked refl refl)
    | inr e ↦ elim (Option-cases (normalize_email to_lower_case a.email)) [
      | inl f ↦ rw (e, f, sign_in) (unchecked refl refl)
      | inr (x, f) ↦ rw (e, f, sign_in) (check_credentials-Fate a x (admin_of s.identity) s h e)
    ]
  ]

  -- What any attempt does to the limiter.
  data Moves (a : Attempt) (s : AuthState) (p : SignIn × AuthState) : Type 0 where
    stays : p.1.limiter ≡ s.limiter → Moves a s p
    fails : p.1.limiter ≡ fail cfg a.at a.draw.ip s.limiter → Moves a s p
    clears : p.1.limiter ≡ clear a.draw.ip s.limiter → Moves a s p

  check_credentials-Moves :
      (a : Attempt) (email : Text) (o : Option AdminRow) (s : AuthState)
      → Moves a s (
          check_credentials hash verify_password to_lower_case cfg auth a.at a.draw a.remember_me
            email
            (text_or_empty a.password)
            o
            s)
  unfolding check_credentials admit_admin
  check_credentials-Moves a email none s = fails refl
  check_credentials-Moves a email (some admin) s =
      elim (Bool-cases
        (admin.email == email && verify_password (text_or_empty a.password) admin.password_hash)) [
          | inl e ↦ rw (e, check_credentials, admit_admin) (clears refl)
          | inr e ↦ rw (e, check_credentials) (fails refl)
        ]

  attempt-Moves : (a : Attempt) (s : AuthState) → Moves a s (attempt a s)
  unfolding sign_in
  attempt-Moves a s = elim (Bool-cases (blocked cfg a.at a.draw.ip s.limiter)) [
    | inl e ↦ rw (e, sign_in) (stays refl)
    | inr e ↦ elim (Option-cases (normalize_email to_lower_case a.email)) [
      | inl f ↦ rw (e, f, sign_in) (stays refl)
      | inr (x, f) ↦ rw (e, f, sign_in) (check_credentials-Moves a x (admin_of s.identity) s)
    ]
  ]

  module _ (ip : String) (from : ℕ) where
    -- An attempt of another address leaves what is held, and takes at most one more place.
    attempt-other :
        (a : Attempt) (s : AuthState)
        → (a.draw.ip == ip) ≡ false
        → suc (taken ip s.limiter.failures) ≤ cfg.max_ips
        → a.at < from + cfg.window_ms
        → (held cfg ip from s.limiter ≤ held cfg ip from (attempt a s).1.limiter)
          × (taken ip (attempt a s).1.limiter.failures ≤ suc (taken ip s.limiter.failures))
    attempt-other a s d room w =
        let l = s.limiter in
        elim (attempt-Moves a s) [
          | stays e ↦ rw e (omega arith, omega arith)
          | fails e ↦ rw e (
            held-fail_other cfg ip from a.at a.draw.ip l d room w,
            taken-fail ip cfg a.at a.draw.ip l,
          )
          | clears e ↦ rw e (
            omega (arith, held-clear_other cfg ip from a.draw.ip l d),
            omega (arith, taken-clear ip cfg a.draw.ip l),
          )
        ]

  -- Sign-ins come from any addresses within one window of the limiter, whose cap has room for the
  -- addresses that it has failures of, this one, and one more for each sign-in from elsewhere. If
  -- nothing verifies the passwords that come from one address, then however many sign-ins it sends,
  -- no more of them have their credentials checked than the limit, less the failures that the
  -- limiter holds against the address in that window already.
  pub checked_and_wrong-bound :
      (ip : String) (from : ℕ) (attempts : List Attempt) (s : AuthState)
      → taken ip s.limiter.failures + others ip attempts ≤ cfg.max_ips
      → All
          (λ a.
            (from ≤ a.at)
            × (a.at < from + cfg.window_ms)
            × ((a.draw.ip ≡ ip)
                → (stored : Text) → verify_password (text_or_empty a.password) stored ≡ false))
          attempts
      → checked_and_wrong ip attempts s ≤ cfg.max - held cfg ip from s.limiter
  unfolding checked_and_wrong Hopeless blocked
  checked_and_wrong-bound ip from [] s p h = omega arith
  checked_and_wrong-bound ip from (a ∷ rest) s p h =
      let (b, w, hopeless) = h.0 in
      let l = s.limiter in
      let after = (attempt a s).1 in
      elim (Bool-cases (a.draw.ip == ip)) [
        | inr d ↦
            let (kept, room) = attempt-other ip from a s d (ground (arith, d, p)) w in
            rw (d, checked_and_wrong)
              (omega (
                arith,
                kept,
                checked_and_wrong-bound ip from rest after (ground (arith, d, p, room)) h.1,
              ))
        | inl e ↦
            let i = (eq_iff a.draw.ip ip).0 e in
            elim (attempt-Fate a s (hopeless i)) [
              | unchecked n same ↦
                  let rest_bound =
                    checked_and_wrong-bound ip from rest after (ground (arith, e, p, same)) h.1 in
                  ground (arith, e, n, same, rest_bound)
              | counted n free same ↦
                  let room = taken-fail_self ip cfg a.at l in
                  let count =
                    held-fail cfg ip from a.at l b w
                      (omega (arith, taken-positive ip l.failures, p)) in
                  let rest_bound =
                    checked_and_wrong-bound ip from rest after (ground (arith, e, i, p, same, room))
                      h.1 in
                  ground (
                    arith,
                    e,
                    n,
                    same,
                    i,
                    free,
                    count,
                    rest_bound,
                    since-recent cfg ip from a.at l w,
                  )
            ]
      ]
