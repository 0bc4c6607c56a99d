-- ===== src/Identity/SignIn/Laws.antt =====
-- What a sign-in means.
use instacloud_oss.Base.{
  ℕ, ◌≡◌, refl, subst, String, Bool, true, false, Option, none, some, get, string_instance,
  nat_instance, list_instance, ◌==◌, ◌&&◌, arith, list_same_iff, Bool-cases, Option-cases, inl, inr,
  get-del_self,
}
use instacloud_oss.Identity.Limiter.{LimiterConfig, blocked, clear}
use instacloud_oss.Identity.Sessions.{
  Text, AdminRow, SessionRow, AuthConfig, mint_session, new_session,
}
use instacloud_oss.Identity.Keys.{Value}
use instacloud_oss.Identity.SignIn.{
  AuthState, Draw, SignIn, refused, signed_in, Refusal, admin_of, normalize_email, admit_admin,
  check_credentials, sign_in, text_or_empty,
}

module _ (hash : Text → String) (verify_password : (password stored : Text) → Bool)
    (to_lower_case : Text → Text) (cfg : LimiterConfig) (auth : AuthConfig) where
  -- What one of the outcomes says.
  pub record IsSignedIn (now : ℕ) (d : Draw) (remember_me : Bool) (email password : Text)
      (token : Text) (row : SessionRow) (admin : AdminRow) (s after : AuthState) : Type 0 where
    pub known : admin_of s.identity ≡ some admin
    pub addressed : admin.email ≡ email
    pub verified : verify_password password admin.password_hash ≡ true
    pub drawn : token ≡ d.token
    pub minted :
        (row ≡ new_session hash auth now d.token d.row_id admin.id d.ip d.user_agent remember_me)
        × (after.identity
            ≡ some
                (mint_session hash auth now d.token d.row_id admin.id d.ip d.user_agent remember_me
                  s.identity).1)
    pub cleared : get d.ip after.limiter.failures ≡ none

  abbrev pub Outcome : ℕ → Draw → Bool → Text → Text → AuthState → SignIn × AuthState → Type 0
  Outcome now d remember_me email password s (refused r, after) = after.identity ≡ s.identity
  Outcome now d remember_me email password s (signed_in token row admin, after) =
      IsSignedIn now d remember_me email password token row admin s after

  check_credentials-Outcome :
      (now : ℕ) (d : Draw) (remember_me : Bool) (email password : Text) (o : Option AdminRow)
      (s : AuthState)
      → admin_of s.identity ≡ o
      → Outcome now d remember_me email password s (
          check_credentials hash verify_password to_lower_case cfg auth now d remember_me email
            password o s)
  unfolding check_credentials admit_admin clear mint_session
  check_credentials-Outcome now d remember_me email password none s e = refl
  check_credentials-Outcome now d remember_me email password (some admin) s e =
      elim (Bool-cases (admin.email == email && verify_password password admin.password_hash)) [
        | inr f ↦ rw (f, check_credentials) refl
        | inl f ↦
            rw (f, check_credentials)
              (record {
                known = e;
                addressed = ground (arith, f, list_same_iff admin.email email);
                verified = ground (arith, f);
                drawn = refl;
                minted = (refl, refl);
                cleared = get-del_self d.ip s.limiter.failures;
              })
      ]

  outcome-refused :
      (now : ℕ) (d : Draw) (remember_me : Bool) (email password : Text) (s : AuthState)
      (r : Refusal) (p : SignIn × AuthState)
      → Outcome now d remember_me email password s p
      → p.0 ≡ refused r
      → p.1.identity ≡ s.identity
  outcome-refused now d remember_me email password s r (refused x, after) o h = o
  outcome-refused now d remember_me email password s r (signed_in t w a, after) o h = absurd (cc)

  -- A sign-in that is refused leaves the document as it was.
  pub sign_in-refused :
      (now : ℕ) (d : Draw) (remember_me : Bool) (email password : Value) (s : AuthState)
      (r : Refusal)
      → let (answer, after) =
          sign_in hash verify_password to_lower_case cfg auth now d remember_me email password s in
        answer ≡ refused r → after.identity ≡ s.identity
  unfolding sign_in
  sign_in-refused now d remember_me email password s r h =
      elim (Bool-cases (blocked cfg now d.ip s.limiter)) [
        | inl e ↦ rw (e, sign_in) refl
        | inr e ↦ elim (Option-cases (normalize_email to_lower_case email)) [
          | inl f ↦ rw (e, f, sign_in) refl
          | inr (x, f) ↦
              rw (e, f, sign_in)
                (outcome-refused now d remember_me x (text_or_empty password) s r _
                  (check_credentials-Outcome now d remember_me x (text_or_empty password)
                    (admin_of s.identity) s refl)
                  (rw (e, f, sign_in) at h))
        ]
      ]

  signed_in_injective :
      {t u : Text} {v w : SessionRow} {a b : AdminRow}
      → signed_in t v a ≡ signed_in u w b
      → (t ≡ u) × (v ≡ w) × (a ≡ b)
  signed_in_injective h = (cc, cc, cc)

  outcome-signed_in :
      (now : ℕ) (d : Draw) (remember_me : Bool) (email password : Text) (s : AuthState)
      (token : Text) (row : SessionRow) (admin : AdminRow) (p : SignIn × AuthState)
      → Outcome now d remember_me email password s p
      → p.0 ≡ signed_in token row admin
      → IsSignedIn now d remember_me email password token row admin s p.1
  outcome-signed_in now d remember_me email password s token row admin (refused x, after) o h =
      absurd (cc)
  outcome-signed_in now d remember_me email password s token row admin (signed_in t w a, after) o
        h =
      let (e, f, g) = signed_in_injective h in
      subst (λ x. IsSignedIn now d remember_me email password x row admin s after) e
        (subst (λ x. IsSignedIn now d remember_me email password t x admin s after) f
          (subst (λ x. IsSignedIn now d remember_me email password t w x s after) g o))

  -- A sign-in that succeeds was not held off by the limiter, named the admin by the address, with a
  -- password that its hash verifies; it adds a session of the admin under the drawn token and clears
  -- the failures of the client.
  pub sign_in-signed_in :
      (now : ℕ) (d : Draw) (remember_me : Bool) (email password : Value) (s : AuthState)
      (token : Text) (row : SessionRow) (admin : AdminRow)
      → let (answer, after) =
          sign_in hash verify_password to_lower_case cfg auth now d remember_me email password s in
        answer ≡ signed_in token row admin
        → (e : Text) × (normalize_email to_lower_case email ≡ some e)
          × (blocked cfg now d.ip s.limiter ≡ false)
          × IsSignedIn now d remember_me e (text_or_empty password) token row admin s after
  unfolding sign_in
  sign_in-signed_in now d remember_me email password s token row admin h =
      elim (Bool-cases (blocked cfg now d.ip s.limiter)) [
        | inl e ↦ absurd (ground (arith, e, h))
        | inr e ↦ elim (Option-cases (normalize_email to_lower_case email)) [
          | inl f ↦ absurd (ground (arith, e, f, h))
          | inr (x, f) ↦
              rw (e, f, sign_in)
                (
                  x,
                  refl,
                  refl,
                  outcome-signed_in now d remember_me x (text_or_empty password) s token row admin _
                      (check_credentials-Outcome now d remember_me x (text_or_empty password)
                        (admin_of s.identity) s refl)
                      (rw (e, f, sign_in) at h),
                )
        ]
      ]
