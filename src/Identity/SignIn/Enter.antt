-- ===== src/Identity/SignIn/Enter.antt =====
-- From a sign-in to the routes behind the guard.
use instacloud_oss.Base.{
  ℕ, ◌+◌, ◌≡◌, ◌≢◌, ◌<◌, refl, ap, ◌∙◌, subst, String, Bool, true, false, [], ◌∷◌, ◌++◌, Option,
  none, some, string_instance, nat_instance, list_instance, any, nat_eq, find, contains,
}
use instacloud_oss.Identity.Limiter.{LimiterConfig}
use instacloud_oss.Identity.Sessions.{
  Text, AdminRow, SessionRow, IdentityState, AuthConfig, mint_session, has_token, lifetime_ms,
  ensure_identity, find_session,
}
use instacloud_oss.Identity.Sessions.Laws.{find_session-mint_session}
use instacloud_oss.Identity.Keys.{Value}
use instacloud_oss.Identity.Cookie.{trim_text, sign_cookie_value, read_session_cookie}
use instacloud_oss.Identity.Cookie.Laws.{IsCoding, read_session_cookie-own}
use instacloud_oss.Identity.Guard.{
  jwt, cookie, Request, Crypto, is_public_path, bearer_of, safe_methods, acts, guard,
}
use instacloud_oss.Identity.Guard.Present.{guard-cookie}
use instacloud_oss.Identity.SignIn.{AuthState, Draw, signed_in, admin_of, sign_in}
use instacloud_oss.Identity.SignIn.Laws.{sign_in-signed_in}

admin_of-some :
    (s : Option IdentityState) (a : AdminRow)
    → admin_of s ≡ some a
    → (ensure_identity s).admin ≡ some a
admin_of-some none a h = cc
admin_of-some (some i) a h = h

mint_session-admin :
    (hash : Text → String) (auth : AuthConfig) (now : ℕ) (d : Draw) (remember_me : Bool)
    (a : AdminRow) (s : Option IdentityState)
    → admin_of s ≡ some a
    → (mint_session hash auth now d.token d.row_id a.id d.ip d.user_agent remember_me s).1.admin
      ≡ some a
unfolding mint_session
mint_session-admin hash auth now d remember_me a s h = admin_of-some s a h

-- The session of a token that was drawn is found while it lasts.
found_after :
    (hash : Text → String) (auth : AuthConfig) (now later : ℕ) (token : Text) (d : Draw)
    (remember_me : Bool) (user : String) (s : Option IdentityState)
    → token ≢ []
    → token ≡ d.token
    → find (has_token hash token) (ensure_identity s).sessions ≡ none
    → later < now + lifetime_ms hash auth remember_me
    → (r : SessionRow) × ((find_session hash auth later token (
          some
            (mint_session hash auth now d.token d.row_id user d.ip d.user_agent remember_me s).1)).0
        ≡ some r)
      × (r.id ≡ d.row_id)
      × (r.user_id ≡ user)
found_after hash auth now later [] d remember_me user s t e f l = absurd (t refl)
found_after hash auth now later (c ∷ cs) d remember_me user s t e f l =
    subst
      (λ x.
        (r : SessionRow) × ((find_session hash auth later (c ∷ cs)
            (some (mint_session hash auth now x d.row_id user d.ip d.user_agent remember_me s).1)).0
          ≡ some r)
        × (r.id ≡ d.row_id)
        × (r.user_id ≡ user))
      e
      ((find_session-mint_session hash auth now later c cs d.row_id user d.ip d.user_agent
          remember_me s f).0
        l)

module _ (crypto : Crypto) (auth : AuthConfig) (url_host : Text → Option Text)
    (to_lower_case : Text → Text) (cfg : LimiterConfig)
    (verify_password : (password stored : Text) → Bool)
    (coding : IsCoding crypto.hmac_b64 crypto.encode crypto.decode auth) where
  -- Until the session of a sign-in expires, the cookie that was set for it opens the routes behind
  -- the guard, for reads, as the admin. The drawn token is not empty and its hash is that of no
  -- session there is, and the cookie's name has no space around it and no `=` or `;`.
  pub guard-sign_in :
      (now later : ℕ) (d : Draw) (remember_me : Bool) (email password : Value) (s : AuthState)
      (token : Text) (row : SessionRow) (admin : AdminRow) (req : Request)
      → let after =
          (sign_in crypto.sha256hex verify_password to_lower_case cfg auth now d remember_me email
            password s).1 in
        (sign_in crypto.sha256hex verify_password to_lower_case cfg auth now d remember_me email
            password s).0
          ≡ signed_in token row admin
        → token ≢ []
        → find (has_token crypto.sha256hex token) (ensure_identity s.identity).sessions ≡ none
        → trim_text auth.cookie_name ≡ auth.cookie_name
        → any (nat_eq b'=') auth.cookie_name ≡ false
        → any (λ c. nat_eq c b';') auth.cookie_name ≡ false
        → later < now + lifetime_ms crypto.sha256hex auth remember_me
        → bearer_of req.authorization ≡ none
        → req.cookies
          ≡ some (
              auth.cookie_name
              ++ (b'='
                  ∷ sign_cookie_value crypto.hmac_b64 crypto.encode crypto.decode auth.secret
                      token))
        → is_public_path req.method req.path ≡ false
        → contains req.method safe_methods ≡ true
        → (guard crypto auth url_host to_lower_case later req after.identity).0
          ≡ acts (record { user_id = admin.id; via = jwt; source = cookie; scopes = none })
  guard-sign_in now later d remember_me email password s token row admin req h t fresh n e m l b k
        hidden safe =
      let (x, norm, free, signed) =
        sign_in-signed_in crypto.sha256hex verify_password to_lower_case cfg auth now d remember_me
          email password s token row admin h in
      let i =
        (mint_session crypto.sha256hex auth now d.token d.row_id admin.id d.ip d.user_agent
          remember_me s.identity).1 in
      let (r, found, same, user) =
        found_after crypto.sha256hex auth now later token d remember_me admin.id s.identity t
          signed.drawn fresh l in
      rw (signed.minted.1) (
        subst
          (λ id.
            (guard crypto auth url_host to_lower_case later req (some i)).0
            ≡ acts (record { user_id = id; via = jwt; source = cookie; scopes = none }))
          user
          (guard-cookie crypto auth url_host to_lower_case later req i admin token r
            (mint_session-admin crypto.sha256hex auth now d remember_me admin s.identity
              signed.known)
            b
            (ap (read_session_cookie crypto.hmac_b64 crypto.encode crypto.decode auth) k
              ∙ read_session_cookie-own crypto.hmac_b64 crypto.encode crypto.decode auth coding
                  auth.cookie_name token n e m t)
            found user hidden safe))
