-- ===== src/Identity/Guard/Laws.antt =====
-- Whom the guard lets through.
use instacloud_oss.Base.{
  ℕ, ◌≡◌, refl, ap, sym, ◌∙◌, subst, false, Option, none, some, string_instance, nat_instance,
  list_instance, ◌&&◌, not, contains, arith, Bool-cases, Option-cases, inl, inr,
}
use instacloud_oss.Identity.Sessions.{Text, AdminRow, IdentityState, AuthConfig}
use instacloud_oss.Identity.Guard.{
  cookie, Actor, Resolved, Request, Crypto, is_public_path, resolve_actor, is_cross_site,
  safe_methods, from_cookie, acts, admit, guard,
}
use instacloud_oss.Identity.Guard.Credentials.{Credential, Vouched, of_request-Vouched}

module _ (crypto : Crypto) (auth : AuthConfig) (url_host : Text → Option Text)
    (to_lower_case : Text → Text) where
  acts_injective : {a b : Actor} → acts a ≡ acts b → a ≡ b
  acts_injective h = cc

  resolve_actor-some :
      (now : ℕ) (req : Request) (s : Option IdentityState) (r : Resolved)
      → (resolve_actor crypto auth now req s).0 ≡ some r
      → (i : IdentityState) × (admin : AdminRow) × (s ≡ some i)
        × (i.admin ≡ some admin)
        × (r.actor.user_id ≡ admin.id)
        × Credential crypto auth now i req admin r.actor
  unfolding resolve_actor
  resolve_actor-some now req none r h = cc
  resolve_actor-some now req (some i) r h = elim (Option-cases i.admin) [
    | inl e ↦ absurd (ground (arith, e, h))
    | inr (admin, e) ↦
        let (user, credential) =
          subst (Vouched crypto auth now i req admin) (rw (e, resolve_actor) at h)
            (of_request-Vouched crypto auth now i req admin) in
        (i, admin, refl, e, user, credential)
  ]

  -- What `admit` lets through was resolved, and is no cross-site write by cookie.
  admit-acts :
      (req : Request) (o : Option Resolved) (a : Actor)
      → admit crypto auth url_host to_lower_case req o ≡ acts a
      → (r : Resolved) × (o ≡ some r)
        × (r.actor ≡ a)
        × (a.source ≡ cookie
            → contains req.method safe_methods ≡ false
            → is_cross_site url_host to_lower_case req ≡ false)
  unfolding admit
  admit-acts req none a h = cc
  admit-acts req (some r) a h =
      elim (Bool-cases (
        from_cookie r.actor.source
        && (not (contains req.method safe_methods) && is_cross_site url_host to_lower_case req))) [
          | inl e ↦ absurd (ground (arith, e, h))
          | inr e ↦
              let same = acts_injective (rw (e, admit) at h) in
              (r, refl, same, λ c u. ground (arith, e, c, u, ap (λ (x : Actor). x.source) same))
        ]

  -- Whoever the guard lets through as somebody is the admin of the document, by a token that the
  -- request itself carries and that names a session of the admin or a key that was live at the time:
  -- behind `Bearer` in its `Authorization` header or, where there is none and for a session only, in
  -- a cookie with the daemon's signature. It is no cross-site write that rests on a cookie, and the
  -- path is none of the public ones.
  pub guard-acts :
      (now : ℕ) (req : Request) (s : Option IdentityState) (a : Actor)
      → (guard crypto auth url_host to_lower_case now req s).0 ≡ acts a
      → (i : IdentityState) × (admin : AdminRow) × (s ≡ some i)
        × (i.admin ≡ some admin)
        × (a.user_id ≡ admin.id)
        × Credential crypto auth now i req admin a
        × (is_public_path req.method req.path ≡ false)
        × (a.source ≡ cookie
            → contains req.method safe_methods ≡ false
            → is_cross_site url_host to_lower_case req ≡ false)
  unfolding guard
  guard-acts now req s a h = elim (Bool-cases (is_public_path req.method req.path)) [
    | inl e ↦ absurd (ground (arith, e, h))
    | inr e ↦
        let (r, resolved, same, safe) =
          admit-acts req (resolve_actor crypto auth now req s).0 a (rw (e, guard) at h) in
        let (i, admin, k, n, user, credential) = resolve_actor-some now req s r resolved in
        (
          i,
          admin,
          k,
          n,
          ap (λ (x : Actor). x.user_id) (sym same) ∙ user,
          subst (Credential crypto auth now i req admin) same credential,
          e,
          safe,
        )
  ]
