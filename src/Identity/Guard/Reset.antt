-- ===== src/Identity/Guard/Reset.antt =====
-- What is left of an admin after `--reset-admin`.
use instacloud_oss.Base.{
  ℕ, ◌≡◌, ◌≢◌, refl, String, [], ◌∷◌, Option, none, some, arith, Option-cases, inl, inr,
}
use instacloud_oss.Identity.Sessions.{
  Text, AdminRow, IdentityState, AuthConfig, made, admin_name, create_admin, find_session,
  found_session,
}
use instacloud_oss.Identity.Guard.{Actor, Request, Crypto, acts, guard, reset_admin}
use instacloud_oss.Identity.Guard.Laws.{guard-acts}

no_admin_after :
    (s : Option IdentityState) (i : IdentityState) → (reset_admin s).1 ≡ some i → i.admin ≡ none
unfolding reset_admin
no_admin_after none i h = cc
no_admin_after (some j) i h = elim (Option-cases j.admin) [
  | inl e ↦ ground (arith, e, h)
  | inr (a, e) ↦ ground (arith, e, h)
]

-- After a reset nobody is let through as somebody, whatever they present, until there is an admin
-- again.
pub guard-reset_admin :
    (crypto : Crypto) (auth : AuthConfig) (url_host : Text → Option Text)
    (to_lower_case : Text → Text) (now : ℕ) (req : Request) (s : Option IdentityState) (a : Actor)
    → (guard crypto auth url_host to_lower_case now req (reset_admin s).1).0 ≢ acts a
guard-reset_admin crypto auth url_host to_lower_case now req s a h =
    let (i, admin, k, n, _, _, _, _) =
      guard-acts crypto auth url_host to_lower_case now req (reset_admin s).1 a h in
    ground (arith, n, no_admin_after s i k)

no_sessions :
    (hash : Text → String) (auth : AuthConfig) (now : ℕ) (token : Text) (i : IdentityState)
    → i.sessions ≡ []
    → find_session hash auth now token (some i) ≡ (none, [])
unfolding find_session found_session
no_sessions hash auth now [] i h = refl
no_sessions hash auth now (c ∷ cs) i h = ground (arith, h)

-- The admin that is made after a reset has the id of the one before and the new credentials, every
-- key is kept, and no token finds a session.
pub create_admin-reset_admin :
    (now : ℕ) (fresh : String) (email : Text) (name : Option Text) (password_hash : Text)
    (i : IdentityState) (old : AdminRow)
    → i.admin ≡ some old
    → let (answer, after) =
        create_admin now fresh email name password_hash (reset_admin (some i)).1 in
      ((b : AdminRow) × (answer ≡ made b)
        × (after.admin ≡ some b)
        × (b.id ≡ old.id)
        × (b.email ≡ email)
        × (b.password_hash ≡ password_hash))
      × (after.tokens ≡ i.tokens)
      × ((hash : Text → String) (auth : AuthConfig) (later : ℕ) (token : Text)
          → find_session hash auth later token (some after) ≡ (none, []))
unfolding create_admin reset_admin
create_admin-reset_admin now fresh email name password_hash i old h = rw h (
  (
    record {
      id = old.id;
      email = email;
      name = admin_name name email;
      password_hash = password_hash;
      created_at = now;
      updated_at = now;
    },
    refl,
    refl,
    refl,
    refl,
    refl,
  ),
  refl,
  λ hash auth later token. no_sessions hash auth later token _ refl,
)
