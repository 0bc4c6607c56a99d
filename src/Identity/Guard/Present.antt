-- ===== src/Identity/Guard/Present.antt =====
-- A request that presents a session by its cookie.
use instacloud_oss.Base.{
  ℕ, ◌≡◌, true, false, Option, none, some, string_instance, contains, arith, eq_iff,
}
use instacloud_oss.Identity.Sessions.{
  Text, AdminRow, SessionRow, IdentityState, AuthConfig, find_session,
}
use instacloud_oss.Identity.Cookie.{read_session_cookie}
use instacloud_oss.Identity.Guard.{
  jwt, cookie, Request, Crypto, is_public_path, bearer_of, of_admin, of_session, of_cookie,
  of_request, resolve_actor, safe_methods, acts, admit, guard,
}

module _ (crypto : Crypto) (auth : AuthConfig) where
  -- A request without a bearer whose cookie carries the token of a session of the admin.
  of_request-cookie :
      (now : ℕ) (req : Request) (i : IdentityState) (admin : AdminRow) (token : Text)
      (row : SessionRow)
      → bearer_of req.authorization ≡ none
      → read_session_cookie crypto.hmac_b64 crypto.encode crypto.decode auth req.cookies
        ≡ some token
      → (find_session crypto.sha256hex auth now token (some i)).0 ≡ some row
      → row.user_id ≡ admin.id
      → (of_request crypto auth now admin req (some i)).0
        ≡ some (record {
          actor = record { user_id = row.user_id; via = jwt; source = cookie; scopes = none };
          token = token;
          session = some row;
          admin = admin;
        })
  unfolding of_request of_cookie of_session of_admin
  of_request-cookie now req i admin token row b c f u =
      rw (b, c, of_request) (rw (f, of_admin) (ground (arith, u, eq_iff row.user_id admin.id)))

  resolve_actor-cookie :
      (now : ℕ) (req : Request) (i : IdentityState) (admin : AdminRow) (token : Text)
      (row : SessionRow)
      → i.admin ≡ some admin
      → bearer_of req.authorization ≡ none
      → read_session_cookie crypto.hmac_b64 crypto.encode crypto.decode auth req.cookies
        ≡ some token
      → (find_session crypto.sha256hex auth now token (some i)).0 ≡ some row
      → row.user_id ≡ admin.id
      → (resolve_actor crypto auth now req (some i)).0
        ≡ some (record {
          actor = record { user_id = row.user_id; via = jwt; source = cookie; scopes = none };
          token = token;
          session = some row;
          admin = admin;
        })
  unfolding resolve_actor
  resolve_actor-cookie now req i admin token row a b c f u =
      rw (a, resolve_actor) (of_request-cookie now req i admin token row b c f u)

  -- A read that presents a live session of the admin is let through as the admin.
  pub guard-cookie :
      (url_host : Text → Option Text) (to_lower_case : Text → Text) (now : ℕ) (req : Request)
      (i : IdentityState) (admin : AdminRow) (token : Text) (row : SessionRow)
      → i.admin ≡ some admin
      → bearer_of req.authorization ≡ none
      → read_session_cookie crypto.hmac_b64 crypto.encode crypto.decode auth req.cookies
        ≡ some token
      → (find_session crypto.sha256hex auth now token (some i)).0 ≡ some row
      → row.user_id ≡ admin.id
      → is_public_path req.method req.path ≡ false
      → contains req.method safe_methods ≡ true
      → (guard crypto auth url_host to_lower_case now req (some i)).0
        ≡ acts (record { user_id = row.user_id; via = jwt; source = cookie; scopes = none })
  unfolding guard admit
  guard-cookie url_host to_lower_case now req i admin token row a b c f u p s =
      rw (p, guard)
        (rw (resolve_actor-cookie now req i admin token row a b c f u, admit) (ground (arith, s)))
