-- ===== src/Identity/Guard.antt =====
-- The guard of the routes in server mode (src/auth.ts, with the prefixes of src/server.ts): which
-- paths are public, who a request acts as, and the test for cross-site writes. The parsing of a URL
-- and the conversion to lower case are parameters.
pub mod Credentials
pub mod Laws
pub mod Reset
pub mod Present
use instacloud_oss.Base.{
  ℕ, ◌+◌, String, Bool, true, false, List, [], ◌∷◌, ◌++◌, Option, none, some, Eq, string_instance,
  nat_instance, list_instance, ◌==◌, ◌&&◌, ◌||◌, not, if◌then◌else◌, leb, nat_eq, any, contains,
  is_some, get_or,
}
use instacloud_oss.GitDeploy.{units}
use instacloud_oss.Metrics.Window.{is_space, trim_start}
use instacloud_oss.Identity.Sessions.{
  Text, AdminRow, SessionRow, TokenRow, IdentityState, AuthConfig, Touch, find_session,
}
use instacloud_oss.Identity.Keys.{token_prefix, after_prefix, verify_token}
use instacloud_oss.Identity.Cookie.{trim_text, read_session_cookie}

abbrev pub api_prefixes : List Text
api_prefixes =
    units "/projects"
    ∷ units "/orgs"
    ∷ units "/me"
    ∷ units "/tokens"
    ∷ units "/healthz"
    ∷ units "/regions"
    ∷ units "/images"
    ∷ units "/invitations"
    ∷ units "/github"
    ∷ units "/api"
    ∷ units "/auth"
    ∷ units "/tls"
    ∷ units "/templates"
    ∷ units "/template-deployments"
    ∷ []

abbrev pub starts_with : Text → Text → Bool
starts_with p t = is_some (after_prefix p t)

unfoldable pub is_api_path : Text → Bool
is_api_path url =
    any
      (λ p. url == p || (starts_with (p ++ (b'/' ∷ [])) url || starts_with (p ++ (b'?' ∷ [])) url))
      api_prefixes

-- `/^\/webhooks\/git\/[^/]+$/`
unfoldable pub is_webhook_path : Text → Bool
is_webhook_path path = elim (after_prefix (units "/webhooks/git/") path) [
  | none ↦ false
  | some rest ↦ not (rest == []) && not (any (nat_eq b'/') rest)
]

unfoldable pub is_public_path : String → Text → Bool
is_public_path method path =
    path == units "/healthz"
    || (starts_with (units "/api/auth/") path
        || (starts_with (units "/auth/") path
            || ((method == "POST" && is_webhook_path path)
                || ((method == "GET"
                      && (path == units "/templates" || starts_with (units "/templates/") path))
                    || (method == "GET" && not (is_api_path path))))))

pub data Via : Type 0 where
  jwt api : Via

pub data Source : Type 0 where
  bearer cookie : Source

pub record Actor : Type 0 where
  pub user_id : String
  pub via : Via
  pub source : Source
  pub scopes : Option (List Text)

pub record Resolved : Type 0 where
  pub actor : Actor
  pub token : Text
  pub session : Option SessionRow
  pub admin : AdminRow

-- What the guard reads of a request; the path is the URL up to its query.
pub record Request : Type 0 where
  pub method : String
  pub path : Text
  pub authorization : Option Text
  pub cookies : Option Text
  pub origin : Option Text
  pub referer : Option Text
  pub host : Option Text
  pub sec_fetch_site : Option Text

-- The letters of `bearer`, in either case.
unfoldable pub after_word : Text → Text → Option Text
after_word [] cs = some cs
after_word (p ∷ ps) [] = none
after_word (p ∷ ps) (c ∷ cs) =
    let rest = after_word ps cs in if nat_eq c p || nat_eq (c + 32) p then rest else none

-- What `.` does not match.
abbrev ends_line : ℕ → Bool
ends_line c = nat_eq c 10 || (nat_eq c 13 || (nat_eq c 8232 || nat_eq c 8233))

abbrev pub bearer_rest : Text → Option Text
bearer_rest [] = none
bearer_rest (c ∷ cs) =
    let rest = trim_start cs in if is_space c && not (any ends_line rest) then some rest else none

-- `/^Bearer\s+(.*)$/i` on the trimmed header
unfoldable pub bearer_of : Option Text → Option Text
bearer_of none = none
bearer_of (some header) = elim (after_word (units "bearer") (trim_text header)) [
  | none ↦ none
  | some rest ↦ bearer_rest rest
]

pub record Crypto : Type 0 where
  pub sha256hex : Text → String
  pub hmac_b64 : (secret message : Text) → Text
  pub encode : Text → Text
  pub decode : Text → Option Text

module _ (crypto : Crypto) (auth : AuthConfig) where
  unfoldable pub of_admin : AdminRow → Source → Text → Option SessionRow → Option Resolved
  of_admin admin source token none = none
  of_admin admin source token (some s) =
      if s.user_id == admin.id
      then some (record {
        actor = record { user_id = s.user_id; via = jwt; source = source; scopes = none };
        token = token;
        session = some s;
        admin = admin;
      })
      else none

  unfoldable pub of_session :
      ℕ → AdminRow → Source → Text → Option IdentityState → Option Resolved × List Touch
  of_session now admin source token s =
      let (row, touches) = find_session crypto.sha256hex auth now token s in
      (of_admin admin source token row, touches)

  of_row : AdminRow → Text → Option TokenRow → Option Resolved
  of_row admin token none = none
  of_row admin token (some row) = some (record {
    actor = record { user_id = admin.id; via = api; source = bearer; scopes = some row.scopes };
    token = token;
    session = none;
    admin = admin;
  })

  of_key : ℕ → AdminRow → Text → Option IdentityState → Option Resolved × List Touch
  of_key now admin key s =
      let (row, touches) = verify_token crypto.sha256hex now key s in
      (of_row admin key row, touches)

  pub of_bearer : ℕ → AdminRow → Text → Option IdentityState → Option Resolved × List Touch
  of_bearer now admin [] s = (none, [])
  of_bearer now admin (c ∷ cs) s =
      if starts_with token_prefix (c ∷ cs)
      then of_key now admin (c ∷ cs) s
      else of_session now admin bearer (c ∷ cs) s

  unfoldable pub of_cookie :
      ℕ → AdminRow → Option Text → Option IdentityState → Option Resolved × List Touch
  of_cookie now admin none s = (none, [])
  of_cookie now admin (some token) s = of_session now admin cookie token s

  unfoldable pub of_request :
      ℕ → AdminRow → Request → Option IdentityState → Option Resolved × List Touch
  of_request now admin req s = elim (bearer_of req.authorization) [
    | some rest ↦ of_bearer now admin (trim_text rest) s
    | none ↦
        of_cookie now admin
          (read_session_cookie crypto.hmac_b64 crypto.encode crypto.decode auth req.cookies) s
  ]

  unfoldable pub resolve_actor : ℕ → Request → Option IdentityState → Option Resolved × List Touch
  unfolding of_admin of_session of_row of_key of_bearer of_cookie of_request
  resolve_actor now req none = (none, [])
  resolve_actor now req (some i) = elim i.admin [
    | none ↦ (none, [])
    | some admin ↦ of_request now admin req (some i)
  ]

module _ (url_host : Text → Option Text) (to_lower_case : Text → Text) where
  -- An `Origin` that cannot be parsed has no host.
  abbrev names_host : Option Text → Option Text → Bool
  names_host none host = false
  names_host (some []) host = false
  names_host (some (c ∷ cs)) host =
      to_lower_case (c ∷ cs) == to_lower_case (trim_text (get_or host []))

  unfoldable pub is_cross_site : Request → Bool
  is_cross_site req =
      let presented : Option Text = elim req.origin [ none ↦ req.referer | some o ↦ some o ] in
      elim presented [ none ↦ false | some o ↦ not (names_host (url_host o) req.host) ]
      || elim req.sec_fetch_site [ none ↦ false | some v ↦ v == units "cross-site" ]

abbrev pub safe_methods : List String
safe_methods = "GET" ∷ "HEAD" ∷ "OPTIONS" ∷ []

abbrev from_cookie : Source → Bool
from_cookie cookie = true
from_cookie bearer = false

-- What the hook does with a request: it lets it through, as nobody or as somebody, or answers 401
-- or 403 itself.
pub data Verdict : Type 0 where
  public unauthorized cross_site : Verdict
  acts : Actor → Verdict

module _ (crypto : Crypto) (auth : AuthConfig) (url_host : Text → Option Text)
    (to_lower_case : Text → Text) where
  unfoldable pub admit : Request → Option Resolved → Verdict
  admit req none = unauthorized
  admit req (some r) =
      if from_cookie r.actor.source
        && (not (contains req.method safe_methods) && is_cross_site url_host to_lower_case req)
      then cross_site
      else acts r.actor

  unfoldable pub guard : ℕ → Request → Option IdentityState → Verdict × List Touch
  guard now req s =
      let (resolved, touches) = resolve_actor crypto auth now req s in
      if is_public_path req.method req.path then (public, []) else (admit req resolved, touches)

-- `resetAdmin` inside its `mutate`; the answer says whether there was an admin to remove.
unfoldable pub reset_admin : Option IdentityState → Bool × Option IdentityState
reset_admin none = (false, none)
reset_admin (some i) = elim i.admin [
  | none ↦ (false, some i)
  | some a ↦ (true, some (record i { previous_admin_id = some a.id; admin = none; sessions = [] }))
]
