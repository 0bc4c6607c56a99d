-- ===== src/Identity/SignIn.antt =====
-- Signing up and in, refreshing, signing out and collecting a device login (the handlers of
-- src/auth.ts). The password hash, the conversion to lower case and the random draws are parameters
-- and arguments; the state is the limiter, the device codes and the identity part of the document.
pub mod Laws
pub mod Guesses
pub mod Enter
use instacloud_oss.Base.{
  ℕ, ◌+◌, ◌-◌, ◌/◌, String, Bool, true, false, List, [], ◌∷◌, ◌++◌, Option, none, some,
  string_instance, nat_instance, list_instance, ◌==◌, ◌&&◌, ◌||◌, not, if◌then◌else◌, ltb, leb,
  nat_eq, any, length, is_some,
}
use instacloud_oss.Metrics.Window.{is_space}
use instacloud_oss.Identity.Device.{DeviceCodeStore, DevicePoll, approved, pending, denied, poll}
use instacloud_oss.Identity.Limiter.{SignInLimiter, LimiterConfig, blocked, fail, clear}
use instacloud_oss.Identity.Sessions.{
  Text, AdminRow, SessionRow, TokenRow, IdentityState, AuthConfig, Touch, CreateAdmin, made,
  admin_exists, create_admin, mint_session, find_session, revoke_session,
}
use instacloud_oss.Identity.Keys.{Value, text, missing, null, MintToken, mint_token, token_prefix}
use instacloud_oss.Identity.Cookie.{trim_text, cut_first}
use instacloud_oss.Identity.Guard.{starts_with}

abbrev pub password_min : ℕ
password_min = 8

abbrev pub password_max : ℕ
password_max = 256

pub data Input : Type 0 where
  password_too_short password_too_long invalid_email : Input
  accepted : Text → Input

unfoldable pub check_password : Value → Input
check_password (text raw) =
    if ltb (length raw) password_min
    then password_too_short
    else (if ltb password_max (length raw) then password_too_long else accepted raw)
check_password _ = password_too_short

-- `[^\s@]+\.[^\s@]+`: a dot with something before and behind it.
unfoldable pub has_inner_dot : Text → Bool
has_inner_dot [] = false
has_inner_dot (a ∷ []) = false
has_inner_dot (a ∷ b ∷ []) = false
has_inner_dot (a ∷ b ∷ c ∷ cs) = nat_eq b b'.' || has_inner_dot (b ∷ c ∷ cs)

abbrev is_plain : Text → Bool
is_plain t = not (any (λ c. is_space c || nat_eq c b'@') t)

-- `EMAIL_RE`
unfoldable pub is_email : Text → Bool
is_email e = elim (cut_first b'@' e) [
  | none ↦ false
  | some (local, domain) ↦
      not (local == []) && (is_plain local && (is_plain domain && has_inner_dot domain))
]

abbrev text_or_empty : Value → Text
text_or_empty (text t) = t
text_or_empty _ = []

module _ (to_lower_case : Text → Text) where
  unfoldable pub normalize_email : Value → Option Text
  normalize_email raw =
      let e = to_lower_case (trim_text (text_or_empty raw)) in
      if not (e == []) && is_email e then some e else none

pub record AuthState : Type 0 where
  pub limiter : SignInLimiter
  pub identity : Option IdentityState

pub data Refusal : Type 0 where
  bad_email invalid_credentials too_many : Refusal

pub data SignIn : Type 0 where
  refused : Refusal → SignIn
  signed_in : (token : Text) (session : SessionRow) (admin : AdminRow) → SignIn

-- The random token and row id that a new session draws, with what is recorded of the client.
pub record Draw : Type 0 where
  pub token : Text
  pub row_id : String
  pub ip : String
  pub user_agent : String

abbrev pub admin_of : Option IdentityState → Option AdminRow
admin_of none = none
admin_of (some i) = i.admin

module _ (hash : Text → String) (verify_password : (password stored : Text) → Bool)
    (to_lower_case : Text → Text) (cfg : LimiterConfig) (auth : AuthConfig) where
  abbrev pub reject : ℕ → Draw → AuthState → SignIn × AuthState
  reject now d s = (refused invalid_credentials, record s { limiter = fail cfg now d.ip s.limiter })

  unfoldable pub admit_admin : ℕ → Draw → Bool → AdminRow → AuthState → SignIn × AuthState
  admit_admin now d remember_me admin s =
      let (row, i) =
        mint_session hash auth now d.token d.row_id admin.id d.ip d.user_agent remember_me
          s.identity in
      (signed_in d.token row admin, record { limiter = clear d.ip s.limiter; identity = some i })

  -- An unknown address costs a hash as well, whose answer is not used.
  unfoldable pub check_credentials :
      ℕ → Draw → Bool → Text → Text → Option AdminRow → AuthState → SignIn × AuthState
  check_credentials now d remember_me email password none s = reject now d s
  check_credentials now d remember_me email password (some admin) s =
      if admin.email == email && verify_password password admin.password_hash
      then admit_admin now d remember_me admin s
      else reject now d s

  unfoldable pub sign_in :
      ℕ → Draw → Bool → (email password : Value) → AuthState → SignIn × AuthState
  unfolding admit_admin check_credentials
  sign_in now d remember_me email password s =
      if blocked cfg now d.ip s.limiter
      then (refused too_many, s)
      else elim (normalize_email to_lower_case email) [
        | none ↦ (refused bad_email, s)
        | some e ↦
            check_credentials now d remember_me e (text_or_empty password) (admin_of s.identity) s
      ]

pub data SignUp : Type 0 where
  bad_input : Input → SignUp
  already_exists : SignUp
  signed_up : (token : Text) (admin : AdminRow) → SignUp

module _ (hash : Text → String) (hash_password : Text → Text) (to_lower_case : Text → Text)
    (auth : AuthConfig) where
  -- The admin and the first session are made in one write.
  sign_up_made :
      ℕ → Draw → CreateAdmin × IdentityState → Option IdentityState → SignUp × Option IdentityState
  sign_up_made now d (admin_exists, i) s = (already_exists, s)
  sign_up_made now d (made admin, i) s =
      let (row, j) =
        mint_session hash auth now d.token d.row_id admin.id d.ip d.user_agent true (some i) in
      (signed_up d.token admin, some j)

  sign_up_checked :
      ℕ
      → String
      → Draw
      → Text
      → Option Text
      → Input
      → Option IdentityState
      → SignUp × Option IdentityState
  sign_up_checked now fresh d email name (accepted password) s =
      if is_some (admin_of s)
      then (already_exists, s)
      else sign_up_made now d (create_admin now fresh email name (hash_password password) s) s
  sign_up_checked now fresh d email name bad s = (bad_input bad, s)

  abbrev text_of : Value → Option Text
  text_of (text t) = some t
  text_of _ = none

  unfoldable pub sign_up :
      ℕ
      → String
      → Draw
      → (email password name : Value) → Option IdentityState
      → SignUp × Option IdentityState
  unfolding sign_up_made sign_up_checked
  sign_up now fresh d email password name s = elim (normalize_email to_lower_case email) [
    | none ↦ (bad_input invalid_email, s)
    | some e ↦ sign_up_checked now fresh d e (text_of name) (check_password password) s
  ]

module _ (hash : Text → String) (auth : AuthConfig) where
  -- The seconds that a session has left, in `authResult`.
  abbrev pub expires_in : ℕ → SessionRow → ℕ
  expires_in now session = (session.expires_at - now) / 1000

  pub data Refresh : Type 0 where
    missing_token invalid_token : Refresh
    refreshed : (token : Text) (expires_in : ℕ) (admin : AdminRow) → Refresh

  refresh_found : ℕ → Text → AdminRow → Option SessionRow × List Touch → Refresh × List Touch
  refresh_found now t admin (none, touches) = (invalid_token, touches)
  refresh_found now t admin (some session, touches) =
      if session.user_id == admin.id
      then (refreshed t (expires_in now session) admin, touches)
      else (invalid_token, touches)

  refresh_with : ℕ → Text → Option AdminRow → Option IdentityState → Refresh × List Touch
  refresh_with now t none s = (invalid_token, [])
  refresh_with now t (some admin) s =
      if starts_with token_prefix t
      then (invalid_token, [])
      else refresh_found now t admin (find_session hash auth now t s)

  unfoldable pub refresh : ℕ → Value → Option IdentityState → Refresh × List Touch
  unfolding refresh_found refresh_with
  refresh now (text []) s = (missing_token, [])
  refresh now (text (c ∷ cs)) s = refresh_with now (c ∷ cs) (admin_of s) s
  refresh now _ s = (missing_token, [])

  unfoldable pub logout : Value → Option IdentityState → Option IdentityState
  logout (text []) s = s
  logout (text (c ∷ cs)) s =
      if starts_with token_prefix (c ∷ cs) then s else (revoke_session hash (c ∷ cs) s).1
  logout _ s = s

-- The poll of a device login, which mints the key where the code is collected. `name` is the text
-- that says so with the day.
pub data Collect : Type 0 where
  pending_login denied_login expired_login : Collect
  collected : MintToken → Collect

module _ (hash : Text → String) where
  collect_polled :
      ℕ → Text → String → Text → DevicePoll → Option IdentityState → Collect × Option IdentityState
  collect_polled now letters id name approved s =
      let (answer, after) = mint_token hash now letters id (text name) missing missing s in
      (collected answer, after)
  collect_polled now letters id name pending s = (pending_login, s)
  collect_polled now letters id name denied s = (denied_login, s)
  collect_polled now letters id name _ s = (expired_login, s)

  unfoldable pub collect :
      ℕ
      → Text
      → String
      → Text
      → String
      → DeviceCodeStore
      → Option IdentityState
      → Collect × DeviceCodeStore × Option IdentityState
  unfolding collect_polled
  collect now letters id name device_code d s =
      let (status, left) = poll now device_code d in
      let (answer, after) = collect_polled now letters id name status s in (answer, left, after)
