-- ===== src/Identity/Cookie.antt =====
-- The signed session cookie of src/identity.ts. The keyed hash in base64 and the percent coding are
-- parameters; texts are lists of code units.
pub mod Cuts
pub mod Laws
use instacloud_oss.Base.{
  ℕ, Bool, true, false, List, [], ◌∷◌, ◌++◌, Option, none, some, nat_instance, list_instance, ◌==◌,
  if◌then◌else◌, nat_eq, contains,
}
use instacloud_oss.GitDeploy.{units}
use instacloud_oss.Metrics.Window.{trim_start, trim_end}
use instacloud_oss.Identity.Sessions.{Text, AuthConfig}
use instacloud_oss.Identity.Keys.{after_prefix}

abbrev pub extend : ℕ → List Text → List Text
extend c [] = (c ∷ []) ∷ []
extend c (part ∷ parts) = (c ∷ part) ∷ parts

-- `text.split(sep)` for one character
unfoldable pub split_on : ℕ → Text → List Text
split_on sep [] = [] ∷ []
split_on sep (c ∷ cs) =
    let rest = split_on sep cs in if nat_eq c sep then [] ∷ rest else extend c rest

-- The text before and behind the first `sep` (`indexOf`, `slice`), and the last (`lastIndexOf`).
unfoldable pub cut_first : ℕ → Text → Option (Text × Text)
cut_first sep [] = none
cut_first sep (c ∷ cs) = elim (cut_first sep cs) [
  | none ↦ if nat_eq c sep then some ([], cs) else none
  | some (a, b) ↦ if nat_eq c sep then some ([], cs) else some (c ∷ a, b)
]

unfoldable pub cut_last : ℕ → Text → Option (Text × Text)
cut_last sep [] = none
cut_last sep (c ∷ cs) = elim (cut_last sep cs) [
  | none ↦ if nat_eq c sep then some ([], cs) else none
  | some (a, b) ↦ some (c ∷ a, b)
]

abbrev pub trim_text : Text → Text
trim_text t = trim_end (trim_start t)

abbrev secure_prefix : Text
secure_prefix = units "__Secure-"

-- `cookieName.replace(/^__Secure-/, '')`
unfoldable pub bare_name : Text → Text
bare_name name = elim (after_prefix secure_prefix name) [ none ↦ name | some rest ↦ rest ]

unfoldable pub cookie_names : AuthConfig → List Text
cookie_names auth =
    auth.cookie_name
    ∷ bare_name auth.cookie_name
    ∷ (secure_prefix ++ bare_name auth.cookie_name)
    ∷ []

-- The attributes of a `Set-Cookie` value, which the code joins by `; `.
pub data Attribute : Type 0 where
  cookie : (name value : Text) → Attribute
  path_root http_only same_site_lax secure : Attribute
  max_age : ℕ → Attribute

abbrev when : Bool → Attribute → List Attribute
when true a = a ∷ []
when false a = []

module _ (hmac_b64 : (secret message : Text) → Text) (encode : Text → Text)
    (decode : Text → Option Text) where
  unfoldable pub sign_cookie_value : Text → Text → Text
  sign_cookie_value secret token = encode (token ++ (b'.' ∷ hmac_b64 secret token))

  unfoldable pub set_cookie_header : AuthConfig → Text → Bool → List Attribute
  set_cookie_header auth token remember_me =
      cookie auth.cookie_name (sign_cookie_value auth.secret token)
      ∷ path_root
      ∷ http_only
      ∷ same_site_lax
      ∷ (when remember_me (max_age auth.session_ttl_sec) ++ when auth.cookie_secure secure)

  unfoldable pub clear_cookie_header : AuthConfig → List Attribute
  clear_cookie_header auth =
      cookie auth.cookie_name []
      ∷ path_root
      ∷ http_only
      ∷ same_site_lax
      ∷ max_age 0
      ∷ when auth.cookie_secure secure

  -- The token of a decoded value whose signature is right. A dot that comes first counts as none.
  unfoldable pub signed_token : Text → Option (Text × Text) → Option Text
  signed_token secret none = none
  signed_token secret (some ([], sig)) = none
  signed_token secret (some (c ∷ cs, sig)) =
      if sig == hmac_b64 secret (c ∷ cs) then some (c ∷ cs) else none

  unfoldable pub decoded_token : Text → Option Text → Option Text
  decoded_token secret none = none
  decoded_token secret (some raw) = signed_token secret (cut_last b'.' raw)

  unfoldable pub part_token : AuthConfig → Option (Text × Text) → Option Text
  part_token auth none = none
  part_token auth (some (name, value)) =
      if contains (trim_text name) (cookie_names auth)
      then decoded_token auth.secret (decode (trim_text value))
      else none

  -- The loop over the parts: the first that carries a token ends it.
  unfoldable pub read_parts : AuthConfig → List Text → Option Text
  read_parts auth [] = none
  read_parts auth (part ∷ parts) = elim (part_token auth (cut_first b'=' part)) [
    | none ↦ read_parts auth parts
    | some token ↦ some token
  ]

  unfoldable pub read_session_cookie : AuthConfig → Option Text → Option Text
  read_session_cookie auth none = none
  read_session_cookie auth (some []) = none
  read_session_cookie auth (some (c ∷ cs)) = read_parts auth (split_on b';' (c ∷ cs))
