-- ===== src/GitDeploy.antt =====
-- Push-to-deploy (src/gitdeploy.ts). A text is the list of its code units.
pub mod Laws
mod Tests
use Prim.Native.Char.{code}
use instacloud_oss.Base.{
  ℕ, ◌+◌, ◌-◌, ◌*◌, String, Bool, true, false, List, [], ◌∷◌, ◌++◌, Option, none, some, get_or,
  ◌&&◌, ◌||◌, not, if◌then◌else◌, leb, nat_eq, length, take, drop, filter, all, min, list_instance,
  nat_instance, ◌==◌,
}

abbrev pub Text : Type 0
Text = List ℕ

abbrev pub units : String → Text
units String.[] = []
units (String.◌∷◌ first rest) = code first ∷ units rest

-- The fields of a binding that its build reads.
pub record GitBinding : Type 0 where
  pub owner : Text
  pub repo : Text
  pub token : Text

pub record BuildSpec : Type 0 where
  pub args : List Text
  pub env : List (Text × Text)

abbrev pub build_context_url : GitBinding → Text → Text
build_context_url b fragment =
    units "https://github.com/" ++ b.owner ++ b'/' ∷ b.repo ++ units ".git#" ++ fragment

abbrev pub secret_args : Text → List Text
secret_args [] = []
secret_args (c ∷ cs) = units "--secret" ∷ units "id=GIT_AUTH_TOKEN,env=GIT_AUTH_TOKEN" ∷ []

abbrev pub token_env : Text → List (Text × Text)
token_env [] = []
token_env (c ∷ cs) = (units "GIT_AUTH_TOKEN", c ∷ cs) ∷ []

unfoldable pub docker_build_spec : GitBinding → Text → Text → BuildSpec
docker_build_spec b tag fragment = record {
  args =
      units "build" ∷ units "--pull" ∷ secret_args b.token
      ++ units "-t" ∷ tag ∷ build_context_url b fragment ∷ [];
  env = (units "DOCKER_BUILDKIT", units "1") ∷ token_env b.token;
}

abbrev pub is_hex : ℕ → Bool
is_hex c = (leb b'0' c && leb c b'9') || ((leb b'a' c && leb c b'f') || (leb b'A' c && leb c b'F'))

abbrev or_manual : Text → Text
or_manual [] = units "manual"
or_manual (c ∷ cs) = c ∷ cs

unfoldable pub image_tag : Text → Option Text → Text
image_tag id sha =
    units "io-git-"
    ++ filter (λ c. not (nat_eq c b'-')) id
    ++ b':' ∷ or_manual (take 12 (filter is_hex (get_or sha [])))

-- A time in milliseconds, before 1970 or since.
pub data Stamp : Type 0 where
  before since : ℕ → Stamp

-- `Math.min(stamp, now)`
abbrev pub clamp : Stamp → ℕ → Stamp
clamp (before n) now = before n
clamp (since n) now = since (min n now)

-- The payload of a webhook, as far as the code reads it: a field is `none` where it is no text, and
-- the timestamp where it is no date.
pub record PushBody : Type 0 where
  pub deleted : Bool
  pub ref : Option Text
  pub after : Option Text
  pub timestamp : Option Stamp

pub record Push : Type 0 where
  pub branch : Text
  pub sha : Text
  pub ts : Stamp

abbrev pub heads : Text
heads = units "refs/heads/"

-- The two regular expressions on `after`.
unfoldable pub is_commit : Text → Bool
is_commit sha =
    (nat_eq (length sha) 40 || nat_eq (length sha) 64)
    && (all is_hex sha && not (all (λ c. nat_eq c b'0') sha))

unfoldable pub push_of : Text → Text → Option Stamp → ℕ → Option Push
push_of ref sha timestamp now =
    if take 11 ref == heads && is_commit sha
    then some
        (record { branch = drop 11 ref; sha = sha; ts = clamp (get_or timestamp (since now)) now })
    else none

unfoldable pub push_ref : Text → PushBody → ℕ → Option Push
unfolding push_of
push_ref event body now =
    if not (event == units "push") || body.deleted then none else elim body.ref [
      | none ↦ none
      | some ref ↦ elim body.after [ none ↦ none | some sha ↦ push_of ref sha body.timestamp now ]
    ]

-- What a route may show of a stored binding.
pub record StoredBinding : Type 0 where
  pub id : Text
  pub binding : GitBinding
  pub ref : Text
  pub webhook_secret : Text
  pub created_at : Text
  pub last_deployed_sha : Option Text
  pub branch_name : Text
  pub group : Text

pub record BindingOut : Type 0 where
  pub id : Text
  pub repo : Text
  pub ref : Text
  pub group : Text
  pub branch : Text
  pub is_private : Bool
  pub last_deployed_sha : Option Text
  pub created_at : Text

abbrev pub has_token : Text → Bool
has_token [] = false
has_token (c ∷ cs) = true

unfoldable pub binding_out : StoredBinding → BindingOut
binding_out r = record {
  id = r.id;
  repo = r.binding.owner ++ b'/' ∷ r.binding.repo;
  ref = r.ref;
  group = r.group;
  branch = r.branch_name;
  is_private = has_token r.binding.token;
  last_deployed_sha = r.last_deployed_sha;
  created_at = r.created_at;
}

-- The value of a hexadecimal digit, and of pairs of them.
abbrev pub hex_value : ℕ → ℕ
hex_value c = if leb c b'9' then c - b'0' else (if leb b'a' c then c - b'a' + 10 else c - b'A' + 10)

unfoldable pub from_hex : Text → List ℕ
from_hex [] = []
from_hex (c ∷ []) = []
from_hex (c ∷ d ∷ cs) = (hex_value c * 16 + hex_value d) ∷ from_hex cs

-- `/^sha256=([a-f0-9]{64})$/i`, where `to_lower` is the case folding of the expression.
abbrev pub is_signature : (Text → Text) → Text → Bool
is_signature to_lower t =
    to_lower (take 7 t) == units "sha256="
    && (nat_eq (length (drop 7 t)) 64 && all is_hex (drop 7 t))

-- `hmac` is the keyed hash of the secret over the body; `none` is a header that is no text.
unfoldable pub verify_signature :
    (Text → Text) → (Text → Text) → (Text → List ℕ → List ℕ) → Text → List ℕ → Option Text → Bool
verify_signature trim to_lower hmac secret body none = false
verify_signature trim to_lower hmac secret body (some header) =
    is_signature to_lower (trim header) && from_hex (drop 7 (trim header)) == hmac secret body

-- `/^[A-Za-z0-9._/-]+$/`
abbrev pub is_ref_char : ℕ → Bool
is_ref_char c =
    (leb b'a' c && leb c b'z')
    || ((leb b'A' c && leb c b'Z')
        || ((leb b'0' c && leb c b'9')
            || (nat_eq c b'.' || (nat_eq c b'_' || (nat_eq c b'/' || nat_eq c b'-')))))

unfoldable pub has_double_dot : Text → Bool
has_double_dot [] = false
has_double_dot (c ∷ []) = false
has_double_dot (c ∷ d ∷ cs) = (nat_eq c b'.' && nat_eq d b'.') || has_double_dot (d ∷ cs)

abbrev or_main : Text → Text
or_main [] = units "main"
or_main (c ∷ cs) = c ∷ cs

-- `none` where the code throws; the argument is `none` where it is no text.
unfoldable pub normalize_ref : (Text → Text) → Option Text → Option Text
normalize_ref trim input =
    let s = or_main (elim input [ none ↦ [] | some t ↦ trim t ]) in
    if not (all is_ref_char s) || has_double_dot s then none else some s
