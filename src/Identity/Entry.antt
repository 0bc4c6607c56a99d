-- ===== src/Identity/Entry.antt =====
-- The cookie, the guard and signing in at concrete inputs.
use instacloud_oss.Base.{
  ℕ, zero, suc, eq_iff, ◌∙◌, ap, ◌==◌, ◌+◌, ◌-◌, ◌*◌, ◌≡◌, ◌≢◌, ◌≤◌, ◌<◌, refl, String, Bool, true,
  false, List, [], ◌∷◌, ◌++◌, Option, none, some, arith, get, put, del, contains, string_instance,
  nat_instance, list_instance, any, nat_eq,
}
use instacloud_oss.GitDeploy.{units}
use instacloud_oss.Metrics.Window.{trim_start, trim_end, is_space}
use instacloud_oss.Identity.Limiter.{default_config, recent, blocked}
use instacloud_oss.Identity.Limiter.Held.{held}
use instacloud_oss.Identity.Sessions.{
  Text, AdminRow, IdentityState, mint_session, found_session, new_session, find_session,
}
use instacloud_oss.Identity.Keys.{text, after_prefix}
use instacloud_oss.Identity.Cookie.{
  trim_text, split_on, cut_first, cut_last, read_parts, part_token, decoded_token, signed_token,
  read_session_cookie, sign_cookie_value, cookie_names, bare_name,
}
use instacloud_oss.Identity.Cookie.Laws.{
  IsCoding, SomeCarries, read_session_cookie-SomeCarries, read_session_cookie-signed,
}
use instacloud_oss.Identity.Guard.{
  Actor, jwt, cookie, Crypto, Request, acts, admit, guard, is_public_path, is_cross_site,
  safe_methods, resolve_actor, of_request, of_cookie, of_session, of_admin, bearer_of, is_api_path,
  is_webhook_path,
}
use instacloud_oss.Identity.Guard.Credentials.{Credential}
use instacloud_oss.Identity.Guard.Laws.{guard-acts}
use instacloud_oss.Identity.SignIn.{
  AuthState, Draw, SignIn, sign_in, check_credentials, admit_admin, normalize_email, is_email,
  has_inner_dot,
}
use instacloud_oss.Identity.SignIn.Guesses.{Attempt, checked_and_wrong, checked_and_wrong-bound}
use instacloud_oss.Identity.SignIn.Enter.{guard-sign_in}
use instacloud_oss.Identity.Samples.{hash, settings, root, box, cookie_token, signed_box}

-- A coding of texts for these tests: a code unit is so many `x` before a `y`.
abbrev unit_of : ℕ → Text → Text
unit_of zero rest = b'y' ∷ rest
unit_of (suc n) rest = b'x' ∷ unit_of n rest

abbrev encode : Text → Text
encode [] = []
encode (c ∷ cs) = unit_of c (encode cs)

abbrev prepend : ℕ → Option Text → Option Text
prepend n none = none
prepend n (some t) = some (n ∷ t)

abbrev decode_from : ℕ → Text → Option Text
decode_from n [] = instacloud_oss.Base.if◌then◌else◌ (nat_eq n 0) (some []) none
decode_from n (c ∷ cs) =
    let more = decode_from (suc n) cs in
    let next = decode_from 0 cs in
    instacloud_oss.Base.if◌then◌else◌ (nat_eq c b'x') more (prepend n next)

decode_unit :
    (n c : ℕ) (rest : Text) → decode_from n (unit_of c rest) ≡ prepend (n + c) (decode_from 0 rest)
decode_unit n zero rest = ground arith
decode_unit n (suc c) rest = ground (arith, decode_unit (suc n) c rest)

decode_encode : (t : Text) → decode_from 0 (encode t) ≡ some t
decode_encode [] = refl
decode_encode (c ∷ cs) = ground (arith, decode_unit 0 c (encode cs), decode_encode cs)

-- What a text of `x` and `y` has of other characters.
module _ (p : ℕ → Bool) (x : p b'x' ≡ false) (y : p b'y' ≡ false) where
  unit_free : (c : ℕ) (rest : Text) → any p rest ≡ false → any p (unit_of c rest) ≡ false
  unit_free zero rest h = ground (arith, h, y)
  unit_free (suc c) rest h = ground (arith, x, unit_free c rest h)

  encode_free : (t : Text) → any p (encode t) ≡ false
  encode_free [] = refl
  encode_free (c ∷ cs) = unit_free c (encode cs) (encode_free cs)

trim_start_free : (t : Text) → any is_space t ≡ false → trim_start t ≡ t
unfolding trim_start
trim_start_free [] h = refl
trim_start_free (c ∷ cs) h = ground (arith, h)

trim_end_free : (t : Text) → any is_space t ≡ false → trim_end t ≡ t
unfolding trim_end
trim_end_free [] h = refl
trim_end_free (c ∷ []) h = ground (arith, h)
trim_end_free (c ∷ d ∷ cs) h = rw (trim_end_free (d ∷ cs) (ground (arith, h))) refl

trim_free : (t : Text) → any is_space t ≡ false → trim_text t ≡ t
trim_free t h = ap trim_end (trim_start_free t h) ∙ trim_end_free t h

abbrev crypto : Crypto
crypto = record {
  sha256hex = hash;
  hmac_b64 = λ secret message. units "sig";
  encode = encode;
  decode = decode_from 0;
}

coding : IsCoding crypto.hmac_b64 crypto.encode crypto.decode settings
coding = record {
  decodes = decode_encode;
  closed = encode_free (λ c. nat_eq c b';') refl refl;
  spaceless = λ t. trim_free (encode t) (encode_free is_space refl refl t);
  dotless = λ secret t. refl;
}

read_session_cookie-signed_example :
    read_session_cookie crypto.hmac_b64 crypto.encode crypto.decode settings (
      some (
        units "theme=dark"
        ++ (b';'
            ∷ (units " insta"
                ++ (b'='
                    ∷ sign_cookie_value crypto.hmac_b64 crypto.encode crypto.decode
                        (units "s")
                        cookie_token)))))
    ≡ some cookie_token
unfolding read_parts part_token split_on cut_first trim_start trim_end cookie_names bare_name
    contains after_prefix
read_session_cookie-signed_example =
    read_session_cookie-signed crypto.hmac_b64 crypto.encode crypto.decode settings coding
      (units "theme=dark") (units " insta") cookie_token refl refl refl refl (λ e. cc)

-- A header as a browser sends it, under a coding that changes nothing.
abbrev plain_header : Text
plain_header = units "theme=dark; insta=abc.sig"

read_session_cookie-SomeCarries_example :
    SomeCarries crypto.hmac_b64
      (λ t. t)
      (λ t. some t)
      settings
      cookie_token
      (split_on b';' plain_header)
unfolding read_session_cookie read_parts part_token decoded_token signed_token split_on cut_first
    cut_last trim_start trim_end cookie_names bare_name contains after_prefix
read_session_cookie-SomeCarries_example =
    read_session_cookie-SomeCarries crypto.hmac_b64 (λ t. t) (λ t. some t) settings plain_header
      cookie_token refl

abbrev plain : Crypto
plain = record crypto { encode = λ t. t; decode = λ t. some t }

abbrev no_host : Text → Option Text
no_host t = none

abbrev same_text : Text → Text
same_text t = t

-- A read of the projects with a cookie.
abbrev listing : Text → Request
listing cookies = record {
  method = "GET";
  path = units "/projects";
  authorization = none;
  cookies = some cookies;
  origin = none;
  referer = none;
  host = none;
  sec_fetch_site = none;
}

abbrev as_root : Actor
as_root = record { user_id = "u1"; via = jwt; source = cookie; scopes = none }

abbrev Admitted : Type 0
Admitted =
    (i : IdentityState) × (admin : AdminRow) × (some signed_box ≡ some i)
    × (i.admin ≡ some admin)
    × ("u1" ≡ admin.id)
    × Credential plain settings 1000 i (listing plain_header) admin as_root
    × (is_public_path "GET" (units "/projects") ≡ false)
    × (cookie ≡ cookie
        → contains "GET" safe_methods ≡ false
        → is_cross_site no_host same_text (listing plain_header) ≡ false)

guard-acts_example : Admitted
unfolding guard admit resolve_actor of_request of_cookie of_session of_admin bearer_of
    is_public_path is_api_path is_webhook_path find_session found_session read_session_cookie
    read_parts part_token decoded_token signed_token split_on cut_first cut_last trim_start trim_end
    cookie_names bare_name contains after_prefix
guard-acts_example =
    guard-acts plain settings no_host same_text 1000 (listing plain_header) (some signed_box)
      as_root refl

abbrev same_password : Text → Text → Bool
same_password password stored = password == stored

abbrev visitor : Draw
visitor = record { token = cookie_token; row_id = "s1"; ip = "::1"; user_agent = "ua" }

abbrev quiet : AuthState
quiet = record { limiter = record { failures = [] }; identity = some box }

abbrev guess : ℕ → Attempt
guess t = record {
  at = t;
  draw = visitor;
  remember_me = true;
  email = text (units "a@b.c");
  password = text (units "no");
}

-- Only one password opens anything, and it comes from elsewhere.
abbrev only_yes : Text → Text → Bool
only_yes password stored = password == units "yes"

abbrev from_elsewhere : Attempt
from_elsewhere = record (guess 2) {
  draw = record visitor { ip = "::2" };
  password = text (units "yes");
}

checked_and_wrong-bound_example :
    checked_and_wrong hash only_yes same_text default_config settings "::1"
      (guess 1 ∷ from_elsewhere ∷ guess 3 ∷ [])
      quiet
    ≤ 10 - held default_config "::1" 0 quiet.limiter
unfolding get
checked_and_wrong-bound_example =
    checked_and_wrong-bound hash only_yes same_text default_config settings "::1" 0
      (guess 1 ∷ from_elsewhere ∷ guess 3 ∷ []) quiet (omega arith)
      (
        (omega arith, omega arith, λ e s. refl),
        (
          (omega arith, omega arith, λ e s. absurd (ground (arith, (eq_iff "::2" "::1").1 e))),
          ((omega arith, omega arith, λ e s. refl), tt),
        ),
      )

abbrev own_cookie : Text
own_cookie =
    settings.cookie_name
    ++ (b'='
        ∷ sign_cookie_value crypto.hmac_b64 crypto.encode crypto.decode settings.secret
            cookie_token)

abbrev sent : SignIn × AuthState
sent =
    sign_in hash same_password same_text default_config settings 5 visitor true
      (text (units "a@b.c")) (text (units "pw")) quiet

guard-sign_in_example :
    (guard crypto settings no_host same_text 1000 (listing own_cookie) sent.1.identity).0
    ≡ acts as_root
unfolding sign_in check_credentials admit_admin blocked recent get normalize_email is_email
    has_inner_dot cut_first trim_start trim_end mint_session bearer_of is_public_path is_api_path
    is_webhook_path after_prefix contains
guard-sign_in_example =
    guard-sign_in crypto settings no_host same_text default_config same_password coding 5 1000
      visitor true (text (units "a@b.c")) (text (units "pw")) quiet cookie_token
      (new_session hash settings 5 cookie_token "s1" "u1" "::1" "ua" true) root (listing own_cookie)
      refl (λ e. cc) refl refl refl refl (omega arith) refl refl refl refl
