-- ===== src/Identity/Samples.antt =====
-- The daemon that the tests are about.
use instacloud_oss.Base.{
  ℕ, zero, suc, ◌∙◌, ap, ◌==◌, ◌+◌, ◌-◌, ◌*◌, ◌≡◌, ◌≢◌, ◌≤◌, ◌<◌, refl, String, Bool, true, false,
  List, [], ◌∷◌, ◌++◌, Option, none, some, arith, get, put, del, contains, string_instance,
  nat_instance, list_instance, any, nat_eq,
}
use instacloud_oss.GitDeploy.{units}
use instacloud_oss.Identity.Sessions.{Text, AdminRow, IdentityState, AuthConfig, new_session}

-- A hash that tells texts of different first characters apart.
abbrev pub hash : Text → String
hash [] = ""
hash (c ∷ cs) = instacloud_oss.Base.if◌then◌else◌ (nat_eq c b'a') "a" "other"

abbrev pub settings : AuthConfig
settings = record {
  enabled = true;
  session_ttl_sec = 604800;
  session_update_age_sec = 86400;
  cookie_name = units "insta";
  cookie_secure = false;
  secret = units "s";
}

abbrev pub root : AdminRow
root = record {
  id = "u1";
  email = units "a@b.c";
  name = units "a";
  password_hash = units "pw";
  created_at = 0;
  updated_at = 0;
}

abbrev pub box : IdentityState
box = record { admin = some root; previous_admin_id = none; sessions = []; tokens = [] }

abbrev pub cookie_token : Text
cookie_token = units "abc"

-- The document with one session under the token.
abbrev pub signed_box : IdentityState
signed_box = record box {
  sessions = new_session hash settings 5 cookie_token "s1" "u1" "::1" "ua" true ∷ [];
}
