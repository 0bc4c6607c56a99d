-- ===== src/Identity/Tests.antt =====
-- Sessions, keys and the reset of the admin at concrete inputs.
use instacloud_oss.Base.{
  ℕ, ◌+◌, ◌≡◌, refl, String, true, false, List, [], ◌∷◌, ◌++◌, none, some, string_instance,
  nat_instance, list_instance,
}
use instacloud_oss.GitDeploy.{units}
use instacloud_oss.Metrics.Window.{trim_start, trim_end}
use instacloud_oss.Identity.Sessions.{
  Text, AdminRow, TokenRow, AuthConfig, Touch, drop_session, slide_session, made, find_session,
  flush_touch_later, create_admin,
}
use instacloud_oss.Identity.Sessions.Touches.{holds_session, flush-revives_none}
use instacloud_oss.Identity.Keys.{
  text, whole, missing, mint_token, mint_named, mint_checked, add_token, key_name, key_expiry,
  verify_token, revoke_token, token_prefix,
}
use instacloud_oss.Identity.Keys.Laws.{verify-revoke_token}
use instacloud_oss.Identity.Keys.Minted.{Outcome, mint_token-Outcome, verify_token-mint_token}
use instacloud_oss.Identity.Guard.{reset_admin}
use instacloud_oss.Identity.Guard.Reset.{create_admin-reset_admin}
use instacloud_oss.Identity.Samples.{hash, root, box, cookie_token, signed_box}

abbrev late_edits : List Touch
late_edits = slide_session "s1" 9 99 ∷ drop_session "s2" ∷ []

flush-revives_none_example :
    holds_session hash cookie_token (flush_touch_later late_edits (some box)) ≡ false
unfolding holds_session
flush-revives_none_example = flush-revives_none hash cookie_token late_edits (some box) refl

-- 64 letters
abbrev letters : Text
letters = units "aaaaaaaabbbbbbbbccccccccddddddddeeeeeeeeffffffffgggggggghhhhhhhh"

mint_token-Outcome_example :
    Outcome hash 7 letters
      (some box)
      (mint_token hash 7 letters "k1" (text (units "ci")) missing (whole 30) (some box))
mint_token-Outcome_example =
    mint_token-Outcome hash 7 letters "k1" (text (units "ci")) missing (whole 30) (some box)

abbrev ci_key : TokenRow
ci_key = record {
  id = "k1";
  name = units "ci";
  key_hash = "other";
  scopes = [];
  last_used_at = none;
  expires_at = some (7 + 2592000000);
  revoked_at = none;
  created_at = 7;
}

verify_token-mint_token_example :
    (verify_token hash 1000
      (token_prefix ++ letters)
      (mint_token hash 7 letters "k1" (text (units "ci")) missing (whole 30) (some box)).1).0
    ≡ some (record ci_key { last_used_at = some 1000 })
unfolding mint_token mint_named mint_checked add_token key_name key_expiry trim_start trim_end
verify_token-mint_token_example =
    verify_token-mint_token hash 7 1000 letters "k1" (text (units "ci")) missing (whole 30)
      (some box) ci_key refl refl

verify-revoke_token_example :
    let (done, after) = revoke_token 50 "k1" (some (record box { tokens = ci_key ∷ [] })) in
    (done ≡ true)
    × (verify_token hash 60 (token_prefix ++ letters) after ≡ (none, []))
    × ((revoke_token 60 "k1" after).0 ≡ false)
verify-revoke_token_example =
    verify-revoke_token hash 50 60 (token_prefix ++ letters) "k1"
      (record box { tokens = ci_key ∷ [] }) ci_key refl refl refl

create_admin-reset_admin_example :
    let (answer, after) =
      create_admin 9 "fresh"
        (units "n@b.c")
        none
        (units "hash")
        (reset_admin (some signed_box)).1 in
    ((b : AdminRow) × (answer ≡ made b)
      × (after.admin ≡ some b)
      × (b.id ≡ "u1")
      × (b.email ≡ units "n@b.c")
      × (b.password_hash ≡ units "hash"))
    × (after.tokens ≡ [])
    × ((h : Text → String) (auth : AuthConfig) (later : ℕ) (token : Text)
        → find_session h auth later token (some after) ≡ (none, []))
create_admin-reset_admin_example =
    create_admin-reset_admin 9 "fresh" (units "n@b.c") none (units "hash") signed_box root refl
