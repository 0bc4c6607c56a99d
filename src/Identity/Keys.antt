-- ===== src/Identity/Keys.antt =====
-- The `insta_` API keys of src/identity.ts: minting, verification and revocation.
pub mod Laws
pub mod Minted
use instacloud_oss.Base.{
  ℕ, ◌+◌, ◌*◌, String, Bool, true, false, List, [], ◌∷◌, ◌++◌, Option, none, some, string_instance,
  ◌==◌, ◌&&◌, ◌||◌, not, if◌then◌else◌, ltb, leb, nat_eq, find, length, is_some, all,
}
use instacloud_oss.GitDeploy.{units}
use instacloud_oss.Metrics.Window.{trim_start, trim_end}
use instacloud_oss.Identity.Sessions.{
  Text, TokenRow, IdentityState, Touch, use_token, day_sec, update_found, ensure_identity,
}

-- A field of a JSON body, as far as the code tells its values apart.
pub data Value : Type 0 where
  missing null : Value
  text : Text → Value
  whole : ℕ → Value
  texts : List Text → Value
  other : Value

pub data KeyError : Type 0 where
  name_required name_too_long bad_scopes bad_expiry : KeyError

pub data MintToken : Type 0 where
  refused : KeyError → MintToken
  minted : TokenRow → MintToken

abbrev pub name_max : ℕ
name_max = 100

abbrev pub token_key_len : ℕ
token_key_len = 64

abbrev pub token_max_expires_days : ℕ
token_max_expires_days = 3650

-- `'insta_'`
abbrev pub token_prefix : Text
token_prefix = units "insta_"

unfoldable pub key_name : Value → Text
key_name (text t) = trim_end (trim_start t)
key_name _ = []

abbrev pub key_scopes : Value → Option (List Text)
key_scopes missing = some []
key_scopes null = some []
key_scopes (texts ts) = some ts
key_scopes _ = none

pub data Expiry : Type 0 where
  invalid : Expiry
  until : Option ℕ → Expiry

-- `d < 1` and `d > TOKEN_MAX_EXPIRES_DAYS` are refused.
unfoldable pub key_expiry : ℕ → Value → Expiry
key_expiry now missing = until none
key_expiry now null = until none
key_expiry now (whole d) =
    if ltb d 1 || ltb token_max_expires_days d
    then invalid
    else until (some (now + d * day_sec * 1000))
key_expiry now _ = invalid

-- `/^[A-Za-z]$/`
abbrev pub is_letter : ℕ → Bool
is_letter c = (leb b'A' c && leb c b'Z') || (leb b'a' c && leb c b'z')

-- `/^[A-Za-z]{64}$/`
abbrev pub is_key_body : Text → Bool
is_key_body cs = nat_eq (length cs) token_key_len && all is_letter cs

-- The rest of a text behind a prefix.
unfoldable pub after_prefix : Text → Text → Option Text
after_prefix [] cs = some cs
after_prefix (p ∷ ps) [] = none
after_prefix (p ∷ ps) (c ∷ cs) = let rest = after_prefix ps cs in if nat_eq p c then rest else none

-- `TOKEN_RE`
unfoldable pub has_key_shape : Text → Bool
has_key_shape key = elim (after_prefix token_prefix key) [
  | none ↦ false
  | some rest ↦ is_key_body rest
]

abbrev pub is_expired : ℕ → Option ℕ → Bool
is_expired now none = false
is_expired now (some t) = leb t now

module _ (hash : Text → String) where
  -- The draws are the letters behind the prefix and the id of the row.
  unfoldable pub add_token :
      ℕ
      → Text
      → String
      → Text
      → List Text
      → Option ℕ
      → Option IdentityState
      → MintToken × Option IdentityState
  add_token now letters id name scopes expires s =
      let i = ensure_identity s in
      let row : TokenRow = record {
        id = id;
        name = name;
        key_hash = hash (token_prefix ++ letters);
        scopes = scopes;
        last_used_at = none;
        expires_at = expires;
        revoked_at = none;
        created_at = now;
      } in
      (minted row, some (record i { tokens = row ∷ i.tokens }))

  unfoldable pub mint_checked :
      ℕ
      → Text
      → String
      → Text
      → Option (List Text)
      → Expiry
      → Option IdentityState
      → MintToken × Option IdentityState
  mint_checked now letters id name none expiry s = (refused bad_scopes, s)
  mint_checked now letters id name (some scopes) invalid s = (refused bad_expiry, s)
  mint_checked now letters id name (some scopes) (until expires) s =
      add_token now letters id name scopes expires s

  unfoldable pub mint_named :
      ℕ
      → Text
      → String
      → Text
      → (scopes expires_in_days : Value) → Option IdentityState
      → MintToken × Option IdentityState
  mint_named now letters id [] scopes days s = (refused name_required, s)
  mint_named now letters id (c ∷ cs) scopes days s =
      if ltb name_max (length (c ∷ cs))
      then (refused name_too_long, s)
      else mint_checked now letters id (c ∷ cs) (key_scopes scopes) (key_expiry now days) s

  unfoldable pub mint_token :
      ℕ
      → Text
      → String
      → (name scopes expires_in_days : Value) → Option IdentityState
      → MintToken × Option IdentityState
  mint_token now letters id name scopes days s =
      mint_named now letters id (key_name name) scopes days s

  abbrev pub has_key : Text → TokenRow → Bool
  has_key key r = r.key_hash == hash key

  unfoldable pub verify_found : ℕ → Option TokenRow → Option TokenRow × List Touch
  verify_found now none = (none, [])
  verify_found now (some r) =
      if is_some r.revoked_at || is_expired now r.expires_at
      then (none, [])
      else (some (record r { last_used_at = some now }), use_token r.id now ∷ [])

  -- The row is stamped in the caller's copy of the document, and by an edit for later.
  unfoldable pub verify_token : ℕ → Text → Option IdentityState → Option TokenRow × List Touch
  verify_token now key none = (none, [])
  verify_token now key (some i) =
      if has_key_shape key then verify_found now (find (has_key key) i.tokens) else (none, [])

abbrev pub has_id : String → TokenRow → Bool
has_id id r = r.id == id

abbrev pub revoke_at : ℕ → TokenRow → TokenRow
revoke_at now r = record r { revoked_at = some now }

unfoldable pub revoke_found : ℕ → String → Option TokenRow → IdentityState → Bool × IdentityState
revoke_found now id none i = (false, i)
revoke_found now id (some r) i =
    if is_some r.revoked_at
    then (false, i)
    else (true, record i { tokens = update_found (has_id id) (revoke_at now) i.tokens })

unfoldable pub revoke_token : ℕ → String → Option IdentityState → Bool × Option IdentityState
revoke_token now id none = (false, none)
revoke_token now id (some i) =
    let (done, left) = revoke_found now id (find (has_id id) i.tokens) i in (done, some left)
