-- ===== src/Identity/Sessions.antt =====
-- The admin and the sessions of src/identity.ts, over the identity part of the state document
-- (src/state.ts), with the edits that `touchLater` queues as values. The random token and id of a
-- new row are arguments, the hash is a parameter, and a time is its milliseconds.
pub mod Laws
pub mod Touches
use instacloud_oss.Base.{
  ℕ, ◌+◌, ◌-◌, ◌*◌, String, Bool, true, false, List, [], ◌∷◌, ◌++◌, Option, none, some,
  string_instance, nat_instance, list_instance, ◌==◌, not, if◌then◌else◌, ltb, leb, nat_eq, filter,
  find, length, get_or,
}
use instacloud_oss.Metrics.Window.{trim_start, trim_end}

abbrev pub Text : Type 0
Text = List ℕ

pub record AdminRow : Type 0 where
  pub id : String
  pub email : Text
  pub name : Text
  pub password_hash : Text
  pub created_at : ℕ
  pub updated_at : ℕ

pub record SessionRow : Type 0 where
  pub id : String
  pub token_hash : String
  pub user_id : String
  pub created_at : ℕ
  pub updated_at : ℕ
  pub expires_at : ℕ
  pub ip_address : String
  pub user_agent : String

-- The fields `prefix` and `orgId`, which are the same in all rows, are left out.
pub record TokenRow : Type 0 where
  pub id : String
  pub name : Text
  pub key_hash : String
  pub scopes : List Text
  pub last_used_at : Option ℕ
  pub expires_at : Option ℕ
  pub revoked_at : Option ℕ
  pub created_at : ℕ

pub record IdentityState : Type 0 where
  pub admin : Option AdminRow
  pub previous_admin_id : Option String
  pub sessions : List SessionRow
  pub tokens : List TokenRow

abbrev pub empty_identity : IdentityState
empty_identity = record { admin = none; previous_admin_id = none; sessions = []; tokens = [] }

-- `Config['auth']`
pub record AuthConfig : Type 0 where
  pub enabled : Bool
  pub session_ttl_sec : ℕ
  pub session_update_age_sec : ℕ
  pub cookie_name : Text
  pub cookie_secure : Bool
  pub secret : Text

abbrev pub day_sec : ℕ
day_sec = 86400

-- The callbacks that the code hands to `touchLater`.
pub data Touch : Type 0 where
  drop_session : (id : String) → Touch
  slide_session : (id : String) (updated_at expires_at : ℕ) → Touch
  use_token : (id : String) (at : ℕ) → Touch

module _ {A : Type 0} where
  -- A change of what `find` answers.
  abbrev pub update_found : (A → Bool) → (A → A) → List A → List A
  update_found p f [] = []
  update_found p f (x ∷ xs) = let rest = update_found p f xs in if p x then f x ∷ xs else x ∷ rest

abbrev pub slide : ℕ → ℕ → SessionRow → SessionRow
slide updated expires r = record r { updated_at = updated; expires_at = expires }

unfoldable pub apply_touch : Touch → IdentityState → IdentityState
apply_touch (drop_session id) i = record i {
  sessions = filter (λ (r : SessionRow). not (r.id == id)) i.sessions;
}
apply_touch (slide_session id updated expires) i = record i {
  sessions = update_found (λ (r : SessionRow). r.id == id) (slide updated expires) i.sessions;
}
apply_touch (use_token id at) i = record i {
  tokens =
      update_found (λ (r : TokenRow). r.id == id) (λ r. record r { last_used_at = some at })
        i.tokens;
}

-- `flushTouchLater`: the queued edits, in order. A document without an identity has none to edit.
unfoldable pub flush_touch_later : List Touch → Option IdentityState → Option IdentityState
flush_touch_later [] s = s
flush_touch_later (t ∷ ts) none = flush_touch_later ts none
flush_touch_later (t ∷ ts) (some i) = flush_touch_later ts (some (apply_touch t i))

abbrev pub ensure_identity : Option IdentityState → IdentityState
ensure_identity s = get_or s empty_identity

-- The part of an address before its first `@`, which is `email.split('@')[0]`.
unfoldable pub local_part : Text → Text
local_part [] = []
local_part (c ∷ cs) = let rest = local_part cs in if nat_eq c b'@' then [] else c ∷ rest

pub data CreateAdmin : Type 0 where
  admin_exists : CreateAdmin
  made : AdminRow → CreateAdmin

-- `input.name?.trim() || input.email.split('@')[0]`
unfoldable pub admin_name : Option Text → Text → Text
admin_name none email = local_part email
admin_name (some name) email = elim (trim_end (trim_start name)) [
  | [] ↦ local_part email
  | c ∷ cs ↦ c ∷ cs
]

abbrev pub add_admin : AdminRow → IdentityState → CreateAdmin × IdentityState
add_admin a i = (made a, record i { admin = some a })

-- `fresh` is the random id.
unfoldable pub create_admin :
    ℕ → String → Text → Option Text → Text → Option IdentityState → CreateAdmin × IdentityState
create_admin now fresh email name hash s =
    let i = ensure_identity s in
    elim i.admin [
      | some _ ↦ (admin_exists, i)
      | none ↦
          add_admin
            (record {
              id = get_or i.previous_admin_id fresh;
              email = email;
              name = admin_name name email;
              password_hash = hash;
              created_at = now;
              updated_at = now;
            })
            i
    ]

module _ (hash : Text → String) where
  abbrev pub lifetime_ms : AuthConfig → Bool → ℕ
  lifetime_ms auth remember_me = (if remember_me then auth.session_ttl_sec else day_sec) * 1000

  abbrev pub new_session :
      AuthConfig → ℕ → Text → String → String → String → String → Bool → SessionRow
  new_session auth now token id user ip agent remember_me = record {
    id = id;
    token_hash = hash token;
    user_id = user;
    created_at = now;
    updated_at = now;
    expires_at = now + lifetime_ms auth remember_me;
    ip_address = ip;
    user_agent = agent;
  }

  -- The expired rows go before the new one is added.
  unfoldable pub mint_session :
      AuthConfig
      → ℕ
      → Text
      → String
      → String
      → String
      → String
      → Bool
      → Option IdentityState
      → SessionRow × IdentityState
  mint_session auth now token id user ip agent remember_me s =
      let i = ensure_identity s in
      let row = new_session auth now token id user ip agent remember_me in
      (
        row,
        record i {
          sessions = filter (λ (r : SessionRow). ltb now r.expires_at) i.sessions ++ (row ∷ []);
        },
      )

  abbrev pub has_token : Text → SessionRow → Bool
  has_token token r = r.token_hash == hash token

  -- What `findSession` answers for the row that it found, and the edits that it queues.
  unfoldable pub found_session : AuthConfig → ℕ → Option SessionRow → Option SessionRow × List Touch
  found_session auth now none = (none, [])
  found_session auth now (some r) =
      if leb r.expires_at now
      then (none, drop_session r.id ∷ [])
      else (if leb (r.updated_at + auth.session_update_age_sec * 1000) now
          then (
            some (slide now (now + (r.expires_at - r.updated_at)) r),
            slide_session r.id now (now + (r.expires_at - r.updated_at)) ∷ [],
          )
          else (some r, []))

  -- The row is changed in the caller's copy of the document, which the caller does not save.
  unfoldable pub find_session :
      AuthConfig → ℕ → Text → Option IdentityState → Option SessionRow × List Touch
  find_session auth now [] s = (none, [])
  find_session auth now (c ∷ cs) none = (none, [])
  find_session auth now (c ∷ cs) (some i) =
      found_session auth now (find (has_token (c ∷ cs)) i.sessions)

  -- Whether the token named a session, and the document without it.
  unfoldable pub revoke_session : Text → Option IdentityState → Bool × Option IdentityState
  revoke_session token none = (false, none)
  revoke_session token (some i) =
      let left = filter (λ r. not (has_token token r)) i.sessions in
      (not (nat_eq (length left) (length i.sessions)), some (record i { sessions = left }))

unfoldable pub revoke_all_sessions : Option IdentityState → Option IdentityState
revoke_all_sessions none = none
revoke_all_sessions (some i) = some (record i { sessions = [] })
