-- ===== src/Identity/Keys/Minted.antt =====
-- What a minted key is good for.
use instacloud_oss.Base.{
  ℕ, ◌+◌, ◌*◌, ◌≡◌, ◌≤◌, ◌<◌, refl, subst, String, true, List, [], ◌∷◌, ◌++◌, Option, none, some,
  string_instance, if◌then◌else◌, ltb, length, arith, Bool-cases, inl, inr, eq_iff,
}
use instacloud_oss.Identity.Sessions.{Text, TokenRow, IdentityState, day_sec, ensure_identity}
use instacloud_oss.Identity.Keys.{
  Value, missing, whole, null, text, texts, other, MintToken, refused, minted, name_max,
  token_max_expires_days, token_prefix, key_name, key_scopes, Expiry, invalid, until, key_expiry,
  is_key_body, is_expired, add_token, mint_checked, mint_named, mint_token, verify_found,
  verify_token,
}
use instacloud_oss.Identity.Keys.Laws.{has_key_shape-minted}

minted_injective : {a b : TokenRow} → minted a ≡ minted b → a ≡ b
minted_injective h = cc

-- An expiry that is accepted lies between one day and 3650 days ahead.
key_expiry-until :
    (now t : ℕ) (v : Value)
    → key_expiry now v ≡ until (some t)
    → (now + day_sec * 1000 ≤ t) × (t ≤ now + token_max_expires_days * day_sec * 1000)
unfolding key_expiry
key_expiry-until now t missing h = (cc, cc)
key_expiry-until now t null h = (cc, cc)
key_expiry-until now t (whole d) h = (ground (arith, h), ground (arith, h))
key_expiry-until now t (text x) h = (cc, cc)
key_expiry-until now t (texts x) h = (cc, cc)
key_expiry-until now t other h = (cc, cc)

module _ (hash : Text → String) where
  -- What a call that minted a row knows of it and of the document.
  pub record IsMinted (now : ℕ) (letters : Text) (row : TokenRow) (s after : Option IdentityState)
      : Type 0 where
    pub hashed : row.key_hash ≡ hash (token_prefix ++ letters)
    pub live : row.revoked_at ≡ none
    pub named : (0 < length row.name) × (length row.name ≤ name_max)
    pub expiring :
        (t : ℕ)
        → row.expires_at ≡ some t
        → (now + day_sec * 1000 ≤ t) × (t ≤ now + token_max_expires_days * day_sec * 1000)
    pub first :
        after ≡ some (record (ensure_identity s) { tokens = row ∷ (ensure_identity s).tokens })

  -- The two outcomes of a minting.
  abbrev pub Outcome : ℕ → Text → Option IdentityState → MintToken × Option IdentityState → Type 0
  Outcome now letters s (refused e, after) = after ≡ s
  Outcome now letters s (minted row, after) = IsMinted now letters row s after

  mint_checked-Outcome :
      (now : ℕ) (letters : Text) (id : String) (name : Text) (scopes : Option (List Text))
      (e : Expiry) (s : Option IdentityState)
      → 0 < length name
      → length name ≤ name_max
      → ((t : ℕ)
          → e ≡ until (some t)
          → (now + day_sec * 1000 ≤ t) × (t ≤ now + token_max_expires_days * day_sec * 1000))
      → Outcome now letters s (mint_checked hash now letters id name scopes e s)
  unfolding mint_checked add_token
  mint_checked-Outcome now letters id name none e s n m h = refl
  mint_checked-Outcome now letters id name (some scopes) invalid s n m h = refl
  mint_checked-Outcome now letters id name (some scopes) (until expires) s n m h = record {
    hashed = refl;
    live = refl;
    named = (n, m);
    expiring = λ t k. h t (rw k refl);
    first = refl;
  }

  mint_named-Outcome :
      (now : ℕ) (letters : Text) (id : String) (name : Text) (scopes days : Value)
      (s : Option IdentityState)
      → Outcome now letters s (mint_named hash now letters id name scopes days s)
  unfolding mint_named
  mint_named-Outcome now letters id [] scopes days s = refl
  mint_named-Outcome now letters id (c ∷ cs) scopes days s =
      elim (Bool-cases (ltb name_max (length (c ∷ cs)))) [
        | inl e ↦ rw (e, mint_named) refl
        | inr e ↦
            rw (e, mint_named)
              (mint_checked-Outcome now letters id (c ∷ cs) (key_scopes scopes)
                (key_expiry now days) s (omega arith) (ground (arith, e))
                (λ t k. key_expiry-until now t days k))
      ]

  -- A minting that is refused leaves the document as it was. One that is not puts first among the
  -- keys a row that is not revoked, with the hash of the key, a name of 1 to 100 characters and, if
  -- it expires at all, an expiry between one day and 3650 days ahead.
  pub mint_token-Outcome :
      (now : ℕ) (letters : Text) (id : String) (name scopes days : Value) (s : Option IdentityState)
      → Outcome now letters s (mint_token hash now letters id name scopes days s)
  unfolding mint_token
  mint_token-Outcome now letters id name scopes days s =
      mint_named-Outcome now letters id (key_name name) scopes days s

  verify-IsMinted :
      (now later : ℕ) (letters : Text) (s after : Option IdentityState) (row : TokenRow)
      → is_key_body letters ≡ true
      → IsMinted now letters row s after
      → (verify_token hash later (token_prefix ++ letters) after).0 ≡ (
          if is_expired later row.expires_at
          then none
          else some (record row { last_used_at = some later }))
  unfolding verify_token verify_found
  verify-IsMinted now later letters s after row b m = rw m.first (
      ground (
        arith,
        has_key_shape-minted letters b,
        m.hashed,
        m.live,
        eq_iff row.key_hash (hash (token_prefix ++ letters)),
      ))

  -- A key that was minted is accepted until it expires, if it does, and refused from then on.
  pub verify_token-mint_token :
      (now later : ℕ) (letters : Text) (id : String) (name scopes days : Value)
      (s : Option IdentityState) (row : TokenRow)
      → is_key_body letters ≡ true
      → (mint_token hash now letters id name scopes days s).0 ≡ minted row
      → (verify_token hash later
          (token_prefix ++ letters)
          (mint_token hash now letters id name scopes days s).1).0
        ≡ (if is_expired later row.expires_at
            then none
            else some (record row { last_used_at = some later }))
  verify_token-mint_token now later letters id name scopes days s row b h =
      by_outcome (mint_token hash now letters id name scopes days s) h
        (mint_token-Outcome now letters id name scopes days s)
    where
      by_outcome :
          (p : MintToken × Option IdentityState)
          → p.0 ≡ minted row
          → Outcome now letters s p
          → (verify_token hash later (token_prefix ++ letters) p.1).0 ≡ (
              if is_expired later row.expires_at
              then none
              else some (record row { last_used_at = some later }))
      by_outcome (refused e, after) k o = absurd (cc)
      by_outcome (minted r, after) k o =
          verify-IsMinted now later letters s after row b
            (subst (λ x. IsMinted now letters x s after) (minted_injective k) o)
