-- ===== src/Identity/Keys/Laws.antt =====
-- Which keys are accepted, and what their minting and revocation mean for that.
use instacloud_oss.Base.{
  find-passes, ℕ, ◌≡◌, ◌<◌, refl, String, true, false, [], ◌∷◌, ◌++◌, Option, none, some,
  string_instance, find, arith, Option-cases, inl, inr, eq_iff,
}
use instacloud_oss.Identity.Sessions.{Text, TokenRow, IdentityState}
use instacloud_oss.Identity.Sessions.Touches.{find-update_found}
use instacloud_oss.Identity.Keys.{
  token_prefix, is_key_body, after_prefix, has_key_shape, has_key, verify_found, verify_token,
  has_id, revoke_at, revoke_found, revoke_token,
}

after_prefix-append : (p cs : Text) → after_prefix p (p ++ cs) ≡ some cs
unfolding after_prefix
after_prefix-append [] cs = refl
after_prefix-append (x ∷ p) cs = ground (arith, after_prefix-append p cs)

-- A minted key has the shape that a verification asks for.
pub has_key_shape-minted :
    (letters : Text) → is_key_body letters ≡ true → has_key_shape (token_prefix ++ letters) ≡ true
unfolding has_key_shape
has_key_shape-minted letters h = ground (arith, after_prefix-append token_prefix letters, h)

module _ (hash : Text → String) where
  -- A key that is accepted has the shape of one, is that of a row of the document that is neither
  -- revoked nor expired, and the answer is that row with the time of the use.
  pub verify_token-some :
      (now : ℕ) (key : Text) (s : Option IdentityState) (r : TokenRow)
      → (verify_token hash now key s).0 ≡ some r
      → (i : IdentityState) × (row : TokenRow) × (s ≡ some i)
        × (find (has_key hash key) i.tokens ≡ some row)
        × (has_key_shape key ≡ true)
        × (row.key_hash ≡ hash key)
        × (row.revoked_at ≡ none)
        × ((t : ℕ) → row.expires_at ≡ some t → now < t)
        × (r ≡ record row { last_used_at = some now })
  unfolding verify_token verify_found
  verify_token-some now key none r h = cc
  verify_token-some now key (some i) r h = elim (Option-cases (find (has_key hash key) i.tokens)) [
    | inl e ↦ absurd (ground (arith, e, h))
    | inr (row, e) ↦ (
      i,
      row,
      refl,
      e,
      ground (arith, e, h),
      (eq_iff row.key_hash (hash key)).0 (find-passes (has_key hash key) i.tokens row e),
      ground (arith, e, h),
      λ t k. ground (arith, e, h, k),
      ground (arith, e, h),
    )
  ]

  -- Whoever revokes a key by the id of its row is told so, the key is refused from then on, and a
  -- second revocation is told that there is nothing to revoke. The id names the row of the key.
  pub verify-revoke_token :
      (now later : ℕ) (key : Text) (id : String) (i : IdentityState) (row : TokenRow)
      → find (has_key hash key) i.tokens ≡ some row
      → find (has_id id) i.tokens ≡ some row
      → row.revoked_at ≡ none
      → let (done, after) = revoke_token now id (some i) in
        (done ≡ true)
        × (verify_token hash later key after ≡ (none, []))
        × ((revoke_token later id after).0 ≡ false)
  unfolding verify_token verify_found revoke_token revoke_found
  verify-revoke_token now later key id i row h g n =
      let by_key =
        find-update_found (has_key hash key) (has_id id) (revoke_at now) i.tokens row (λ r. refl) h
          g in
      let by_id =
        find-update_found (has_id id) (has_id id) (revoke_at now) i.tokens row (λ r. refl) g g in
      (ground (arith, g, n), ground (arith, g, n, by_key), ground (arith, g, n, by_id))
