-- ===== src/Identity/Sessions/Laws.antt =====
-- Which sessions a token finds.
use instacloud_oss.Base.{
  find-passes, find-append, find-filter, find-left_out, find-filter-none, ℕ, ◌+◌, ◌*◌, ◌≡◌, ◌≢◌,
  ◌≤◌, ◌<◌, refl, String, Bool, List, [], ◌∷◌, ◌++◌, Option, none, some, string_instance,
  nat_instance, list_instance, not, if◌then◌else◌, ltb, leb, filter, find, arith, Option-cases, inl,
  inr, eq_iff,
}
use instacloud_oss.Identity.Sessions.{
  Text, SessionRow, IdentityState, AuthConfig, drop_session, slide, ensure_identity, has_token,
  lifetime_ms, new_session, mint_session, found_session, find_session, revoke_session,
}

module _ (hash : Text → String) (auth : AuthConfig) where
  -- A session that a token finds is one of the document with the hash of that token, it had not
  -- expired, and the answer is that row or the row slid to now, still of the same user and not
  -- expired.
  pub find_session-some :
      (now : ℕ) (token : Text) (s : Option IdentityState) (r : SessionRow)
      → (find_session hash auth now token s).0 ≡ some r
      → (i : IdentityState) × (old : SessionRow) × (s ≡ some i)
        × (find (has_token hash token) i.sessions ≡ some old)
        × (old.token_hash ≡ hash token)
        × (now < old.expires_at)
        × (r.id ≡ old.id)
        × (r.user_id ≡ old.user_id)
        × (now < r.expires_at)
  unfolding find_session found_session
  find_session-some now [] s r h = cc
  find_session-some now (c ∷ cs) none r h = cc
  find_session-some now (c ∷ cs) (some i) r h =
      elim (Option-cases (find (has_token hash (c ∷ cs)) i.sessions)) [
        | inl e ↦ absurd (ground (arith, e, h))
        | inr (old, e) ↦
            let t = find-passes (has_token hash (c ∷ cs)) i.sessions old e in
            (
              i,
              old,
              refl,
              e,
              (eq_iff old.token_hash (hash (c ∷ cs))).0 t,
              ground (arith, e, h),
              ground (arith, e, h),
              ground (arith, e, h),
              ground (arith, e, h),
            )
      ]

  -- A session that was minted under a new token is found until it expires, and from then on the
  -- token finds none and the row is queued to be dropped.
  pub find_session-mint_session :
      (now later : ℕ) (c : ℕ) (cs : Text) (id user ip agent : String) (remember_me : Bool)
      (s : Option IdentityState)
      → find (has_token hash (c ∷ cs)) (ensure_identity s).sessions ≡ none
      → let minted = (mint_session hash auth now (c ∷ cs) id user ip agent remember_me s).1 in
        let found = find_session hash auth later (c ∷ cs) (some minted) in
        (later < now + lifetime_ms hash auth remember_me
          → (r : SessionRow) × (found.0 ≡ some r) × (r.id ≡ id) × (r.user_id ≡ user))
        × (now + lifetime_ms hash auth remember_me ≤ later → found ≡ (none, drop_session id ∷ []))
  unfolding find_session found_session mint_session
  find_session-mint_session now later c cs id user ip agent remember_me s h =
      let row = new_session hash auth now (c ∷ cs) id user ip agent remember_me in
      let live = λ (r : SessionRow). ltb now r.expires_at in
      let there : find (has_token hash (c ∷ cs))
            (filter live (ensure_identity s).sessions ++ (row ∷ []))
          ≡ some row =
        rw
          (find-append (has_token hash (c ∷ cs)) (filter live (ensure_identity s).sessions)
            (row ∷ [])
            (find-left_out (has_token hash (c ∷ cs)) live (ensure_identity s).sessions h))
          (ground (arith, eq_iff (hash (c ∷ cs)) (hash (c ∷ cs)))) in
      rw there (
        λ l. (
          if leb (now + auth.session_update_age_sec * 1000) later
              then slide later (later + (lifetime_ms hash auth remember_me)) row
              else row,
          ground (arith, l),
          ground arith,
          ground arith,
        ),
        λ l. ground (arith, l),
      )

  find-other :
      (token other : Text) (rows : List SessionRow)
      → hash other ≢ hash token
      → find (has_token hash other) (filter (λ r. not (has_token hash token r)) rows)
        ≡ find (has_token hash other) rows
  find-other token other rows ne =
      find-filter (has_token hash other) (λ r. not (has_token hash token r)) rows
        (λ r e.
          ground (arith, e, ne, eq_iff r.token_hash (hash token), eq_iff r.token_hash (hash other)))

  find-revoked :
      (token : Text) (rows : List SessionRow)
      → find (has_token hash token) (filter (λ r. not (has_token hash token r)) rows) ≡ none
  find-revoked token rows =
      find-filter-none (has_token hash token) (λ r. not (has_token hash token r)) rows
        (λ r e. ground (arith, e))

  -- After a revocation the token finds no session, whenever it is used, and any other token finds
  -- what it found before.
  pub find_session-revoke_session :
      (now : ℕ) (token other : Text) (s : Option IdentityState)
      → let after = (revoke_session hash token s).1 in
        ((find_session hash auth now token after).0 ≡ none)
        × (hash other ≢ hash token
            → find_session hash auth now other after ≡ find_session hash auth now other s)
  unfolding find_session found_session revoke_session
  find_session-revoke_session now token other none = (absent token, λ ne. refl)
    where
      absent : (t : Text) → (find_session hash auth now t none).0 ≡ none
      absent [] = refl
      absent (c ∷ cs) = refl
  find_session-revoke_session now token other (some i) = (revoked token, λ ne. kept other ne)
    where
      revoked :
          (t : Text) → (find_session hash auth now t (revoke_session hash t (some i)).1).0 ≡ none
      revoked [] = refl
      revoked (c ∷ cs) = rw (find-revoked (c ∷ cs) i.sessions) refl

      kept :
          (o : Text)
          → hash o ≢ hash token
          → find_session hash auth now o (revoke_session hash token (some i)).1
            ≡ find_session hash auth now o (some i)
      kept [] ne = refl
      kept (c ∷ cs) ne = rw (find-other token (c ∷ cs) i.sessions ne) refl
