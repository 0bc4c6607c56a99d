-- ===== src/Identity/Sessions/Touches.antt =====
-- What the edits that are queued for later may do to the document when they are made at last.
use instacloud_oss.Base.{
  find-passes, find-left_out, ℕ, ◌+◌, ◌-◌, ◌*◌, ◌≡◌, ◌<◌, refl, String, Bool, true, false, List, [],
  ◌∷◌, Option, none, some, string_instance, ◌==◌, not, leb, find, arith, Bool-cases, Option-cases,
  inl, inr,
}
use instacloud_oss.Identity.Sessions.{
  Text, SessionRow, IdentityState, AuthConfig, Touch, drop_session, slide_session, use_token,
  update_found, slide, apply_touch, flush_touch_later, has_token, found_session, find_session,
}

module _ {A : Type 0} where
  -- An update that keeps what is tested finds nothing new.
  find-update_found-none :
      (p q : A → Bool) (f : A → A) (xs : List A)
      → ((x : A) → p (f x) ≡ p x)
      → find p xs ≡ none
      → find p (update_found q f xs) ≡ none
  find-update_found-none p q f [] k h = refl
  find-update_found-none p q f (x ∷ xs) k h =
      ground (arith, k x, h, find-update_found-none p q f xs k)

  -- What two tests find is updated by the one and found by the other.
  pub find-update_found :
      (p q : A → Bool) (f : A → A) (xs : List A) (r : A)
      → ((x : A) → p (f x) ≡ p x)
      → find p xs ≡ some r
      → find q xs ≡ some r
      → find p (update_found q f xs) ≡ some (f r)
  find-update_found p q f [] r k h g = cc
  find-update_found p q f (x ∷ xs) r k h g = ground (
    arith,
    k x,
    k r,
    h,
    g,
    find-passes p (x ∷ xs) r h,
    find-passes q (x ∷ xs) r g,
    find-update_found p q f xs r k,
  )

module _ (hash : Text → String) where
  apply_touch-revives_none :
      (token : Text) (t : Touch) (i : IdentityState)
      → find (has_token hash token) i.sessions ≡ none
      → find (has_token hash token) (apply_touch t i).sessions ≡ none
  unfolding apply_touch
  apply_touch-revives_none token (drop_session id) i h =
      find-left_out (has_token hash token) (λ (r : SessionRow). not (r.id == id)) i.sessions h
  apply_touch-revives_none token (slide_session id updated expires) i h =
      find-update_found-none (has_token hash token) (λ (r : SessionRow). r.id == id)
        (slide updated expires) i.sessions (λ r. refl) h
  apply_touch-revives_none token (use_token id at) i h = h

  -- Whether the document has a session with the hash of a token.
  unfoldable pub holds_session : Text → Option IdentityState → Bool
  holds_session token none = false
  holds_session token (some i) = elim (find (has_token hash token) i.sessions) [
    | none ↦ false
    | some r ↦ true
  ]

  -- A session that was revoked stays away, whatever edits were queued before and are made after: a
  -- slide that is pending does not bring its row back.
  pub flush-revives_none :
      (token : Text) (ts : List Touch) (s : Option IdentityState)
      → holds_session token s ≡ false
      → holds_session token (flush_touch_later ts s) ≡ false
  unfolding flush_touch_later holds_session
  flush-revives_none token [] s h = h
  flush-revives_none token (t ∷ ts) none h = flush-revives_none token ts none h
  flush-revives_none token (t ∷ ts) (some i) h =
      flush-revives_none token ts (some (apply_touch t i))
        (elim (Option-cases (find (has_token hash token) i.sessions)) [
          | inl e ↦ rw (apply_touch-revives_none token t i e, holds_session) refl
          | inr (r, e) ↦ absurd (ground (arith, e, h))
        ])

  -- Once the edits that a look-up queued are in the document, the same look-up answers the same and
  -- queues nothing more. The id of the session that it found is that of no row before it.
  pub find_session-flush :
      (auth : AuthConfig) (now : ℕ) (c : ℕ) (cs : Text) (i : IdentityState) (old : SessionRow)
      → 0 < auth.session_update_age_sec
      → find (has_token hash (c ∷ cs)) i.sessions ≡ some old
      → find (λ (r : SessionRow). r.id == old.id) i.sessions ≡ some old
      → now < old.expires_at
      → let found = find_session hash auth now (c ∷ cs) (some i) in
        find_session hash auth now (c ∷ cs) (flush_touch_later found.1 (some i)) ≡ (found.0, [])
  unfolding find_session found_session flush_touch_later apply_touch
  find_session-flush auth now c cs i old a h g l =
      elim (Bool-cases (leb (old.updated_at + auth.session_update_age_sec * 1000) now)) [
        | inr e ↦ ground (arith, h, l, e)
        | inl e ↦
            let expires = now + (old.expires_at - old.updated_at) in
            let slid =
              find-update_found (has_token hash (c ∷ cs)) (λ (r : SessionRow). r.id == old.id)
                (slide now expires) i.sessions old (λ r. refl) h g in
            ground (arith, h, l, e, slid, a)
      ]
