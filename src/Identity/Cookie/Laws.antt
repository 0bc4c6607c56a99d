-- ===== src/Identity/Cookie/Laws.antt =====
-- A cookie that was signed is read back, and nothing else is.
use instacloud_oss.Base.{
  ℕ, ◌≡◌, ◌≢◌, refl, ap, ◌∙◌, Bool, true, false, List, [], ◌∷◌, ◌++◌, Option, none, some,
  nat_instance, list_instance, nat_eq, contains, any, arith, list_same_iff, Option-cases, inl, inr,
  ◌⊎◌,
}
use instacloud_oss.Identity.Sessions.{Text, AuthConfig}
use instacloud_oss.Identity.Cookie.{
  split_on, cut_first, cut_last, trim_text, cookie_names, sign_cookie_value, signed_token,
  decoded_token, part_token, read_parts, read_session_cookie,
}
use instacloud_oss.Identity.Cookie.Cuts.{
  cut_last-some, cut_last-append, cut_first-append, split_on-append, split_on-whole,
}

module _ (hmac_b64 : (secret message : Text) → Text) (encode : Text → Text)
    (decode : Text → Option Text) (auth : AuthConfig) where
  -- A part of the header that carries a token: its name is one of the cookie's, and its value
  -- decodes to the token with its own signature.
  abbrev pub Carries : Text → Text → Type 0
  Carries token part =
      (name : Text) × (value : Text) × (cut_first b'=' part ≡ some (name, value))
      × (contains (trim_text name) (cookie_names auth) ≡ true)
      × (decode (trim_text value) ≡ some (token ++ (b'.' ∷ hmac_b64 auth.secret token)))
      × (token ≢ [])

  part_token-Carries :
      (part token : Text)
      → part_token hmac_b64 encode decode auth (cut_first b'=' part) ≡ some token
      → Carries token part
  unfolding part_token decoded_token signed_token
  part_token-Carries part token h = elim (Option-cases (cut_first b'=' part)) [
    | inl e ↦ absurd (ground (arith, e, h))
    | inr ((name, value), e) ↦ elim (Option-cases (decode (trim_text value))) [
      | inl d ↦ absurd (ground (arith, e, d, h))
      | inr (raw, d) ↦ elim (Option-cases (cut_last b'.' raw)) [
        | inl k ↦ absurd (ground (arith, e, d, k, h))
        | inr (([], sig), k) ↦ absurd (ground (arith, e, d, k, h))
        | inr ((c ∷ cs, sig), k) ↦ (
          name,
          value,
          e,
          ground (arith, e, h),
          ground (
            arith,
            e,
            d,
            k,
            h,
            cut_last-some b'.' raw (c ∷ cs) sig k,
            list_same_iff sig (hmac_b64 auth.secret (c ∷ cs)),
          ),
          ground (arith, e, d, k, h),
        )
      ]
    ]
  ]

  abbrev pub SomeCarries : Text → List Text → Type 0
  SomeCarries token [] = ⊥
  SomeCarries token (part ∷ parts) = Carries token part ⊎ SomeCarries token parts

  read_parts-SomeCarries :
      (parts : List Text) (token : Text)
      → read_parts hmac_b64 encode decode auth parts ≡ some token
      → SomeCarries token parts
  unfolding read_parts
  read_parts-SomeCarries [] token h = cc
  read_parts-SomeCarries (part ∷ parts) token h =
      elim (Option-cases (part_token hmac_b64 encode decode auth (cut_first b'=' part))) [
        | inl e ↦ inr (read_parts-SomeCarries parts token (ground (arith, e, h)))
        | inr (t, e) ↦ inl (part_token-Carries part token (ground (arith, e, h)))
      ]

  -- A token that is read from a cookie header is carried by one of its parts, under a name of the
  -- cookie and with the signature of that very token under the daemon's secret.
  pub read_session_cookie-SomeCarries :
      (header token : Text)
      → read_session_cookie hmac_b64 encode decode auth (some header) ≡ some token
      → SomeCarries token (split_on b';' header)
  unfolding read_session_cookie
  read_session_cookie-SomeCarries [] token h = cc
  read_session_cookie-SomeCarries (c ∷ cs) token h =
      read_parts-SomeCarries (split_on b';' (c ∷ cs)) token h

  read_parts-append :
      (xs ys : List Text)
      → read_parts hmac_b64 encode decode auth xs ≡ none
      → read_parts hmac_b64 encode decode auth (xs ++ ys)
        ≡ read_parts hmac_b64 encode decode auth ys
  unfolding read_parts
  read_parts-append [] ys h = refl
  read_parts-append (x ∷ xs) ys h =
      elim (Option-cases (part_token hmac_b64 encode decode auth (cut_first b'=' x))) [
        | inl e ↦ rw (e, read_parts) (read_parts-append xs ys (ground (arith, e, h)))
        | inr (t, e) ↦ absurd (ground (arith, e, h))
      ]

  read_session_cookie-split :
      (header : Text)
      → read_session_cookie hmac_b64 encode decode auth (some header)
        ≡ read_parts hmac_b64 encode decode auth (split_on b';' header)
  unfolding read_session_cookie read_parts part_token split_on cut_first
  read_session_cookie-split [] = refl
  read_session_cookie-split (c ∷ cs) = refl

  -- What the percent coding and the base64 of the keyed hash are documented to do.
  pub record IsCoding : Type 0 where
    pub decodes : (t : Text) → decode (encode t) ≡ some t
    pub closed : (t : Text) → any (λ c. nat_eq c b';') (encode t) ≡ false
    pub spaceless : (t : Text) → trim_text (encode t) ≡ encode t
    pub dotless : (secret t : Text) → any (nat_eq b'.') (hmac_b64 secret t) ≡ false

  any-append :
      (p : ℕ → Bool) (a b : Text) → any p a ≡ false → any p b ≡ false → any p (a ++ b) ≡ false
  any-append p [] b h k = k
  any-append p (c ∷ a) b h k = ground (arith, h, any-append p a b, k)

  module _ (coding : IsCoding) where
    part_token-signed :
        (name token : Text)
        → trim_text name ≡ auth.cookie_name
        → token ≢ []
        → part_token hmac_b64 encode decode auth
            (some (name, sign_cookie_value hmac_b64 encode decode auth.secret token))
          ≡ some token
    unfolding part_token decoded_token signed_token cookie_names contains sign_cookie_value
    part_token-signed name [] n t = absurd (t refl)
    part_token-signed name (c ∷ cs) n t = ground (
      arith,
      n,
      coding.spaceless ((c ∷ cs) ++ (b'.' ∷ hmac_b64 auth.secret (c ∷ cs))),
      coding.decodes ((c ∷ cs) ++ (b'.' ∷ hmac_b64 auth.secret (c ∷ cs))),
      cut_last-append b'.' (c ∷ cs) (hmac_b64 auth.secret (c ∷ cs))
          (coding.dotless auth.secret (c ∷ cs)),
      list_same_iff auth.cookie_name auth.cookie_name,
      list_same_iff (hmac_b64 auth.secret (c ∷ cs)) (hmac_b64 auth.secret (c ∷ cs)),
    )

    read_parts-own :
        (name token : Text)
        → trim_text name ≡ auth.cookie_name
        → any (nat_eq b'=') name ≡ false
        → token ≢ []
        → read_parts hmac_b64 encode decode auth
            ((name ++ (b'=' ∷ sign_cookie_value hmac_b64 encode decode auth.secret token)) ∷ [])
          ≡ some token
    unfolding read_parts
    read_parts-own name token n e t = ground (
      arith,
      cut_first-append b'=' name (sign_cookie_value hmac_b64 encode decode auth.secret token) e,
      part_token-signed name token n t,
    )

    split_on-own :
        (name token : Text)
        → any (λ c. nat_eq c b';') name ≡ false
        → split_on b';'
            (name ++ (b'=' ∷ sign_cookie_value hmac_b64 encode decode auth.secret token))
          ≡ (name ++ (b'=' ∷ sign_cookie_value hmac_b64 encode decode auth.secret token)) ∷ []
    unfolding sign_cookie_value
    split_on-own name token s =
        let signed = token ++ (b'.' ∷ hmac_b64 auth.secret token) in
        split_on-whole b';' (name ++ (b'=' ∷ encode signed))
          (any-append (λ c. nat_eq c b';') name (b'=' ∷ encode signed) s (coding.closed signed))

    -- The cookie alone is read back.
    pub read_session_cookie-own :
        (name token : Text)
        → trim_text name ≡ auth.cookie_name
        → any (nat_eq b'=') name ≡ false
        → any (λ c. nat_eq c b';') name ≡ false
        → token ≢ []
        → read_session_cookie hmac_b64 encode decode auth
            (some (name ++ (b'=' ∷ sign_cookie_value hmac_b64 encode decode auth.secret token)))
          ≡ some token
    read_session_cookie-own name token n e s t =
        read_session_cookie-split
          (name ++ (b'=' ∷ sign_cookie_value hmac_b64 encode decode auth.secret token))
        ∙ (ap (read_parts hmac_b64 encode decode auth) (split_on-own name token s)
            ∙ read_parts-own name token n e t)

    -- The cookie that the daemon sets is read back, behind any cookies that carry no token of its
    -- own: its name, which spaces may surround, has no `=` and no `;`, and the token is not empty.
    pub read_session_cookie-signed :
        (others name token : Text)
        → read_parts hmac_b64 encode decode auth (split_on b';' others) ≡ none
        → trim_text name ≡ auth.cookie_name
        → any (nat_eq b'=') name ≡ false
        → any (λ c. nat_eq c b';') name ≡ false
        → token ≢ []
        → let own = name ++ (b'=' ∷ sign_cookie_value hmac_b64 encode decode auth.secret token) in
          read_session_cookie hmac_b64 encode decode auth (some (others ++ (b';' ∷ own)))
          ≡ some token
    read_session_cookie-signed others name token o n e s t =
        let own = name ++ (b'=' ∷ sign_cookie_value hmac_b64 encode decode auth.secret token) in
        read_session_cookie-split (others ++ (b';' ∷ own))
        ∙ (ap (read_parts hmac_b64 encode decode auth) (
              split_on-append b';' others own
              ∙ ap (λ parts. split_on b';' others ++ parts) (split_on-own name token s))
            ∙ (read_parts-append (split_on b';' others) (own ∷ []) o
                ∙ read_parts-own name token n e t))
